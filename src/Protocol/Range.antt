-- ===== src/Protocol/Range.antt =====
-- The commands that src/protocol.rs can carry: their numbers fit the types of their fields.
use fleetcom.Common.{◌<◌, ◌^◌}
use fleetcom.Protocol.{
  Command, spawn, spawn_agent, kill, remove, restart, tag, flagship, set_group, set_name, resize,
  watch, paste, mouse, key, scrollback, save_session, load_session, load_recovery, list_sessions,
  shutdown, ScrollAction, Key,
}
use fleetcom.Protocol.Wire.{Within}

-- The numbers of a command fit the types of its fields.
abbrev pub KeyInRange : Key → Type 0
KeyInRange (Key.f n) = n < 2 ^ 8
KeyInRange (Key.char c) = Unit {0}
KeyInRange other = Unit {0}

abbrev pub ScrollInRange : ScrollAction → Type 0
ScrollInRange (ScrollAction.up n) = n < 2 ^ 16
ScrollInRange (ScrollAction.down n) = n < 2 ^ 16
ScrollInRange ScrollAction.top = Unit {0}
ScrollInRange ScrollAction.live = Unit {0}

abbrev pub InRange : Command → Type 0
InRange (spawn command cwd group) = Unit {0}
InRange (spawn_agent agent cwd group) = Unit {0}
InRange (kill id) = id < 2 ^ 64
InRange (remove id) = id < 2 ^ 64
InRange (restart id) = id < 2 ^ 64
InRange (tag id on) = id < 2 ^ 64
InRange (flagship id) = Within 64 id
InRange (set_group id group) = id < 2 ^ 64
InRange (set_name id name) = id < 2 ^ 64
InRange (resize rows cols) = (rows < 2 ^ 16) × (cols < 2 ^ 16)
InRange (watch id attached) = Within 64 id
InRange (paste id bytes) = id < 2 ^ 64
InRange (mouse id kind col row) = (id < 2 ^ 64) × (col < 2 ^ 16) × (row < 2 ^ 16)
InRange (key id code mods) = (id < 2 ^ 64) × KeyInRange code
InRange (scrollback id action) = (id < 2 ^ 64) × ScrollInRange action
InRange (save_session name) = Unit {0}
InRange (load_session name) = Unit {0}
InRange (load_recovery stem) = Unit {0}
InRange list_sessions = Unit {0}
InRange shutdown = Unit {0}
