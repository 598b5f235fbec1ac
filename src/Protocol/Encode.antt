-- ===== src/Protocol/Encode.antt =====
-- The encoders of src/protocol.rs: `encode_hello`, `encode_command` and `encode_event`.
use fleetcom.Common.{ℕ, ◌%◌, ◌^◌, List, [], ◌∷◌, ◌++◌, map, length}
use fleetcom.Text.{Text, text, utf8}
use fleetcom.Frame.{kind_control, kind_screen, kind_hello, to_be_bytes}
use fleetcom.Protocol.{
  LaunchContext, Command, spawn, spawn_agent, kill, remove, restart, tag, flagship, set_group,
  set_name, resize, watch, paste, mouse, key, scrollback, save_session, load_session, load_recovery,
  list_sessions, shutdown, ScrollAction, MouseKind, wheel_up, wheel_down, press, drag, release, Key,
  Event, hello_ok, agents, tasks, screen, status, spawned, sessions, clipboard_copy, TaskView,
  ScreenView, RecoveryEntry,
}
use fleetcom.Protocol.Labels.{life_label, source_label, selector}
use fleetcom.Protocol.Wire.{
  Jzon, object, os_b64, opt_str_field, opt_ms_field, flag_field, or_null, strings,
}
use fleetcom.Terminal.Input.{btn_code}

-- `PROTOCOL_VERSION`.
abbrev pub protocol_version : ℕ
protocol_version = 16

-- The tag of a mouse action, of a scroll action and of a key.
unfoldable pub mouse_tag : MouseKind → Text
mouse_tag wheel_up = text "wu"
mouse_tag wheel_down = text "wd"
mouse_tag (press b) = text "p"
mouse_tag (drag b) = text "d"
mouse_tag (release b) = text "r"

unfoldable pub scroll_tag : ScrollAction → Text
scroll_tag (ScrollAction.up n) = text "u"
scroll_tag (ScrollAction.down n) = text "d"
scroll_tag ScrollAction.top = text "t"
scroll_tag ScrollAction.live = text "l"

unfoldable pub key_tag : Key → Text
key_tag (Key.char c) = text "ch"
key_tag (Key.f n) = text "f"
key_tag Key.up = text "up"
key_tag Key.down = text "dn"
key_tag Key.left = text "lt"
key_tag Key.right = text "rt"
key_tag Key.home = text "home"
key_tag Key.end = text "end"
key_tag Key.page_up = text "pgup"
key_tag Key.page_down = text "pgdn"
key_tag Key.insert = text "ins"
key_tag Key.delete = text "del"
key_tag Key.enter = text "ent"
key_tag Key.tab = text "tab"
key_tag Key.back_tab = text "btab"
key_tag Key.backspace = text "bs"
key_tag Key.esc = text "esc"

-- A header's length goes before it, cut to 32 bits.
unfoldable pub screen_payload : List ℕ → List ℕ → List ℕ
screen_payload header formatted = to_be_bytes (length header % 2 ^ 32) ++ (header ++ formatted)

module _ {V : Type 0} (j : Jzon V) where
  abbrev pub button_field : MouseKind → List (Text × V)
  button_field wheel_up = []
  button_field wheel_down = []
  button_field (press b) = (text "b", j.number (btn_code b)) ∷ []
  button_field (drag b) = (text "b", j.number (btn_code b)) ∷ []
  button_field (release b) = (text "b", j.number (btn_code b)) ∷ []

  abbrev pub scroll_field : ScrollAction → List (Text × V)
  scroll_field (ScrollAction.up n) = (text "n", j.number n) ∷ []
  scroll_field (ScrollAction.down n) = (text "n", j.number n) ∷ []
  scroll_field ScrollAction.top = []
  scroll_field ScrollAction.live = []

  abbrev pub key_field : Key → List (Text × V)
  key_field (Key.char c) = (text "ch", j.string (c ∷ [])) ∷ []
  key_field (Key.f n) = (text "n", j.number n) ∷ []
  key_field Key.up = []
  key_field other = []

  abbrev pub tagged_as : Text → List (Text × V) → List (Text × V)
  tagged_as name fs = (text "t", j.string name) ∷ fs

  unfoldable pub command_fields : Command → List (Text × V)
  unfolding os_b64 mouse_tag scroll_tag key_tag
  command_fields (spawn command cwd group) = tagged_as (text "spawn") (
      (text "command", j.string command)
      ∷ (text "cwd", os_b64 j cwd)
      ∷ opt_str_field j (text "group") group)
  command_fields (spawn_agent agent cwd group) = tagged_as (text "spawn_agent") (
      (text "agent", j.string agent)
      ∷ (text "cwd", os_b64 j cwd)
      ∷ opt_str_field j (text "group") group)
  command_fields (kill id) = tagged_as (text "kill") ((text "id", j.number id) ∷ [])
  command_fields (remove id) = tagged_as (text "remove") ((text "id", j.number id) ∷ [])
  command_fields (restart id) = tagged_as (text "restart") ((text "id", j.number id) ∷ [])
  command_fields (tag id on) =
      tagged_as (text "tag") ((text "id", j.number id) ∷ (text "on", j.boolean on) ∷ [])
  command_fields (flagship id) = tagged_as (text "flagship") ((text "id", or_null j id) ∷ [])
  command_fields (set_group id group) =
      tagged_as (text "group") ((text "id", j.number id) ∷ opt_str_field j (text "g") group)
  command_fields (set_name id name) =
      tagged_as (text "name") ((text "id", j.number id) ∷ opt_str_field j (text "n") name)
  command_fields (resize rows cols) =
      tagged_as (text "resize") ((text "rows", j.number rows) ∷ (text "cols", j.number cols) ∷ [])
  command_fields (watch id attached) =
      tagged_as (text "watch")
        ((text "id", or_null j id) ∷ (text "attached", j.boolean attached) ∷ [])
  command_fields (paste id bytes) =
      tagged_as (text "paste")
        ((text "id", j.number id) ∷ (text "bytes", j.string (j.b64_encode bytes)) ∷ [])
  command_fields (mouse id kind col row) = tagged_as (text "mouse") (
      (text "id", j.number id)
      ∷ (text "k", j.string (mouse_tag kind))
      ∷ (text "col", j.number col)
      ∷ (text "row", j.number row)
      ∷ button_field kind)
  command_fields (key id code mods) = tagged_as (text "key") (
      (text "id", j.number id)
      ∷ (key_field code
          ++ (text "k", j.string (key_tag code))
            ∷ (flag_field j (text "sh") mods.shift
                ++ (flag_field j (text "al") mods.alt ++ flag_field j (text "ct") mods.ctrl))))
  command_fields (scrollback id action) =
      tagged_as (text "sb")
        ((text "id", j.number id) ∷ (text "a", j.string (scroll_tag action)) ∷ scroll_field action)
  command_fields (save_session name) = tagged_as (text "save") ((text "name", j.string name) ∷ [])
  command_fields (load_session name) = tagged_as (text "load") ((text "name", j.string name) ∷ [])
  command_fields (load_recovery stem) =
      tagged_as (text "recover") ((text "stem", j.string stem) ∷ [])
  command_fields list_sessions = tagged_as (text "list") []
  command_fields shutdown = tagged_as (text "shutdown") []

  unfoldable pub encode_command : Command → ℕ × List ℕ
  unfolding command_fields
  encode_command cmd = (kind_control, j.dump (object j (command_fields cmd)))

  abbrev pub env_pairs : List (Text × Text) → List V
  env_pairs [] = []
  env_pairs ((k, v) ∷ env) = j.array (os_b64 j k ∷ os_b64 j v ∷ []) ∷ env_pairs env

  unfoldable pub encode_hello : LaunchContext → ℕ × List ℕ
  encode_hello ctx = (
    kind_hello,
    j.dump (
        object j (
          (text "v", j.number protocol_version)
          ∷ (text "cwd", os_b64 j ctx.cwd)
          ∷ (text "env", j.array (env_pairs ctx.env))
          ∷ [])),
  )

  abbrev pub view_fields : TaskView → List (Text × V)
  view_fields tv =
      (text "id", j.number tv.id)
      ∷ (text "command", j.string tv.command)
      ∷ (text "cwd", os_b64 j tv.cwd)
      ∷ (text "tagged", j.boolean tv.tagged)
      ∷ (text "flagship", j.boolean tv.flagship)
      ∷ (text "managed", j.boolean tv.managed)
      ∷ (opt_str_field j (text "group") tv.group
          ++ (opt_str_field j (text "name") tv.name
              ++ (text "life", j.string (life_label tv.lifecycle))
                ∷ (text "preview", j.string tv.preview.text)
                ∷ (text "src", j.string (source_label tv.preview.source))
                ∷ (text "frozen", j.boolean tv.preview.frozen)
                ∷ (text "working", j.boolean tv.preview.working)
                ∷ (opt_ms_field j (text "started_ms") tv.started_ago
                    ++ (opt_ms_field j (text "quiet_ms") tv.quiet_ago
                        ++ opt_ms_field j (text "finished_ms") tv.finished_ago))))

  abbrev pub recovery_fields : RecoveryEntry → List (Text × V)
  recovery_fields r =
      (text "stem", j.string r.stem)
      ∷ (text "label", j.string r.label)
      ∷ (text "tasks", j.number r.tasks)
      ∷ (text "age", j.number r.age_secs)
      ∷ []

  -- The JSON header of a screen frame.
  abbrev pub screen_fields : ScreenView → List (Text × V)
  screen_fields sv =
      (text "id", j.number sv.id)
      ∷ (text "cursor", j.array (j.number sv.cursor.0 ∷ j.number sv.cursor.1 ∷ []))
      ∷ (text "hide", j.boolean sv.hide_cursor)
      ∷ (text "mouse", j.boolean sv.wants_mouse)
      ∷ (text "alt", j.boolean sv.alt_screen)
      ∷ (text "ascr", j.boolean sv.alt_scroll)
      ∷ (text "sb", j.number (sv.scrollback % 2 ^ 64))
      ∷ (text "lines", strings j sv.lines)
      ∷ []

  abbrev pub event_fields : Event → List (Text × V)
  event_fields hello_ok = tagged_as (text "hello_ok") []
  event_fields (agents names) = tagged_as (text "agents") ((text "agents", strings j names) ∷ [])
  event_fields (tasks views) =
      tagged_as (text "tasks")
        ((text "tasks", j.array (map (λ tv. object j (view_fields tv)) views)) ∷ [])
  event_fields (screen sv) = screen_fields sv
  event_fields (status msg) = tagged_as (text "status") ((text "msg", j.string msg) ∷ [])
  event_fields (spawned id) = tagged_as (text "spawned") ((text "id", j.number id) ∷ [])
  event_fields (sessions names recovery) = tagged_as (text "sessions") (
      (text "names", strings j names)
      ∷ (text "recovery", j.array (map (λ r. object j (recovery_fields r)) recovery))
      ∷ [])
  event_fields (clipboard_copy id kind copied) = tagged_as (text "clip") (
      (text "id", j.number id)
      ∷ (text "k", j.string (selector kind))
      ∷ (text "text", j.string (j.b64_encode (utf8 copied)))
      ∷ [])

  unfoldable pub encode_event : Event → ℕ × List ℕ
  encode_event (screen sv) =
      (kind_screen, screen_payload (j.dump (object j (screen_fields sv))) sv.formatted)
  encode_event ev = (kind_control, j.dump (object j (event_fields ev)))
