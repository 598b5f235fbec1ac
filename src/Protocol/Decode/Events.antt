-- ===== src/Protocol/Decode/Events.antt =====
-- The decoders of src/protocol.rs for what the core sends: `decode_event`; and `decode_hello` and
-- `hello_version` for the handshake.
use fleetcom.Common.{
  ℕ, ◌+◌, Option, none, some, List, [], ◌∷◌, length, take, drop, leb, ◌==◌, ◌&&◌, if◌then◌else◌,
  ◌>>=◌,
}
use fleetcom.Text.{Text, text, text_eq}
use fleetcom.Text.Utf8.{from_utf8}
use fleetcom.Frame.{kind_control, kind_screen, kind_hello, from_be_bytes}
use fleetcom.Protocol.{
  LaunchContext, Event, hello_ok, agents, tasks, screen, status, spawned, sessions, clipboard_copy,
  TaskView, RecoveryEntry,
}
use fleetcom.Protocol.Labels.{life_from_label, source_from_label, from_selector}
use fleetcom.Protocol.Wire.{Jzon, os_from_b64, num_from, opt_str, opt_ms, str_vec}

-- `payload.get(from..from + n)` and `payload.get(from..)`.
abbrev pub slice : ℕ → ℕ → List ℕ → Option (List ℕ)
slice from n xs = if leb (from + n) (length xs) then some (take n (drop from xs)) else none

abbrev pub suffix : ℕ → List ℕ → Option (List ℕ)
suffix from xs = if leb from (length xs) then some (drop from xs) else none

module _ {V : Type 0} (j : Jzon V) where
  unfoldable pub view_of : V → Option TaskView
  view_of tv = do
    id ← j.as_u64 (j.get tv (text "id"))
    command ← j.as_str (j.get tv (text "command"))
    cwd ← os_from_b64 j (j.get tv (text "cwd"))
    tagged ← j.as_bool (j.get tv (text "tagged"))
    flagship ← j.as_bool (j.get tv (text "flagship"))
    managed ← j.as_bool (j.get tv (text "managed"))
    group ← opt_str j (j.get tv (text "group"))
    name ← opt_str j (j.get tv (text "name"))
    life ← j.as_str (j.get tv (text "life"))
    lifecycle ← life_from_label life
    preview ← j.as_str (j.get tv (text "preview"))
    src ← j.as_str (j.get tv (text "src"))
    source ← source_from_label src
    frozen ← j.as_bool (j.get tv (text "frozen"))
    working ← j.as_bool (j.get tv (text "working"))
    started_ago ← opt_ms j (j.get tv (text "started_ms"))
    quiet_ago ← opt_ms j (j.get tv (text "quiet_ms"))
    finished_ago ← opt_ms j (j.get tv (text "finished_ms"))
    some (record {
      id = id;
      command = command;
      cwd = cwd;
      tagged = tagged;
      flagship = flagship;
      managed = managed;
      group = group;
      name = name;
      lifecycle = lifecycle;
      preview = record {
        text = preview;
        source = source;
        rule = none;
        frozen = frozen;
        working = working;
      };
      started_ago = started_ago;
      quiet_ago = quiet_ago;
      finished_ago = finished_ago;
    })

  -- One malformed task rejects the snapshot.
  unfoldable pub views_of : List V → Option (List TaskView)
  views_of [] = some []
  views_of (tv ∷ tvs) = do view ← view_of tv; views ← views_of tvs; some (view ∷ views)

  unfoldable pub recovery_of : V → Option RecoveryEntry
  recovery_of m = do
    stem ← j.as_str (j.get m (text "stem"))
    label ← j.as_str (j.get m (text "label"))
    count ← num_from j 32 (j.get m (text "tasks"))
    age ← j.as_u64 (j.get m (text "age"))
    some (record { stem = stem; label = label; tasks = count; age_secs = age })

  abbrev pub with_entry : Option RecoveryEntry → List RecoveryEntry → List RecoveryEntry
  with_entry none rest = rest
  with_entry (some e) rest = e ∷ rest

  -- `recovery_vec`: a malformed entry is skipped.
  unfoldable pub recovery_vec : List V → List RecoveryEntry
  recovery_vec [] = []
  recovery_vec (m ∷ ms) = with_entry (recovery_of m) (recovery_vec ms)

  unfoldable pub sessions_of : V → Option Event
  sessions_of v = do
    names ← str_vec j (j.get v (text "names"))
    some (sessions names (recovery_vec (j.members (j.get v (text "recovery")))))

  unfoldable pub clip_of : V → Option Event
  clip_of v = do
    id ← j.as_u64 (j.get v (text "id"))
    k ← j.as_str (j.get v (text "k"))
    kind ← from_selector k
    encoded ← j.as_str (j.get v (text "text"))
    bytes ← j.b64_decode encoded
    copied ← from_utf8 bytes
    some (clipboard_copy id kind copied)

  unfoldable pub agents_of : V → Option Event
  agents_of v = do names ← str_vec j (j.get v (text "agents")); some (agents names)

  unfoldable pub tasks_of : V → Option Event
  tasks_of v = do views ← views_of (j.members (j.get v (text "tasks"))); some (tasks views)

  unfoldable pub status_of : V → Option Event
  status_of v = do msg ← j.as_str (j.get v (text "msg")); some (status msg)

  unfoldable pub spawned_of : V → Option Event
  spawned_of v = do id ← j.as_u64 (j.get v (text "id")); some (spawned id)

  unfoldable pub event_of : Text → V → Option Event
  event_of t v =
      if text_eq t (text "hello_ok")
      then some hello_ok
      else if text_eq t (text "agents") && j.is_array (j.get v (text "agents"))
      then agents_of v
      else if text_eq t (text "tasks")
      then tasks_of v
      else if text_eq t (text "status")
      then status_of v
      else if text_eq t (text "spawned")
      then spawned_of v
      else if text_eq t (text "sessions")
      then sessions_of v
      else if text_eq t (text "clip")
      then clip_of v
      else none

  -- A screen's header, with the formatted bytes that follow it.
  unfoldable pub screen_of : V → List ℕ → Option Event
  screen_of h formatted = do
    row ← num_from j 16 (j.at (j.get h (text "cursor")) 0)
    col ← num_from j 16 (j.at (j.get h (text "cursor")) 1)
    lines ← str_vec j (j.get h (text "lines"))
    id ← j.as_u64 (j.get h (text "id"))
    hide ← j.as_bool (j.get h (text "hide"))
    wants_mouse ← j.as_bool (j.get h (text "mouse"))
    alt ← j.as_bool (j.get h (text "alt"))
    alt_scroll ← j.as_bool (j.get h (text "ascr"))
    back ← num_from j 64 (j.get h (text "sb"))
    some (
        screen (record {
          id = id;
          lines = lines;
          formatted = formatted;
          cursor = (row, col);
          hide_cursor = hide;
          wants_mouse = wants_mouse;
          alt_screen = alt;
          alt_scroll = alt_scroll;
          scrollback = back;
        }))

  unfoldable pub screen_frame_of : List ℕ → Option Event
  screen_frame_of payload = do
    prefix ← slice 0 4 payload
    let len = from_be_bytes prefix
    header ← slice 4 len payload
    formatted ← suffix (4 + len) payload
    h ← j.parse header
    screen_of h formatted

  unfoldable pub control_of : List ℕ → Option Event
  control_of payload = do v ← j.parse payload; t ← j.as_str (j.get v (text "t")); event_of t v

  unfoldable pub decode_event : ℕ → List ℕ → Option Event
  decode_event kind payload =
      if kind == kind_control
      then control_of payload
      else if kind == kind_screen
      then screen_frame_of payload
      else none

  -- The pairs of a launch context.
  unfoldable pub env_of : List V → Option (List (Text × Text))
  env_of [] = some []
  env_of (pair ∷ pairs) = do
    key ← os_from_b64 j (j.at pair 0)
    value ← os_from_b64 j (j.at pair 1)
    rest ← env_of pairs
    some ((key, value) ∷ rest)

  unfoldable pub hello_of : V → Option (ℕ × LaunchContext)
  hello_of v = do
    env ← env_of (j.members (j.get v (text "env")))
    version ← num_from j 32 (j.get v (text "v"))
    cwd ← os_from_b64 j (j.get v (text "cwd"))
    some (version, record { env = env; cwd = cwd })

  unfoldable pub decode_hello : ℕ → List ℕ → Option (ℕ × LaunchContext)
  decode_hello kind payload =
      if kind == kind_hello then (do v ← j.parse payload; hello_of v) else none

  -- The version that a hello claims, whatever its other fields hold.
  unfoldable pub hello_version : ℕ → List ℕ → Option ℕ
  hello_version kind payload =
      if kind == kind_hello
      then (do v ← j.parse payload; num_from j 32 (j.get v (text "v")))
      else none
