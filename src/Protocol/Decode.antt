-- ===== src/Protocol/Decode.antt =====
-- The decoders of src/protocol.rs: `decode_hello`, `hello_version`, `decode_command` and
-- `decode_event`. A `do` block reads `?`.
pub mod Events
use fleetcom.Common.{
  ℕ, zero, suc, ◌+◌, ◌≡◌, Bool, true, false, Option, none, some, List, [], ◌∷◌, ◌++◌, map, length,
  take, drop, leb, ◌==◌, if◌then◌else◌, ◌>>=◌,
}
use fleetcom.Text.{Text, text, text_eq, utf8}
use fleetcom.Frame.{kind_control, kind_screen, kind_hello, from_be_bytes}
use fleetcom.Protocol.{
  LaunchContext, Command, spawn, spawn_agent, kill, remove, restart, tag, flagship, set_group,
  set_name, resize, watch, paste, mouse, key, scrollback, save_session, load_session, load_recovery,
  list_sessions, shutdown, ScrollAction, MouseBtn, MouseKind, wheel_up, wheel_down, press, drag,
  release, Key, Mods, Event, hello_ok, agents, tasks, screen, status, spawned, sessions,
  clipboard_copy, TaskView, ScreenView, RecoveryEntry,
}
use fleetcom.Protocol.Labels.{life_from_label, source_from_label, from_selector}
use fleetcom.Protocol.Wire.{Jzon, os_from_b64, num_from, bool_flag, opt_str, opt_u64, str_vec}

-- The `char` of a text that is one character.
unfoldable pub one_char : Text → Option Key
one_char [] = none
one_char (c ∷ []) = some (Key.char c)
one_char (c ∷ d ∷ cs) = none

unfoldable pub button_of : ℕ → Option MouseBtn
button_of n =
    if n == 0
    then some MouseBtn.left
    else if n == 1
    then some MouseBtn.middle
    else if n == 2
    then some MouseBtn.right
    else none

-- The keys that are a tag alone.
unfoldable pub plain_key : Text → Option Key
plain_key k =
    if text_eq k (text "up")
    then some Key.up
    else if text_eq k (text "dn")
    then some Key.down
    else if text_eq k (text "lt")
    then some Key.left
    else if text_eq k (text "rt")
    then some Key.right
    else if text_eq k (text "home")
    then some Key.home
    else if text_eq k (text "end")
    then some Key.end
    else if text_eq k (text "pgup")
    then some Key.page_up
    else if text_eq k (text "pgdn")
    then some Key.page_down
    else if text_eq k (text "ins")
    then some Key.insert
    else if text_eq k (text "del")
    then some Key.delete
    else if text_eq k (text "ent")
    then some Key.enter
    else if text_eq k (text "tab")
    then some Key.tab
    else if text_eq k (text "btab")
    then some Key.back_tab
    else if text_eq k (text "bs")
    then some Key.backspace
    else if text_eq k (text "esc")
    then some Key.esc
    else none

module _ {V : Type 0} (j : Jzon V) where
  abbrev button : V → Option MouseBtn
  button v = do n ← j.as_u64 (j.get v (text "b")); button_of n

  unfoldable pub mouse_kind_of : V → Text → Option MouseKind
  unfolding button_of
  mouse_kind_of v k =
      if text_eq k (text "wu")
      then some wheel_up
      else if text_eq k (text "wd")
      then some wheel_down
      else if text_eq k (text "p")
      then (do b ← button v; some (press b))
      else if text_eq k (text "d")
      then (do b ← button v; some (drag b))
      else if text_eq k (text "r")
      then (do b ← button v; some (release b))
      else none

  unfoldable pub key_of : V → Text → Option Key
  unfolding one_char plain_key
  key_of v k =
      if text_eq k (text "ch")
      then (do s ← j.as_str (j.get v (text "ch")); one_char s)
      else if text_eq k (text "f")
      then (do n ← num_from j 8 (j.get v (text "n")); some (Key.f n))
      else plain_key k

  unfoldable pub scroll_of : V → Text → Option ScrollAction
  scroll_of v a =
      if text_eq a (text "u")
      then (do n ← num_from j 16 (j.get v (text "n")); some (ScrollAction.up n))
      else if text_eq a (text "d")
      then (do n ← num_from j 16 (j.get v (text "n")); some (ScrollAction.down n))
      else if text_eq a (text "t")
      then some ScrollAction.top
      else if text_eq a (text "l")
      then some ScrollAction.live
      else none

  abbrev pub id_of : V → Option ℕ
  id_of v = j.as_u64 (j.get v (text "id"))

  abbrev str_of : V → Text → Option Text
  str_of v k = j.as_str (j.get v k)

  abbrev flag_of : V → Text → Option Bool
  flag_of v k = j.as_bool (j.get v k)

  -- One decoder for each tag.
  unfoldable pub spawn_of : V → Option Command
  spawn_of v = do
    command ← str_of v (text "command")
    cwd ← os_from_b64 j (j.get v (text "cwd"))
    group ← opt_str j (j.get v (text "group"))
    some (spawn command cwd group)

  unfoldable pub spawn_agent_of : V → Option Command
  spawn_agent_of v = do
    agent ← str_of v (text "agent")
    cwd ← os_from_b64 j (j.get v (text "cwd"))
    group ← opt_str j (j.get v (text "group"))
    some (spawn_agent agent cwd group)

  unfoldable pub with_id : (ℕ → Command) → V → Option Command
  with_id make v = do id ← id_of v; some (make id)

  unfoldable pub tag_of : V → Option Command
  tag_of v = do id ← id_of v; on ← flag_of v (text "on"); some (tag id on)

  unfoldable pub flagship_of : V → Option Command
  flagship_of v = do id ← opt_u64 j (j.get v (text "id")); some (flagship id)

  unfoldable pub labelled_of : (ℕ → Option Text → Command) → Text → V → Option Command
  labelled_of make k v = do id ← id_of v; label ← opt_str j (j.get v k); some (make id label)

  unfoldable pub resize_of : V → Option Command
  resize_of v = do
    rows ← num_from j 16 (j.get v (text "rows"))
    cols ← num_from j 16 (j.get v (text "cols"))
    some (resize rows cols)

  unfoldable pub watch_of : V → Option Command
  watch_of v = do
    id ← opt_u64 j (j.get v (text "id"))
    attached ← flag_of v (text "attached")
    some (watch id attached)

  unfoldable pub paste_of : V → Option Command
  paste_of v = do
    id ← id_of v
    s ← str_of v (text "bytes")
    bytes ← j.b64_decode s
    some (paste id bytes)

  unfoldable pub mouse_of : V → Option Command
  mouse_of v = do
    id ← id_of v
    k ← str_of v (text "k")
    kind ← mouse_kind_of v k
    col ← num_from j 16 (j.get v (text "col"))
    row ← num_from j 16 (j.get v (text "row"))
    some (mouse id kind col row)

  unfoldable pub press_of : V → Option Command
  press_of v = do
    k ← str_of v (text "k")
    code ← key_of v k
    id ← id_of v
    shift ← bool_flag j (j.get v (text "sh"))
    alt ← bool_flag j (j.get v (text "al"))
    ctrl ← bool_flag j (j.get v (text "ct"))
    some (key id code (record { shift = shift; alt = alt; ctrl = ctrl }))

  unfoldable pub scrollback_of : V → Option Command
  scrollback_of v = do
    id ← id_of v
    a ← str_of v (text "a")
    action ← scroll_of v a
    some (scrollback id action)

  unfoldable pub named_of : (Text → Command) → Text → V → Option Command
  named_of make k v = do name ← str_of v k; some (make name)

  unfoldable pub command_of : Text → V → Option Command
  command_of t v =
      if text_eq t (text "spawn")
      then spawn_of v
      else if text_eq t (text "spawn_agent")
      then spawn_agent_of v
      else if text_eq t (text "kill")
      then with_id kill v
      else if text_eq t (text "remove")
      then with_id remove v
      else if text_eq t (text "restart")
      then with_id restart v
      else if text_eq t (text "tag")
      then tag_of v
      else if text_eq t (text "flagship")
      then flagship_of v
      else if text_eq t (text "group")
      then labelled_of set_group (text "g") v
      else if text_eq t (text "name")
      then labelled_of set_name (text "n") v
      else if text_eq t (text "resize")
      then resize_of v
      else if text_eq t (text "watch")
      then watch_of v
      else if text_eq t (text "paste")
      then paste_of v
      else if text_eq t (text "mouse")
      then mouse_of v
      else if text_eq t (text "key")
      then press_of v
      else if text_eq t (text "sb")
      then scrollback_of v
      else if text_eq t (text "save")
      then named_of save_session (text "name") v
      else if text_eq t (text "load")
      then named_of load_session (text "name") v
      else if text_eq t (text "recover")
      then named_of load_recovery (text "stem") v
      else if text_eq t (text "list")
      then some list_sessions
      else if text_eq t (text "shutdown")
      then some shutdown
      else none

  unfoldable pub decode_command : ℕ → List ℕ → Option Command
  unfolding command_of
  decode_command kind payload =
      if kind == kind_control
      then (do v ← j.parse payload; t ← str_of v (text "t"); command_of t v)
      else none
