-- ===== src/Protocol/RoundTrip.antt =====
-- The wire format of commands, src/protocol.rs: what one peer encodes the other decodes.
pub mod Parts
mod Keys
mod Views
pub mod Events
use fleetcom.Common.{
  ℕ, ◌+◌, ◌<◌, ◌^◌, ◌≡◌, refl, ap, ◌∙◌, Bool, true, false, Option, none, some, List, [], ◌∷◌, ◌++◌,
  ◌>>=◌, arith, if◌then◌else◌,
}
use fleetcom.Text.{Text, text, text_eq}
use fleetcom.Protocol.{
  Command, spawn, spawn_agent, kill, remove, restart, tag, flagship, set_group, set_name, resize,
  watch, paste, mouse, key, scrollback, save_session, load_session, load_recovery, list_sessions,
  shutdown, ScrollAction, MouseBtn, MouseKind, wheel_up, wheel_down, press, drag, release, Key,
  Mods,
}
use fleetcom.Frame.{kind_control}
use fleetcom.Terminal.Input.{btn_code}
use fleetcom.Protocol.Wire.{
  Jzon, Within, find, object, bool_flag, bool_flag-boolean, bool_flag-null, opt_str, opt_str_field,
}
use fleetcom.Protocol.Encode.{
  command_fields, encode_command, mouse_tag, scroll_tag, key_tag, key_field,
}
use fleetcom.Protocol.Fields.{
  find-opt_str_field_other, do_step, read_field, str_field, os_field, no_str_field, set_str_field,
  u64_field, num_field, bool_field, opt_u64_field, flag_set, flag_unset,
}
use fleetcom.Protocol.Decode.{
  decode_command, command_of, spawn_of, spawn_agent_of, with_id, tag_of, flagship_of, labelled_of,
  resize_of, watch_of, paste_of, mouse_of, mouse_kind_of, button_of, press_of, key_of, one_char,
  plain_key, scrollback_of, scroll_of, named_of,
}
use fleetcom.Protocol.Range.{InRange, KeyInRange, ScrollInRange}
use fleetcom.Protocol.RoundTrip.Parts.{
  spawn_of-round, spawn_agent_of-round, set_group-round, set_name-round, mouse-round,
  scrollback-round, find-button_field_other, find-scroll_field_other,
}
use fleetcom.Protocol.RoundTrip.Keys.{key-round, key_tag_read}

module _ {V : Type 0} (j : Jzon V) where
  -- A payload is parsed and its tag is read.
  pub tagged_step :
      (fs : List (Text × V)) (t : Text) {r : Option Command}
      → find (text "t") fs j.null ≡ j.string t
      → command_of j t (object j fs) ≡ r
      → decode_command j kind_control (j.dump (object j fs)) ≡ r
  unfolding decode_command
  tagged_step fs t e h =
      do_step _ (j.parse-dump (object j fs)) (do_step _ (str_field j fs (text "t") t e) h)

  -- What one peer encodes, the other decodes: every command whose numbers fit their fields.
  pub decode_command-encode_command :
      (cmd : Command)
      → InRange cmd
      → decode_command j (encode_command j cmd).0 (encode_command j cmd).1 ≡ some cmd
  unfolding encode_command command_fields command_of with_id tag_of flagship_of resize_of watch_of
      paste_of named_of text text_eq
  decode_command-encode_command (spawn a cwd g) h =
      let fs = command_fields j (spawn a cwd g) in
      tagged_step fs (text "spawn") (find-opt_str_field_other j (text "t") (text "group") g _ refl)
        (spawn_of-round j a cwd g)
  decode_command-encode_command (spawn_agent a cwd g) h =
      let fs = command_fields j (spawn_agent a cwd g) in
      tagged_step fs (text "spawn_agent")
        (find-opt_str_field_other j (text "t") (text "group") g _ refl)
        (spawn_agent_of-round j a cwd g)
  decode_command-encode_command (kill id) h =
      let fs = command_fields j (kill id) in
      tagged_step fs (text "kill") refl (do_step _ (u64_field j fs (text "id") id refl h) refl)
  decode_command-encode_command (remove id) h =
      let fs = command_fields j (remove id) in
      tagged_step fs (text "remove") refl (do_step _ (u64_field j fs (text "id") id refl h) refl)
  decode_command-encode_command (restart id) h =
      let fs = command_fields j (restart id) in
      tagged_step fs (text "restart") refl (do_step _ (u64_field j fs (text "id") id refl h) refl)
  decode_command-encode_command (tag id on) h =
      let fs = command_fields j (tag id on) in
      tagged_step fs (text "tag") refl (
        do_step _ (u64_field j fs (text "id") id refl h)
          (do_step _ (bool_field j fs (text "on") on refl) refl))
  decode_command-encode_command (flagship id) h =
      let fs = command_fields j (flagship id) in
      tagged_step fs (text "flagship") refl
        (do_step _ (opt_u64_field j fs (text "id") id refl h) refl)
  decode_command-encode_command (set_group id g) h =
      let fs = command_fields j (set_group id g) in
      tagged_step fs (text "group") (find-opt_str_field_other j (text "t") (text "g") g _ refl)
        (set_group-round j id g h)
  decode_command-encode_command (set_name id n) h =
      let fs = command_fields j (set_name id n) in
      tagged_step fs (text "name") (find-opt_str_field_other j (text "t") (text "n") n _ refl)
        (set_name-round j id n h)
  decode_command-encode_command (resize rows cols) h =
      let fs = command_fields j (resize rows cols) in
      tagged_step fs (text "resize") refl (
        do_step _ (num_field j fs (text "rows") 16 rows refl h.0 (omega (arith, h.0)))
          (do_step _ (num_field j fs (text "cols") 16 cols refl h.1 (omega (arith, h.1))) refl))
  decode_command-encode_command (watch id attached) h =
      let fs = command_fields j (watch id attached) in
      tagged_step fs (text "watch") refl (
        do_step _ (opt_u64_field j fs (text "id") id refl h)
          (do_step _ (bool_field j fs (text "attached") attached refl) refl))
  decode_command-encode_command (paste id bytes) h =
      let fs = command_fields j (paste id bytes) in
      tagged_step fs (text "paste") refl (
        do_step _ (u64_field j fs (text "id") id refl h) (
          do_step _ (str_field j fs (text "bytes") (j.b64_encode bytes) refl)
            (do_step _ (j.b64_decode-b64_encode bytes) refl)))
  decode_command-encode_command (mouse id kind col row) h =
      let fs = command_fields j (mouse id kind col row) in
      tagged_step fs (text "mouse") (find-button_field_other j (text "t") kind _ refl)
        (mouse-round j id kind col row h.0 h.1 h.2)
  decode_command-encode_command (key id code mods) h =
      let fs = command_fields j (key id code mods) in
      tagged_step fs (text "key") (key_tag_read j id code mods) (key-round j id code mods h.0 h.1)
  decode_command-encode_command (scrollback id action) h =
      let fs = command_fields j (scrollback id action) in
      tagged_step fs (text "sb") (find-scroll_field_other j (text "t") action _ refl)
        (scrollback-round j id action h.0 h.1)
  decode_command-encode_command (save_session name) h =
      let fs = command_fields j (save_session name) in
      tagged_step fs (text "save") refl (do_step _ (str_field j fs (text "name") name refl) refl)
  decode_command-encode_command (load_session name) h =
      let fs = command_fields j (load_session name) in
      tagged_step fs (text "load") refl (do_step _ (str_field j fs (text "name") name refl) refl)
  decode_command-encode_command (load_recovery name) h =
      let fs = command_fields j (load_recovery name) in
      tagged_step fs (text "recover") refl (do_step _ (str_field j fs (text "stem") name refl) refl)
  decode_command-encode_command list_sessions h =
      tagged_step (command_fields j list_sessions) (text "list") refl refl
  decode_command-encode_command shutdown h =
      tagged_step (command_fields j shutdown) (text "shutdown") refl refl
