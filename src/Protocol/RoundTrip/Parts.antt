-- ===== src/Protocol/RoundTrip/Parts.antt =====
-- Launches, labels, mouse actions and scrolls read back: src/protocol.rs.
use fleetcom.Common.{ℕ, ◌<◌, ◌^◌, ◌≡◌, refl, false, Option, none, some, arith}
use fleetcom.Text.{Text, text, text_eq}
use fleetcom.Protocol.{
  spawn, spawn_agent, set_group, set_name, mouse, scrollback, ScrollAction, MouseBtn, MouseKind,
  wheel_up, wheel_down, press, drag, release,
}
use fleetcom.Terminal.Input.{btn_code}
use fleetcom.Protocol.Wire.{Jzon, find, object}
use fleetcom.Protocol.Encode.{command_fields, mouse_tag, scroll_tag, button_field, scroll_field}
use fleetcom.Protocol.Fields.{
  do_step, str_field, os_field, no_str_field, set_str_field, u64_field, num_field,
}
use fleetcom.Protocol.Decode.{
  spawn_of, spawn_agent_of, labelled_of, mouse_of, mouse_kind_of, button_of, scrollback_of,
  scroll_of,
}
use fleetcom.Protocol.Range.{ScrollInRange}

btn_code-bound : (b : MouseBtn) → btn_code b < 2 ^ 64
unfolding btn_code
btn_code-bound MouseBtn.left = omega arith
btn_code-bound MouseBtn.middle = omega arith
btn_code-bound MouseBtn.right = omega arith

button_of-btn_code : (b : MouseBtn) → button_of (btn_code b) ≡ some b
unfolding button_of btn_code
button_of-btn_code MouseBtn.left = refl
button_of-btn_code MouseBtn.middle = refl
button_of-btn_code MouseBtn.right = refl

module _ {V : Type 0} (j : Jzon V) where
  pub spawn_of-round :
      (a cwd : Text) (group : Option Text)
      → spawn_of j (object j (command_fields j (spawn a cwd group))) ≡ some (spawn a cwd group)
  unfolding spawn_of command_fields text text_eq
  spawn_of-round a cwd none =
      let fs = command_fields j (spawn a cwd none) in
      do_step _ (str_field j fs (text "command") a refl) (
        do_step _ (os_field j fs (text "cwd") cwd refl)
          (do_step _ (no_str_field j fs (text "group") refl) refl))
  spawn_of-round a cwd (some g) =
      let fs = command_fields j (spawn a cwd (some g)) in
      do_step _ (str_field j fs (text "command") a refl) (
        do_step _ (os_field j fs (text "cwd") cwd refl)
          (do_step _ (set_str_field j fs (text "group") g refl) refl))

  pub spawn_agent_of-round :
      (a cwd : Text) (group : Option Text)
      → spawn_agent_of j (object j (command_fields j (spawn_agent a cwd group)))
        ≡ some (spawn_agent a cwd group)
  unfolding spawn_agent_of command_fields text text_eq
  spawn_agent_of-round a cwd none =
      let fs = command_fields j (spawn_agent a cwd none) in
      do_step _ (str_field j fs (text "agent") a refl) (
        do_step _ (os_field j fs (text "cwd") cwd refl)
          (do_step _ (no_str_field j fs (text "group") refl) refl))
  spawn_agent_of-round a cwd (some g) =
      let fs = command_fields j (spawn_agent a cwd (some g)) in
      do_step _ (str_field j fs (text "agent") a refl) (
        do_step _ (os_field j fs (text "cwd") cwd refl)
          (do_step _ (set_str_field j fs (text "group") g refl) refl))

  pub set_group-round :
      (id : ℕ) (label : Option Text)
      → id < 2 ^ 64
      → labelled_of j set_group (text "g") (object j (command_fields j (set_group id label)))
        ≡ some (set_group id label)
  unfolding labelled_of command_fields text text_eq
  set_group-round id none h =
      let fs = command_fields j (set_group id none) in
      do_step _ (u64_field j fs (text "id") id refl h)
        (do_step _ (no_str_field j fs (text "g") refl) refl)
  set_group-round id (some g) h =
      let fs = command_fields j (set_group id (some g)) in
      do_step _ (u64_field j fs (text "id") id refl h)
        (do_step _ (set_str_field j fs (text "g") g refl) refl)

  pub set_name-round :
      (id : ℕ) (label : Option Text)
      → id < 2 ^ 64
      → labelled_of j set_name (text "n") (object j (command_fields j (set_name id label)))
        ≡ some (set_name id label)
  unfolding labelled_of command_fields text text_eq
  set_name-round id none h =
      let fs = command_fields j (set_name id none) in
      do_step _ (u64_field j fs (text "id") id refl h)
        (do_step _ (no_str_field j fs (text "n") refl) refl)
  set_name-round id (some g) h =
      let fs = command_fields j (set_name id (some g)) in
      do_step _ (u64_field j fs (text "id") id refl h)
        (do_step _ (set_str_field j fs (text "n") g refl) refl)

  pub mouse_kind_of-mouse_tag :
      (id : ℕ) (kind : MouseKind) (col row : ℕ)
      → mouse_kind_of j (object j (command_fields j (mouse id kind col row))) (mouse_tag kind)
        ≡ some kind
  unfolding mouse_kind_of mouse_tag command_fields text text_eq
  mouse_kind_of-mouse_tag id wheel_up col row = refl
  mouse_kind_of-mouse_tag id wheel_down col row = refl
  mouse_kind_of-mouse_tag id (press b) col row =
      let fs = command_fields j (mouse id (press b) col row) in
      do_step _
        (do_step _ (u64_field j fs (text "b") (btn_code b) refl (btn_code-bound b))
          (button_of-btn_code b))
        refl
  mouse_kind_of-mouse_tag id (drag b) col row =
      let fs = command_fields j (mouse id (drag b) col row) in
      do_step _
        (do_step _ (u64_field j fs (text "b") (btn_code b) refl (btn_code-bound b))
          (button_of-btn_code b))
        refl
  mouse_kind_of-mouse_tag id (release b) col row =
      let fs = command_fields j (mouse id (release b) col row) in
      do_step _
        (do_step _ (u64_field j fs (text "b") (btn_code b) refl (btn_code-bound b))
          (button_of-btn_code b))
        refl

  pub mouse-round :
      (id : ℕ) (kind : MouseKind) (col row : ℕ)
      → id < 2 ^ 64
      → col < 2 ^ 16
      → row < 2 ^ 16
      → mouse_of j (object j (command_fields j (mouse id kind col row)))
        ≡ some (mouse id kind col row)
  unfolding mouse_of mouse_tag command_fields text text_eq
  mouse-round id wheel_up col row h p q =
      let fs = command_fields j (mouse id wheel_up col row) in
      do_step _ (u64_field j fs (text "id") id refl h) (
        do_step _ (str_field j fs (text "k") (mouse_tag wheel_up) refl) (
          do_step _ (mouse_kind_of-mouse_tag id wheel_up col row) (
            do_step _ (num_field j fs (text "col") 16 col refl p (omega arith))
              (do_step _ (num_field j fs (text "row") 16 row refl q (omega arith)) refl))))
  mouse-round id wheel_down col row h p q =
      let fs = command_fields j (mouse id wheel_down col row) in
      do_step _ (u64_field j fs (text "id") id refl h) (
        do_step _ (str_field j fs (text "k") (mouse_tag wheel_down) refl) (
          do_step _ (mouse_kind_of-mouse_tag id wheel_down col row) (
            do_step _ (num_field j fs (text "col") 16 col refl p (omega arith))
              (do_step _ (num_field j fs (text "row") 16 row refl q (omega arith)) refl))))
  mouse-round id (press b) col row h p q =
      let fs = command_fields j (mouse id (press b) col row) in
      do_step _ (u64_field j fs (text "id") id refl h) (
        do_step _ (str_field j fs (text "k") (mouse_tag (press b)) refl) (
          do_step _ (mouse_kind_of-mouse_tag id (press b) col row) (
            do_step _ (num_field j fs (text "col") 16 col refl p (omega arith))
              (do_step _ (num_field j fs (text "row") 16 row refl q (omega arith)) refl))))
  mouse-round id (drag b) col row h p q =
      let fs = command_fields j (mouse id (drag b) col row) in
      do_step _ (u64_field j fs (text "id") id refl h) (
        do_step _ (str_field j fs (text "k") (mouse_tag (drag b)) refl) (
          do_step _ (mouse_kind_of-mouse_tag id (drag b) col row) (
            do_step _ (num_field j fs (text "col") 16 col refl p (omega arith))
              (do_step _ (num_field j fs (text "row") 16 row refl q (omega arith)) refl))))
  mouse-round id (release b) col row h p q =
      let fs = command_fields j (mouse id (release b) col row) in
      do_step _ (u64_field j fs (text "id") id refl h) (
        do_step _ (str_field j fs (text "k") (mouse_tag (release b)) refl) (
          do_step _ (mouse_kind_of-mouse_tag id (release b) col row) (
            do_step _ (num_field j fs (text "col") 16 col refl p (omega arith))
              (do_step _ (num_field j fs (text "row") 16 row refl q (omega arith)) refl))))

  scroll_of-scroll_tag :
      (id : ℕ) (action : ScrollAction)
      → ScrollInRange action
      → scroll_of j (object j (command_fields j (scrollback id action))) (scroll_tag action)
        ≡ some action
  unfolding scroll_of scroll_tag command_fields text text_eq
  scroll_of-scroll_tag id (ScrollAction.up n) r =
      let fs = command_fields j (scrollback id (ScrollAction.up n)) in
      do_step _ (num_field j fs (text "n") 16 n refl r (omega arith)) refl
  scroll_of-scroll_tag id (ScrollAction.down n) r =
      let fs = command_fields j (scrollback id (ScrollAction.down n)) in
      do_step _ (num_field j fs (text "n") 16 n refl r (omega arith)) refl
  scroll_of-scroll_tag id ScrollAction.top r = refl
  scroll_of-scroll_tag id ScrollAction.live r = refl

  pub scrollback-round :
      (id : ℕ) (action : ScrollAction)
      → id < 2 ^ 64
      → ScrollInRange action
      → scrollback_of j (object j (command_fields j (scrollback id action)))
        ≡ some (scrollback id action)
  unfolding scrollback_of scroll_tag command_fields text text_eq
  scrollback-round id (ScrollAction.up n) h r =
      let fs = command_fields j (scrollback id (ScrollAction.up n)) in
      do_step _ (u64_field j fs (text "id") id refl h) (
        do_step _ (str_field j fs (text "a") (scroll_tag (ScrollAction.up n)) refl)
          (do_step _ (scroll_of-scroll_tag id (ScrollAction.up n) r) refl))
  scrollback-round id (ScrollAction.down n) h r =
      let fs = command_fields j (scrollback id (ScrollAction.down n)) in
      do_step _ (u64_field j fs (text "id") id refl h) (
        do_step _ (str_field j fs (text "a") (scroll_tag (ScrollAction.down n)) refl)
          (do_step _ (scroll_of-scroll_tag id (ScrollAction.down n) r) refl))
  scrollback-round id ScrollAction.top h r =
      let fs = command_fields j (scrollback id ScrollAction.top) in
      do_step _ (u64_field j fs (text "id") id refl h) (
        do_step _ (str_field j fs (text "a") (scroll_tag ScrollAction.top) refl)
          (do_step _ (scroll_of-scroll_tag id ScrollAction.top r) refl))
  scrollback-round id ScrollAction.live h r =
      let fs = command_fields j (scrollback id ScrollAction.live) in
      do_step _ (u64_field j fs (text "id") id refl h) (
        do_step _ (str_field j fs (text "a") (scroll_tag ScrollAction.live) refl)
          (do_step _ (scroll_of-scroll_tag id ScrollAction.live r) refl))

  pub find-button_field_other :
      (k : Text) (kind : MouseKind) (d : V)
      → text_eq (text "b") k ≡ false
      → find k (button_field j kind) d ≡ d
  find-button_field_other k wheel_up d e = refl
  find-button_field_other k wheel_down d e = refl
  find-button_field_other k (press b) d e = rw e refl
  find-button_field_other k (drag b) d e = rw e refl
  find-button_field_other k (release b) d e = rw e refl

  pub find-scroll_field_other :
      (k : Text) (action : ScrollAction) (d : V)
      → text_eq (text "n") k ≡ false
      → find k (scroll_field j action) d ≡ d
  find-scroll_field_other k (ScrollAction.up n) d e = rw e refl
  find-scroll_field_other k (ScrollAction.down n) d e = rw e refl
  find-scroll_field_other k ScrollAction.top d e = refl
  find-scroll_field_other k ScrollAction.live d e = refl
