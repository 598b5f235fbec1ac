-- ===== src/Protocol/Refusals.antt =====
-- A number that does not fit its field is refused, not cut down: src/protocol.rs, `num_from` and the
-- arms of `decode_command` that call it.
use fleetcom.Common.{
  ℕ, ◌<◌, ◌^◌, ◌≡◌, refl, ◌∙◌, Bool, true, false, ◌&&◌, Option, none, some, ltb, ◌>>=◌,
  if◌then◌else◌,
}
use fleetcom.Text.{text, text_eq}
use fleetcom.Protocol.{
  Command, resize, mouse, MouseKind, wheel_up, wheel_down, press, drag, release,
}
use fleetcom.Protocol.Wire.{Jzon, object, below}
use fleetcom.Protocol.Encode.{command_fields, encode_command, mouse_tag}
use fleetcom.Protocol.Fields.{do_step, str_field, u64_field, num_test}
use fleetcom.Protocol.Decode.{decode_command, command_of, resize_of, mouse_of}
use fleetcom.Protocol.RoundTrip.{tagged_step}
use fleetcom.Protocol.RoundTrip.Parts.{mouse_kind_of-mouse_tag, find-button_field_other}

-- A command, where its two numbers fit 16 bits.
abbrev pub if_both : ℕ → ℕ → Command → Option Command
if_both a b cmd = if ltb a (2 ^ 16) && ltb b (2 ^ 16) then some cmd else none

both_below :
    (a b : ℕ) (make : ℕ → ℕ → Command)
    → (do x ← below 16 a; y ← below 16 b; some (make x y)) ≡ if_both a b (make a b)
both_below a b make = by_tests (ltb a (2 ^ 16)) (ltb b (2 ^ 16))
  where
    by_tests :
        (p q : Bool)
        → (do x ← if p then some a else none; y ← if q then some b else none; some (make x y))
          ≡ (if p && q then some (make a b) else none)
    by_tests true true = refl
    by_tests true false = refl
    by_tests false q = refl

module _ {V : Type 0} (j : Jzon V) where
  resize-tested :
      (rows cols : ℕ)
      → rows < 2 ^ 64
      → cols < 2 ^ 64
      → resize_of j (object j (command_fields j (resize rows cols)))
        ≡ if_both rows cols (resize rows cols)
  unfolding resize_of command_fields text text_eq
  resize-tested rows cols p q =
      let fs = command_fields j (resize rows cols) in
      (λ i. do
        x ← num_test j fs (text "rows") 16 rows refl p i
        y ← num_test j fs (text "cols") 16 cols refl q i
        some (resize x y))
      ∙ both_below rows cols resize

  mouse-tested :
      (id : ℕ) (kind : MouseKind) (col row : ℕ)
      → id < 2 ^ 64
      → col < 2 ^ 64
      → row < 2 ^ 64
      → mouse_of j (object j (command_fields j (mouse id kind col row)))
        ≡ if_both col row (mouse id kind col row)
  unfolding mouse_of mouse_tag command_fields text text_eq
  mouse-tested id wheel_up col row h p q =
      let fs = command_fields j (mouse id wheel_up col row) in
      do_step _ (u64_field j fs (text "id") id refl h) (
        do_step _ (str_field j fs (text "k") (mouse_tag wheel_up) refl) (
          do_step _ (mouse_kind_of-mouse_tag j id wheel_up col row) (
            (λ i. do
              x ← num_test j fs (text "col") 16 col refl p i
              y ← num_test j fs (text "row") 16 row refl q i
              some (mouse id wheel_up x y))
            ∙ both_below col row (mouse id wheel_up))))
  mouse-tested id wheel_down col row h p q =
      let fs = command_fields j (mouse id wheel_down col row) in
      do_step _ (u64_field j fs (text "id") id refl h) (
        do_step _ (str_field j fs (text "k") (mouse_tag wheel_down) refl) (
          do_step _ (mouse_kind_of-mouse_tag j id wheel_down col row) (
            (λ i. do
              x ← num_test j fs (text "col") 16 col refl p i
              y ← num_test j fs (text "row") 16 row refl q i
              some (mouse id wheel_down x y))
            ∙ both_below col row (mouse id wheel_down))))
  mouse-tested id (press b) col row h p q =
      let fs = command_fields j (mouse id (press b) col row) in
      do_step _ (u64_field j fs (text "id") id refl h) (
        do_step _ (str_field j fs (text "k") (mouse_tag (press b)) refl) (
          do_step _ (mouse_kind_of-mouse_tag j id (press b) col row) (
            (λ i. do
              x ← num_test j fs (text "col") 16 col refl p i
              y ← num_test j fs (text "row") 16 row refl q i
              some (mouse id (press b) x y))
            ∙ both_below col row (mouse id (press b)))))
  mouse-tested id (drag b) col row h p q =
      let fs = command_fields j (mouse id (drag b) col row) in
      do_step _ (u64_field j fs (text "id") id refl h) (
        do_step _ (str_field j fs (text "k") (mouse_tag (drag b)) refl) (
          do_step _ (mouse_kind_of-mouse_tag j id (drag b) col row) (
            (λ i. do
              x ← num_test j fs (text "col") 16 col refl p i
              y ← num_test j fs (text "row") 16 row refl q i
              some (mouse id (drag b) x y))
            ∙ both_below col row (mouse id (drag b)))))
  mouse-tested id (release b) col row h p q =
      let fs = command_fields j (mouse id (release b) col row) in
      do_step _ (u64_field j fs (text "id") id refl h) (
        do_step _ (str_field j fs (text "k") (mouse_tag (release b)) refl) (
          do_step _ (mouse_kind_of-mouse_tag j id (release b) col row) (
            (λ i. do
              x ← num_test j fs (text "col") 16 col refl p i
              y ← num_test j fs (text "row") 16 row refl q i
              some (mouse id (release b) x y))
            ∙ both_below col row (mouse id (release b)))))

  -- Whatever 64-bit numbers a frame carries as the size of a resize or as the cell of a mouse action,
  -- the command is read as it was sent where both numbers fit 16 bits, and refused where one does not.
  pub decode_command-refuses :
      (rows cols id : ℕ) (kind : MouseKind)
      → rows < 2 ^ 64
      → cols < 2 ^ 64
      → id < 2 ^ 64
      → (decode_command j
            (encode_command j (resize rows cols)).0
            (encode_command j (resize rows cols)).1
          ≡ if_both rows cols (resize rows cols))
        × (decode_command j
              (encode_command j (mouse id kind cols rows)).0
              (encode_command j (mouse id kind cols rows)).1
            ≡ if_both cols rows (mouse id kind cols rows))
  unfolding encode_command command_fields command_of text text_eq
  decode_command-refuses rows cols id kind p q h = (
    tagged_step j (command_fields j (resize rows cols)) (text "resize") refl
        (resize-tested rows cols p q),
    tagged_step j (command_fields j (mouse id kind cols rows)) (text "mouse")
        (find-button_field_other j (text "t") kind _ refl) (mouse-tested id kind cols rows h q p),
  )
