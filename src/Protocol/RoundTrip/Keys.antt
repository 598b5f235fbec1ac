-- ===== src/Protocol/RoundTrip/Keys.antt =====
-- A key is read back, with the flags that it leaves out: src/protocol.rs.
use fleetcom.Common.{
  ℕ, ◌<◌, ◌^◌, ◌≡◌, refl, ap, ◌∙◌, Bool, true, false, some, List, [], ◌∷◌, ◌++◌, arith,
}
use fleetcom.Text.{Text, text, text_eq}
use fleetcom.Protocol.{key, Key, Mods}
use fleetcom.Protocol.Wire.{flag_field, Jzon, find, object, bool_flag}
use fleetcom.Protocol.Encode.{command_fields, key_tag, key_field}
use fleetcom.Protocol.Fields.{
  find-append, find-flag_field_other, bool_flag-flag_field, do_step, read_field, str_field,
  u64_field, num_field,
}
use fleetcom.Protocol.Decode.{press_of, key_of, one_char, plain_key}
use fleetcom.Protocol.Range.{KeyInRange}

module _ {V : Type 0} (j : Jzon V) where
  -- The fields of a key that may be left out.
  abbrev flags : Mods → List (Text × V)
  flags mods =
      flag_field j (text "sh") mods.shift
      ++ (flag_field j (text "al") mods.alt ++ flag_field j (text "ct") mods.ctrl)

  find-key_field_other :
      (k : Text) (code : Key) (d : V)
      → text_eq (text "ch") k ≡ false
      → text_eq (text "n") k ≡ false
      → find k (key_field j code) d ≡ d
  find-key_field_other k (Key.char c) d e f = rw e refl
  find-key_field_other k (Key.f n) d e f = rw f refl
  find-key_field_other k Key.up d e f = refl
  find-key_field_other k other d e f = refl

  find-flags :
      (k : Text) (mods : Mods) (d : V)
      → find k (flags mods) d
        ≡ find k (flag_field j (text "ct") mods.ctrl) (
            find k
              (flag_field j (text "al") mods.alt)
              (find k (flag_field j (text "sh") mods.shift) d))
  find-flags k mods d =
      find-append k (flag_field j (text "sh") mods.shift) _ d
      ∙ find-append k (flag_field j (text "al") mods.alt) (flag_field j (text "ct") mods.ctrl) _

  find-flags_other :
      (k : Text) (mods : Mods) (d : V)
      → text_eq (text "sh") k ≡ false
      → text_eq (text "al") k ≡ false
      → text_eq (text "ct") k ≡ false
      → find k (flags mods) d ≡ d
  find-flags_other k mods d e f g =
      find-flags k mods d
      ∙ find-flag_field_other j k (text "ct") mods.ctrl _ g
      ∙ find-flag_field_other j k (text "al") mods.alt _ f
      ∙ find-flag_field_other j k (text "sh") mods.shift d e

  -- A field of an encoded key: the tag, the id and the key's own field come first.
  find-key :
      (k : Text) (id : ℕ) (code : Key) (mods : Mods)
      → find k (command_fields j (key id code mods)) j.null
        ≡ find k (flags mods) (
            find k ((text "k", j.string (key_tag code)) ∷ []) (
              find k (key_field j code) (
                find k ((text "t", j.string (text "key")) ∷ (text "id", j.number id) ∷ []) j.null)))
  unfolding command_fields
  find-key k id code mods =
      find-append k (key_field j code) ((text "k", j.string (key_tag code)) ∷ flags mods) _

  -- Each flag of an encoded key.
  flag_read :
      (name : Text) (b : Bool) (id : ℕ) (code : Key) (mods : Mods)
      → find name (command_fields j (key id code mods)) j.null
        ≡ find name (flag_field j name b) j.null
      → text_eq name name ≡ true
      → bool_flag j (j.get (object j (command_fields j (key id code mods))) name) ≡ some b
  flag_read name b id code mods e s =
      read_field j (command_fields j (key id code mods)) name (bool_flag j) _ b e
        (bool_flag-flag_field j name b s)

  shift_read :
      (id : ℕ) (code : Key) (mods : Mods)
      → find (text "sh") (command_fields j (key id code mods)) j.null
        ≡ find (text "sh") (flag_field j (text "sh") mods.shift) j.null
  unfolding text text_eq
  shift_read id code mods =
      find-key (text "sh") id code mods
      ∙ find-flags (text "sh") mods _
      ∙ find-flag_field_other j (text "sh") (text "ct") mods.ctrl _ refl
      ∙ find-flag_field_other j (text "sh") (text "al") mods.alt _ refl
      ∙ ap (find (text "sh") (flag_field j (text "sh") mods.shift))
          (find-key_field_other (text "sh") code j.null refl refl)

  alt_read :
      (id : ℕ) (code : Key) (mods : Mods)
      → find (text "al") (command_fields j (key id code mods)) j.null
        ≡ find (text "al") (flag_field j (text "al") mods.alt) j.null
  unfolding text text_eq
  alt_read id code mods =
      find-key (text "al") id code mods
      ∙ find-flags (text "al") mods _
      ∙ find-flag_field_other j (text "al") (text "ct") mods.ctrl _ refl
      ∙ ap (find (text "al") (flag_field j (text "al") mods.alt)) (
          find-flag_field_other j (text "al") (text "sh") mods.shift _ refl
          ∙ find-key_field_other (text "al") code j.null refl refl)

  ctrl_read :
      (id : ℕ) (code : Key) (mods : Mods)
      → find (text "ct") (command_fields j (key id code mods)) j.null
        ≡ find (text "ct") (flag_field j (text "ct") mods.ctrl) j.null
  unfolding text text_eq
  ctrl_read id code mods =
      find-key (text "ct") id code mods
      ∙ find-flags (text "ct") mods _
      ∙ ap (find (text "ct") (flag_field j (text "ct") mods.ctrl)) (
          find-flag_field_other j (text "ct") (text "al") mods.alt _ refl
          ∙ find-flag_field_other j (text "ct") (text "sh") mods.shift _ refl
          ∙ find-key_field_other (text "ct") code j.null refl refl)

  -- A field that is no flag.
  plain_read :
      (k : Text) (id : ℕ) (code : Key) (mods : Mods)
      → text_eq (text "sh") k ≡ false
      → text_eq (text "al") k ≡ false
      → text_eq (text "ct") k ≡ false
      → find k (command_fields j (key id code mods)) j.null
        ≡ find k ((text "k", j.string (key_tag code)) ∷ []) (
            find k
              (key_field j code)
              (find k ((text "t", j.string (text "key")) ∷ (text "id", j.number id) ∷ []) j.null))
  plain_read k id code mods e f g = find-key k id code mods ∙ find-flags_other k mods _ e f g

  key_of-key_tag :
      (id : ℕ) (code : Key) (mods : Mods)
      → KeyInRange code
      → key_of j (object j (command_fields j (key id code mods))) (key_tag code) ≡ some code
  unfolding key_of key_tag one_char plain_key text text_eq
  key_of-key_tag id (Key.char c) mods r =
      let fs = command_fields j (key id (Key.char c) mods) in
      do_step _
        (str_field j fs (text "ch") (c ∷ [])
          (plain_read (text "ch") id (Key.char c) mods refl refl refl))
        refl
  key_of-key_tag id (Key.f n) mods r =
      let fs = command_fields j (key id (Key.f n) mods) in
      do_step _
        (num_field j fs (text "n") 8 n (plain_read (text "n") id (Key.f n) mods refl refl refl) r
          (omega arith))
        refl
  key_of-key_tag id Key.up mods r = refl
  key_of-key_tag id other mods r = refl

  pub key-round :
      (id : ℕ) (code : Key) (mods : Mods)
      → id < 2 ^ 64
      → KeyInRange code
      → press_of j (object j (command_fields j (key id code mods))) ≡ some (key id code mods)
  unfolding press_of text text_eq
  key-round id code mods h r =
      let fs = command_fields j (key id code mods) in
      do_step _
        (str_field j fs (text "k") (key_tag code)
          (plain_read (text "k") id code mods refl refl refl))
        (do_step _ (key_of-key_tag id code mods r) (
          do_step _
            (u64_field j fs (text "id") id
              (plain_read (text "id") id code mods refl refl refl
                ∙ find-key_field_other (text "id") code _ refl refl)
              h)
            (do_step _
              (flag_read (text "sh") mods.shift id code mods (shift_read id code mods) refl)
              (do_step _ (flag_read (text "al") mods.alt id code mods (alt_read id code mods) refl)
                (do_step _
                  (flag_read (text "ct") mods.ctrl id code mods (ctrl_read id code mods) refl)
                  refl)))))

  pub key_tag_read :
      (id : ℕ) (code : Key) (mods : Mods)
      → find (text "t") (command_fields j (key id code mods)) j.null ≡ j.string (text "key")
  unfolding text text_eq
  key_tag_read id code mods =
      plain_read (text "t") id code mods refl refl refl
      ∙ find-key_field_other (text "t") code _ refl refl
