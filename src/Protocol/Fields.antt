-- ===== src/Protocol/Fields.antt =====
-- What the decoders of src/protocol.rs read from an object that the encoders built.
use fleetcom.Common.{
  ℕ, ◌<◌, ◌^◌, ◌≡◌, refl, ap, ◌∙◌, Bool, true, false, Option, none, some, List, [], ◌∷◌, ◌++◌,
  ◌>>=◌, if◌then◌else◌,
}
use fleetcom.Text.{Text, text_eq}
use fleetcom.Text.Laws.{text_eq_self}
use fleetcom.Protocol.Wire.{
  Jzon, Within, find, object, opt_str_field, opt_ms_field, flag_field, Millis, whole_ms, opt_ms,
  opt_ms-field, opt_str-field, get-object, os_b64, os_from_b64, as_str-os_b64, num_from,
  num_from-number, num_from-below, below, bool_flag, bool_flag-boolean, bool_flag-null, opt_str,
  opt_u64, opt_u64-or_null, or_null, str_vec, str_vec-strings, strings,
}

-- One line of a `do` block that goes on.
pub do_step {ℓ κ} :
    {A : Type ℓ} {B : Type κ} {m : Option A} {a : A} (f : A → Option B) {r : Option B}
    → m ≡ some a
    → f a ≡ r
    → (m >>= f) ≡ r
do_step f e h = ap (λ m. m >>= f) e ∙ h

pub find-append :
    {V : Type 0} (k : Text) (xs ys : List (Text × V)) (d : V)
    → find k (xs ++ ys) d ≡ find k ys (find k xs d)
find-append k [] ys d = refl
find-append k ((i, v) ∷ xs) ys d = find-append k xs ys (if text_eq i k then v else d)

module _ {V : Type 0} (j : Jzon V) where
  pub find-opt_str_field_other :
      (k name : Text) (o : Option Text) (d : V)
      → text_eq name k ≡ false
      → find k (opt_str_field j name o) d ≡ d
  find-opt_str_field_other k name none d e = refl
  find-opt_str_field_other k name (some s) d e = rw e refl

  pub find-flag_field_other :
      (k name : Text) (b : Bool) (d : V)
      → text_eq name k ≡ false
      → find k (flag_field j name b) d ≡ d
  find-flag_field_other k name true d e = rw e refl
  find-flag_field_other k name false d e = refl

  pub bool_flag-flag_field :
      (name : Text) (b : Bool)
      → text_eq name name ≡ true
      → bool_flag j (find name (flag_field j name b) j.null) ≡ some b
  bool_flag-flag_field name true e = rw e (bool_flag-boolean j true)
  bool_flag-flag_field name false e = bool_flag-null j

  pub find-opt_ms_field_other :
      (k name : Text) (o : Option ℕ) (d : V)
      → text_eq name k ≡ false
      → find k (opt_ms_field j name o) d ≡ d
  find-opt_ms_field_other k name none d e = refl
  find-opt_ms_field_other k name (some n) d e = rw e refl

module _ {V : Type 0} (j : Jzon V) (fs : List (Text × V)) (k : Text) where
  -- A field, under any reader.
  pub read_field :
      {A : Type 0} (read : V → Option A) (v : V) (a : A)
      → find k fs j.null ≡ v
      → read v ≡ some a
      → read (j.get (object j fs) k) ≡ some a
  read_field read v a e h = ap read (get-object j k fs ∙ e) ∙ h

  pub str_field :
      (s : Text) → find k fs j.null ≡ j.string s → j.as_str (j.get (object j fs) k) ≡ some s
  str_field s e = read_field j.as_str (j.string s) s e (j.as_str-string s)

  pub u64_field :
      (n : ℕ)
      → find k fs j.null ≡ j.number n
      → n < 2 ^ 64
      → j.as_u64 (j.get (object j fs) k) ≡ some n
  u64_field n e h = read_field j.as_u64 (j.number n) n e (j.as_u64-number n h)

  pub bool_field :
      (b : Bool) → find k fs j.null ≡ j.boolean b → j.as_bool (j.get (object j fs) k) ≡ some b
  bool_field b e = read_field j.as_bool (j.boolean b) b e (j.as_bool-boolean b)

  pub os_field :
      (s : Text) → find k fs j.null ≡ os_b64 j s → os_from_b64 j (j.get (object j fs) k) ≡ some s
  os_field s e = read_field (os_from_b64 j) (os_b64 j s) s e (as_str-os_b64 j s)

  pub num_field :
      (w n : ℕ)
      → find k fs j.null ≡ j.number n
      → n < 2 ^ w
      → n < 2 ^ 64
      → num_from j w (j.get (object j fs) k) ≡ some n
  num_field w n e h i = read_field (num_from j w) (j.number n) n e (num_from-number j w n h i)

  pub num_test :
      (w n : ℕ)
      → find k fs j.null ≡ j.number n
      → n < 2 ^ 64
      → num_from j w (j.get (object j fs) k) ≡ below w n
  num_test w n e h = ap (num_from j w) (get-object j k fs ∙ e) ∙ num_from-below j w n h

  pub opt_u64_field :
      (o : Option ℕ)
      → find k fs j.null ≡ or_null j o
      → Within 64 o
      → opt_u64 j (j.get (object j fs) k) ≡ some o
  opt_u64_field o e h = read_field (opt_u64 j) (or_null j o) o e (opt_u64-or_null j o h)

  pub no_str_field : find k fs j.null ≡ j.null → opt_str j (j.get (object j fs) k) ≡ some none
  unfolding opt_str
  no_str_field e = read_field (opt_str j) j.null none e (rw j.is_null-null refl)

  pub set_str_field :
      (s : Text) → find k fs j.null ≡ j.string s → opt_str j (j.get (object j fs) k) ≡ some (some s)
  unfolding opt_str
  set_str_field s e =
      read_field (opt_str j) (j.string s) (some s) e
        (rw (j.is_null-string s, j.as_str-string s) refl)

  pub flag_set : find k fs j.null ≡ j.boolean true → bool_flag j (j.get (object j fs) k) ≡ some true
  flag_set e = read_field (bool_flag j) (j.boolean true) true e (bool_flag-boolean j true)

  pub flag_unset : find k fs j.null ≡ j.null → bool_flag j (j.get (object j fs) k) ≡ some false
  flag_unset e = read_field (bool_flag j) j.null false e (bool_flag-null j)

  pub strings_field :
      (ss : List Text)
      → find k fs j.null ≡ strings j ss
      → str_vec j (j.get (object j fs) k) ≡ some ss
  strings_field ss e = read_field (str_vec j) (strings j ss) ss e (str_vec-strings j ss)

  pub members_field :
      (vs : List V) → find k fs j.null ≡ j.array vs → j.members (j.get (object j fs) k) ≡ vs
  members_field vs e = ap j.members (get-object j k fs ∙ e) ∙ j.members-array vs

  -- An optional field, where nothing else has its name.
  pub opt_str_read :
      (o : Option Text)
      → find k fs j.null ≡ find k (opt_str_field j k o) j.null
      → opt_str j (j.get (object j fs) k) ≡ some o
  opt_str_read o e = read_field (opt_str j) _ o e (opt_str-field j k o)

  pub opt_ms_read :
      (o : Option ℕ)
      → find k fs j.null ≡ find k (opt_ms_field j k o) j.null
      → Millis o
      → opt_ms j (j.get (object j fs) k) ≡ some (whole_ms o)
  opt_ms_read o e h = read_field (opt_ms j) _ (whole_ms o) e (opt_ms-field j k o h)

  pub flag_read :
      (b : Bool)
      → find k fs j.null ≡ find k (flag_field j k b) j.null
      → bool_flag j (j.get (object j fs) k) ≡ some b
  unfolding text_eq
  flag_read b e = read_field (bool_flag j) _ b e (bool_flag-flag_field j k b (text_eq_self k))
