-- ===== src/Protocol/Wire.antt =====
-- The libraries below the wire format of src/protocol.rs: `V` is the value type of the JSON library,
-- and the operations are those that the code calls, with what their documentation promises. Base64
-- and the bytes of an `OsStr` stand beside them.
use fleetcom.Common.{
  ℕ, zero, suc, ◌/◌, ◌*◌, ◌<◌, ◌^◌, ◌≡◌, refl, sym, ◌∙◌, ap, append-nil, append_assoc, All, Bool,
  true, false, Option, none, some, List, [], ◌∷◌, ◌++◌, if◌then◌else◌, ltb, ◌||◌, ◌>>=◌, ◌%◌, map,
  arith,
}
use fleetcom.Text.{Text, text_eq}
use fleetcom.Text.Laws.{text_eq_self}

-- The element at an index, or a stand-in out of range.
abbrev pub nth {ℓ} : {A : Type ℓ} → A → List A → ℕ → A
nth d [] i = d
nth d (x ∷ xs) zero = x
nth d (x ∷ xs) (suc i) = nth d xs i

-- The nanoseconds of a millisecond.
abbrev pub nanos : ℕ
nanos = 1000000

-- A duration of fewer than 2 ^ 64 milliseconds.
abbrev pub Millis : Option ℕ → Type 0
Millis none = Unit {0}
Millis (some d) = d / nanos < 2 ^ 64

-- A duration without the part below a millisecond.
abbrev pub whole_ms : Option ℕ → Option ℕ
whole_ms none = none
whole_ms (some d) = some (d / nanos * nanos)

-- A number below 2 ^ w, where there is one.
abbrev pub Within : ℕ → Option ℕ → Type 0
Within w none = Unit {0}
Within w (some n) = n < 2 ^ w

pub record Jzon (V : Type 0) : Type 0 where
  pub null : V
  pub boolean : Bool → V
  pub number : ℕ → V
  pub string : Text → V
  pub array : List V → V
  pub new_object : V
  pub insert : Text → V → V → V
  pub get : V → Text → V
  pub at : V → ℕ → V
  pub members : V → List V
  pub as_str : V → Option Text
  pub as_u64 : V → Option ℕ
  pub as_bool : V → Option Bool
  pub is_null : V → Bool
  pub is_array : V → Bool
  pub is_object : V → Bool
  pub has_key : V → Text → Bool
  pub entries : V → List (Text × V)
  -- `pretty(2)`, and `jzon::parse` of a text.
  pub pretty : V → Text
  pub parse_text : Text → Option V
  -- `dump().into_bytes()`, and `str::from_utf8` followed by `jzon::parse`.
  pub dump : V → List ℕ
  pub parse : List ℕ → Option V
  pub b64_encode : List ℕ → Text
  pub b64_decode : Text → Option (List ℕ)
  -- `OsStrExt::as_bytes` and `OsString::from_vec`.
  pub os_bytes : Text → List ℕ
  pub os_string : List ℕ → Text
  pub as_str-string : (s : Text) → as_str (string s) ≡ some s
  pub as_u64-number : (n : ℕ) → n < 2 ^ 64 → as_u64 (number n) ≡ some n
  pub as_u64_bound : (v : V) (n : ℕ) → as_u64 v ≡ some n → n < 2 ^ 64
  pub as_bool-boolean : (b : Bool) → as_bool (boolean b) ≡ some b
  pub is_null-null : is_null null ≡ true
  pub is_null-string : (s : Text) → is_null (string s) ≡ false
  pub is_null-number : (n : ℕ) → is_null (number n) ≡ false
  pub is_null-boolean : (b : Bool) → is_null (boolean b) ≡ false
  pub is_array-array : (vs : List V) → is_array (array vs) ≡ true
  pub members-array : (vs : List V) → members (array vs) ≡ vs
  pub at-array : (vs : List V) (i : ℕ) → at (array vs) i ≡ nth null vs i
  pub is_object-new : is_object new_object ≡ true
  pub is_object-insert : (k : Text) (v o : V) → is_object (insert k v o) ≡ is_object o
  pub get-new : (k : Text) → get new_object k ≡ null
  pub get-insert :
      (k j : Text) (v o : V)
      → is_object o ≡ true
      → get (insert k v o) j ≡ (if text_eq k j then v else get o j)
  pub is_object-array : (vs : List V) → is_object (array vs) ≡ false
  pub as_str_of_object : (v : V) → is_object v ≡ true → as_str v ≡ none
  pub has_key-new : (k : Text) → has_key new_object k ≡ false
  pub has_key-insert :
      (k i : Text) (v o : V)
      → is_object o ≡ true
      → has_key (insert k v o) i ≡ text_eq k i || has_key o i
  pub entries-new : entries new_object ≡ []
  pub entries-insert :
      (k : Text) (v o : V)
      → is_object o ≡ true
      → has_key o k ≡ false
      → entries (insert k v o) ≡ entries o ++ (k, v) ∷ []
  pub parse_text-pretty : (v : V) → parse_text (pretty v) ≡ some v
  pub parse-dump : (v : V) → parse (dump v) ≡ some v
  pub b64_decode-b64_encode : (bs : List ℕ) → b64_decode (b64_encode bs) ≡ some bs
  pub os_string-os_bytes : (s : Text) → os_string (os_bytes s) ≡ s

-- `T::try_from` at the type of `w` bits.
abbrev pub below : ℕ → ℕ → Option ℕ
below w n = if ltb n (2 ^ w) then some n else none

-- A value that must be there, as an optional one.
abbrev pub set {ℓ} : {A : Type ℓ} → Option A → Option (Option A)
set none = none
set (some a) = some (some a)

-- The fields of an object under construction; a later one wins.
abbrev pub find : {V : Type 0} → Text → List (Text × V) → V → V
find k [] d = d
find k ((j, v) ∷ fs) d = find k fs (if text_eq j k then v else d)

-- Whether a field has a name; `d` is the answer of what stands before.
abbrev pub has : {V : Type 0} → Text → List (Text × V) → Bool → Bool
has k [] d = d
has k ((j, v) ∷ fs) d = has k fs (text_eq j k || d)

-- No field has the name, and no two fields have one name.
abbrev pub OtherKeys : {V : Type 0} → Text → List (Text × V) → Type 0
OtherKeys k fs = All (λ f. text_eq k f.0 ≡ false) fs

abbrev pub Distinct : {V : Type 0} → List (Text × V) → Type 0
Distinct [] = Unit {0}
Distinct ((k, v) ∷ fs) = OtherKeys k fs × Distinct fs

module _ {V : Type 0} (j : Jzon V) where
  -- `jzon::object!`, and the `insert` calls that follow it.
  abbrev inserts : List (Text × V) → V → V
  inserts [] o = o
  inserts ((k, v) ∷ fs) o = inserts fs (j.insert k v o)

  unfoldable pub object : List (Text × V) → V
  object fs = inserts fs j.new_object

  get-inserts :
      (k : Text) (fs : List (Text × V)) (o : V)
      → j.is_object o ≡ true
      → j.get (inserts fs o) k ≡ find k fs (j.get o k)
  get-inserts k [] o h = refl
  get-inserts k ((i, v) ∷ fs) o h =
      get-inserts k fs (j.insert i v o) (j.is_object-insert i v o ∙ h)
      ∙ ap (find k fs) (j.get-insert i k v o h)

  is_object-inserts : (fs : List (Text × V)) (o : V) → j.is_object (inserts fs o) ≡ j.is_object o
  is_object-inserts [] o = refl
  is_object-inserts ((k, v) ∷ fs) o =
      is_object-inserts fs (j.insert k v o) ∙ j.is_object-insert k v o

  pub is_object-object : (fs : List (Text × V)) → j.is_object (object fs) ≡ true
  unfolding object
  is_object-object fs = is_object-inserts fs j.new_object ∙ j.is_object-new

  has_key-inserts :
      (k : Text) (fs : List (Text × V)) (o : V)
      → j.is_object o ≡ true
      → j.has_key (inserts fs o) k ≡ has k fs (j.has_key o k)
  has_key-inserts k [] o h = refl
  has_key-inserts k ((i, v) ∷ fs) o h =
      has_key-inserts k fs (j.insert i v o) (j.is_object-insert i v o ∙ h)
      ∙ ap (has k fs) (j.has_key-insert i k v o h)

  -- A built object has the keys of its fields.
  pub has_key-object : (k : Text) (fs : List (Text × V)) → j.has_key (object fs) k ≡ has k fs false
  unfolding object
  has_key-object k fs =
      has_key-inserts k fs j.new_object j.is_object-new ∙ ap (has k fs) (j.has_key-new k)

  Apart-insert :
      (k : Text) (v o : V) (fs : List (Text × V))
      → j.is_object o ≡ true
      → OtherKeys k fs
      → All (λ f. j.has_key o f.0 ≡ false) fs
      → All (λ f. j.has_key (j.insert k v o) f.0 ≡ false) fs
  Apart-insert k v o [] h d a = tt
  Apart-insert k v o ((i, w) ∷ fs) h d a =
      (rw (j.has_key-insert k i v o h) (rw d.0 a.0), Apart-insert k v o fs h d.1 a.1)

  entries-inserts :
      (fs : List (Text × V)) (o : V)
      → j.is_object o ≡ true
      → Distinct fs
      → All (λ f. j.has_key o f.0 ≡ false) fs
      → j.entries (inserts fs o) ≡ j.entries o ++ fs
  entries-inserts [] o h d a = sym (append-nil (j.entries o))
  entries-inserts ((k, v) ∷ fs) o h d a =
      entries-inserts fs (j.insert k v o) (j.is_object-insert k v o ∙ h) d.1
        (Apart-insert k v o fs h d.0 a.1)
      ∙ ap (λ es. es ++ fs) (j.entries-insert k v o h a.0)
      ∙ append_assoc (j.entries o) ((k, v) ∷ []) fs

  Apart-new : (fs : List (Text × V)) → All (λ f. j.has_key j.new_object f.0 ≡ false) fs
  Apart-new [] = tt
  Apart-new ((k, v) ∷ fs) = (j.has_key-new k, Apart-new fs)

  -- An object built of distinct fields lists them in order.
  pub entries-object : (fs : List (Text × V)) → Distinct fs → j.entries (object fs) ≡ fs
  unfolding object
  entries-object fs d =
      entries-inserts fs j.new_object j.is_object-new d (Apart-new fs)
      ∙ ap (λ es. es ++ fs) j.entries-new

  -- A field of a built object is the last one of its name, and null where there is none.
  pub get-object : (k : Text) (fs : List (Text × V)) → j.get (object fs) k ≡ find k fs j.null
  unfolding object
  get-object k fs = get-inserts k fs j.new_object j.is_object-new ∙ ap (find k fs) (j.get-new k)

  -- `os_b64` and `path_b64`.
  unfoldable pub os_b64 : Text → V
  os_b64 s = j.string (j.b64_encode (j.os_bytes s))

  -- `os_from_b64` and `path_from_b64`.
  unfoldable pub os_from_b64 : V → Option Text
  os_from_b64 v = do s ← j.as_str v; bs ← j.b64_decode s; some (j.os_string bs)

  -- `num_from` at the type of `w` bits.
  unfoldable pub num_from : ℕ → V → Option ℕ
  num_from w v = do n ← j.as_u64 v; below w n

  unfoldable pub bool_flag : V → Option Bool
  bool_flag v = if j.is_null v then some false else j.as_bool v

  unfoldable pub opt_str : V → Option (Option Text)
  opt_str v = if j.is_null v then some none else set (j.as_str v)

  -- `opt_u64`.
  unfoldable pub opt_u64 : V → Option (Option ℕ)
  opt_u64 v = if j.is_null v then some none else set (j.as_u64 v)

  -- `Duration::from_millis` of what is read.
  abbrev pub from_millis : Option (Option ℕ) → Option (Option ℕ)
  from_millis none = none
  from_millis (some none) = some none
  from_millis (some (some ms)) = some (some (ms * nanos))

  unfoldable pub opt_ms : V → Option (Option ℕ)
  opt_ms v = from_millis (opt_u64 v)

  -- `insert_opt_str` and `insert_opt_ms`: the field that is inserted, if any.
  abbrev pub opt_str_field : Text → Option Text → List (Text × V)
  opt_str_field key none = []
  opt_str_field key (some s) = (key, j.string s) ∷ []

  abbrev pub opt_ms_field : Text → Option ℕ → List (Text × V)
  opt_ms_field key none = []
  opt_ms_field key (some d) = (key, j.number (d / nanos % 2 ^ 64)) ∷ []

  -- A flag that is written only where it is set.
  abbrev pub flag_field : Text → Bool → List (Text × V)
  flag_field name true = (name, j.boolean true) ∷ []
  flag_field name false = []

  -- `From<Option<u64>>`: an unset number is null.
  abbrev pub or_null : Option ℕ → V
  or_null none = j.null
  or_null (some n) = j.number n

  abbrev strings_of : List V → Option (List Text)
  strings_of [] = some []
  strings_of (v ∷ vs) = do s ← j.as_str v; rest ← strings_of vs; some (s ∷ rest)

  -- `str_vec`.
  unfoldable pub str_vec : V → Option (List Text)
  str_vec v = strings_of (j.members v)

  abbrev pub strings : List Text → V
  strings ss = j.array (map j.string ss)

  pub as_str-os_b64 : (s : Text) → os_from_b64 (os_b64 s) ≡ some s
  unfolding os_from_b64 os_b64
  as_str-os_b64 s =
      rw (j.as_str-string (j.b64_encode (j.os_bytes s)))
        (rw (j.b64_decode-b64_encode (j.os_bytes s)) (ap some (j.os_string-os_bytes s)))

  pub num_from-number : (w n : ℕ) → n < 2 ^ w → n < 2 ^ 64 → num_from w (j.number n) ≡ some n
  unfolding num_from
  num_from-number w n h k = rw (j.as_u64-number n k) (ground arith)

  pub num_from-below : (w n : ℕ) → n < 2 ^ 64 → num_from w (j.number n) ≡ below w n
  unfolding num_from
  num_from-below w n k = rw (j.as_u64-number n k) refl

  pub bool_flag-boolean : (b : Bool) → bool_flag (j.boolean b) ≡ some b
  unfolding bool_flag
  bool_flag-boolean b = rw (j.is_null-boolean b) (j.as_bool-boolean b)

  pub bool_flag-null : bool_flag j.null ≡ some false
  unfolding bool_flag
  bool_flag-null = rw j.is_null-null refl

  pub opt_str-field :
      (key : Text) (o : Option Text) → opt_str (find key (opt_str_field key o) j.null) ≡ some o
  unfolding opt_str
  opt_str-field key none = rw j.is_null-null refl
  opt_str-field key (some s) =
      rw (text_eq_self key) (rw (j.is_null-string s) (ap set (j.as_str-string s)))

  pub opt_u64-or_null : (o : Option ℕ) → Within 64 o → opt_u64 (or_null o) ≡ some o
  unfolding opt_u64
  opt_u64-or_null none h = rw j.is_null-null refl
  opt_u64-or_null (some n) h = rw (j.is_null-number n) (ap set (j.as_u64-number n h))

  pub opt_ms-field :
      (key : Text) (o : Option ℕ)
      → Millis o
      → opt_ms (find key (opt_ms_field key o) j.null) ≡ some (whole_ms o)
  unfolding opt_ms
  opt_ms-field key none h = ap from_millis (opt_u64-or_null none tt)
  opt_ms-field key (some d) h =
      let e : d / nanos % 2 ^ 64 ≡ d / nanos = ground arith in
      rw (text_eq_self key) (rw e (ap from_millis (opt_u64-or_null (some (d / nanos)) h)))

  strings_of-strings : (ss : List Text) → strings_of (map j.string ss) ≡ some ss
  strings_of-strings [] = refl
  strings_of-strings (s ∷ ss) = rw (j.as_str-string s, strings_of-strings ss) refl

  pub str_vec-strings : (ss : List Text) → str_vec (strings ss) ≡ some ss
  unfolding str_vec
  str_vec-strings ss = rw (j.members-array (map j.string ss)) (strings_of-strings ss)
