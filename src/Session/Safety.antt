-- ===== src/Session/Safety.antt =====
-- What src/session.rs accepts: whatever the text of a recipe file, the recipe that `from_json`
-- returns is well-formed.
use fleetcom.Common.{
  ℕ, ◌+◌, ◌≤◌, ◌≡◌, refl, Bool, true, false, ◌&&◌, Option, none, some, List, [], ◌∷◌, arith, All,
  Bool-cases, inl, inr, if◌then◌else◌, is_some, ap, subst,
}
use fleetcom.Text.{Text, text, text_eq}
use fleetcom.Protocol.Wire.{Jzon}
use fleetcom.Harness.{Agent, registered, is_uuid}
use fleetcom.Session.{EntryKind, literal, managed, SessionEntry, SessionConfig, text_lt}
use fleetcom.Session.Order.{Ascending, insert_dir-Ascending}
use fleetcom.Session.Codec.{
  Place, Checked, ok, invalid, ◌>>=◌, or_invalid, insert_dir, check_version, shape_of, label, mark,
  checked_resume, managed_kind, literal_kind, kind_of, object_entry, entry_of, claim_flag,
  entries_of, dirs_of, recipe_of, from_json, unknown_agent, wrong_field, both_keys, not_an_object,
  not_an_array, not_json,
}

-- A managed entry names a registered agent and resumes a strict UUID.
abbrev pub IsUuid : Option Text → Type 0
IsUuid none = Unit {0}
IsUuid (some id) = is_uuid id ≡ true

abbrev pub KindValid : EntryKind → Type 0
KindValid (literal cmd) = Unit {0}
KindValid (managed agent resume) = (is_some (registered agent) ≡ true) × IsUuid resume

abbrev pub EntryValid : SessionEntry → Type 0
EntryValid e = KindValid e.kind

-- The flagship marks of entries and of a recipe.
abbrev pub one : Bool → ℕ
one true = 1
one false = 0

unfoldable pub marks : List SessionEntry → ℕ
marks [] = 0
marks (e ∷ es) = one e.flagship + marks es

unfoldable pub all_marks : SessionConfig → ℕ
unfolding marks
all_marks [] = 0
all_marks ((k, es) ∷ rest) = marks es + all_marks rest

abbrev pub EntriesValid : SessionConfig → Type 0
EntriesValid = All (λ f. All EntryValid f.1)

-- Keys in order, valid entries, and one flagship at most.
abbrev pub RecipeValid : SessionConfig → Type 0
RecipeValid cfg = Ascending cfg × EntriesValid cfg × (all_marks cfg ≤ 1)

abbrev or_this : {A : Type 0} → A → Checked A → A
or_this a (ok b) = b
or_this a (invalid e) = a

ok-injective : {A : Type 0} {a b : A} → Checked.ok a ≡ Checked.ok b → a ≡ b
ok-injective {a = a} p = ap (or_this a) p

abbrev pub Ensured : {A : Type 0} → (A → Type 0) → Checked A → Type 0
Ensured P (ok a) = P a
Ensured P (invalid e) = Unit {0}

ensured : {A : Type 0} (P : A → Type 0) (m : Checked A) (a : A) → Ensured P m → m ≡ ok a → P a
ensured P (ok b) a h e = subst P (ok-injective e) h
ensured P (invalid x) a h e = cc

bind :
    {A B : Type 0} (P : A → Type 0) (Q : B → Type 0) (m : Checked A) (f : A → Checked B)
    → Ensured P m
    → ((a : A) → P a → Ensured Q (f a))
    → Ensured Q (m >>= f)
bind P Q (ok a) f h k = k a h
bind P Q (invalid e) f h k = tt

checked_resume-IsUuid : (at : Place) (o : Option Text) → Ensured IsUuid (checked_resume at o)
checked_resume-IsUuid at none = tt
checked_resume-IsUuid at (some id) = ground arith

unfoldable pub count : Option Place → ℕ
count none = 0
count (some p) = 1

EntriesValid-insert_dir :
    (dir : Text) (es : List SessionEntry) (cfg : SessionConfig)
    → All EntryValid es
    → EntriesValid cfg
    → EntriesValid (insert_dir dir es cfg)
unfolding insert_dir
EntriesValid-insert_dir dir es [] v h = (v, tt)
EntriesValid-insert_dir dir es ((k, old) ∷ rest) v h = elim (Bool-cases (text_eq k dir)) [
  | inl same ↦ rw same (v, h.1)
  | inr other ↦ rw other (elim (Bool-cases (text_lt dir k)) [
    | inl earlier ↦ rw earlier (v, (h.0, h.1))
    | inr later ↦ rw later (h.0, EntriesValid-insert_dir dir es rest v h.1)
  ])
]

all_marks-insert_dir :
    (dir : Text) (es : List SessionEntry) (cfg : SessionConfig)
    → all_marks (insert_dir dir es cfg) ≤ marks es + all_marks cfg
unfolding insert_dir all_marks
all_marks-insert_dir dir es [] = omega arith
all_marks-insert_dir dir es ((k, old) ∷ rest) = ground (arith, all_marks-insert_dir dir es rest)

abbrev Anything : {A : Type 0} → A → Type 0
Anything a = Unit {0}

anything : {A : Type 0} (m : Checked A) → Ensured Anything m
anything (ok a) = tt
anything (invalid e) = tt

abbrev Recipe : Option Text × SessionConfig → Type 0
Recipe r = RecipeValid r.1

module _ {V : Type 0} (j : Jzon V) where
  managed_kind-KindValid : (at : Place) (m : V) → Ensured KindValid (managed_kind j at m)
  unfolding managed_kind
  managed_kind-KindValid at m =
      by_key (j.has_key m (text "cmd"))
        (or_invalid (wrong_field at (text "agent")) (j.as_str (j.get m (text "agent"))))
    where
      by_resume :
          (agent : Text) (r : Checked (Option Text))
          → is_some (registered agent) ≡ true
          → Ensured KindValid
              (do resume ← r; checked ← checked_resume at resume; ok (managed agent checked))
      by_resume agent (invalid e) known = tt
      by_resume agent (ok resume) known =
          bind IsUuid KindValid (checked_resume at resume) (λ c. ok (managed agent c))
            (checked_resume-IsUuid at resume) (λ c u. (known, u))

      by_agent :
          (agent : Text) (o : Option Agent)
          → registered agent ≡ o
          → Ensured KindValid (do
            known ← or_invalid (unknown_agent at) o
            resume ← label j at m (text "resume")
            checked ← checked_resume at resume
            ok (managed agent checked))
      by_agent agent none e = tt
      by_agent agent (some a) e = by_resume agent (label j at m (text "resume")) (ap is_some e)

      by_key :
          (b : Bool) (word : Checked Text)
          → Ensured KindValid (
              if b then invalid (both_keys at) else (do
                agent ← word
                known ← or_invalid (unknown_agent at) (registered agent)
                resume ← label j at m (text "resume")
                checked ← checked_resume at resume
                ok (managed agent checked)))
      by_key true word = tt
      by_key false (invalid e) = tt
      by_key false (ok agent) = by_agent agent (registered agent) refl

  kind_of-KindValid : (at : Place) (m : V) → Ensured KindValid (kind_of j at m)
  unfolding kind_of literal_kind
  kind_of-KindValid at m = ground (arith, managed_kind-KindValid at m)

  object_entry-EntryValid : (at : Place) (m : V) → Ensured EntryValid (object_entry j at m)
  unfolding object_entry
  object_entry-EntryValid at m = by_kind (kind_of j at m) (kind_of-KindValid at m)
    where
      by_kind :
          (k : Checked EntryKind)
          → Ensured KindValid k
          → Ensured EntryValid (do
            kind ← k
            group ← label j at m (text "group")
            name ← label j at m (text "name")
            tagged ← mark j at m (text "tagged")
            flagship ← mark j at m (text "flagship")
            stopped ← mark j at m (text "stopped")
            ok (record {
              kind = kind;
              group = group;
              name = name;
              tagged = tagged;
              flagship = flagship;
              stopped = stopped;
            }))
      by_kind (invalid e) h = tt
      by_kind (ok (literal c)) h = ground arith
      by_kind (ok (managed a r)) h = ground arith

  entry_of-EntryValid : (at : Place) (m : V) → Ensured EntryValid (entry_of j at m)
  unfolding entry_of
  entry_of-EntryValid at m = ground (arith, object_entry-EntryValid at m)

  -- The entries of a directory are valid, and the marks among them are those that were claimed.
  abbrev Listed : Option Place → List SessionEntry × Option Place → Type 0
  Listed first r = All EntryValid r.0 × (marks r.0 + count first ≡ count r.1)

  claim_flag-count :
      (at : Place) (first : Option Place) (b : Bool)
      → Ensured (λ now. one b + count first ≡ count now) (claim_flag at first b)
  unfolding count
  claim_flag-count at first false = omega arith
  claim_flag-count at none true = omega arith
  claim_flag-count at (some p) true = tt

  entries_of-Listed :
      (dir : Text) (i : ℕ) (first : Option Place) (ms : List V)
      → Ensured (Listed first) (entries_of j dir i first ms)
  unfolding entries_of marks
  entries_of-Listed dir i first [] = (tt, omega arith)
  entries_of-Listed dir i first (m ∷ ms) =
      bind EntryValid (Listed first) (entry_of j (dir, i + 1) m)
        (λ e. do
          now ← claim_flag (dir, i + 1) first e.flagship
          rest ← entries_of j dir (i + 1) now ms
          ok (e ∷ rest.0, rest.1))
        (entry_of-EntryValid (dir, i + 1) m)
        (λ e v.
          bind (λ now. one e.flagship + count first ≡ count now) (Listed first)
            (claim_flag (dir, i + 1) first e.flagship)
            (λ now. do rest ← entries_of j dir (i + 1) now ms; ok (e ∷ rest.0, rest.1))
            (claim_flag-count (dir, i + 1) first e.flagship)
            (λ now c.
              bind (Listed now) (Listed first) (entries_of j dir (i + 1) now ms)
                (λ rest. ok (e ∷ rest.0, rest.1)) (entries_of-Listed dir (i + 1) now ms)
                (λ rest l. ((v, l.0), omega (arith, l.1, c)))))

  count-le : (o : Option Place) → count o ≤ 1
  unfolding count
  count-le none = omega arith
  count-le (some p) = omega arith

  dirs_of-RecipeValid :
      (flat : Bool) (first : Option Place) (fs : List (Text × V)) (cfg : SessionConfig)
      → Ascending cfg
      → EntriesValid cfg
      → all_marks cfg ≤ count first
      → Ensured RecipeValid (dirs_of j flat first fs cfg)
  unfolding dirs_of
  dirs_of-RecipeValid flat first [] cfg a v m = (a, v, omega (arith, count-le first))
  dirs_of-RecipeValid flat first ((dir, val) ∷ rest) cfg a v m =
      by_tests (flat && text_eq dir (text "version")) (j.is_array val)
        (dirs_of j flat first rest cfg)
        (do
          es ← entries_of j dir 0 first (j.members val)
          dirs_of j flat es.1 rest (insert_dir dir es.0 cfg))
        (dirs_of-RecipeValid flat first rest cfg a v m)
        (bind (Listed first) RecipeValid (entries_of j dir 0 first (j.members val))
          (λ es. dirs_of j flat es.1 rest (insert_dir dir es.0 cfg))
          (entries_of-Listed dir 0 first (j.members val))
          (λ es l.
            dirs_of-RecipeValid flat es.1 rest (insert_dir dir es.0 cfg)
              (insert_dir-Ascending dir es.0 cfg a) (EntriesValid-insert_dir dir es.0 cfg l.0 v)
              (omega (arith, all_marks-insert_dir dir es.0 cfg, l.1, m))))
    where
      by_tests :
          (skip array : Bool) (r s : Checked SessionConfig)
          → Ensured RecipeValid r
          → Ensured RecipeValid s
          → Ensured RecipeValid
              (if skip then r else if array then s else invalid (not_an_array dir))
      by_tests true array r s p q = p
      by_tests false true r s p q = q
      by_tests false false r s p q = tt

  recipe_of-RecipeValid : (v : V) → Ensured Recipe (recipe_of j v)
  unfolding recipe_of all_marks
  recipe_of-RecipeValid v = by_object (j.is_object v)
    where
      by_object :
          (b : Bool)
          → Ensured Recipe (
              if b
              then (do
                _ ← check_version j v
                shape ← shape_of j v
                cfg ← dirs_of j shape.2 none (j.entries shape.1) []
                ok (shape.0, cfg))
              else invalid not_an_object)
      by_object false = tt
      by_object true =
          bind Anything Recipe (check_version j v)
            (λ u. do
              shape ← shape_of j v
              cfg ← dirs_of j shape.2 none (j.entries shape.1) []
              ok (shape.0, cfg))
            (anything (check_version j v))
            (λ u t.
              bind Anything Recipe (shape_of j v)
                (λ shape. do cfg ← dirs_of j shape.2 none (j.entries shape.1) []; ok (shape.0, cfg))
                (anything (shape_of j v))
                (λ shape t'.
                  bind RecipeValid Recipe (dirs_of j shape.2 none (j.entries shape.1) [])
                    (λ cfg. ok (shape.0, cfg))
                    (dirs_of-RecipeValid shape.2 none (j.entries shape.1) [] tt tt (omega arith))
                    (λ cfg w. w)))

  -- A recipe file that is accepted, whatever its text, holds a recipe with its directories in order,
  -- whose managed entries name registered agents and resume strict session ids, and which marks one
  -- flagship at most.
  pub from_json-RecipeValid :
      (content : Text) (name : Option Text) (cfg : SessionConfig)
      → from_json j content ≡ ok (name, cfg)
      → RecipeValid cfg
  unfolding from_json
  from_json-RecipeValid content name cfg h =
      ensured Recipe (from_json j content) (name, cfg)
        (bind Anything Recipe (or_invalid not_json (j.parse_text content)) (recipe_of j)
          (anything (or_invalid not_json (j.parse_text content))) (λ v t. recipe_of-RecipeValid v))
        h
