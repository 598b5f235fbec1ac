-- ===== src/Supervisor/Labels/Bounds.antt =====
-- What `normalize_label` and `normalize_group` of src/supervisor.rs store.
use fleetcom.Common.{
  ℕ, zero, suc, ◌≤◌, ◌≡◌, ◌≢◌, refl, subst, Bool, true, false, not, Option, none, some, [], ◌∷◌,
  take, keep, length, length-take, all, some-injective, arith, inl, inr, Bool-cases,
}
use fleetcom.Text.{Text, is_control, trim, trim_start, trim_end, is_whitespace, text_eq}
use fleetcom.Text.Laws.{text_eq_self}
use fleetcom.Protocol.{unassigned}
use fleetcom.Supervisor.Labels.{
  normalize_label, normalize_group, non_empty, strip_label, not_reserved, max_label_chars,
}

abbrev printable : ℕ → Bool
printable c = not (is_control c)

all-keep : (p : ℕ → Bool) (s : Text) → all p (keep p s) ≡ true
all-keep p [] = refl
all-keep p (c ∷ cs) = ground (arith, all-keep p cs)

all-take : (p : ℕ → Bool) (n : ℕ) (s : Text) → all p s ≡ true → all p (take n s) ≡ true
all-take p zero s h = refl
all-take p (suc n) [] h = refl
all-take p (suc n) (c ∷ cs) h = ground (arith, all-take p n cs)

all-trim_start : (p : ℕ → Bool) (s : Text) → all p s ≡ true → all p (trim_start s) ≡ true
unfolding trim_start
all-trim_start p [] h = h
all-trim_start p (c ∷ cs) h = ground (arith, all-trim_start p cs)

all-trim_end : (p : ℕ → Bool) (s : Text) → all p s ≡ true → all p (trim_end s) ≡ true
unfolding trim_end
all-trim_end p [] h = h
all-trim_end p (c ∷ cs) h = ground (arith, all-trim_end p cs)

all-trim : (p : ℕ → Bool) (s : Text) → all p s ≡ true → all p (trim s) ≡ true
unfolding trim
all-trim p s h = all-trim_end p (trim_start s) (all-trim_start p s h)

-- The first character of a trimmed text, where there is one, is no whitespace.
abbrev pub starts_black : Text → Bool
starts_black [] = true
starts_black (c ∷ cs) = not (is_whitespace c)

starts_black-trim_start : (s : Text) → starts_black (trim_start s) ≡ true
unfolding trim_start
starts_black-trim_start [] = refl
starts_black-trim_start (c ∷ cs) = ground (arith, starts_black-trim_start cs)

starts_black-trim_end : (s : Text) → starts_black s ≡ true → starts_black (trim_end s) ≡ true
unfolding trim_end
starts_black-trim_end [] h = h
starts_black-trim_end (c ∷ cs) h = ground arith

starts_black-take : (n : ℕ) (s : Text) → starts_black s ≡ true → starts_black (take n s) ≡ true
starts_black-take zero s h = refl
starts_black-take (suc n) [] h = refl
starts_black-take (suc n) (c ∷ cs) h = h

-- A stored label has between one and 64 characters, none of them a control character, and it does
-- not start with whitespace.
abbrev pub IsLabel : Text → Type 0
IsLabel g =
    (1 ≤ length g)
    × (length g ≤ max_label_chars)
    × (all printable g ≡ true)
    × (starts_black g ≡ true)

non_empty-IsLabel :
    (s g : Text)
    → length s ≤ max_label_chars
    → all printable s ≡ true
    → starts_black s ≡ true
    → non_empty s ≡ some g
    → IsLabel g
non_empty-IsLabel [] g short ok black e = cc
non_empty-IsLabel (c ∷ cs) g short ok black e =
    subst IsLabel (some-injective e) (omega arith, short, ok, black)

-- Whatever the client sends, a label that is stored satisfies `IsLabel`.
pub normalize_label-IsLabel :
    (label : Option Text) (g : Text) → normalize_label label ≡ some g → IsLabel g
unfolding normalize_label trim
normalize_label-IsLabel none g e = cc
normalize_label-IsLabel (some label) g e =
    non_empty-IsLabel (take max_label_chars (trim (strip_label label))) g
      (omega (arith, length-take max_label_chars (trim (strip_label label))))
      (all-take printable max_label_chars _ (all-trim printable _ (all-keep printable label)))
      (starts_black-take max_label_chars _
        (starts_black-trim_end _ (starts_black-trim_start (strip_label label))))
      e

not_reserved_keeps :
    (o : Option Text) (g : Text)
    → not_reserved o ≡ some g
    → (o ≡ some g) × (text_eq g unassigned ≡ false)
not_reserved_keeps none g e = cc
not_reserved_keeps (some s) g e = elim (Bool-cases (text_eq s unassigned)) [
  | inl b ↦ let bad : none ≡ some g = rw b at e in cc
  | inr b ↦
      let q : some s ≡ some g = rw b at e in
      (q, subst (λ x. text_eq x unassigned ≡ false) (some-injective q) b)
]

-- A group that is stored is a label, and it is not the reserved name of the ungrouped rows.
pub normalize_group-IsLabel :
    (label : Option Text) (g : Text) → normalize_group label ≡ some g → IsLabel g × (g ≢ unassigned)
unfolding normalize_group
normalize_group-IsLabel label g e =
    let (kept, other) = not_reserved_keeps (normalize_label label) g e in
    (
      normalize_label-IsLabel label g kept,
      λ same. differs (subst (λ x. text_eq x unassigned ≡ false) same other),
    )
  where
    differs : text_eq unassigned unassigned ≡ false → ⊥
    differs h = cc (h, text_eq_self unassigned)
