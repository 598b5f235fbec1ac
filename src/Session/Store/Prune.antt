-- ===== src/Session/Store/Prune.antt =====
-- Which recovery snapshots `prune_recovery` of src/session.rs removes.
use fleetcom.Common.{
  ◌↔◌, ℕ, zero, suc, ◌+◌, ◌-◌, ◌≤◌, ◌≡◌, refl, ap, ◌∙◌, Bool, true, false, ◌⊎◌, inl, inr, List, [],
  ◌∷◌, arith, All, ltb, Bool-cases, length, take, drop, keep, if◌then◌else◌,
}
use fleetcom.Text.{Text, text_eq}
use fleetcom.Session.{text_lt}
use fleetcom.Session.Store.Snapshots.{Old, prunable-Old}
use fleetcom.Session.Store.{recovery_keep, insert_name, sort, surplus, prunable, prune_recovery}

-- How often a name stands in a list.
unfoldable pub occurrences : Text → List Text → ℕ
occurrences f [] = 0
occurrences f (g ∷ gs) = (if text_eq f g then 1 else 0) + occurrences f gs

abbrev NotBelow : Text → List Text → Type 0
NotBelow f = All (λ g. text_lt g f ≡ false)

abbrev IsSorted : List Text → Type 0
IsSorted [] = Unit {0}
IsSorted (f ∷ fs) = NotBelow f fs × IsSorted fs

not_below_trans : (a b c : Text) → text_lt b a ≡ false → text_lt c b ≡ false → text_lt c a ≡ false
unfolding text_lt
not_below_trans [] b c h k = refl
not_below_trans (x ∷ xs) [] c h k = cc
not_below_trans (x ∷ xs) (y ∷ ys) [] h k = cc
not_below_trans (x ∷ xs) (y ∷ ys) (z ∷ zs) h k = ground (arith, not_below_trans xs ys zs)

NotBelow-trans : (a b : Text) (fs : List Text) → text_lt b a ≡ false → NotBelow b fs → NotBelow a fs
NotBelow-trans a b [] h q = tt
NotBelow-trans a b (f ∷ fs) h q = (not_below_trans a b f h q.0, NotBelow-trans a b fs h q.1)

below_asym : (a b : Text) → text_lt a b ≡ true → text_lt b a ≡ false
unfolding text_lt
below_asym [] [] h = cc
below_asym [] (y ∷ ys) h = refl
below_asym (x ∷ xs) [] h = cc
below_asym (x ∷ xs) (y ∷ ys) h = ground (arith, below_asym xs ys)

module _ (P : Text → Type 0) where
  All-insert_name : (f : Text) (fs : List Text) → P f → All P fs → All P (insert_name f fs)
  unfolding insert_name
  All-insert_name f [] p q = (p, tt)
  All-insert_name f (g ∷ gs) p q = elim (Bool-cases (text_lt g f)) [
    | inl below ↦ rw below (q.0, All-insert_name f gs p q.1)
    | inr after ↦ rw after (p, q)
  ]

  All-sort : (fs : List Text) → All P fs → All P (sort fs)
  unfolding sort
  All-sort [] q = tt
  All-sort (f ∷ fs) q = All-insert_name f (sort fs) q.0 (All-sort fs q.1)

  All-take : (n : ℕ) (fs : List Text) → All P fs → All P (take n fs)
  All-take zero fs q = tt
  All-take (suc n) [] q = tt
  All-take (suc n) (f ∷ fs) q = (q.0, All-take n fs q.1)

  All-drop : (n : ℕ) (fs : List Text) → All P fs → All P (drop n fs)
  All-drop zero fs q = q
  All-drop (suc n) [] q = tt
  All-drop (suc n) (f ∷ fs) q = All-drop n fs q.1

insert_name-IsSorted : (f : Text) (fs : List Text) → IsSorted fs → IsSorted (insert_name f fs)
unfolding insert_name
insert_name-IsSorted f [] s = (tt, tt)
insert_name-IsSorted f (g ∷ gs) s = elim (Bool-cases (text_lt g f)) [
  | inl below ↦ rw below (
    All-insert_name (λ h. text_lt h g ≡ false) f gs (below_asym g f below) s.0,
    insert_name-IsSorted f gs s.1,
  )
  | inr after ↦ rw after ((after, NotBelow-trans f g gs after s.0), s)
]

sort-IsSorted : (fs : List Text) → IsSorted (sort fs)
unfolding sort
sort-IsSorted [] = tt
sort-IsSorted (f ∷ fs) = insert_name-IsSorted f (sort fs) (sort-IsSorted fs)

occurrences-insert_name :
    (x f : Text) (fs : List Text) → occurrences x (insert_name f fs) ≡ occurrences x (f ∷ fs)
unfolding insert_name occurrences
occurrences-insert_name x f [] = refl
occurrences-insert_name x f (g ∷ gs) = ground (arith, occurrences-insert_name x f gs)

occurrences-sort : (x : Text) (fs : List Text) → occurrences x (sort fs) ≡ occurrences x fs
unfolding sort occurrences
occurrences-sort x [] = refl
occurrences-sort x (f ∷ fs) =
    occurrences-insert_name x f (sort fs)
    ∙ ap (λ n. (if text_eq x f then 1 else 0) + n) (occurrences-sort x fs)

length-insert_name : (f : Text) (fs : List Text) → length (insert_name f fs) ≡ suc (length fs)
unfolding insert_name
length-insert_name f [] = refl
length-insert_name f (g ∷ gs) = ground (arith, length-insert_name f gs)

length-sort : (fs : List Text) → length (sort fs) ≡ length fs
unfolding sort
length-sort [] = refl
length-sort (f ∷ fs) = length-insert_name f (sort fs) ∙ ap suc (length-sort fs)

occurrences-take :
    (x : Text) (n : ℕ) (fs : List Text)
    → occurrences x (take n fs) + occurrences x (drop n fs) ≡ occurrences x fs
unfolding occurrences
occurrences-take x zero fs = omega arith
occurrences-take x (suc n) [] = refl
occurrences-take x (suc n) (f ∷ fs) = let e = occurrences-take x n fs in omega arith

length-drop : (n : ℕ) (fs : List Text) → length (drop n fs) ≡ length fs - n
length-drop zero fs = omega arith
length-drop (suc n) [] = omega arith
length-drop (suc n) (f ∷ fs) = length-drop n fs ∙ omega arith

-- The front of a sorted list is not above what follows it.
NotBelow-take :
    (n : ℕ) (fs : List Text) → IsSorted fs → All (λ f. NotBelow f (drop n fs)) (take n fs)
NotBelow-take zero fs s = tt
NotBelow-take (suc n) [] s = tt
NotBelow-take (suc n) (f ∷ fs) s =
    (All-drop (λ g. text_lt g f ≡ false) n fs s.0, NotBelow-take n fs s.1)

keep-Old :
    (dead : ℕ → Bool) (keep_stem : Text) (fs : List Text)
    → All (Old dead keep_stem) (keep (prunable dead keep_stem) fs)
keep-Old dead keep_stem [] = tt
keep-Old dead keep_stem (f ∷ fs) = elim (Bool-cases (prunable dead keep_stem f)) [
  | inl in_scope ↦
      rw in_scope ((prunable-Old dead keep_stem f).0 in_scope, keep-Old dead keep_stem fs)
  | inr spared ↦ rw spared (keep-Old dead keep_stem fs)
]

-- What the removal of a list leaves of another.
abbrev pub Leaves : (removed snapshots : List Text) → Type 0
Leaves removed snapshots =
    (left : List Text) × ((f : Text)
      → occurrences f removed + occurrences f left ≡ occurrences f snapshots)
    × (length left ≤ recovery_keep - 1)
    × ((removed ≡ []) ⊎ (length left ≡ recovery_keep - 1))
    × All (λ old. All (λ g. text_lt g old ≡ false) left) removed

nothing_removed :
    (f : Text) (fs : List Text) → occurrences f [] + occurrences f fs ≡ occurrences f fs
unfolding occurrences
nothing_removed f fs = omega arith

surplus-Leaves : (fs : List Text) → Leaves (surplus fs) fs
unfolding surplus
surplus-Leaves fs = elim (Bool-cases (ltb (length fs) recovery_keep)) [
  | inl few ↦ rw few (fs, (λ f. nothing_removed f fs), ground arith, inl refl, tt)
  | inr many ↦
      let n = length fs - (recovery_keep - 1) in
      let e : length (drop n (sort fs)) ≡ recovery_keep - 1 =
        length-drop n (sort fs) ∙ ap (λ m. m - n) (length-sort fs) ∙ ground arith in
      rw many (
        drop n (sort fs),
        (λ f. occurrences-take f n (sort fs) ∙ occurrences-sort f fs),
        omega (arith, e),
        inr e,
        NotBelow-take n (sort fs) (sort-IsSorted fs),
      )
]

surplus-All : (P : Text → Type 0) (fs : List Text) → All P fs → All P (surplus fs)
unfolding surplus
surplus-All P fs q = elim (Bool-cases (ltb (length fs) recovery_keep)) [
  | inl few ↦ rw few tt
  | inr many ↦ rw many (All-take P (length fs - (recovery_keep - 1)) (sort fs) (All-sort P fs q))
]

-- A file is up for pruning exactly where it is a JSON file with a stem, is not the snapshot being
-- written, and its name does not end in the id of a process not known to be dead. Pruning removes such
-- files only. Of them it leaves nine at most, and exactly nine where it removes any; each of them is
-- either removed or left; and none that is left has a name below that of one that is removed.
pub prune_recovery-Leaves :
    (dead : ℕ → Bool) (keep_stem : Text) (entries : List Text)
    → ((f : Text) → (prunable dead keep_stem f ≡ true) ↔ Old dead keep_stem f)
      × All (Old dead keep_stem) (prune_recovery dead keep_stem entries)
      × Leaves (prune_recovery dead keep_stem entries) (keep (prunable dead keep_stem) entries)
unfolding prune_recovery
prune_recovery-Leaves dead keep_stem entries =
    let fs = keep (prunable dead keep_stem) entries in
    (
      prunable-Old dead keep_stem,
      surplus-All (Old dead keep_stem) fs (keep-Old dead keep_stem entries),
      surplus-Leaves fs,
    )
