-- ===== src/Session/Store/Snapshots.antt =====
-- Which files of the recovery directory `prune_recovery` of src/session.rs may remove, by their names.
use fleetcom.Common.{
  ℕ, ◌^◌, ◌<◌, ◌≡◌, ◌≢◌, ◌↔◌, refl, sym, ap, ◌∙◌, subst, Bool, true, false, not, Option, none, some,
  [], ◌∷◌, ◌++◌, arith, All, all, ◌==◌, Bool-cases, inl, inr, some-injective,
}
use fleetcom.Text.{Text, text, text_eq}
use fleetcom.Text.Laws.{text_eq→eq, text_eq_self}
use fleetcom.Text.Decimal.{IsDigit, value}
use fleetcom.Session.Store.{
  split_behind, rsplit_once, stem_and_extension, is_json, file_stem, has_json_extension,
  is_ascii_digit, positive_pid, pid_behind, stem_pid, not_dead, stem_names_live_writer, prunable,
}

-- The name ends in the id of a process that is not known to be dead.
abbrev pub LiveWriter : (ℕ → Bool) → Text → Type 0
LiveWriter dead stem =
    (front : Text) × (digits : Text) × (stem ≡ front ++ b'-' ∷ digits)
    × All IsDigit digits
    × (0 < value 0 digits)
    × (value 0 digits < 2 ^ 31)
    × (dead (value 0 digits) ≡ false)

-- A JSON file with a stem, which is not that of the snapshot being written and names no live writer.
abbrev pub Old : (ℕ → Bool) → Text → Text → Type 0
Old dead keep_stem f =
    (stem : Text) × (f ≡ stem ++ text ".json")
    × (stem ≢ [])
    × (stem ≢ keep_stem)
    × ¬ LiveWriter dead stem

abbrev Avoids : ℕ → Text → Type 0
Avoids c = All (λ x. (x == c) ≡ false)

rsplit_once-Avoids : (c : ℕ) (s : Text) → Avoids c s → rsplit_once c s ≡ none
unfolding rsplit_once
rsplit_once-Avoids c [] h = refl
rsplit_once-Avoids c (x ∷ xs) h = rw (rsplit_once-Avoids c xs h.1) (rw h.0 refl)

rsplit_once-at : (c : ℕ) (a b : Text) → Avoids c b → rsplit_once c (a ++ c ∷ b) ≡ some (a, b)
unfolding rsplit_once
rsplit_once-at c [] b h = rw (rsplit_once-Avoids c b h) (ground arith)
rsplit_once-at c (x ∷ a) b h = rw (rsplit_once-at c a b h) refl

rsplit_once-parts : (c : ℕ) (s a b : Text) → rsplit_once c s ≡ some (a, b) → s ≡ a ++ c ∷ b
unfolding rsplit_once
rsplit_once-parts c [] a b e = cc
rsplit_once-parts c (x ∷ xs) a b e =
    by_rest (rsplit_once c xs) refl (λ p q r. rsplit_once-parts c xs p q r) e
  where
    by_rest :
        (r : Option (Text × Text))
        → rsplit_once c xs ≡ r
        → ((p q : Text) → rsplit_once c xs ≡ some (p, q) → xs ≡ p ++ c ∷ q)
        → split_behind c x xs r ≡ some (a, b)
        → x ∷ xs ≡ a ++ c ∷ b
    by_rest (some (p, q)) r later h =
        let same = some-injective h in
        ap (x ∷◌) (later p q r) ∙ ap (λ (k : Text × Text). k.0 ++ c ∷ k.1) same
    by_rest none r later h = ground arith

json-Avoids : Avoids b'.' (text "json")
unfolding text
json-Avoids = (refl, (refl, (refl, (refl, tt))))

dot_json : text ".json" ≡ b'.' ∷ text "json"
unfolding text
dot_json = refl

rsplit_once-json :
    (stem : Text) → rsplit_once b'.' (stem ++ text ".json") ≡ some (stem, text "json")
rsplit_once-json stem = rw dot_json (rsplit_once-at b'.' stem (text "json") json-Avoids)

stem-json :
    (stem : Text)
    → stem ≢ []
    → (file_stem (stem ++ text ".json") ≡ stem) × (has_json_extension (stem ++ text ".json") ≡ true)
unfolding file_stem has_json_extension rsplit_once
stem-json [] h = absurd (h refl)
stem-json (c ∷ cs) h = (
  ap (λ r. (stem_and_extension ((c ∷ cs) ++ text ".json") r).0) (rsplit_once-json (c ∷ cs)),
  ap (λ r. is_json (stem_and_extension ((c ∷ cs) ++ text ".json") r).1) (rsplit_once-json (c ∷ cs))
      ∙ text_eq_self (text "json"),
)

json-stem :
    (f : Text)
    → has_json_extension f ≡ true
    → (f ≡ file_stem f ++ text ".json") × (file_stem f ≢ [])
unfolding file_stem has_json_extension
json-stem f h = by_split (rsplit_once b'.' f) refl h
  where
    by_split :
        (r : Option (Text × Text))
        → rsplit_once b'.' f ≡ r
        → is_json (stem_and_extension f r).1 ≡ true
        → (f ≡ (stem_and_extension f r).0 ++ text ".json") × ((stem_and_extension f r).0 ≢ [])
    by_split none e j = cc
    by_split (some ([], ext)) e j = cc
    by_split (some (c ∷ cs, ext)) e j = (
      rsplit_once-parts b'.' f (c ∷ cs) ext e
          ∙ ap (λ (x : Text). (c ∷ cs) ++ b'.' ∷ x) (text_eq→eq ext (text "json") j)
          ∙ ap ((c ∷ cs) ++◌) (sym dot_json),
      λ empty. cc,
    )

json_injective : (a b : Text) → a ++ text ".json" ≡ b ++ text ".json" → a ≡ b
json_injective a b e =
    let same =
      some-injective (sym (rsplit_once-json a) ∙ ap (rsplit_once b'.') e ∙ rsplit_once-json b) in
    ap (λ (k : Text × Text). k.0) same

digits_avoid : (ds : Text) → All IsDigit ds → Avoids b'-' ds
digits_avoid [] h = tt
digits_avoid (d ∷ ds) h = (ground arith, digits_avoid ds h.1)

all-IsDigit : (ds : Text) → All IsDigit ds → all is_ascii_digit ds ≡ true
unfolding is_ascii_digit
all-IsDigit [] h = refl
all-IsDigit (d ∷ ds) h = ground (arith, all-IsDigit ds h.1)

IsDigit-all : (ds : Text) → all is_ascii_digit ds ≡ true → All IsDigit ds
unfolding is_ascii_digit
IsDigit-all [] h = tt
IsDigit-all (d ∷ ds) h = (ground arith, IsDigit-all ds (ground arith))

live-stem :
    (dead : ℕ → Bool) (stem : Text) → LiveWriter dead stem → stem_names_live_writer dead stem ≡ true
unfolding stem_names_live_writer stem_pid positive_pid
live-stem dead stem (front, digits, parts, all_digits, above, below, lives) =
    let split : rsplit_once b'-' stem ≡ some (front, digits) =
      ap (rsplit_once b'-') parts
      ∙ rsplit_once-at b'-' front digits (digits_avoid digits all_digits) in
    let digital = all-IsDigit digits all_digits in
    let p : positive_pid digits ≡ some (value 0 digits) = ground arith in
    ap (λ r. not_dead dead (pid_behind r)) split ∙ ap (not_dead dead) p ∙ ap not lives

positive :
    (dead : ℕ → Bool) (digits : Text)
    → not_dead dead (positive_pid digits) ≡ true
    → All IsDigit digits
      × (0 < value 0 digits)
      × (value 0 digits < 2 ^ 31)
      × (dead (value 0 digits) ≡ false)
unfolding positive_pid
positive dead digits h =
    let digital : all is_ascii_digit digits ≡ true = ground arith in
    (IsDigit-all digits digital, ground arith, ground arith, ground arith)

stem-live :
    (dead : ℕ → Bool) (stem : Text) → stem_names_live_writer dead stem ≡ true → LiveWriter dead stem
unfolding stem_names_live_writer stem_pid
stem-live dead stem h = by_split (rsplit_once b'-' stem) refl h
  where
    by_split :
        (r : Option (Text × Text))
        → rsplit_once b'-' stem ≡ r
        → not_dead dead (pid_behind r) ≡ true
        → LiveWriter dead stem
    by_split none e live = cc
    by_split (some (front, digits)) e live =
        let (all_digits, above, below, lives) = positive dead digits live in
        (front, digits, rsplit_once-parts b'-' stem front digits e, all_digits, above, below, lives)

-- The three filters of the pruning let through exactly the files that are old.
pub prunable-Old :
    (dead : ℕ → Bool) (keep_stem f : Text)
    → (prunable dead keep_stem f ≡ true) ↔ Old dead keep_stem f
unfolding prunable
prunable-Old dead keep_stem f = (there, back)
  where
    there : prunable dead keep_stem f ≡ true → Old dead keep_stem f
    there h =
        let json : has_json_extension f ≡ true = ground arith in
        let other : text_eq f (keep_stem ++ text ".json") ≡ false = ground arith in
        let spared : stem_names_live_writer dead (file_stem f) ≡ false = ground arith in
        let (parts, named) = json-stem f json in
        (
          file_stem f,
          parts,
          named,
          (λ same.
              let e : f ≡ keep_stem ++ text ".json" = parts ∙ ap (◌++ text ".json") same in
              cc (other, ap (text_eq f) (sym e), text_eq_self f)),
          (λ live. cc (spared, live-stem dead (file_stem f) live)),
        )

    back : Old dead keep_stem f → prunable dead keep_stem f ≡ true
    back (stem, parts, named, other, spared) =
        let (s, json) = stem-json stem named in
        let e = ap file_stem parts ∙ s in
        let j : has_json_extension f ≡ true = ap has_json_extension parts ∙ json in
        let o : text_eq f (keep_stem ++ text ".json") ≡ false =
          elim (Bool-cases (text_eq f (keep_stem ++ text ".json"))) [
            | inl same ↦
                absurd (other (json_injective stem keep_stem (sym parts ∙ text_eq→eq f _ same)))
            | inr apart ↦ apart
          ] in
        let l : stem_names_live_writer dead (file_stem f) ≡ false =
          elim (Bool-cases (stem_names_live_writer dead (file_stem f))) [
            | inl live ↦
                absurd (spared (subst (LiveWriter dead) e (stem-live dead (file_stem f) live)))
            | inr dead ↦ dead
          ] in
        rw j (rw o (rw l refl))
