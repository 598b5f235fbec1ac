-- ===== src/Session/RoundTrip.antt =====
-- A recipe that is saved loads back: src/session.rs, `to_json` and `from_json`.
use fleetcom.Common.{
  ℕ, ◌+◌, ◌≤◌, ◌≡◌, refl, Bool, true, false, Option, none, some, List, [], ◌∷◌, ◌++◌, append-nil,
  append_assoc, map, arith, All, if◌then◌else◌, ap, ◌∙◌, sym,
}
use fleetcom.Text.{Text, text, text_eq}
use fleetcom.Protocol.Wire.{
  Jzon, Distinct, OtherKeys, object, has_key-object, is_object-object, entries-object, get-object,
}
use fleetcom.Protocol.Fields.{set_str_field, u64_field}
use fleetcom.Session.{SessionEntry, SessionConfig, text_lt}
use fleetcom.Session.Order.{Above, Ascending, text_lt_asym}
use fleetcom.Session.Safety.{EntryValid, EntriesValid, RecipeValid, marks, all_marks, one, count}
use fleetcom.Session.Entries.{ok_step, entry_of-entry_json}
use fleetcom.Session.Codec.{
  Place, ok, or_invalid, insert_dir, format_version, entry_json, dir_field, dirs_json,
  recipe_fields, to_json, check_version, in_range, shape_of, claim_flag, entries_of, dirs_of,
  recipe_of, from_json, name_not_text, not_json,
}

-- The place of the mark after the entries of a directory.
last_mark : Text → ℕ → Option Place → List SessionEntry → Option Place
last_mark dir i first [] = first
last_mark dir i first (e ∷ es) =
    last_mark dir (i + 1) (if e.flagship then some (dir, i + 1) else first) es

claim_flag-last :
    (at : Place) (first : Option Place) (b : Bool)
    → one b + count first ≤ 1
    → claim_flag at first b ≡ ok (if b then some at else first)
unfolding count
claim_flag-last at first false h = refl
claim_flag-last at none true h = refl
claim_flag-last at (some p) true h = absurd (omega arith)

count-last :
    (at : Place) (first : Option Place) (b : Bool)
    → one b + count first ≤ 1
    → count (if b then some at else first) ≡ one b + count first
unfolding count
count-last at first false h = omega arith
count-last at none true h = omega arith
count-last at (some p) true h = absurd (omega arith)

count-last_mark :
    (dir : Text) (i : ℕ) (first : Option Place) (es : List SessionEntry)
    → marks es + count first ≤ 1
    → count (last_mark dir i first es) ≡ marks es + count first
unfolding last_mark marks
count-last_mark dir i first [] h = omega arith
count-last_mark dir i first (e ∷ es) h =
    let c = count-last (dir, i + 1) first e.flagship (omega arith) in
    omega (
      arith,
      c,
      count-last_mark dir (i + 1) (if e.flagship then some (dir, i + 1) else first) es
          (omega (arith, c)),
    )

-- Every key of the map is below a text.
abbrev Below : Text → SessionConfig → Type 0
Below k = All (λ f. text_lt f.0 k ≡ true)

-- The directories that are still to come are above those that are there.
abbrev After : SessionConfig → SessionConfig → Type 0
After cfg acc = All (λ f. Below f.0 acc) cfg

insert_dir-last :
    (dir : Text) (es : List SessionEntry) (acc : SessionConfig)
    → Below dir acc
    → insert_dir dir es acc ≡ acc ++ (dir, es) ∷ []
unfolding insert_dir
insert_dir-last dir es [] h = refl
insert_dir-last dir es ((k, old) ∷ rest) h =
    let low = text_lt_asym k dir h.0 in
    rw (low.1, low.0) (ap ((k, old) ∷◌) (insert_dir-last dir es rest h.1))

Below-end :
    (k dir : Text) (es : List SessionEntry) (acc : SessionConfig)
    → Below k acc
    → text_lt dir k ≡ true
    → Below k (acc ++ (dir, es) ∷ [])
Below-end k dir es [] h l = (l, tt)
Below-end k dir es (f ∷ acc) h l = (h.0, Below-end k dir es acc h.1 l)

After-end :
    (dir : Text) (es : List SessionEntry) (cfg acc : SessionConfig)
    → After cfg acc
    → Above dir cfg
    → After cfg (acc ++ (dir, es) ∷ [])
After-end dir es [] acc h a = tt
After-end dir es (f ∷ cfg) acc h a =
    (Below-end f.0 dir es acc h.0 a.0, After-end dir es cfg acc h.1 a.1)

After-empty : (cfg : SessionConfig) → After cfg []
After-empty [] = tt
After-empty (f ∷ cfg) = (tt, After-empty cfg)

module _ {V : Type 0} (j : Jzon V) where
  entries_of-entries :
      (dir : Text) (i : ℕ) (first : Option Place) (es : List SessionEntry)
      → All EntryValid es
      → marks es + count first ≤ 1
      → entries_of j dir i first (map (entry_json j) es) ≡ ok (es, last_mark dir i first es)
  unfolding entries_of last_mark marks
  entries_of-entries dir i first [] v m = refl
  entries_of-entries dir i first (e ∷ es) v m =
      let c = count-last (dir, i + 1) first e.flagship (omega arith) in
      ok_step _ (entry_of-entry_json j (dir, i + 1) e v.0) (
        ok_step _ (claim_flag-last (dir, i + 1) first e.flagship (omega arith)) (
          ok_step _
            (entries_of-entries dir (i + 1) (if e.flagship then some (dir, i + 1) else first) es v.1
              (omega (arith, c)))
            refl))

  dirs_of-dirs :
      (first : Option Place) (cfg acc : SessionConfig)
      → Ascending cfg
      → EntriesValid cfg
      → all_marks cfg + count first ≤ 1
      → After cfg acc
      → dirs_of j false first (map (dir_field j) cfg) acc ≡ ok (acc ++ cfg)
  unfolding dirs_of all_marks
  dirs_of-dirs first [] acc a v m h = ap ok (sym (append-nil acc))
  dirs_of-dirs first ((dir, es) ∷ cfg) acc a v m h =
      let now = last_mark dir 0 first es in
      let c = count-last_mark dir 0 first es (omega arith) in
      rw (j.is_array-array (map (entry_json j) es)) (
        ok_step _
          (ap (entries_of j dir 0 first) (j.members-array (map (entry_json j) es))
            ∙ entries_of-entries dir 0 first es v.0 (omega arith))
          (ap (dirs_of j false now (map (dir_field j) cfg)) (insert_dir-last dir es acc h.0)
            ∙ dirs_of-dirs now cfg (acc ++ (dir, es) ∷ []) a.1 v.1 (omega (arith, c))
                (After-end dir es cfg acc h.1 a.0)
            ∙ ap ok (append_assoc acc ((dir, es) ∷ []) cfg)))

  OtherKeys-Above :
      (k : Text) (cfg : SessionConfig) → Above k cfg → OtherKeys k (map (dir_field j) cfg)
  OtherKeys-Above k [] h = tt
  OtherKeys-Above k (f ∷ cfg) h = ((text_lt_asym k f.0 h.0).1, OtherKeys-Above k cfg h.1)

  Distinct-Ascending : (cfg : SessionConfig) → Ascending cfg → Distinct (map (dir_field j) cfg)
  Distinct-Ascending [] h = tt
  Distinct-Ascending ((k, es) ∷ cfg) h = (OtherKeys-Above k cfg h.0, Distinct-Ascending cfg h.1)

  check_version-recipe :
      (name : Text) (cfg : SessionConfig)
      → check_version j (object j (recipe_fields j name cfg)) ≡ ok tt
  unfolding check_version text text_eq
  check_version-recipe name cfg =
      let fs = recipe_fields j name cfg in
      rw (has_key-object j (text "version") fs)
        (ap in_range (u64_field j fs (text "version") format_version refl (omega arith)))

  dirs_back :
      (name : Text) (cfg : SessionConfig)
      → j.get (object j (recipe_fields j name cfg)) (text "dirs") ≡ dirs_json j cfg
  unfolding text text_eq
  dirs_back name cfg = get-object j (text "dirs") (recipe_fields j name cfg)

  wrapped :
      (name : Text) (cfg : SessionConfig)
      → j.is_object (j.get (object j (recipe_fields j name cfg)) (text "dirs")) ≡ true
  unfolding dirs_json
  wrapped name cfg =
      ap j.is_object (dirs_back name cfg) ∙ is_object-object j (map (dir_field j) cfg)

  shape_of-recipe :
      (name : Text) (cfg : SessionConfig)
      → shape_of j (object j (recipe_fields j name cfg)) ≡ ok (some name, dirs_json j cfg, false)
  unfolding shape_of text text_eq
  shape_of-recipe name cfg =
      let fs = recipe_fields j name cfg in
      rw (wrapped name cfg) (
        ok_step _ (ap (or_invalid name_not_text) (set_str_field j fs (text "name") name refl))
          (ap (λ d. ok (some name, d, false)) (dirs_back name cfg)))

  -- What is saved under a name loads back: the name and the same recipe.
  pub from_json-to_json :
      (name : Text) (cfg : SessionConfig)
      → RecipeValid cfg
      → from_json j (to_json j name cfg) ≡ ok (some name, cfg)
  unfolding from_json to_json recipe_of dirs_json count
  from_json-to_json name cfg v =
      let fs = recipe_fields j name cfg in
      ok_step _ (ap (or_invalid not_json) (j.parse_text-pretty (object j fs))) (
        rw (is_object-object j fs) (
          ok_step _ (check_version-recipe name cfg) (
            ok_step _ (shape_of-recipe name cfg) (
              ok_step _
                (ap (λ es. dirs_of j false none es [])
                    (entries-object j (map (dir_field j) cfg) (Distinct-Ascending cfg v.0))
                  ∙ dirs_of-dirs none cfg [] v.0 v.1 (omega (arith, v.2)) (After-empty cfg))
                refl))))
