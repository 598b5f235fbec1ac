-- ===== src/Session/Order.antt =====
-- The order of texts is a strict total order, and the ordered map of src/session.rs keeps it.
use fleetcom.Common.{◌≡◌, refl, true, false, List, [], ◌∷◌, arith, All, Bool-cases, inl, inr, ◌∙◌}
use fleetcom.Text.{Text, text_eq}
use fleetcom.Session.{SessionEntry, SessionConfig, text_lt}
use fleetcom.Session.Codec.{insert_dir}

pub text_lt_trans : (a b c : Text) → text_lt a b ≡ true → text_lt b c ≡ true → text_lt a c ≡ true
unfolding text_lt
text_lt_trans a [] c h k = cc
text_lt_trans a (y ∷ ys) [] h k = cc
text_lt_trans [] (y ∷ ys) (z ∷ zs) h k = refl
text_lt_trans (x ∷ xs) (y ∷ ys) (z ∷ zs) h k = ground (arith, text_lt_trans xs ys zs)

pub text_lt_total : (a b : Text) → text_eq a b ≡ false → text_lt a b ≡ false → text_lt b a ≡ true
unfolding text_lt text_eq
text_lt_total [] [] e h = cc
text_lt_total [] (y ∷ ys) e h = cc
text_lt_total (x ∷ xs) [] e h = refl
text_lt_total (x ∷ xs) (y ∷ ys) e h = ground (arith, text_lt_total xs ys)

pub text_lt_asym : (a b : Text) → text_lt a b ≡ true → (text_lt b a ≡ false) × (text_eq a b ≡ false)
unfolding text_lt text_eq
text_lt_asym [] [] h = cc
text_lt_asym [] (y ∷ ys) h = (refl, refl)
text_lt_asym (x ∷ xs) [] h = cc
text_lt_asym (x ∷ xs) (y ∷ ys) h = ground (arith, text_lt_asym xs ys)

pub text_eq_sym : (a b : Text) → text_eq a b ≡ text_eq b a
unfolding text_eq
text_eq_sym [] [] = refl
text_eq_sym [] (y ∷ ys) = refl
text_eq_sym (x ∷ xs) [] = refl
text_eq_sym (x ∷ xs) (y ∷ ys) = ground (arith, text_eq_sym xs ys)

-- Every key of the map is above a text.
abbrev pub Above : Text → SessionConfig → Type 0
Above k = All (λ f. text_lt k f.0 ≡ true)

-- The keys of an ordered map rise.
abbrev pub Ascending : SessionConfig → Type 0
Ascending [] = Unit {0}
Ascending ((k, es) ∷ rest) = Above k rest × Ascending rest

Above-trans : (a b : Text) (cfg : SessionConfig) → text_lt a b ≡ true → Above b cfg → Above a cfg
Above-trans a b [] h q = tt
Above-trans a b ((k, es) ∷ rest) h q = (text_lt_trans a b k h q.0, Above-trans a b rest h q.1)

Above-insert_dir :
    (k dir : Text) (es : List SessionEntry) (cfg : SessionConfig)
    → text_lt k dir ≡ true
    → Above k cfg
    → Above k (insert_dir dir es cfg)
unfolding insert_dir
Above-insert_dir k dir es [] h q = (h, tt)
Above-insert_dir k dir es ((i, old) ∷ rest) h q = elim (Bool-cases (text_eq i dir)) [
  | inl same ↦ rw same (q.0, q.1)
  | inr other ↦ rw other (elim (Bool-cases (text_lt dir i)) [
    | inl before ↦ rw before (h, (q.0, q.1))
    | inr after ↦ rw after (q.0, Above-insert_dir k dir es rest h q.1)
  ])
]

-- Inserting keeps the keys in order.
pub insert_dir-Ascending :
    (dir : Text) (es : List SessionEntry) (cfg : SessionConfig)
    → Ascending cfg
    → Ascending (insert_dir dir es cfg)
unfolding insert_dir
insert_dir-Ascending dir es [] h = (tt, tt)
insert_dir-Ascending dir es ((k, old) ∷ rest) h = elim (Bool-cases (text_eq k dir)) [
  | inl same ↦ rw same (h.0, h.1)
  | inr other ↦ rw other (elim (Bool-cases (text_lt dir k)) [
    | inl before ↦ rw before ((before, Above-trans dir k rest before h.0), (h.0, h.1))
    | inr after ↦ rw after (
      Above-insert_dir k dir es rest (text_lt_total dir k (text_eq_sym dir k ∙ other) after) h.0,
      insert_dir-Ascending dir es rest h.1,
    )
  ])
]
