-- ===== src/Session/Store/Names.antt =====
-- What `sanitize` of src/session.rs makes of a recipe's name.
use fleetcom.Common.{
  ℕ, ◌+◌, ◌≤◌, ◌<◌, ◌≡◌, refl, ap, true, false, [], ◌∷◌, ◌++◌, map, arith, All, ltb, Bool-cases,
  inl, inr, Bool, ◌||◌, subst,
}
use fleetcom.Text.{Text, text, len_utf8, byte_len, is_control, trim}
use fleetcom.Session.Store.{
  disallowed, max_stem_bytes, contains, replacement, sanitize_from, sanitize,
}

-- A character that may stand in a file name of the store.
abbrev pub IsFileChar : ℕ → Type 0
IsFileChar c = (is_control c ≡ false) × (contains c disallowed ≡ false)

-- No room is left for the first of the characters that follow.
abbrev pub IsFull : ℕ → Text → Type 0
IsFull n [] = Unit {0}
IsFull n (c ∷ cs) = max_stem_bytes < n + len_utf8 c

or_false : (a b : Bool) → (a || b) ≡ false → (a ≡ false) × (b ≡ false)
or_false true b h = cc
or_false false b h = (refl, h)

underscore-IsFileChar : IsFileChar b'_'
unfolding is_control contains text
underscore-IsFileChar = (refl, refl)

replacement-IsFileChar : (c : ℕ) → IsFileChar (replacement c)
unfolding replacement
replacement-IsFileChar c = elim (Bool-cases (is_control c || contains c disallowed)) [
  | inl bad ↦ rw bad underscore-IsFileChar
  | inr good ↦ rw good (or_false (is_control c) (contains c disallowed) good)
]

sanitize_from-IsFull :
    (len : ℕ) (cs : Text)
    → len ≤ max_stem_bytes
    → (rest : Text) × (map replacement cs ≡ sanitize_from len cs ++ rest)
      × (len + byte_len (sanitize_from len cs) ≤ max_stem_bytes)
      × IsFull (len + byte_len (sanitize_from len cs)) rest
      × All IsFileChar (sanitize_from len cs)
unfolding sanitize_from byte_len
sanitize_from-IsFull len [] h = ([], refl, omega (arith, h), tt, tt)
sanitize_from-IsFull len (c ∷ cs) h =
    let d = replacement c in
    elim (Bool-cases (ltb max_stem_bytes (len + len_utf8 d))) [
      | inl full ↦ rw full (d ∷ map replacement cs, refl, omega (arith, h), ground arith, tt)
      | inr room ↦
          let r = sanitize_from-IsFull (len + len_utf8 d) cs (ground arith) in
          let e : len + len_utf8 d + byte_len (sanitize_from (len + len_utf8 d) cs)
              ≡ len + (len_utf8 d + byte_len (sanitize_from (len + len_utf8 d) cs)) =
            omega arith in
          rw room (
            r.0,
            ap (d ∷◌) r.1,
            omega (arith, r.2),
            subst (λ n. IsFull n r.0) e r.3,
            (replacement-IsFileChar c, r.4),
          )
    ]

-- The file name of a recipe is the longest front of at most 250 bytes, cut between two characters,
-- of its trimmed name with each forbidden character replaced, and holds no control character and none
-- of the characters that are not allowed.
pub sanitize-IsFull :
    (name : Text)
    → (rest : Text) × (map replacement (trim name) ≡ sanitize name ++ rest)
      × (byte_len (sanitize name) ≤ max_stem_bytes)
      × IsFull (byte_len (sanitize name)) rest
      × All IsFileChar (sanitize name)
unfolding sanitize
sanitize-IsFull name =
    let r = sanitize_from-IsFull 0 (trim name) (omega arith) in
    let e : 0 + byte_len (sanitize_from 0 (trim name)) ≡ byte_len (sanitize_from 0 (trim name)) =
      omega arith in
    (r.0, r.1, omega (arith, r.2), subst (λ n. IsFull n r.0) e r.3, r.4)
