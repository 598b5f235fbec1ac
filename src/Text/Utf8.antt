-- ===== src/Text/Utf8.antt =====
-- `str::from_utf8` and `String::from_utf8`: the strict decoder, and what it reads of encoded text.
use fleetcom.Common.{
  ℕ, zero, suc, ◌+◌, ◌-◌, ◌*◌, ◌≤◌, ◌<◌, ◌≡◌, refl, Bool, true, ◌&&◌, ◌⊎◌, inl, inr, Option, none,
  some, List, [], ◌∷◌, ◌++◌, ltb, leb, ◌==◌, if◌then◌else◌, length, length-append, All, ◌>>=◌,
  arith,
}
use fleetcom.Text.{Text, utf8, utf8_char}

-- A continuation byte, and the range that the first one has after some leading bytes.
abbrev is_continuation : ℕ → Bool
is_continuation b = leb 0x80 b && leb b 0xbf

abbrev second_three : ℕ → ℕ → Bool
second_three a b =
    is_continuation b
    && ((if a == 0xe0 then leb 0xa0 b else true) && (if a == 0xed then leb b 0x9f else true))

abbrev second_four : ℕ → ℕ → Bool
second_four a b =
    is_continuation b
    && ((if a == 0xf0 then leb 0x90 b else true) && (if a == 0xf4 then leb b 0x8f else true))

read_two : ℕ → List ℕ → Option (ℕ × List ℕ)
read_two a [] = none
read_two a (b ∷ rest) =
    if is_continuation b then some ((a - 0xc0) * 64 + (b - 0x80), rest) else none

read_three : ℕ → List ℕ → Option (ℕ × List ℕ)
read_three a [] = none
read_three a (b ∷ []) = none
read_three a (b ∷ c ∷ rest) =
    if second_three a b && is_continuation c
    then some ((a - 0xe0) * 4096 + (b - 0x80) * 64 + (c - 0x80), rest)
    else none

read_four : ℕ → List ℕ → Option (ℕ × List ℕ)
read_four a [] = none
read_four a (b ∷ []) = none
read_four a (b ∷ c ∷ []) = none
read_four a (b ∷ c ∷ d ∷ rest) =
    if second_four a b && (is_continuation c && is_continuation d)
    then some ((a - 0xf0) * 262144 + (b - 0x80) * 4096 + (c - 0x80) * 64 + (d - 0x80), rest)
    else none

read_char : List ℕ → Option (ℕ × List ℕ)
unfolding read_two read_three read_four
read_char [] = none
read_char (a ∷ rest) =
    if ltb a 0x80
    then some (a, rest)
    else if leb 0xc2 a && leb a 0xdf
    then read_two a rest
    else if leb 0xe0 a && leb a 0xef
    then read_three a rest
    else if leb 0xf0 a && leb a 0xf4
    then read_four a rest
    else none

-- Each round reads a byte at least, so the number of bytes is fuel enough.
chars : ℕ → List ℕ → Option Text
unfolding read_char
chars fuel [] = some []
chars zero (b ∷ bs) = none
chars (suc fuel) (b ∷ bs) = elim (read_char (b ∷ bs)) [
  | none ↦ none
  | some (c, rest) ↦ (do cs ← chars fuel rest; some (c ∷ cs))
]

unfoldable pub from_utf8 : List ℕ → Option Text
unfolding chars
from_utf8 bytes = chars (length bytes) bytes

-- A Unicode scalar value: what a Rust `char` can be.
abbrev pub IsScalar : ℕ → Type 0
IsScalar c = (c < 0xd800) ⊎ ((0xe000 ≤ c) × (c < 0x110000))

read_char-utf8_char :
    (c : ℕ) (rest : List ℕ) → IsScalar c → read_char (utf8_char c ++ rest) ≡ some (c, rest)
unfolding read_char utf8_char
read_char-utf8_char c rest (inl h) = ground arith
read_char-utf8_char c rest (inr h) = ground arith

length-utf8_char : (c : ℕ) → 0 < length (utf8_char c)
unfolding utf8_char
length-utf8_char c = ground arith

chars_step :
    (fuel b c : ℕ) (bs rest : List ℕ) (cs : Text)
    → read_char (b ∷ bs) ≡ some (c, rest)
    → chars fuel rest ≡ some cs
    → chars (suc fuel) (b ∷ bs) ≡ some (c ∷ cs)
unfolding chars
chars_step fuel b c bs rest cs e h = rw (e, chars) (rw h refl)

chars_char :
    (fuel c : ℕ) (bytes rest : List ℕ) (cs : Text)
    → 0 < length bytes
    → read_char (bytes ++ rest) ≡ some (c, rest)
    → chars fuel rest ≡ some cs
    → chars (suc fuel) (bytes ++ rest) ≡ some (c ∷ cs)
chars_char fuel c [] rest cs p e h = absurd (omega arith)
chars_char fuel c (b ∷ bs) rest cs p e h = chars_step fuel b c (bs ++ rest) rest cs e h

chars-utf8 :
    (fuel : ℕ) (s : Text) → length (utf8 s) ≤ fuel → All IsScalar s → chars fuel (utf8 s) ≡ some s
unfolding utf8 chars
chars-utf8 fuel [] le h = refl
chars-utf8 zero (c ∷ cs) le h =
    absurd (omega (arith, length-utf8_char c, length-append (utf8_char c) (utf8 cs)))
chars-utf8 (suc f) (c ∷ cs) le h =
    chars_char f c (utf8_char c) (utf8 cs) cs (length-utf8_char c)
      (read_char-utf8_char c (utf8 cs) h.0)
      (chars-utf8 f cs (omega (arith, length-utf8_char c, length-append (utf8_char c) (utf8 cs)))
        h.1)

-- Encoded text is read back, where every character is a scalar value.
pub from_utf8-utf8 : (s : Text) → All IsScalar s → from_utf8 (utf8 s) ≡ some s
unfolding from_utf8
from_utf8-utf8 s h = chars-utf8 (length (utf8 s)) s (omega arith) h
