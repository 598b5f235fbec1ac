-- ===== src/Text/Decimal.antt =====
-- Decimal numerals are read back: `decimal` is `{}` on an unsigned integer.
use fleetcom.Common.{
  ℕ, zero, suc, ◌+◌, ◌-◌, ◌*◌, ◌/◌, ◌%◌, ◌≤◌, ◌<◌, ◌≡◌, refl, ◌∙◌, ◌≡◌, [], ◌∷◌, ◌++◌, All,
  All-append, ltb, if◌then◌else◌, Bool-cases, inl, inr, arith,
}
use fleetcom.Text.{Text, decimal, decimal_digits}

abbrev pub IsDigit : ℕ → Type 0
IsDigit c = (b'0' ≤ c) × (c ≤ b'9')

-- The number that digits stand for, after `acc`.
unfoldable pub value : ℕ → Text → ℕ
value acc [] = acc
value acc (c ∷ cs) = value (acc * 10 + (c - b'0')) cs

value-append :
    (acc : ℕ) (xs : Text) (d : ℕ) → value acc (xs ++ d ∷ []) ≡ value acc xs * 10 + (d - b'0')
unfolding value
value-append acc [] d = refl
value-append acc (x ∷ xs) d = value-append (acc * 10 + (x - b'0')) xs d

digits_step :
    (f n : ℕ)
    → decimal_digits (suc f) n
      ≡ (if ltb n 10 then (b'0' + n) ∷ [] else decimal_digits f (n / 10) ++ (b'0' + n % 10) ∷ [])
unfolding decimal_digits
digits_step f n = refl

value-digits : (f n : ℕ) → n < f → value 0 (decimal_digits f n) ≡ n
value-digits zero n h = elim h [ ]
value-digits (suc f) n h = elim (Bool-cases (ltb n 10)) [
  | inl small ↦ rw (digits_step f n) (rw small (unfold value in omega arith))
  | inr large ↦ rw (digits_step f n) (
      rw large (
        value-append 0 (decimal_digits f (n / 10)) (b'0' + n % 10)
        ∙ ground (arith, value-digits f (n / 10))))
]

-- The digits of a number are read back.
pub value-decimal : (n : ℕ) → value 0 (decimal n) ≡ n
unfolding decimal
value-decimal n = value-digits (suc n) n (omega arith)

digits-IsDigit : (f n : ℕ) → All IsDigit (decimal_digits f n)
unfolding decimal_digits
digits-IsDigit zero n = tt
digits-IsDigit (suc f) n = elim (Bool-cases (ltb n 10)) [
  | inl small ↦ rw small (ground arith)
  | inr large ↦ rw large (
      All-append IsDigit (decimal_digits f (n / 10)) ((b'0' + n % 10) ∷ [])
        (digits-IsDigit f (n / 10)) (omega arith))
]

pub decimal-IsDigit : (n : ℕ) → All IsDigit (decimal n)
unfolding decimal
decimal-IsDigit n = digits-IsDigit (suc n) n
