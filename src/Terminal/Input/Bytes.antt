-- ===== src/Terminal/Input/Bytes.antt =====
-- What a child reads from the keys that are sent as escape sequences: src/terminal/input.rs,
-- `key_bytes`.
use fleetcom.Common.{
  ℕ, ◌-◌, ◌/◌, ◌%◌, ◌≤◌, ◌≡◌, refl, arith, sym, ap, ◌∙◌, subst, zero, suc, Bool, true, false, not,
  ◌&&◌, ◌⊎◌, inl, inr, Option, none, some, List, [], ◌∷◌, leb, ◌==◌, if◌then◌else◌,
}
use fleetcom.Text.{decimal, decimal_digits}
use fleetcom.Protocol.{Key, Mods}
use fleetcom.Terminal.Input.{esc, key_bytes, f_bytes, letter_bytes, tilde_bytes, mod_param, no_mods}
use fleetcom.Terminal.Input.Reports.{is_digit, read_number, read_number-decimal}

-- The reader, after xterm's tables: the cursor keys by their letters, the first four function keys by
-- theirs, all others by a number before a tilde.
unfoldable pub cursor_key : ℕ → Option Key
cursor_key l =
    if l == b'A'
    then some Key.up
    else if l == b'B'
    then some Key.down
    else if l == b'C'
    then some Key.right
    else if l == b'D'
    then some Key.left
    else if l == b'H'
    then some Key.home
    else if l == b'F'
    then some Key.end
    else none

unfoldable pub function_key : ℕ → Option Key
function_key l = if leb b'P' l && leb l b'S' then some (Key.f (l - b'O')) else none

abbrev looked_up : ℕ → List (ℕ × Key) → Option Key
looked_up n [] = none
looked_up n ((m, k) ∷ rest) = if n == m then some k else looked_up n rest

abbrev tilde_table : List (ℕ × Key)
tilde_table =
    (2, Key.insert)
    ∷ (3, Key.delete)
    ∷ (5, Key.page_up)
    ∷ (6, Key.page_down)
    ∷ (15, Key.f 5)
    ∷ (17, Key.f 6)
    ∷ (18, Key.f 7)
    ∷ (19, Key.f 8)
    ∷ (20, Key.f 9)
    ∷ (21, Key.f 10)
    ∷ (23, Key.f 11)
    ∷ (24, Key.f 12)
    ∷ []

unfoldable pub tilde_key : ℕ → Option Key
tilde_key n = looked_up n tilde_table

-- The digit of a modifier parameter: one more than shift, twice alt and four times control.
unfoldable pub mods_of : ℕ → Option Mods
mods_of d =
    if leb b'2' d && leb d b'8'
    then some (record {
      shift = (d - b'1') % 2 == 1;
      alt = (d - b'1') / 2 % 2 == 1;
      ctrl = (d - b'1') / 4 == 1;
    })
    else none

abbrev either : Option Key → Option Key → Option Key
either none later = later
either (some k) later = some k

abbrev pressed : Option Key → Option Mods → Option (Key × Mods)
pressed none mods = none
pressed (some k) none = none
pressed (some k) (some mods) = some (k, mods)

-- Behind the number: in application mode an unmodified cursor key is no CSI sequence.
abbrev behind : Bool → ℕ × List ℕ → Option (Key × Mods)
behind app (n, l ∷ []) =
    if l == b'~'
    then pressed (tilde_key n) (some no_mods)
    else if (n == 0) && not app
    then pressed (cursor_key l) (some no_mods)
    else none
behind app (n, c ∷ d ∷ l ∷ []) =
    if c == b';'
    then (if l == b'~'
        then pressed (tilde_key n) (mods_of d)
        else if n == 1
        then pressed (either (cursor_key l) (function_key l)) (mods_of d)
        else none)
    else none
behind app (n, other) = none

-- SS3: a function key, or a cursor key in application mode.
abbrev single : Bool → List ℕ → Option (Key × Mods)
single app (l ∷ []) =
    pressed (if app then either (cursor_key l) (function_key l) else function_key l) (some no_mods)
single app other = none

unfoldable pub read_key : Bool → List ℕ → Option (Key × Mods)
read_key app (e ∷ c ∷ rest) =
    if not (e == esc)
    then none
    else if c == b'O'
    then single app rest
    else if c == b'['
    then behind app (read_number 0 rest)
    else none
read_key app other = none

-- No modifier is held, or the parameter is one digit that says which.
abbrev Param : Mods → Type 0
Param mods =
    ((mod_param mods ≡ none) × (mods ≡ no_mods))
    ⊎ ((m : ℕ) × (d : ℕ) × (mod_param mods ≡ some m)
        × (decimal m ≡ d ∷ [])
        × (mods_of d ≡ some mods))

param : (mods : Mods) → Param mods
unfolding mod_param mods_of decimal decimal_digits
param mods = by_flags mods.shift mods.alt mods.ctrl
  where
    by_flags : (s a c : Bool) → Param (record { shift = s; alt = a; ctrl = c })
    by_flags false false false = inl (refl, refl)
    by_flags true false false = inr (2, b'2', refl, refl, refl)
    by_flags false true false = inr (3, b'3', refl, refl, refl)
    by_flags true true false = inr (4, b'4', refl, refl, refl)
    by_flags false false true = inr (5, b'5', refl, refl, refl)
    by_flags true false true = inr (6, b'6', refl, refl, refl)
    by_flags false true true = inr (7, b'7', refl, refl, refl)
    by_flags true true true = inr (8, b'8', refl, refl, refl)

-- What a parameter makes of a sequence: with no digit, or with one.
by_param :
    (mods : Mods) (P : Option ℕ → Mods → Type 0)
    → P none no_mods
    → ((m d : ℕ) → decimal m ≡ d ∷ [] → mods_of d ≡ some mods → P (some m) mods)
    → P (mod_param mods) mods
by_param mods P bare held = elim (param mods) [
  | inl (e, plain) ↦ subst (λ o. P o mods) (sym e) (subst (λ k. P none k) (sym plain) bare)
  | inr (m, d, e, digit, says) ↦ subst (λ o. P o mods) (sym e) (held m d digit says)
]

cursor_read :
    (app : Bool) (l : ℕ) (k : Key) (mods : Mods)
    → cursor_key l ≡ some k
    → is_digit l ≡ false
    → (l == b'~') ≡ false
    → read_key app (letter_bytes app l (mod_param mods)) ≡ some (k, mods)
unfolding read_key letter_bytes read_number
cursor_read app l k mods e digit tilde =
    by_param mods (λ o n. read_key app (letter_bytes app l o) ≡ some (k, n)) (bare app)
      (λ m d one says. rw one (rw tilde (rw e (rw says refl))))
  where
    bare : (b : Bool) → read_key b (letter_bytes b l none) ≡ some (k, no_mods)
    bare true = rw e refl
    bare false = rw digit (rw tilde (rw e refl))

function_read :
    (app : Bool) (l : ℕ) (k : Key) (mods : Mods)
    → function_key l ≡ some k
    → cursor_key l ≡ none
    → (l == b'~') ≡ false
    → read_key app (letter_bytes true l (mod_param mods)) ≡ some (k, mods)
unfolding read_key letter_bytes read_number
function_read app l k mods e other tilde =
    by_param mods (λ o n. read_key app (letter_bytes true l o) ≡ some (k, n)) (bare app)
      (λ m d one says. rw one (rw tilde (rw other (rw e (rw says refl)))))
  where
    bare : (b : Bool) → read_key b (letter_bytes true l none) ≡ some (k, no_mods)
    bare true = rw other (rw e refl)
    bare false = rw e refl

tilde_read :
    (app : Bool) (n : ℕ) (k : Key) (mods : Mods)
    → tilde_key n ≡ some k
    → read_key app (tilde_bytes n (mod_param mods)) ≡ some (k, mods)
unfolding read_key tilde_bytes
tilde_read app n k mods e =
    by_param mods (λ o w. read_key app (tilde_bytes n o) ≡ some (k, w))
      (ap (behind app) (read_number-decimal n b'~' [] refl) ∙ ap (λ q. pressed q (some no_mods)) e)
      (λ m d one says. rw one (
        ap (behind app) (read_number-decimal n b';' (d ∷ b'~' ∷ []) refl)
        ∙ (λ i. pressed (e i) (says i))))

-- The keys that are sent as a sequence: the cursor keys, the navigation cluster and the function keys
-- from one to twelve.
abbrev pub IsNamed : Key → Type 0
IsNamed Key.up = Unit {0}
IsNamed Key.down = Unit {0}
IsNamed Key.right = Unit {0}
IsNamed Key.left = Unit {0}
IsNamed Key.home = Unit {0}
IsNamed Key.end = Unit {0}
IsNamed Key.insert = Unit {0}
IsNamed Key.delete = Unit {0}
IsNamed Key.page_up = Unit {0}
IsNamed Key.page_down = Unit {0}
IsNamed (Key.f n) = (1 ≤ n) × (n ≤ 12)
IsNamed other = ⊥

abbrev pub ReadBack : Bool → Key → Mods → Option (List ℕ) → Type 0
ReadBack app k mods none = ⊥
ReadBack app k mods (some bytes) = read_key app bytes ≡ some (k, mods)

f_read :
    (app : Bool) (n : ℕ) (mods : Mods)
    → IsNamed (Key.f n)
    → ReadBack app (Key.f n) mods (f_bytes n (mod_param mods))
unfolding f_bytes cursor_key function_key tilde_key
f_read app zero mods h = absurd (omega (arith, h.0))
f_read app (suc zero) mods h = function_read app b'P' (Key.f 1) mods refl refl refl
f_read app (suc (suc zero)) mods h = function_read app b'Q' (Key.f 2) mods refl refl refl
f_read app (suc (suc (suc zero))) mods h = function_read app b'R' (Key.f 3) mods refl refl refl
f_read app (suc (suc (suc (suc zero)))) mods h =
    function_read app b'S' (Key.f 4) mods refl refl refl
f_read app (suc (suc (suc (suc (suc zero))))) mods h = tilde_read app 15 (Key.f 5) mods refl
f_read app (suc (suc (suc (suc (suc (suc zero)))))) mods h = tilde_read app 17 (Key.f 6) mods refl
f_read app (suc (suc (suc (suc (suc (suc (suc zero))))))) mods h =
    tilde_read app 18 (Key.f 7) mods refl
f_read app (suc (suc (suc (suc (suc (suc (suc (suc zero)))))))) mods h =
    tilde_read app 19 (Key.f 8) mods refl
f_read app (suc (suc (suc (suc (suc (suc (suc (suc (suc zero))))))))) mods h =
    tilde_read app 20 (Key.f 9) mods refl
f_read app (suc (suc (suc (suc (suc (suc (suc (suc (suc (suc zero)))))))))) mods h =
    tilde_read app 21 (Key.f 10) mods refl
f_read app (suc (suc (suc (suc (suc (suc (suc (suc (suc (suc (suc zero))))))))))) mods h =
    tilde_read app 23 (Key.f 11) mods refl
f_read app (suc (suc (suc (suc (suc (suc (suc (suc (suc (suc (suc (suc zero)))))))))))) mods h =
    tilde_read app 24 (Key.f 12) mods refl
f_read app (suc (suc (suc (suc (suc (suc (suc (suc (suc (suc (suc (suc (suc (n)))))))))))))) mods
      h =
    absurd (omega (arith, h.1))

-- Each key that is sent as a sequence is read back by the child with the modifiers that are held,
-- where its reader is in the cursor mode under which the key was sent.
pub key_bytes-read_key :
    (app : Bool) (k : Key) (mods : Mods) → IsNamed k → ReadBack app k mods (key_bytes app k mods)
unfolding key_bytes cursor_key tilde_key
key_bytes-read_key app Key.up mods h = cursor_read app b'A' Key.up mods refl refl refl
key_bytes-read_key app Key.down mods h = cursor_read app b'B' Key.down mods refl refl refl
key_bytes-read_key app Key.right mods h = cursor_read app b'C' Key.right mods refl refl refl
key_bytes-read_key app Key.left mods h = cursor_read app b'D' Key.left mods refl refl refl
key_bytes-read_key app Key.home mods h = cursor_read app b'H' Key.home mods refl refl refl
key_bytes-read_key app Key.end mods h = cursor_read app b'F' Key.end mods refl refl refl
key_bytes-read_key app Key.insert mods h = tilde_read app 2 Key.insert mods refl
key_bytes-read_key app Key.delete mods h = tilde_read app 3 Key.delete mods refl
key_bytes-read_key app Key.page_up mods h = tilde_read app 5 Key.page_up mods refl
key_bytes-read_key app Key.page_down mods h = tilde_read app 6 Key.page_down mods refl
key_bytes-read_key app (Key.f n) mods h = f_read app n mods h
key_bytes-read_key app (Key.char c) mods h = absurd h
key_bytes-read_key app Key.enter mods h = absurd h
key_bytes-read_key app Key.tab mods h = absurd h
key_bytes-read_key app Key.back_tab mods h = absurd h
key_bytes-read_key app Key.backspace mods h = absurd h
key_bytes-read_key app Key.esc mods h = absurd h
