-- ===== src/Supervisor/Labels.antt =====
-- src/supervisor.rs: stored labels, the hash of a root, and the scrollback setting.
pub mod Bounds
pub mod Stored
use Prim.Native.Nat.{bit_xor}
use fleetcom.Common.{
  ℕ, zero, suc, ◌+◌, ◌-◌, ◌*◌, ◌/◌, ◌%◌, ◌^◌, ◌≤◌, ◌≡◌, ◌≢◌, min, Bool, true, false, not, Option,
  none, some, List, [], ◌∷◌, ◌++◌, ltb, if◌then◌else◌, take, keep, length, All, arith,
}
use fleetcom.Text.{Text, is_control, trim, text_eq}
use fleetcom.Protocol.{unassigned}

abbrev pub max_label_chars : ℕ
max_label_chars = 64

abbrev pub non_empty : Text → Option Text
non_empty [] = none
non_empty (c ∷ cs) = some (c ∷ cs)

abbrev pub strip_label : Text → Text
strip_label label = keep (λ c. not (is_control c)) label

unfoldable pub normalize_label : Option Text → Option Text
normalize_label none = none
normalize_label (some label) = non_empty (take max_label_chars (trim (strip_label label)))

abbrev pub not_reserved : Option Text → Option Text
not_reserved none = none
not_reserved (some g) = if text_eq g unassigned then none else some g

unfoldable pub normalize_group : Option Text → Option Text
unfolding normalize_label
normalize_group label = not_reserved (normalize_label label)

-- `fnv1a_hex`: the 64-bit hash of a list of bytes, in sixteen hexadecimal digits.
unfoldable pub fnv1a : ℕ → List ℕ → ℕ
fnv1a h [] = h
fnv1a h (b ∷ bs) = fnv1a (bit_xor h b * 0x00000100000001b3 % 2 ^ 64) bs

abbrev hex_digit : ℕ → ℕ
hex_digit d = if ltb d 10 then b'0' + d else b'a' + (d - 10)

unfoldable pub hex_digits : ℕ → ℕ → Text
hex_digits zero n = []
hex_digits (suc f) n = hex_digits f (n / 16) ++ hex_digit (n % 16) ∷ []

unfoldable pub fnv1a_hex : List ℕ → Text
unfolding fnv1a hex_digits
fnv1a_hex bytes = hex_digits 16 (fnv1a 0xcbf29ce484222325 bytes)

-- `effective_scrollback`, with the environment value as far as it parses.
abbrev pub default_scrollback : ℕ
default_scrollback = 2000

abbrev pub max_scrollback : ℕ
max_scrollback = 100000

abbrev or_lines : Option ℕ → Option ℕ → ℕ
or_lines (some lines) env = min lines max_scrollback
or_lines none (some lines) = min lines max_scrollback
or_lines none none = default_scrollback

unfoldable pub effective_scrollback : Option ℕ → Option ℕ → ℕ
effective_scrollback flag env = or_lines flag env
