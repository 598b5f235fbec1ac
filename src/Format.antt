-- ===== src/Format.antt =====
-- src/format.rs without the dates.
use fleetcom.Common.{
  ℕ, ◌+◌, ◌-◌, ◌*◌, ◌/◌, Bool, [], ◌∷◌, ◌++◌, map, ltb, leb, if◌then◌else◌, zero, suc, true, false,
}
use fleetcom.Text.{Text, text, decimal, is_control, byte_len, len_utf8}

-- `rel_time` of a duration in whole seconds.
unfoldable pub rel_time : ℕ → Text
rel_time s =
    if ltb s 60
    then decimal s ++ text "s"
    else if ltb s 3600
    then decimal (s / 60) ++ text "m"
    else if ltb s 86400
    then decimal (s / 3600) ++ text "h"
    else decimal (s / 86400) ++ text "d"

unfoldable pub bytes : ℕ → Text
bytes n =
    if ltb n 1024
    then decimal n ++ text " B"
    else if ltb n (1024 * 1024)
    then decimal (n / 1024) ++ text " KiB"
    else decimal (n / (1024 * 1024)) ++ text " MiB"

-- The crate unicode_width: the columns of a character, 0 for a control character, and of a text.
pub record Widths : Type 0 where
  pub char_width : ℕ → ℕ
  pub str_width : Text → ℕ

abbrev pub ellipsis : ℕ
ellipsis = 0x2026

abbrev pub flatten_control : ℕ → ℕ
flatten_control c = if is_control c then 0x20 else c

-- The loop of `truncate`, up to its `break`.
unfoldable pub fill : Widths → ℕ → ℕ → Text → Text
fill w budget used [] = []
fill w budget used (c ∷ cs) =
    let rest = c ∷ fill w budget (used + w.char_width c) cs in
    if ltb budget (used + w.char_width c) then [] else rest

unfoldable pub truncate : Widths → Text → ℕ → Text
truncate w s zero = []
truncate w s (suc m) =
    let clean = map flatten_control s in
    if leb (w.str_width clean) (suc m) then clean else fill w m 0 clean ++ ellipsis ∷ []

abbrev pub spaces : ℕ → Text
spaces zero = []
spaces (suc n) = 0x20 ∷ spaces n

unfoldable pub pad : Widths → Text → ℕ → Text
pad w s width =
    let t = truncate w s width in
    if ltb (w.str_width t) width then t ++ spaces (width - w.str_width t) else t

-- `str::is_char_boundary`, and the prefix that ends at a boundary.
unfoldable pub is_char_boundary : Text → ℕ → Bool
is_char_boundary s zero = true
is_char_boundary [] (suc i) = false
is_char_boundary (c ∷ cs) (suc i) =
    if ltb (suc i) (len_utf8 c) then false else is_char_boundary cs (suc i - len_utf8 c)

unfoldable pub prefix_to : Text → ℕ → Text
prefix_to s zero = []
prefix_to [] (suc i) = []
prefix_to (c ∷ cs) (suc i) = c ∷ prefix_to cs (suc i - len_utf8 c)

-- `while !s.is_char_boundary(end) { end -= 1; }`; 0 is a boundary.
unfoldable pub back_to_boundary : Text → ℕ → ℕ
back_to_boundary s zero = zero
back_to_boundary s (suc e) =
    let rest = back_to_boundary s e in if is_char_boundary s (suc e) then suc e else rest

unfoldable pub prefix_bytes : Text → ℕ → Text
prefix_bytes s max = if leb (byte_len s) max then s else prefix_to s (back_to_boundary s max)
