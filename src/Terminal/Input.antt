-- ===== src/Terminal/Input.antt =====
-- src/terminal/input.rs: the bytes that a paste, a mouse action and a key become. A `u16` and a
-- `u8` are numbers, with the wrap-around of a release build written out.
pub mod Bytes
pub mod Paste
pub mod Reports
use fleetcom.Common.{
  ℕ, zero, suc, ◌+◌, ◌-◌, ◌*◌, ◌%◌, ◌^◌, min, Bool, true, false, not, ◌&&◌, ◌||◌, Option, none,
  some, List, [], ◌∷◌, ◌++◌, map, ltb, leb, ◌==◌, if◌then◌else◌, length, drop,
}
use fleetcom.Text.{utf8_char, decimal, text_eq}
use fleetcom.Protocol.{MouseBtn, MouseKind, wheel_up, wheel_down, press, release, drag, Key, Mods}
use fleetcom.Terminal.{
  TermMode, MouseProtocolMode, silent, press_release, button_motion, any_motion,
  MouseProtocolEncoding, single_byte, utf8_fields, sgr, mouse_protocol_mode,
  mouse_protocol_encoding, alternate_scroll, application_cursor,
}

abbrev pub esc : ℕ
esc = 0x1b

abbrev pub csi : List ℕ
csi = esc ∷ b'[' ∷ []

abbrev pub paste_start : List ℕ
paste_start = esc ∷ b'[' ∷ b'2' ∷ b'0' ∷ b'0' ∷ b'~' ∷ []

-- `PASTE_END`.
abbrev pub paste_end : List ℕ
paste_end = esc ∷ b'[' ∷ b'2' ∷ b'0' ∷ b'1' ∷ b'~' ∷ []

-- `rest.windows(n).position(|w| w == PASTE_END)`: what stands before the first window that is the
-- terminator, and what follows it.
unfoldable pub starts_with : List ℕ → List ℕ → Bool
starts_with xs [] = true
starts_with [] (p ∷ ps) = false
starts_with (x ∷ xs) (p ∷ ps) = x == p && starts_with xs ps

abbrev pub before : ℕ → Option (List ℕ × List ℕ) → Option (List ℕ × List ℕ)
before x none = none
before x (some (a, b)) = some (x ∷ a, b)

unfoldable pub split_at_end : List ℕ → Option (List ℕ × List ℕ)
unfolding starts_with
split_at_end [] = none
split_at_end (x ∷ xs) =
    if starts_with (x ∷ xs) paste_end
    then some ([], drop (length paste_end) (x ∷ xs))
    else before x (split_at_end xs)

-- The loop that copies what stands between terminators; each round drops one.
unfoldable pub strip_ends : ℕ → List ℕ → List ℕ
strip_ends zero rest = []
strip_ends (suc fuel) rest = elim (split_at_end rest) [
  | none ↦ rest
  | some (a, b) ↦ a ++ strip_ends fuel b
]

abbrev pub cr : ℕ
cr = 0x0d

abbrev pub lf : ℕ
lf = 0x0a

-- CRLF and LF become CR.
unfoldable pub line_ends : List ℕ → List ℕ
line_ends [] = []
line_ends (x ∷ []) = (if x == lf then cr else x) ∷ []
line_ends (x ∷ y ∷ ys) =
    let past_both = line_ends ys in
    let past_one = line_ends (y ∷ ys) in
    if x == cr && y == lf then cr ∷ past_both else (if x == lf then cr else x) ∷ past_one

unfoldable pub paste_bytes : Bool → List ℕ → List ℕ
unfolding strip_ends line_ends
paste_bytes true content = paste_start ++ strip_ends (suc (length content)) content ++ paste_end
paste_bytes false content = line_ends content

-- `kind` is a drag that the mode does not report.
unfoldable pub undue_drag : MouseProtocolMode → MouseKind → Bool
undue_drag press_release (drag b) = true
undue_drag mode kind = false

-- `b as u16`.
unfoldable pub btn_code : MouseBtn → ℕ
btn_code MouseBtn.left = 0
btn_code MouseBtn.middle = 1
btn_code MouseBtn.right = 2

unfoldable pub mouse_code : MouseKind → ℕ
unfolding btn_code
mouse_code wheel_up = 64
mouse_code wheel_down = 65
mouse_code (press b) = btn_code b
mouse_code (release b) = btn_code b
mouse_code (drag b) = 32 + btn_code b

abbrev pub is_release : MouseKind → Bool
is_release (release b) = true
is_release wheel_up = false
is_release wheel_down = false
is_release (press b) = false
is_release (drag b) = false

unfoldable pub sgr_report : ℕ → Bool → ℕ → ℕ → List ℕ
sgr_report code rel col row =
    csi
    ++ b'<'
      ∷ (decimal code
          ++ b';'
            ∷ (decimal ((col + 1) % 2 ^ 16)
                ++ b';' ∷ (decimal ((row + 1) % 2 ^ 16) ++ (if rel then b'm' else b'M') ∷ [])))

unfoldable pub mouse_report : MouseProtocolEncoding → ℕ → Bool → ℕ → ℕ → List ℕ
unfolding sgr_report
mouse_report sgr code rel col row = sgr_report code rel col row
mouse_report utf8_fields code rel col row =
    csi
    ++ b'M'
      ∷ (utf8_char (32 + (if rel then 3 else code))
          ++ utf8_char (33 + min col 2014)
          ++ utf8_char (33 + min row 2014))
mouse_report single_byte code rel col row =
    csi ++ b'M' ∷ (32 + (if rel then 3 else code)) ∷ (33 + min col 222) ∷ (33 + min row 222) ∷ []

-- The control byte of a key: letters, then the aliases of symbols and digits.
unfoldable pub is_ascii_alphabetic : ℕ → Bool
is_ascii_alphabetic c = leb b'A' c && leb c b'Z' || leb b'a' c && leb c b'z'

unfoldable pub ctrl_byte : ℕ → Option ℕ
unfolding is_ascii_alphabetic
ctrl_byte c =
    if is_ascii_alphabetic c
    then some (if leb b'a' c then (c - 32) % 32 else c % 32)
    else if c == b' ' || (c == b'@' || c == b'2')
    then some 0x00
    else if c == b'[' || c == b'3'
    then some 0x1b
    else if c == 0x5c || c == b'4'
    then some 0x1c
    else if c == b']' || c == b'5'
    then some 0x1d
    else if c == b'^' || c == b'6'
    then some 0x1e
    else if c == b'_' || (c == b'7' || c == b'/')
    then some 0x1f
    else if c == b'?' || c == b'8'
    then some 0x7f
    else none

abbrev one_byte : Option ℕ → Option (List ℕ)
one_byte none = none
one_byte (some b) = some (b ∷ [])

unfoldable pub meta_bytes : Bool → List ℕ → List ℕ
meta_bytes true base = esc ∷ base
meta_bytes false base = base

-- The test on `mods.alt` inserts the prefix.
abbrev with_alt : Bool → Option (List ℕ) → Option (List ℕ)
with_alt alt none = none
with_alt alt (some out) = some (if alt then esc ∷ out else out)

unfoldable pub char_bytes : ℕ → Mods → Option (List ℕ)
unfolding ctrl_byte
char_bytes c mods =
    with_alt mods.alt (if mods.ctrl then one_byte (ctrl_byte c) else some (utf8_char c))

unfoldable pub letter_bytes : Bool → ℕ → Option ℕ → List ℕ
letter_bytes ss3 letter none = if ss3 then esc ∷ b'O' ∷ letter ∷ [] else csi ++ letter ∷ []
letter_bytes ss3 letter (some m) = csi ++ b'1' ∷ b';' ∷ (decimal m ++ letter ∷ [])

unfoldable pub tilde_bytes : ℕ → Option ℕ → List ℕ
tilde_bytes n none = csi ++ decimal n ++ b'~' ∷ []
tilde_bytes n (some m) = csi ++ decimal n ++ b';' ∷ (decimal m ++ b'~' ∷ [])

unfoldable pub f_bytes : ℕ → Option ℕ → Option (List ℕ)
f_bytes n m =
    if n == 1
    then some (letter_bytes true b'P' m)
    else if n == 2
    then some (letter_bytes true b'Q' m)
    else if n == 3
    then some (letter_bytes true b'R' m)
    else if n == 4
    then some (letter_bytes true b'S' m)
    else if n == 5
    then some (tilde_bytes 15 m)
    else if n == 6
    then some (tilde_bytes 17 m)
    else if n == 7
    then some (tilde_bytes 18 m)
    else if n == 8
    then some (tilde_bytes 19 m)
    else if n == 9
    then some (tilde_bytes 20 m)
    else if n == 10
    then some (tilde_bytes 21 m)
    else if n == 11
    then some (tilde_bytes 23 m)
    else if n == 12
    then some (tilde_bytes 24 m)
    else none

abbrev bit : Bool → ℕ
bit true = 1
bit false = 0

unfoldable pub mod_param : Mods → Option ℕ
mod_param mods =
    let bits = bit mods.shift + 2 * bit mods.alt + 4 * bit mods.ctrl in
    if bits == 0 then none else some (1 + bits)

unfoldable pub key_bytes : Bool → Key → Mods → Option (List ℕ)
unfolding mod_param char_bytes f_bytes letter_bytes tilde_bytes meta_bytes
key_bytes app (Key.char c) mods = char_bytes c mods
key_bytes app (Key.f n) mods = f_bytes n (mod_param mods)
key_bytes app Key.up mods = some (letter_bytes app b'A' (mod_param mods))
key_bytes app Key.down mods = some (letter_bytes app b'B' (mod_param mods))
key_bytes app Key.right mods = some (letter_bytes app b'C' (mod_param mods))
key_bytes app Key.left mods = some (letter_bytes app b'D' (mod_param mods))
key_bytes app Key.home mods = some (letter_bytes app b'H' (mod_param mods))
key_bytes app Key.end mods = some (letter_bytes app b'F' (mod_param mods))
key_bytes app Key.insert mods = some (tilde_bytes 2 (mod_param mods))
key_bytes app Key.delete mods = some (tilde_bytes 3 (mod_param mods))
key_bytes app Key.page_up mods = some (tilde_bytes 5 (mod_param mods))
key_bytes app Key.page_down mods = some (tilde_bytes 6 (mod_param mods))
key_bytes app Key.enter mods = some (meta_bytes (mods.shift || mods.alt) (0x0d ∷ []))
key_bytes app Key.tab mods = some (meta_bytes mods.alt (0x09 ∷ []))
key_bytes app Key.back_tab mods = some (meta_bytes mods.alt (csi ++ b'Z' ∷ []))
key_bytes app Key.backspace mods = some (meta_bytes mods.alt (0x7f ∷ []))
key_bytes app Key.esc mods = some (meta_bytes mods.alt (0x1b ∷ []))

-- `b.repeat(3)`.
abbrev thrice : Option (List ℕ) → Option (List ℕ)
thrice none = none
thrice (some b) = some (b ++ b ++ b)

abbrev no_mods : Mods
no_mods = record { shift = false; alt = false; ctrl = false }

-- Wheel actions as arrows, where no mouse protocol is on.
unfoldable pub wheel_bytes : Bool → MouseKind → Option (List ℕ)
unfolding key_bytes
wheel_bytes app wheel_up = thrice (key_bytes app Key.up no_mods)
wheel_bytes app wheel_down = thrice (key_bytes app Key.down no_mods)
wheel_bytes app (press b) = none
wheel_bytes app (drag b) = none
wheel_bytes app (release b) = none

abbrev silent_bytes : TermMode → MouseKind → Option (List ℕ)
silent_bytes emu kind =
    if alternate_scroll emu then wheel_bytes (application_cursor emu) kind else none

abbrev reported_bytes :
    MouseProtocolMode → MouseProtocolEncoding → MouseKind → ℕ → ℕ → Option (List ℕ)
reported_bytes mode encoding kind col row =
    if undue_drag mode kind
    then none
    else some (mouse_report encoding (mouse_code kind) (is_release kind) col row)

abbrev mouse_in : MouseProtocolMode → TermMode → MouseKind → ℕ → ℕ → Option (List ℕ)
mouse_in silent emu kind col row = silent_bytes emu kind
mouse_in press_release emu kind col row =
    reported_bytes press_release (mouse_protocol_encoding emu) kind col row
mouse_in button_motion emu kind col row =
    reported_bytes button_motion (mouse_protocol_encoding emu) kind col row
mouse_in any_motion emu kind col row =
    reported_bytes any_motion (mouse_protocol_encoding emu) kind col row

unfoldable pub mouse_bytes : TermMode → MouseKind → ℕ → ℕ → Option (List ℕ)
unfolding mouse_protocol_mode mouse_report mouse_code undue_drag wheel_bytes
mouse_bytes emu kind col row = mouse_in (mouse_protocol_mode emu) emu kind col row
