-- ===== src/Terminal/Input/Reports.antt =====
-- What a child reads from a mouse report, and which actions are reported at all:
-- src/terminal/input.rs, `mouse_bytes`.
use fleetcom.Common.{
  ℕ, ◌+◌, ◌-◌, ◌*◌, ◌%◌, ◌^◌, ◌≡◌, refl, ◌∙◌, ap, Bool, true, false, not, ◌&&◌, ◌||◌, Option, none,
  some, List, [], ◌∷◌, ◌++◌, All, leb, ◌==◌, is_some, if◌then◌else◌, arith,
}
use fleetcom.Text.{decimal}
use fleetcom.Text.Decimal.{IsDigit, value, value-decimal, decimal-IsDigit}
use fleetcom.Protocol.{MouseBtn, MouseKind, wheel_up, wheel_down, press, release, drag}
use fleetcom.Terminal.{
  TermMode, MouseProtocolMode, silent, press_release, button_motion, any_motion,
  MouseProtocolEncoding, mouse_protocol_mode, mouse_protocol_encoding, alternate_scroll,
  application_cursor, reports,
}
use fleetcom.Terminal.Input.{
  esc, mouse_bytes, mouse_in, reported_bytes, silent_bytes, undue_drag, mouse_code, is_release,
  mouse_report, sgr_report, wheel_bytes, key_bytes,
}

-- A child's reader: digits up to the first byte that is none.
abbrev pub is_digit : ℕ → Bool
is_digit c = leb b'0' c && leb c b'9'

unfoldable pub read_number : ℕ → List ℕ → ℕ × List ℕ
read_number acc [] = (acc, [])
read_number acc (c ∷ cs) =
    let rest = read_number (acc * 10 + (c - b'0')) cs in if is_digit c then rest else (acc, c ∷ cs)

-- `number ; number ; number`, then the letter of a press or a release, and nothing more.
abbrev letter : ℕ → ℕ → ℕ → List ℕ → Option (ℕ × ℕ × ℕ × Bool)
letter code col row [] = none
letter code col row (c ∷ d ∷ rest) = none
letter code col row (c ∷ []) =
    if c == b'M'
    then some (code, col, row, false)
    else if c == b'm'
    then some (code, col, row, true)
    else none

abbrev past : ℕ → List ℕ → Option (List ℕ)
past c [] = none
past c (d ∷ ds) = if c == d then some ds else none

abbrev then_row : ℕ → ℕ → Option (List ℕ) → Option (ℕ × ℕ × ℕ × Bool)
then_row code col none = none
then_row code col (some bs) = let (row, rest) = read_number 0 bs in letter code col row rest

abbrev then_col : ℕ → Option (List ℕ) → Option (ℕ × ℕ × ℕ × Bool)
then_col code none = none
then_col code (some bs) = let (col, rest) = read_number 0 bs in then_row code col (past b';' rest)

abbrev fields : Option (List ℕ) → Option (ℕ × ℕ × ℕ × Bool)
fields none = none
fields (some bs) = let (code, rest) = read_number 0 bs in then_col code (past b';' rest)

abbrev sgr_header : List ℕ → Option (List ℕ)
sgr_header (a ∷ b ∷ c ∷ rest) = if a == esc && (b == b'[' && c == b'<') then some rest else none
sgr_header other = none

unfoldable pub read_sgr : List ℕ → Option (ℕ × ℕ × ℕ × Bool)
unfolding read_number
read_sgr bytes = fields (sgr_header bytes)

read_number-digits :
    (acc : ℕ) (ds : List ℕ) (c : ℕ) (rest : List ℕ)
    → All IsDigit ds
    → is_digit c ≡ false
    → read_number acc (ds ++ c ∷ rest) ≡ (value acc ds, c ∷ rest)
unfolding read_number value
read_number-digits acc [] c rest h e = rw e refl
read_number-digits acc (d ∷ ds) c rest h e =
    ground (arith, read_number-digits (acc * 10 + (d - b'0')) ds c rest h.1 e)

pub read_number-decimal :
    (n c : ℕ) (rest : List ℕ)
    → is_digit c ≡ false
    → read_number 0 (decimal n ++ c ∷ rest) ≡ (n, c ∷ rest)
read_number-decimal n c rest e =
    read_number-digits 0 (decimal n) c rest (decimal-IsDigit n) e
    ∙ ap (λ (k : ℕ). (k, c ∷ rest)) (value-decimal n)

-- An SGR report is read back whole: the button code, the cell counted from one, and whether the
-- button was let go.
sgr_report-read :
    (code : ℕ) (rel : Bool) (col row : ℕ)
    → read_sgr (sgr_report code rel col row)
      ≡ some (code, (col + 1) % 2 ^ 16, (row + 1) % 2 ^ 16, rel)
unfolding read_sgr sgr_report
sgr_report-read code true col row = rw (read_number-decimal code b';' _ refl) (
    rw (read_number-decimal ((col + 1) % 2 ^ 16) b';' _ refl)
      (rw (read_number-decimal ((row + 1) % 2 ^ 16) b'm' [] refl) (ground arith)))
sgr_report-read code false col row = rw (read_number-decimal code b';' _ refl) (
    rw (read_number-decimal ((col + 1) % 2 ^ 16) b';' _ refl)
      (rw (read_number-decimal ((row + 1) % 2 ^ 16) b'M' [] refl) (ground arith)))

-- Which actions a child hears of: with a mouse protocol all but a drag outside the motion modes,
-- without one the wheel alone, and that on the alternate screen where alternate scrolling is on.
abbrev pub wheel : MouseKind → Bool
wheel wheel_up = true
wheel wheel_down = true
wheel (press b) = false
wheel (drag b) = false
wheel (release b) = false

abbrev pub dragged : MouseKind → Bool
dragged (drag b) = true
dragged wheel_up = false
dragged wheel_down = false
dragged (press b) = false
dragged (release b) = false

abbrev pub heard : TermMode → MouseKind → Bool
heard m kind =
    if m.mouse_motion || m.mouse_drag
    then true
    else if m.mouse_report_click
    then not (dragged kind)
    else m.alt_screen && (m.alternate_scroll_mode && wheel kind)

wheel_bytes-wheel : (app : Bool) (kind : MouseKind) → is_some (wheel_bytes app kind) ≡ wheel kind
unfolding wheel_bytes key_bytes
wheel_bytes-wheel app wheel_up = refl
wheel_bytes-wheel app wheel_down = refl
wheel_bytes-wheel app (press b) = refl
wheel_bytes-wheel app (drag b) = refl
wheel_bytes-wheel app (release b) = refl

silent_bytes-heard :
    (m : TermMode) (kind : MouseKind)
    → is_some (silent_bytes m kind) ≡ m.alt_screen && (m.alternate_scroll_mode && wheel kind)
unfolding alternate_scroll
silent_bytes-heard m kind = ground (arith, wheel_bytes-wheel (application_cursor m) kind)

reported_bytes-heard :
    (mode : MouseProtocolMode) (e : MouseProtocolEncoding) (kind : MouseKind) (col row : ℕ)
    → is_some (reported_bytes mode e kind col row) ≡ not (undue_drag mode kind)
reported_bytes-heard mode e kind col row = ground arith

undue_drag-dragged : (kind : MouseKind) → undue_drag press_release kind ≡ dragged kind
unfolding undue_drag
undue_drag-dragged wheel_up = refl
undue_drag-dragged wheel_down = refl
undue_drag-dragged (press b) = refl
undue_drag-dragged (drag b) = refl
undue_drag-dragged (release b) = refl

-- The modes that report motion.
abbrev motion : MouseProtocolMode → Bool
motion silent = false
motion press_release = false
motion button_motion = true
motion any_motion = true

undue_drag-motion :
    (mode : MouseProtocolMode) (kind : MouseKind)
    → motion mode ≡ true
    → undue_drag mode kind ≡ false
unfolding undue_drag
undue_drag-motion silent kind h = cc
undue_drag-motion press_release kind h = cc
undue_drag-motion button_motion kind h = refl
undue_drag-motion any_motion kind h = refl

-- A mouse action yields bytes exactly where the child's modes ask for it.
pub mouse_bytes-heard :
    (m : TermMode) (kind : MouseKind) (col row : ℕ)
    → is_some (mouse_bytes m kind col row) ≡ heard m kind
unfolding mouse_bytes mouse_protocol_mode
mouse_bytes-heard m kind col row = by_modes m.mouse_motion m.mouse_drag m.mouse_report_click
  where
    by_modes :
        (moving dragging click : Bool)
        → is_some (
            mouse_in
              (if moving
                then any_motion
                else if dragging
                then button_motion
                else if click
                then press_release
                else silent)
              m
              kind
              col
              row)
          ≡ (if moving || dragging
              then true
              else if click
              then not (dragged kind)
              else m.alt_screen && (m.alternate_scroll_mode && wheel kind))
    by_modes true dragging click =
        reported_bytes-heard any_motion (mouse_protocol_encoding m) kind col row
        ∙ ap not (undue_drag-motion any_motion kind refl)
    by_modes false true click =
        reported_bytes-heard button_motion (mouse_protocol_encoding m) kind col row
        ∙ ap not (undue_drag-motion button_motion kind refl)
    by_modes false false true =
        reported_bytes-heard press_release (mouse_protocol_encoding m) kind col row
        ∙ ap not (undue_drag-dragged kind)
    by_modes false false false = silent_bytes-heard m kind

-- What a button code says, as xterm documents it: 64 and 65 are the wheel, the low two bits are the
-- button, 32 is added for a motion, and the final letter tells a release.
abbrev button_at : ℕ → Option MouseBtn
button_at n =
    if n == 0
    then some MouseBtn.left
    else if n == 1
    then some MouseBtn.middle
    else if n == 2
    then some MouseBtn.right
    else none

abbrev act : (MouseBtn → MouseKind) → Option MouseBtn → Option MouseKind
act kind none = none
act kind (some b) = some (kind b)

unfoldable pub action : ℕ → Bool → Option MouseKind
action code rel =
    if code == 64
    then some wheel_up
    else if code == 65
    then some wheel_down
    else if leb 32 code
    then act drag (button_at (code - 32))
    else act (if rel then release else press) (button_at code)

action-mouse_code : (kind : MouseKind) → action (mouse_code kind) (is_release kind) ≡ some kind
unfolding action mouse_code
action-mouse_code wheel_up = refl
action-mouse_code wheel_down = refl
action-mouse_code (press MouseBtn.left) = refl
action-mouse_code (press MouseBtn.middle) = refl
action-mouse_code (press MouseBtn.right) = refl
action-mouse_code (release MouseBtn.left) = refl
action-mouse_code (release MouseBtn.middle) = refl
action-mouse_code (release MouseBtn.right) = refl
action-mouse_code (drag MouseBtn.left) = refl
action-mouse_code (drag MouseBtn.middle) = refl
action-mouse_code (drag MouseBtn.right) = refl

-- The action and the cell that a report gives its reader.
abbrev at_cell : ℕ → ℕ → Option MouseKind → Option (MouseKind × ℕ × ℕ)
at_cell col row none = none
at_cell col row (some kind) = some (kind, col, row)

abbrev pub told : Option (ℕ × ℕ × ℕ × Bool) → Option (MouseKind × ℕ × ℕ)
told none = none
told (some (code, col, row, rel)) = at_cell col row (action code rel)

-- In SGR encoding every action that is reported is read back by the child whole: the action with its
-- button, and the cell counted from one, in 16 bits: cell 65535 wraps to zero.
pub mouse_bytes-read_sgr :
    (m : TermMode) (kind : MouseKind) (col row : ℕ)
    → reports (mouse_protocol_mode m) ≡ true
    → heard m kind ≡ true
    → m.sgr_mouse ≡ true
    → (bytes : List ℕ) × (mouse_bytes m kind col row ≡ some bytes)
      × (told (read_sgr bytes) ≡ some (kind, (col + 1) % 2 ^ 16, (row + 1) % 2 ^ 16))
unfolding mouse_bytes mouse_protocol_mode mouse_protocol_encoding mouse_report
mouse_bytes-read_sgr m kind col row on h s = (
  sgr_report (mouse_code kind) (is_release kind) col row,
  ground (
    arith,
    undue_drag-dragged kind,
    undue_drag-motion any_motion kind refl,
    undue_drag-motion button_motion kind refl,
  ),
  ap told (sgr_report-read (mouse_code kind) (is_release kind) col row)
      ∙ ap (at_cell ((col + 1) % 2 ^ 16) ((row + 1) % 2 ^ 16)) (action-mouse_code kind),
)
