-- ===== src/Terminal.antt =====
-- What the core asks of a run's emulator: the methods of src/terminal/emulator.rs. `E` is the
-- emulator's state, and `TermMode` the mode bits of the terminal library that its readers test.
pub mod Input
use fleetcom.Common.{ℕ, Bool, true, false, ◌&&◌, Option, List, if◌then◌else◌}
use fleetcom.Text.{Text}
use fleetcom.Protocol.{ScrollAction, ClipboardKind}

pub record TermMode : Type 0 where
  pub mouse_report_click : Bool
  pub mouse_drag : Bool
  pub mouse_motion : Bool
  pub utf8_mouse : Bool
  pub sgr_mouse : Bool
  pub alt_screen : Bool
  pub alternate_scroll_mode : Bool
  pub app_cursor : Bool
  pub bracketed : Bool

pub data MouseProtocolMode : Type 0 where
  silent press_release button_motion any_motion : MouseProtocolMode

pub data MouseProtocolEncoding : Type 0 where
  single_byte utf8_fields sgr : MouseProtocolEncoding

unfoldable pub mouse_protocol_mode : TermMode → MouseProtocolMode
mouse_protocol_mode m =
    if m.mouse_motion
    then any_motion
    else if m.mouse_drag
    then button_motion
    else if m.mouse_report_click
    then press_release
    else silent

unfoldable pub mouse_protocol_encoding : TermMode → MouseProtocolEncoding
mouse_protocol_encoding m =
    if m.sgr_mouse then sgr else if m.utf8_mouse then utf8_fields else single_byte

unfoldable pub alternate_screen : TermMode → Bool
alternate_screen m = m.alt_screen

unfoldable pub alternate_scroll : TermMode → Bool
alternate_scroll m = m.alt_screen && m.alternate_scroll_mode

unfoldable pub application_cursor : TermMode → Bool
application_cursor m = m.app_cursor

unfoldable pub bracketed_paste : TermMode → Bool
bracketed_paste m = m.bracketed

-- `mode != MouseProtocolMode::None`.
abbrev pub reports : MouseProtocolMode → Bool
reports silent = false
reports press_release = true
reports button_motion = true
reports any_motion = true

-- `input_hints`.
unfoldable pub input_hints : TermMode → Bool × Bool × Bool
unfolding mouse_protocol_mode alternate_screen alternate_scroll
input_hints m = (reports (mouse_protocol_mode m), alternate_screen m, alternate_scroll m)

-- `ClipboardStores`.
pub record Stores : Type 0 where
  pub stores : List (ClipboardKind × Text)
  pub oversized_len : Option ℕ

-- The result of `formatted`.
pub record Rendering : Type 0 where
  pub bytes : List ℕ
  pub cursor : ℕ × ℕ
  pub hide : Bool

pub record Terminal (E : Type 0) : Type 0 where
  pub open_screen : ℕ → ℕ → ℕ → E
  pub set_size : ℕ → ℕ → E → E
  pub scroll : ScrollAction → E → E
  pub scroll_offset : E → ℕ
  pub drain_clipboard : E → E × Stores
  pub flush_expired_sync : E → E × List (List ℕ)
  pub formatted : E → Rendering
  pub term_mode : E → TermMode
  pub screen_lines : E → List Text
