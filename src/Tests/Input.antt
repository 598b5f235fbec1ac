-- ===== src/Tests/Input.antt =====
-- The theorems on a child's input at concrete pastes, mouse actions and keys.
use fleetcom.Common.{
  ℕ, ◌+◌, ◌%◌, ◌^◌, ◌≡◌, refl, true, false, some, List, [], ◌∷◌, ◌++◌, is_some, take, drop, arith,
}
use fleetcom.Protocol.{Key, Mods, MouseBtn, drag}
use fleetcom.Terminal.{TermMode, mouse_protocol_mode}
use fleetcom.Terminal.Input.{paste_start, paste_end, paste_bytes, mouse_bytes, key_bytes}
use fleetcom.Terminal.Input.Paste.{
  marked, unmarked, lines_with, lines_cr, paste_bytes-marked, paste_bytes-reforms,
  paste_bytes-lines,
}
use fleetcom.Terminal.Input.Reports.{heard, read_sgr, told, mouse_bytes-heard, mouse_bytes-read_sgr}
use fleetcom.Terminal.Input.Bytes.{ReadBack, key_bytes-read_key}
use fleetcom.Tests.Fleet.{plain_modes}

abbrev ls : List ℕ
ls = b'l' ∷ b's' ∷ []

paste_bytes-marked_example :
    paste_bytes true (marked (ls ∷ []) ls) ≡ paste_start ++ (unmarked (ls ∷ []) ls ++ paste_end)
paste_bytes-marked_example = paste_bytes-marked (ls ∷ []) ls (omega arith) (omega arith)

paste_bytes-reforms_example :
    paste_bytes true (take 3 paste_end ++ (paste_end ++ (drop 3 paste_end ++ ls)))
    ≡ paste_start ++ (paste_end ++ (ls ++ paste_end))
paste_bytes-reforms_example = paste_bytes-reforms 3 ls (omega arith) (omega arith) (omega arith)

paste_bytes-lines_example :
    paste_bytes false (lines_with ((true, ls) ∷ (false, 13 ∷ ls) ∷ []) (ls ++ 13 ∷ ls))
    ≡ lines_cr ((true, ls) ∷ (false, 13 ∷ ls) ∷ []) (ls ++ 13 ∷ ls)
paste_bytes-lines_example =
    paste_bytes-lines ((true, ls) ∷ (false, 13 ∷ ls) ∷ []) (ls ++ 13 ∷ ls) (omega arith)
      (omega arith)

-- A child that asked for drags and SGR reports.
abbrev drag_modes : TermMode
drag_modes = record plain_modes { mouse_drag = true; sgr_mouse = true }

mouse_bytes-heard_example :
    is_some (mouse_bytes drag_modes (drag MouseBtn.left) 4 2)
    ≡ heard drag_modes (drag MouseBtn.left)
mouse_bytes-heard_example = mouse_bytes-heard drag_modes (drag MouseBtn.left) 4 2

mouse_bytes-read_sgr_example :
    (bytes : List ℕ) × (mouse_bytes drag_modes (drag MouseBtn.left) 4 2 ≡ some bytes)
    × (told (read_sgr bytes) ≡ some (drag MouseBtn.left, (4 + 1) % 2 ^ 16, (2 + 1) % 2 ^ 16))
unfolding mouse_protocol_mode
mouse_bytes-read_sgr_example =
    mouse_bytes-read_sgr drag_modes (drag MouseBtn.left) 4 2 refl refl refl

abbrev shift_ctrl : Mods
shift_ctrl = record { shift = true; alt = false; ctrl = true }

key_bytes-read_key_example :
    ReadBack true (Key.f 5) shift_ctrl (key_bytes true (Key.f 5) shift_ctrl)
key_bytes-read_key_example = key_bytes-read_key true (Key.f 5) shift_ctrl (omega arith)
