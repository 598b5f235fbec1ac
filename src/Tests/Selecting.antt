-- ===== src/Tests/Selecting.antt =====
-- The theorems on selections at a concrete screen: src/selection.rs.
use fleetcom.Common.{
  ℕ, ◌+◌, ◌-◌, ◌≡◌, refl, true, false, ◌⊎◌, Option, none, some, List, [], ◌∷◌, ◌++◌, length, arith,
  ltb, if◌then◌else◌,
}
use fleetcom.Text.{Text, text, len_utf8, trim_end, is_whitespace, join_texts}
use fleetcom.EditBuffer.{split_at}
use fleetcom.Selection.{
  Selection, bounds, lines_from, row_segment, span_loop, byte_slice, segment_span, selected_lines,
  extract,
}
use fleetcom.Selection.Glyphs.{Glyphs, cells}
use fleetcom.Selection.Segments.{segment_span-cut}
use fleetcom.Selection.Extract.{reversed, selected_lines-rows, extract-reversed}

-- One cell for a letter, two beyond the Latin ranges.
abbrev simple_width : ℕ → Option ℕ
simple_width c = if ltb c 0x20 then none else if ltb c 0x1100 then some 1 else some 2

abbrev rows : List Text
rows = text "hello world" ∷ text "second" ∷ []

abbrev dragged : Selection
dragged = record { anchor = (0, 6); head = (1, 2) }

segment_span-cut_example :
    ((segment_span simple_width (text "hello") 1 (some 3) ≡ some none)
      × Glyphs simple_width false 1 (some 3) 0 (text "hello"))
    ⊎ ((pre : Text) × (mid : Text) × (post : Text) × (text "hello" ≡ pre ++ (mid ++ post))
        × (segment_span simple_width (text "hello") 1 (some 3)
            ≡ some (some (cells simple_width pre, mid)))
        × Glyphs simple_width false 1 (some 3) 0 pre
        × Glyphs simple_width true 1 (some 3) (cells simple_width pre) mid
        × Glyphs simple_width false 1
            (some 3)
            (cells simple_width pre + cells simple_width mid)
            post)
segment_span-cut_example = segment_span-cut simple_width (text "hello") 1 (some 3)

selected_lines-rows_example :
    (ls : List Text) × (selected_lines simple_width rows dragged ≡ some ls)
    × (length ls + (bounds (length rows - 1) dragged).0.0
        ≡ (bounds (length rows - 1) dragged).1.0 + 1)
selected_lines-rows_example = selected_lines-rows simple_width rows dragged (omega arith)

extract-reversed_example :
    extract simple_width rows (reversed dragged) ≡ extract simple_width rows dragged
extract-reversed_example = extract-reversed simple_width rows dragged

extract_text : extract simple_width rows dragged ≡ some (text "world" ++ 10 ∷ text "sec")
unfolding extract bounds lines_from row_segment segment_span span_loop text byte_slice split_at
    len_utf8 trim_end is_whitespace join_texts
extract_text = refl
