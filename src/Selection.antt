-- ===== src/Selection.antt =====
-- src/selection.rs: a drag selection over screen rows. The width of a character is that of the crate
-- unicode_width, `none` for a control character.
pub mod Glyphs
pub mod Segments
pub mod Extract
use fleetcom.Common.{
  ℕ, zero, suc, ◌-◌, ◌+◌, Bool, true, false, ◌&&◌, ◌||◌, Option, none, some, List, [], ◌∷◌, ◌++◌,
  ltb, leb, ◌==◌, min, ◌%◌, ◌^◌, if◌then◌else◌, length, ◌>>=◌,
}
use fleetcom.Text.{Text, len_utf8, trim_end, join_texts}
use fleetcom.EditBuffer.{split_at}

-- `Selection`: two cells, as row and column.
pub record Selection : Type 0 where
  pub anchor : ℕ × ℕ
  pub head : ℕ × ℕ

unfoldable pub begin : ℕ → ℕ → Selection
begin row col = record { anchor = (row, col); head = (row, col) }

unfoldable pub extend : ℕ → ℕ → Selection → Selection
extend row col s = record s { head = (row, col) }

unfoldable pub is_click : Selection → Bool
is_click s = s.anchor.0 == s.head.0 && s.anchor.1 == s.head.1

-- The order of pairs.
abbrev pub cell_gt : ℕ × ℕ → ℕ × ℕ → Bool
cell_gt a b = ltb b.0 a.0 || (a.0 == b.0 && ltb b.1 a.1)

abbrev pub clamp_cell : ℕ → ℕ × ℕ → ℕ × ℕ
clamp_cell last c = (min c.0 last, c.1)

abbrev pub ordered : ℕ × ℕ → ℕ × ℕ → (ℕ × ℕ) × (ℕ × ℕ)
ordered a b = if cell_gt a b then (b, a) else (a, b)

unfoldable pub bounds : ℕ → Selection → (ℕ × ℕ) × (ℕ × ℕ)
bounds last s = ordered (clamp_cell last s.anchor) (clamp_cell last s.head)

-- The loop of `segment_span`: the column, the byte offset and the column where the segment starts,
-- the byte offset behind it, and whether the last glyph belongs to it.
pub record Span : Type 0 where
  pub col : ℕ
  pub start : Option (ℕ × ℕ)
  pub stop : ℕ
  pub taken : Bool

-- The exclusive right edge; `none` is the end of the row.
abbrev pub left_of : ℕ → Option ℕ → Bool
left_of col none = true
left_of col (some t) = ltb col (t + 1)

abbrev pub overlaps : ℕ → Option ℕ → ℕ → ℕ → Bool
overlaps from to col w = left_of col to && ltb from (col + w)

-- `get_or_insert`.
abbrev pub or_start : ℕ × ℕ → Option (ℕ × ℕ) → Option (ℕ × ℕ)
or_start p none = some p
or_start p (some q) = some q

-- `&row[a..b]`; `none` is a panic off a character boundary.
abbrev pub front_of : ℕ → Option (Text × Text) → Option Text
front_of a none = none
front_of a (some (l, r)) = elim (split_at a l) [ none ↦ none | some (x, seg) ↦ some seg ]

unfoldable pub byte_slice : ℕ → ℕ → Text → Option Text
byte_slice a b row = front_of a (split_at b row)

abbrev pub with_col : ℕ → Option Text → Option (Option (ℕ × Text))
with_col col none = none
with_col col (some seg) = some (some (col, seg))

abbrev pub span_of : Text → Span → Option (Option (ℕ × Text))
span_of row s = elim s.start [
  | none ↦ some none
  | some (a, col) ↦ with_col col (byte_slice a s.stop row)
]

abbrev pub span_start : Span
span_start = record { col = 0; start = none; stop = 0; taken = false }

abbrev pub trimmed : Option (Option (ℕ × Text)) → Option (Option (ℕ × Text))
trimmed none = none
trimmed (some none) = some none
trimmed (some (some (col, seg))) = elim (trim_end seg) [
  | [] ↦ some none
  | c ∷ cs ↦ some (some (col % 2 ^ 16, c ∷ cs))
]

-- The rows of the selection, one line each.
abbrev pub line_of : Option (Option (ℕ × Text)) → Option Text
line_of none = none
line_of (some none) = some []
line_of (some (some (col, seg))) = some seg

abbrev pub joined : Option (List Text) → Option Text
joined none = none
joined (some ls) = some (join_texts (0x0a ∷ []) ls)

module _ (width : ℕ → Option ℕ) where
  -- `c.width().unwrap_or(0)`.
  abbrev pub cells_of : ℕ → ℕ
  cells_of c = elim (width c) [ none ↦ 0 | some w ↦ w ]

  -- A zero-width character goes with the glyph before it; `next` is the offset behind the character.
  abbrev pub visit : ℕ → Option ℕ → ℕ → ℕ → ℕ → Span → Span
  visit from to i next w s =
      if w == 0
      then (if s.taken then record s { stop = next } else s)
      else if overlaps from to s.col w
      then record {
        col = s.col + w;
        start = or_start (i, s.col) s.start;
        stop = next;
        taken = true;
      }
      else record s { col = s.col + w; taken = false }

  unfoldable pub span_loop : ℕ → Option ℕ → ℕ → Text → Span → Span
  span_loop from to i [] s = s
  span_loop from to i (c ∷ cs) s =
      span_loop from to (i + len_utf8 c) cs (visit from to i (i + len_utf8 c) (cells_of c) s)

  -- `segment_span`, inside the answer of the slice.
  unfoldable pub segment_span : Text → ℕ → Option ℕ → Option (Option (ℕ × Text))
  segment_span row from to = span_of row (span_loop from to 0 row span_start)

  abbrev pub row_of : ℕ → Text → (ℕ × ℕ) × (ℕ × ℕ) → Option (Option (ℕ × Text))
  row_of row content (a, b) =
      if ltb row a.0 || ltb b.0 row
      then some none
      else trimmed (
          segment_span content (if row == a.0 then a.1 else 0)
            (if row == b.0 then some b.1 else none))

  unfoldable pub row_segment : ℕ → Text → ℕ → Selection → Option (Option (ℕ × Text))
  row_segment row content last s = row_of row content (bounds last s)

  -- `start.0..=end.0`, from the first row on: the rows above are skipped, `left` are still to come.
  unfoldable pub lines_from : ℕ → ℕ → ℕ → ℕ → List Text → Selection → Option (List Text)
  lines_from row skip left last [] s = some []
  lines_from row (suc skip) left last (r ∷ rs) s = lines_from (row + 1) skip left last rs s
  lines_from row zero zero last (r ∷ rs) s = some []
  lines_from row zero (suc left) last (r ∷ rs) s = do
    line ← line_of (row_segment row r last s)
    rest ← lines_from (row + 1) zero left last rs s
    some (line ∷ rest)

  abbrev pub selected : ℕ → List Text → Selection → (ℕ × ℕ) × (ℕ × ℕ) → Option (List Text)
  selected last rows s (a, b) = lines_from 0 a.0 (b.0 + 1 - a.0) last rows s

  abbrev pub selected_lines : List Text → Selection → Option (List Text)
  selected_lines rows s = let last = length rows - 1 in selected last rows s (bounds last s)

  unfoldable pub extract : List Text → Selection → Option Text
  extract [] s = some []
  extract (r ∷ rs) s = joined (selected_lines (r ∷ rs) s)
