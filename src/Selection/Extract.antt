-- ===== src/Selection/Extract.antt =====
-- What `extract` of src/selection.rs yields, whichever way the drag went.
use fleetcom.Common.{
  ℕ, zero, suc, ◌+◌, ◌-◌, ◌≤◌, ◌<◌, ◌≡◌, ◌%◌, ◌^◌, refl, ap, ◌∙◌, Bool, true, false, inl, inr,
  Option, none, some, List, [], ◌∷◌, ◌||◌, ltb, ◌==◌, if◌then◌else◌, length, arith, ◌>>=◌,
}
use fleetcom.Text.{Text, trim_end}
use fleetcom.Selection.{
  Selection, clamp_cell, ordered, bounds, segment_span, trimmed, row_of, row_segment, line_of,
  lines_from, selected, selected_lines, joined, extract,
}
use fleetcom.Selection.Segments.{segment_span-cut}

-- The drag the other way.
abbrev pub reversed : Selection → Selection
reversed s = record { anchor = s.head; head = s.anchor }

ordered_comm : (a b : ℕ × ℕ) → ordered a b ≡ ordered b a
ordered_comm (a, b) (c, d) = ground arith

bounds-reversed : (last : ℕ) (s : Selection) → bounds last (reversed s) ≡ bounds last s
unfolding bounds
bounds-reversed last s = ordered_comm (clamp_cell last s.head) (clamp_cell last s.anchor)

bounds_rows :
    (last : ℕ) (s : Selection)
    → ((bounds last s).0.0 ≤ (bounds last s).1.0) × ((bounds last s).1.0 ≤ last)
unfolding bounds
bounds_rows last s = ground arith

module _ (width : ℕ → Option ℕ) where
  segment_span_total :
      (row : Text) (from : ℕ) (to : Option ℕ)
      → (o : Option (ℕ × Text)) × (segment_span width row from to ≡ some o)
  segment_span_total row from to = elim (segment_span-cut width row from to) [
    | inl (e, g) ↦ (none, e)
    | inr (pre, mid, post, parts, e, b, h, m) ↦ (some (_, mid), e)
  ]

  trimmed_total : (o : Option (ℕ × Text)) → (r : Option (ℕ × Text)) × (trimmed (some o) ≡ some r)
  trimmed_total none = (none, refl)
  trimmed_total (some (col, seg)) = by_end (trim_end seg) refl
    where
      by_end :
          (t : Text)
          → trim_end seg ≡ t
          → (r : Option (ℕ × Text)) × (trimmed (some (some (col, seg))) ≡ some r)
      by_end [] e = (none, rw (e, trimmed) refl)
      by_end (c ∷ cs) e = (some (col % 2 ^ 16, c ∷ cs), rw (e, trimmed) refl)

  row_segment_total :
      (row : ℕ) (content : Text) (last : ℕ) (s : Selection)
      → (o : Option (ℕ × Text)) × (row_segment width row content last s ≡ some o)
  unfolding row_segment
  row_segment_total row content last s = by_bounds (bounds last s)
    where
      by_test :
          (b : Bool) (from : ℕ) (to : Option ℕ)
          → (o : Option (ℕ × Text)) × ((if b
                then some none
                else trimmed (segment_span width content from to))
              ≡ some o)
      by_test true from to = (none, refl)
      by_test false from to =
          let (o, e) = segment_span_total content from to in
          let (r, k) = trimmed_total o in (r, ap trimmed e ∙ k)

      by_bounds :
          (p : (ℕ × ℕ) × (ℕ × ℕ)) → (o : Option (ℕ × Text)) × (row_of width row content p ≡ some o)
      by_bounds (a, b) =
          by_test (ltb row a.0 || ltb b.0 row) (if row == a.0 then a.1 else 0)
            (if row == b.0 then some b.1 else none)

  line_total : (o : Option (ℕ × Text)) → (l : Text) × (line_of (some o) ≡ some l)
  line_total none = ([], refl)
  line_total (some (col, seg)) = (seg, refl)

  lines_from_total :
      (row skip left last : ℕ) (rs : List Text) (s : Selection)
      → skip + left ≤ length rs
      → (ls : List Text) × (lines_from width row skip left last rs s ≡ some ls) × (length ls ≡ left)
  unfolding lines_from
  lines_from_total row skip left last [] s h = ([], refl, omega arith)
  lines_from_total row (suc skip) left last (r ∷ rs) s h =
      lines_from_total (row + 1) skip left last rs s (omega arith)
  lines_from_total row zero zero last (r ∷ rs) s h = ([], refl, refl)
  lines_from_total row zero (suc left) last (r ∷ rs) s h =
      let (o, e) = row_segment_total row r last s in
      let (l, k) = line_total o in
      let (ls, f, n) = lines_from_total (row + 1) zero left last rs s (omega arith) in
      (
        l ∷ ls,
        ap
              (λ m. line_of m >>= λ line.
                lines_from width (row + 1) zero left last rs s >>= λ rest. some (line ∷ rest))
              e
            ∙ ap
                (λ m. m >>= λ line.
                  lines_from width (row + 1) zero left last rs s >>= λ rest. some (line ∷ rest))
                k
            ∙ ap (λ m. m >>= λ rest. some (l ∷ rest)) f,
        omega (arith, n),
      )

  lines_from-reversed :
      (row skip left last : ℕ) (rs : List Text) (s : Selection)
      → lines_from width row skip left last rs (reversed s)
        ≡ lines_from width row skip left last rs s
  unfolding lines_from row_segment
  lines_from-reversed row skip left last [] s = refl
  lines_from-reversed row (suc skip) left last (r ∷ rs) s =
      lines_from-reversed (row + 1) skip left last rs s
  lines_from-reversed row zero zero last (r ∷ rs) s = refl
  lines_from-reversed row zero (suc left) last (r ∷ rs) s =
      let b = bounds-reversed last s in
      let rest = lines_from-reversed (row + 1) zero left last rs s in
      (λ i. line_of (row_of width row r (b i)) >>= λ line. rest i >>= λ ls. some (line ∷ ls))

  -- On a screen that is not empty a selection yields, without a panic, one line for each row between
  -- its two ends, both included, after the ends are brought onto the screen.
  pub selected_lines-rows :
      (rows : List Text) (s : Selection)
      → 0 < length rows
      → (ls : List Text) × (selected_lines width rows s ≡ some ls)
        × (length ls + (bounds (length rows - 1) s).0.0 ≡ (bounds (length rows - 1) s).1.0 + 1)
  selected_lines-rows rows s h =
      let last = length rows - 1 in
      let r = bounds_rows last s in
      let (ls, e, n) =
        lines_from_total 0 (bounds last s).0.0 ((bounds last s).1.0 + 1 - (bounds last s).0.0) last
          rows s (omega (arith, r.0, r.1)) in
      (ls, e, omega (arith, n, r.0))

  -- A selection dragged the other way yields the same text.
  pub extract-reversed :
      (rows : List Text) (s : Selection) → extract width rows (reversed s) ≡ extract width rows s
  unfolding extract
  extract-reversed [] s = refl
  extract-reversed (r ∷ rs) s =
      let last = length (r ∷ rs) - 1 in
      let b = bounds last s in
      ap joined (
        ap (selected width last (r ∷ rs) (reversed s)) (bounds-reversed last s)
        ∙ lines_from-reversed 0 b.0.0 (b.1.0 + 1 - b.0.0) last (r ∷ rs) s)
