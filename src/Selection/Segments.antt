-- ===== src/Selection/Segments.antt =====
-- What `segment_span` of src/selection.rs takes from a row.
use fleetcom.Common.{
  ℕ, ◌+◌, ◌<◌, ◌≡◌, refl, sym, ap, ◌∙◌, Bool, true, false, ◌⊎◌, inl, inr, Option, none, some, [],
  ◌∷◌, ◌++◌, append_assoc, ◌==◌, arith, subst,
}
use fleetcom.Text.{Text, len_utf8, byte_len}
use fleetcom.Text.Laws.{byte_len-append}
use fleetcom.EditBuffer.Zipper.{split_at-append}
use fleetcom.Selection.{
  Span, overlaps, byte_slice, front_of, with_col, cells_of, visit, span_loop, span_of, span_start,
  segment_span,
}
use fleetcom.Selection.Glyphs.{Glyphs, cells, span_inside}

zero-add : (n : ℕ) → 0 + n ≡ n
zero-add n = omega arith

module _ (width : ℕ → Option ℕ) where
  -- The whole row: nothing is taken, or it falls into what stands before the segment, the segment and
  -- what follows it.
  record Cut (from : ℕ) (to : Option ℕ) (i : ℕ) (cs : Text) (s : Span) : Type 0 where
    pre : Text
    mid : Text
    post : Text
    parts : cs ≡ pre ++ (mid ++ post)
    start :
        (span_loop width from to i cs s).start ≡ some (i + byte_len pre, s.col + cells width pre)
    stop : (span_loop width from to i cs s).stop ≡ i + byte_len pre + byte_len mid
    before : Glyphs width false from to s.col pre
    hits : Glyphs width true from to (s.col + cells width pre) mid
    misses : Glyphs width false from to (s.col + cells width pre + cells width mid) post

  record Nothing (from : ℕ) (to : Option ℕ) (i : ℕ) (cs : Text) (s : Span) : Type 0 where
    start : (span_loop width from to i cs s).start ≡ none
    misses : Glyphs width false from to s.col cs

  visit_miss :
      (from : ℕ) (to : Option ℕ) (i next w : ℕ) (s : Span)
      → s.taken ≡ false
      → s.start ≡ none
      → ((w == 0) ≡ true) ⊎ (overlaps from to s.col w ≡ false)
      → ((visit width from to i next w s).start ≡ none)
        × ((visit width from to i next w s).col ≡ s.col + w)
        × ((visit width from to i next w s).taken ≡ false)
        × (0 < w → overlaps from to s.col w ≡ false)
  visit_miss from to i next w s t b (inl thin) = ground arith
  visit_miss from to i next w s t b (inr out) = ground arith

  visit_first :
      (from : ℕ) (to : Option ℕ) (i next w : ℕ) (s : Span)
      → s.start ≡ none
      → (w == 0) ≡ false
      → overlaps from to s.col w ≡ true
      → ((visit width from to i next w s).start ≡ some (i, s.col))
        × ((visit width from to i next w s).stop ≡ next)
        × ((visit width from to i next w s).col ≡ s.col + w)
        × ((visit width from to i next w s).taken ≡ true)
        × (from < s.col + w)
  visit_first from to i next w s b wide hit = ground arith

  -- A character before the segment.
  Cut-step :
      (from : ℕ) (to : Option ℕ) (i c : ℕ) (cs : Text) (s : Span)
      → s.taken ≡ false
      → s.start ≡ none
      → ((cells_of width c == 0) ≡ true) ⊎ (overlaps from to s.col (cells_of width c) ≡ false)
      → Nothing from to
          (i + len_utf8 c)
          cs
          (visit width from to i (i + len_utf8 c) (cells_of width c) s)
        ⊎ Cut from to
            (i + len_utf8 c)
            cs
            (visit width from to i (i + len_utf8 c) (cells_of width c) s)
      → Nothing from to i (c ∷ cs) s ⊎ Cut from to i (c ∷ cs) s
  unfolding span_loop cells byte_len
  Cut-step from to i c cs s t b h (inl r) =
      let w = cells_of width c in
      let v = visit_miss from to i (i + len_utf8 c) w s t b h in
      inl (record {
        start = r.start;
        misses = (v.3, subst (λ k. Glyphs width false from to k cs) v.1 r.misses);
      })
  Cut-step from to i c cs s t b h (inr r) =
      let w = cells_of width c in
      let v = visit_miss from to i (i + len_utf8 c) w s t b h in
      let pre = subst (λ k. Glyphs width false from to k r.pre) v.1 r.before in
      let e : (visit width from to i (i + len_utf8 c) w s).col + cells width r.pre
          ≡ s.col + (w + cells width r.pre) =
        omega (arith, v.1) in
      let bytes : i + len_utf8 c + byte_len r.pre ≡ i + (len_utf8 c + byte_len r.pre) =
        omega arith in
      inr (record {
        pre = c ∷ r.pre;
        mid = r.mid;
        post = r.post;
        parts = ap (c ∷◌) r.parts;
        start = r.start ∙ ap some (λ k. (bytes k, e k));
        stop = r.stop ∙ omega arith;
        before = (v.3, pre);
        hits = subst (λ k. Glyphs width true from to k r.mid) e r.hits;
        misses = subst (λ k. Glyphs width false from to (k + cells width r.mid) r.post) e r.misses;
      })

  -- The first glyph of the segment.
  Cut-first :
      (from : ℕ) (to : Option ℕ) (i c : ℕ) (cs : Text) (s : Span)
      → s.start ≡ none
      → (cells_of width c == 0) ≡ false
      → overlaps from to s.col (cells_of width c) ≡ true
      → Cut from to i (c ∷ cs) s
  unfolding span_loop cells byte_len
  Cut-first from to i c cs s b wide hit =
      let w = cells_of width c in
      let next = i + len_utf8 c in
      let v = visit_first from to i next w s b wide hit in
      let s' = visit width from to i next w s in
      let r =
        span_inside width from to next cs s' (i, s.col) v.3 v.0 v.1 (omega (arith, v.2, v.4)) in
      let z : s.col ≡ s.col + 0 = omega arith in
      let y : i ≡ i + 0 = omega arith in
      let hits : Glyphs width true from to s.col (c ∷ r.mid) =
        (λ p. hit, subst (λ k. Glyphs width true from to k r.mid) v.2 r.hits) in
      let e : s'.col + cells width r.mid ≡ s.col + 0 + (w + cells width r.mid) =
        omega (arith, v.2) in
      record {
        pre = [];
        mid = c ∷ r.mid;
        post = r.post;
        parts = ap (c ∷◌) r.parts;
        start = r.start ∙ v.0 ∙ ap some (λ k. (y k, z k));
        stop = r.stop ∙ omega arith;
        before = tt;
        hits = subst (λ k. Glyphs width true from to k (c ∷ r.mid)) z hits;
        misses = subst (λ k. Glyphs width false from to k r.post) e r.misses;
      }

  span-Cut :
      (from : ℕ) (to : Option ℕ) (i : ℕ) (cs : Text) (s : Span)
      → s.taken ≡ false
      → s.start ≡ none
      → Nothing from to i cs s ⊎ Cut from to i cs s
  unfolding span_loop
  span-Cut from to i [] s t b = inl (record { start = b; misses = tt })
  span-Cut from to i (c ∷ cs) s t b =
      let next = i + len_utf8 c in
      let w = cells_of width c in
      by_tests (w == 0) (overlaps from to s.col w) refl refl (λ h.
        let v = visit_miss from to i next w s t b h in
        span-Cut from to next cs (visit width from to i next w s) v.2 v.0)
    where
      by_tests :
          (thin hit : Bool)
          → (cells_of width c == 0) ≡ thin
          → overlaps from to s.col (cells_of width c) ≡ hit
          → (((cells_of width c == 0) ≡ true) ⊎ (overlaps from to s.col (cells_of width c) ≡ false)
              → Nothing from to
                  (i + len_utf8 c)
                  cs
                  (visit width from to i (i + len_utf8 c) (cells_of width c) s)
                ⊎ Cut from to
                    (i + len_utf8 c)
                    cs
                    (visit width from to i (i + len_utf8 c) (cells_of width c) s))
          → Nothing from to i (c ∷ cs) s ⊎ Cut from to i (c ∷ cs) s
      by_tests true hit x y on = Cut-step from to i c cs s t b (inl x) (on (inl x))
      by_tests false false x y on = Cut-step from to i c cs s t b (inr y) (on (inr y))
      by_tests false true x y on = inr (Cut-first from to i c cs s b x y)

  byte_slice-parts :
      (pre mid post : Text)
      → byte_slice (byte_len pre) (byte_len pre + byte_len mid) (pre ++ (mid ++ post)) ≡ some mid
  unfolding byte_slice
  byte_slice-parts pre mid post =
      let e : byte_len pre + byte_len mid ≡ byte_len (pre ++ mid) = sym (byte_len-append pre mid) in
      rw (e, ← append_assoc pre mid post)
        (rw (split_at-append (pre ++ mid) post) (rw (split_at-append pre mid, front_of) refl))

  span_of-some :
      (row : Text) (s : Span) (a col : ℕ)
      → s.start ≡ some (a, col)
      → span_of row s ≡ with_col col (byte_slice a s.stop row)
  span_of-some row s a col e = rw (e, span_of) refl

  -- A row's segment is cut without a panic: either no glyph of the row overlaps the range and there
  -- is no segment, or the row falls into three parts, the segment is the middle one with the column
  -- at which it begins, all of its glyphs overlap the range, and none of the others does.
  pub segment_span-cut :
      (row : Text) (from : ℕ) (to : Option ℕ)
      → ((segment_span width row from to ≡ some none) × Glyphs width false from to 0 row)
        ⊎ ((pre : Text) × (mid : Text) × (post : Text) × (row ≡ pre ++ (mid ++ post))
            × (segment_span width row from to ≡ some (some (cells width pre, mid)))
            × Glyphs width false from to 0 pre
            × Glyphs width true from to (cells width pre) mid
            × Glyphs width false from to (cells width pre + cells width mid) post)
  unfolding segment_span
  segment_span-cut row from to = by_cut (span-Cut from to 0 row span_start refl refl)
    where
      found :
          (c : Cut from to 0 row span_start)
          → span_of row (span_loop width from to 0 row span_start)
            ≡ some (some (cells width c.pre, c.mid))
      found c =
          let at : 0 + byte_len c.pre ≡ byte_len c.pre = omega arith in
          let col : 0 + cells width c.pre ≡ cells width c.pre = omega arith in
          let stop : (span_loop width from to 0 row span_start).stop
              ≡ byte_len c.pre + byte_len c.mid =
            c.stop ∙ omega arith in
          span_of-some row (span_loop width from to 0 row span_start) (byte_len c.pre)
            (cells width c.pre) (c.start ∙ ap some (λ k. (at k, col k)))
          ∙ ap (with_col (cells width c.pre)) (
              (λ k. byte_slice (byte_len c.pre) (stop k) (c.parts k))
              ∙ byte_slice-parts c.pre c.mid c.post)

      by_cut :
          Nothing from to 0 row span_start ⊎ Cut from to 0 row span_start
          → ((segment_span width row from to ≡ some none) × Glyphs width false from to 0 row)
            ⊎ ((pre : Text) × (mid : Text) × (post : Text) × (row ≡ pre ++ (mid ++ post))
                × (segment_span width row from to ≡ some (some (cells width pre, mid)))
                × Glyphs width false from to 0 pre
                × Glyphs width true from to (cells width pre) mid
                × Glyphs width false from to (cells width pre + cells width mid) post)
      by_cut (inl n) = inl (rw (n.start, span_of) refl, n.misses)
      by_cut (inr c) = inr (
        c.pre,
        c.mid,
        c.post,
        c.parts,
        found c,
        c.before,
        subst (λ k. Glyphs width true from to k c.mid) (zero-add (cells width c.pre)) c.hits,
        subst (λ k. Glyphs width false from to (k + cells width c.mid) c.post)
            (zero-add (cells width c.pre)) c.misses,
      )
