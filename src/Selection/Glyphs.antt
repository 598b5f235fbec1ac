-- ===== src/Selection/Glyphs.antt =====
-- The glyphs of a row and the columns at which the loop of `segment_span` (src/selection.rs) enters and
-- leaves the range.
use fleetcom.Common.{
  ℕ, ◌+◌, ◌<◌, ◌≡◌, refl, ap, ◌∙◌, Bool, true, false, ◌⊎◌, inl, inr, Option, none, some, [], ◌∷◌,
  ◌++◌, ◌==◌, arith, subst,
}
use fleetcom.Text.{Text, len_utf8, byte_len}
use fleetcom.Selection.{Span, left_of, overlaps, cells_of, visit, span_loop}

module _ (width : ℕ → Option ℕ) where
  -- The cells of a text.
  unfoldable pub cells : Text → ℕ
  cells [] = 0
  cells (c ∷ cs) = cells_of width c + cells cs

  -- Every glyph of a text that begins at a column overlaps the range, or none does. A character of no
  -- width is no glyph.
  abbrev pub Glyphs : Bool → ℕ → Option ℕ → ℕ → Text → Type 0
  Glyphs hit from to col [] = Unit {0}
  Glyphs hit from to col (c ∷ cs) =
      (0 < cells_of width c → overlaps from to col (cells_of width c) ≡ hit)
      × Glyphs hit from to (col + cells_of width c) cs

  -- Behind the right edge nothing is taken any more.
  record Unchanged (from : ℕ) (to : Option ℕ) (i : ℕ) (cs : Text) (s : Span) : Type 0 where
    start : (span_loop width from to i cs s).start ≡ s.start
    stop : (span_loop width from to i cs s).stop ≡ s.stop
    misses : Glyphs false from to s.col cs

  after_edge : (col w : ℕ) (to : Option ℕ) → left_of col to ≡ false → left_of (col + w) to ≡ false
  after_edge col w none h = cc
  after_edge col w (some t) h = ground arith

  visit_after :
      (from : ℕ) (to : Option ℕ) (i next w : ℕ) (s : Span)
      → s.taken ≡ false
      → left_of s.col to ≡ false
      → ((visit width from to i next w s).start ≡ s.start)
        × ((visit width from to i next w s).stop ≡ s.stop)
        × ((visit width from to i next w s).col ≡ s.col + w)
        × ((visit width from to i next w s).taken ≡ false)
        × (overlaps from to s.col w ≡ false)
  visit_after from to i next w s t e = ground arith

  span_after :
      (from : ℕ) (to : Option ℕ) (i : ℕ) (cs : Text) (s : Span)
      → s.taken ≡ false
      → left_of s.col to ≡ false
      → Unchanged from to i cs s
  unfolding span_loop
  span_after from to i [] s t e = record { start = refl; stop = refl; misses = tt }
  span_after from to i (c ∷ cs) s t e =
      let w = cells_of width c in
      let next = i + len_utf8 c in
      let s' = visit width from to i next w s in
      let v = visit_after from to i next w s t e in
      let r =
        span_after from to next cs s' v.3 (ap (λ k. left_of k to) v.2 ∙ after_edge s.col w to e) in
      record {
        start = r.start ∙ v.0;
        stop = r.stop ∙ v.1;
        misses = (λ p. v.4, subst (λ k. Glyphs false from to k cs) v.2 r.misses);
      }

  -- Inside the range: what still belongs to the segment, and what follows it.
  pub record Rest (from : ℕ) (to : Option ℕ) (i : ℕ) (cs : Text) (s : Span) : Type 0 where
    pub mid : Text
    pub post : Text
    pub parts : cs ≡ mid ++ post
    pub start : (span_loop width from to i cs s).start ≡ s.start
    pub stop : (span_loop width from to i cs s).stop ≡ i + byte_len mid
    pub hits : Glyphs true from to s.col mid
    pub misses : Glyphs false from to (s.col + cells mid) post

  visit_taken :
      (from : ℕ) (to : Option ℕ) (i next w : ℕ) (s : Span) (p : ℕ × ℕ)
      → s.taken ≡ true
      → s.start ≡ some p
      → from < s.col
      → ((w == 0) ≡ true) ⊎ (left_of s.col to ≡ true)
      → ((visit width from to i next w s).start ≡ s.start)
        × ((visit width from to i next w s).stop ≡ next)
        × ((visit width from to i next w s).col ≡ s.col + w)
        × ((visit width from to i next w s).taken ≡ true)
        × (0 < w → overlaps from to s.col w ≡ true)
  visit_taken from to i next w s p t b q (inl thin) = ground arith
  visit_taken from to i next w s p t b q (inr inside) = ground arith

  visit_left :
      (from : ℕ) (to : Option ℕ) (i next w : ℕ) (s : Span)
      → (w == 0) ≡ false
      → left_of s.col to ≡ false
      → ((visit width from to i next w s).start ≡ s.start)
        × ((visit width from to i next w s).stop ≡ s.stop)
        × ((visit width from to i next w s).col ≡ s.col + w)
        × ((visit width from to i next w s).taken ≡ false)
        × (overlaps from to s.col w ≡ false)
  visit_left from to i next w s wide e = ground arith

  -- One more character of the segment.
  Rest-step :
      (from : ℕ) (to : Option ℕ) (i c : ℕ) (cs : Text) (s : Span) (p : ℕ × ℕ)
      → s.taken ≡ true
      → s.start ≡ some p
      → from < s.col
      → ((cells_of width c == 0) ≡ true) ⊎ (left_of s.col to ≡ true)
      → Rest from to
          (i + len_utf8 c)
          cs
          (visit width from to i (i + len_utf8 c) (cells_of width c) s)
      → Rest from to i (c ∷ cs) s
  unfolding span_loop cells byte_len
  Rest-step from to i c cs s p t b q h r =
      let w = cells_of width c in
      let v = visit_taken from to i (i + len_utf8 c) w s p t b q h in
      let e : s.col + w + cells r.mid ≡ s.col + (w + cells r.mid) = omega arith in
      let k = subst (λ k. Glyphs false from to (k + cells r.mid) r.post) v.2 r.misses in
      record {
        mid = c ∷ r.mid;
        post = r.post;
        parts = ap (c ∷◌) r.parts;
        start = r.start ∙ v.0;
        stop = r.stop ∙ omega arith;
        hits = (v.4, subst (λ k. Glyphs true from to k r.mid) v.2 r.hits);
        misses = subst (λ k. Glyphs false from to k r.post) e k;
      }

  Rest-end :
      (from : ℕ) (to : Option ℕ) (i c : ℕ) (cs : Text) (s : Span)
      → s.stop ≡ i
      → (cells_of width c == 0) ≡ false
      → left_of s.col to ≡ false
      → Rest from to i (c ∷ cs) s
  unfolding span_loop cells byte_len
  Rest-end from to i c cs s e wide out =
      let w = cells_of width c in
      let next = i + len_utf8 c in
      let s' = visit width from to i next w s in
      let v = visit_left from to i next w s wide out in
      let u =
        span_after from to next cs s' v.3
          (ap (λ k. left_of k to) v.2 ∙ after_edge s.col w to out) in
      let z : s.col ≡ s.col + 0 = omega arith in
      let m : Glyphs false from to s.col (c ∷ cs) =
        (λ p. v.4, subst (λ k. Glyphs false from to k cs) v.2 u.misses) in
      record {
        mid = [];
        post = c ∷ cs;
        parts = refl;
        start = u.start ∙ v.0;
        stop = u.stop ∙ v.1 ∙ e ∙ omega arith;
        hits = tt;
        misses = subst (λ k. Glyphs false from to k (c ∷ cs)) z m;
      }

  pub span_inside :
      (from : ℕ) (to : Option ℕ) (i : ℕ) (cs : Text) (s : Span) (p : ℕ × ℕ)
      → s.taken ≡ true
      → s.start ≡ some p
      → s.stop ≡ i
      → from < s.col
      → Rest from to i cs s
  unfolding span_loop cells byte_len
  span_inside from to i [] s p t b e q = record {
    mid = [];
    post = [];
    parts = refl;
    start = refl;
    stop = omega (arith, e);
    hits = tt;
    misses = tt;
  }
  span_inside from to i (c ∷ cs) s p t b e q =
      let next = i + len_utf8 c in
      let w = cells_of width c in
      by_tests (w == 0) (left_of s.col to) refl refl (λ h.
        let v = visit_taken from to i next w s p t b q h in
        span_inside from to next cs (visit width from to i next w s) p v.3 (v.0 ∙ b) v.1
          (omega (arith, v.2)))
    where
      by_tests :
          (thin inside : Bool)
          → (cells_of width c == 0) ≡ thin
          → left_of s.col to ≡ inside
          → (((cells_of width c == 0) ≡ true) ⊎ (left_of s.col to ≡ true)
              → Rest from to
                  (i + len_utf8 c)
                  cs
                  (visit width from to i (i + len_utf8 c) (cells_of width c) s))
          → Rest from to i (c ∷ cs) s
      by_tests true inside x y on = Rest-step from to i c cs s p t b q (inl x) (on (inl x))
      by_tests false true x y on = Rest-step from to i c cs s p t b q (inr y) (on (inr y))
      by_tests false false x y on = Rest-end from to i c cs s e x y
