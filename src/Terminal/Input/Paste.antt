-- ===== src/Terminal/Input/Paste.antt =====
-- What a child receives for a paste: src/terminal/input.rs, `paste_bytes`.
use fleetcom.Common.{
  ℕ, zero, suc, ◌≤◌, ◌<◌, ◌≡◌, ◌≢◌, refl, ap, ◌∙◌, Bool, true, false, none, some, List, [], ◌∷◌,
  ◌++◌, length, length-append, take, drop, All, All-append, arith,
}
use fleetcom.Terminal.Input.{
  esc, paste_start, paste_end, starts_with, split_at_end, before, strip_ends, paste_bytes,
  line_ends, cr, lf,
}

-- No byte is the escape byte, which begins a terminator.
abbrev pub NoEscape : List ℕ → Type 0
NoEscape = All (λ b. b ≢ esc)

split_at_end_head :
    (x : ℕ) (xs : List ℕ) → x ≢ esc → split_at_end (x ∷ xs) ≡ before x (split_at_end xs)
unfolding split_at_end starts_with
split_at_end_head x xs ne = ground arith

pub split_at_end_plain : (xs : List ℕ) → NoEscape xs → split_at_end xs ≡ none
unfolding split_at_end
split_at_end_plain [] h = refl
split_at_end_plain (x ∷ xs) h = rw (split_at_end_head x xs h.0, split_at_end_plain xs h.1) refl

pub split_at_end_first :
    (a b : List ℕ) → NoEscape a → split_at_end (a ++ (paste_end ++ b)) ≡ some (a, b)
unfolding split_at_end starts_with
split_at_end_first [] b h = refl
split_at_end_first (x ∷ xs) b h =
    split_at_end_head x (xs ++ (paste_end ++ b)) h.0 ∙ ap (before x) (split_at_end_first xs b h.1)

-- Text with terminators in between.
abbrev pub marked : List (List ℕ) → List ℕ → List ℕ
marked [] last = last
marked (c ∷ cs) last = c ++ (paste_end ++ marked cs last)

abbrev pub unmarked : List (List ℕ) → List ℕ → List ℕ
unmarked [] last = last
unmarked (c ∷ cs) last = c ++ unmarked cs last

strip_ends-marked :
    (fuel : ℕ) (cs : List (List ℕ)) (last : List ℕ)
    → length cs < fuel
    → All NoEscape cs
    → NoEscape last
    → strip_ends fuel (marked cs last) ≡ unmarked cs last
unfolding strip_ends
strip_ends-marked zero cs last lt hs h = absurd (omega arith)
strip_ends-marked (suc f) [] last lt hs h = rw (split_at_end_plain last h, strip_ends) refl
strip_ends-marked (suc f) (c ∷ cs) last lt hs h =
    rw (split_at_end_first c (marked cs last) hs.0, strip_ends)
      (ap (c ++◌) (strip_ends-marked f cs last (omega arith) hs.1 h))

length-marked : (cs : List (List ℕ)) (last : List ℕ) → length cs ≤ length (marked cs last)
length-marked [] last = omega arith
length-marked (c ∷ cs) last =
    omega (arith, length-append c (paste_end ++ marked cs last), length-marked cs last)

-- In bracketed mode, content made of escape-free pieces with terminators between them reaches the
-- child as those pieces alone, between one start and one end marker.
pub paste_bytes-marked :
    (cs : List (List ℕ)) (last : List ℕ)
    → All NoEscape cs
    → NoEscape last
    → paste_bytes true (marked cs last) ≡ paste_start ++ (unmarked cs last ++ paste_end)
unfolding paste_bytes
paste_bytes-marked cs last hs h =
    rw
      (strip_ends-marked (suc (length (marked cs last))) cs last
        (omega (arith, length-marked cs last)) hs h)
      refl

split_at_end_split :
    (n : ℕ) (rest : List ℕ)
    → 0 < n
    → n < 6
    → split_at_end (take n paste_end ++ (paste_end ++ rest)) ≡ some (take n paste_end, rest)
unfolding split_at_end starts_with
split_at_end_split zero rest p q = absurd (omega arith)
split_at_end_split (suc zero) rest p q = refl
split_at_end_split (suc (suc zero)) rest p q = refl
split_at_end_split (suc (suc (suc zero))) rest p q = refl
split_at_end_split (suc (suc (suc (suc zero)))) rest p q = refl
split_at_end_split (suc (suc (suc (suc (suc zero))))) rest p q = refl
split_at_end_split (suc (suc (suc (suc (suc (suc n)))))) rest p q = absurd (omega arith)

rejoin : (n : ℕ) (xs ys : List ℕ) → take n xs ++ (drop n xs ++ ys) ≡ xs ++ ys
rejoin zero xs ys = refl
rejoin (suc n) [] ys = refl
rejoin (suc n) (x ∷ xs) ys = ap (x ∷◌) (rejoin n xs ys)

NoEscape-drop : (n : ℕ) (xs : List ℕ) → NoEscape xs → NoEscape (drop n xs)
NoEscape-drop zero xs h = h
NoEscape-drop (suc n) [] h = tt
NoEscape-drop (suc n) (x ∷ xs) h = NoEscape-drop n xs h.1

back_half : (n : ℕ) → 0 < n → NoEscape (drop n paste_end)
back_half zero p = absurd (omega arith)
back_half (suc n) p = NoEscape-drop n (b'[' ∷ b'2' ∷ b'0' ∷ b'1' ∷ b'~' ∷ []) (omega arith)

strip_two :
    (content a b : List ℕ)
    → split_at_end content ≡ some (a, b)
    → NoEscape b
    → strip_ends (suc (length content)) content ≡ a ++ b
unfolding strip_ends split_at_end
strip_two [] a b e h = cc
strip_two (x ∷ xs) a b e h = rw (e, strip_ends) (rw (split_at_end_plain b h, strip_ends) refl)

-- A terminator set inside another one: the one pass takes the inner one out and the halves of the
-- outer one meet, so the child still reads the end of the paste before the escape-free text that
-- stands behind it.
pub paste_bytes-reforms :
    (n : ℕ) (hidden : List ℕ)
    → 0 < n
    → n < 6
    → NoEscape hidden
    → paste_bytes true (take n paste_end ++ (paste_end ++ (drop n paste_end ++ hidden)))
      ≡ paste_start ++ (paste_end ++ (hidden ++ paste_end))
unfolding paste_bytes
paste_bytes-reforms n hidden p q h =
    let rest = drop n paste_end ++ hidden in
    let plain = All-append (λ b. b ≢ esc) (drop n paste_end) hidden (back_half n p) h in
    ap (λ (t : List ℕ). paste_start ++ (t ++ paste_end))
      (strip_two _ (take n paste_end) rest (split_at_end_split n rest p q) plain
        ∙ rejoin n paste_end hidden)

-- A text of lines, each ended by a line feed or by a carriage return and a line feed.
abbrev ends : Bool → List ℕ
ends true = cr ∷ lf ∷ []
ends false = lf ∷ []

abbrev pub lines_with : List (Bool × List ℕ) → List ℕ → List ℕ
lines_with [] last = last
lines_with ((both, l) ∷ ls) last = l ++ (ends both ++ lines_with ls last)

abbrev pub lines_cr : List (Bool × List ℕ) → List ℕ → List ℕ
lines_cr [] last = last
lines_cr ((both, l) ∷ ls) last = l ++ cr ∷ lines_cr ls last

-- No line feed; carriage returns may stand in a line.
abbrev pub OneLine : List ℕ → Type 0
OneLine = All (λ b. b ≢ lf)

-- A line that a lone line feed ends does not end in a carriage return itself.
abbrev pub EndsIn : Bool → List ℕ → Type 0
EndsIn both [] = Unit {0}
EndsIn true (x ∷ xs) = Unit {0}
EndsIn false (x ∷ []) = x ≢ cr
EndsIn false (x ∷ y ∷ ys) = EndsIn false (y ∷ ys)

abbrev pub OneLines : List (Bool × List ℕ) → Type 0
OneLines [] = Unit {0}
OneLines ((both, l) ∷ ls) = OneLine l × EndsIn both l × OneLines ls

line_ends_last : (l : List ℕ) → OneLine l → line_ends l ≡ l
unfolding line_ends
line_ends_last [] h = refl
line_ends_last (x ∷ []) h = ground arith
line_ends_last (x ∷ y ∷ ys) h = ground (arith, line_ends_last (y ∷ ys) h.1)

line_ends_line :
    (both : Bool) (l rest : List ℕ)
    → OneLine l
    → EndsIn both l
    → line_ends (l ++ (ends both ++ rest)) ≡ l ++ line_ends (ends both ++ rest)
unfolding line_ends
line_ends_line both [] rest h e = refl
line_ends_line true (x ∷ []) rest h e = ground arith
line_ends_line false (x ∷ []) rest h e = ground arith
line_ends_line true (x ∷ y ∷ ys) rest h e = ground (arith, line_ends_line true (y ∷ ys) rest h.1 tt)
line_ends_line false (x ∷ y ∷ ys) rest h e =
    ground (arith, line_ends_line false (y ∷ ys) rest h.1 e)

line_ends_end : (both : Bool) (rest : List ℕ) → line_ends (ends both ++ rest) ≡ cr ∷ line_ends rest
unfolding line_ends
line_ends_end true rest = refl
line_ends_end false [] = refl
line_ends_end false (y ∷ ys) = refl

-- Outside bracketed mode, lines that end in a line feed, with or without a carriage return before
-- it, reach the child with a carriage return for each such end and nothing else changed. A line has no
-- line feed in it and may have carriage returns, though none at its end where a lone line feed follows.
pub paste_bytes-lines :
    (ls : List (Bool × List ℕ)) (last : List ℕ)
    → OneLines ls
    → OneLine last
    → paste_bytes false (lines_with ls last) ≡ lines_cr ls last
unfolding paste_bytes line_ends
paste_bytes-lines [] last hs h = line_ends_last last h
paste_bytes-lines ((both, l) ∷ ls) last hs h =
    line_ends_line both l (lines_with ls last) hs.0 hs.1
    ∙ ap (l ++◌)
        (line_ends_end both (lines_with ls last) ∙ ap (cr ∷◌) (paste_bytes-lines ls last hs.2 h))
