-- ===== src/EditBuffer/Zipper.antt =====
-- The edit buffer of src/editbuf.rs implements a zipper: the characters before the caret, the
-- nearest one first, and those after it.
use fleetcom.Common.{
  ℕ, zero, suc, ◌+◌, ◌-◌, ◌≤◌, ◌≡◌, refl, sym, ap, ◌∙◌, not, Option, some, List, [], ◌∷◌, ◌++◌,
  arith, keep, append-nil,
}
use fleetcom.Text.{Text, len_utf8, byte_len, is_control}
use fleetcom.Text.Laws.{len_utf8_bounds}
use fleetcom.EditBuffer.{
  EditBuffer, split_at, cons_left, last_index, remove, removed, seeded, clear, insert, insert_all,
  insert_next, paste, backspace, left, right, home, end_of_text,
}

abbrev pub Zipper : Type 0
Zipper = Text × Text

-- The characters of the first list in reverse, then those of the second.
abbrev pub rev_onto : Text → Text → Text
rev_onto [] r = r
rev_onto (c ∷ l) r = rev_onto l (c ∷ r)

-- The buffer holds the zipper's text, with the caret at its gap.
abbrev pub IsAt : EditBuffer → Zipper → Type 0
IsAt b (l, r) = (b.text ≡ rev_onto l r) × (b.caret ≡ byte_len l)

rev_onto-append : (l r s : Text) → rev_onto l (r ++ s) ≡ rev_onto l r ++ s
rev_onto-append [] r s = refl
rev_onto-append (c ∷ l) r s = rev_onto-append l (c ∷ r) s

byte_len-rev_onto : (l r : Text) → byte_len (rev_onto l r) ≡ byte_len l + byte_len r
unfolding byte_len
byte_len-rev_onto [] r = omega arith
byte_len-rev_onto (c ∷ l) r = omega (arith, byte_len-rev_onto l (c ∷ r))

byte_len-front : (l : Text) → byte_len (rev_onto l []) ≡ byte_len l
unfolding byte_len
byte_len-front l = omega (arith, byte_len-rev_onto l [])

split_at-cons :
    (i c : ℕ) (cs : Text)
    → len_utf8 c ≤ i
    → split_at i (c ∷ cs) ≡ cons_left c (split_at (i - len_utf8 c) cs)
unfolding split_at
split_at-cons zero c cs fits = absurd (omega (arith, fits, (len_utf8_bounds c).0))
split_at-cons (suc i) c cs fits = ground (arith, fits)

pub split_at-append : (xs ys : Text) → split_at (byte_len xs) (xs ++ ys) ≡ some (xs, ys)
unfolding split_at byte_len
split_at-append [] ys = refl
split_at-append (x ∷ xs) ys =
    split_at-cons (len_utf8 x + byte_len xs) x (xs ++ ys) (omega arith)
    ∙ ap (cons_left x)
        (ap (λ n. split_at n (xs ++ ys)) (cut (len_utf8 x) (byte_len xs)) ∙ split_at-append xs ys)
  where
    cut : (a n : ℕ) → a + n - a ≡ n
    cut a n = omega arith

last_index_snoc : (xs : Text) (c : ℕ) → last_index (xs ++ c ∷ []) ≡ some (byte_len xs)
unfolding last_index byte_len
last_index_snoc [] c = refl
last_index_snoc (x ∷ xs) c = rw (last_index_snoc xs c) refl

-- The text before the gap, in order.
abbrev front : Text → Text
front l = rev_onto l []

split_at-rev_onto : (l r : Text) → split_at (byte_len l) (rev_onto l r) ≡ some (front l, r)
split_at-rev_onto l r =
    ap (λ n. split_at n (rev_onto l r)) (sym (byte_len-front l))
    ∙ ap (split_at (byte_len (front l))) (rev_onto-append l [] r)
    ∙ split_at-append (front l) r

split_at-IsAt :
    (b : EditBuffer) (l r : Text) → IsAt b (l, r) → split_at b.caret b.text ≡ some (front l, r)
split_at-IsAt b l r (e, c) = rw (e, c) (split_at-rev_onto l r)

last_index-front : (c : ℕ) (l : Text) → last_index (front (c ∷ l)) ≡ some (byte_len l)
last_index-front c l =
    ap last_index (rev_onto-append l [] (c ∷ []))
    ∙ last_index_snoc (front l) c
    ∙ ap some (byte_len-front l)

-- The keys of a prompt, and what each does to a zipper and to the buffer.
pub data Op : Type 0 where
  insert_char : ℕ → Op
  paste_text : Text → Op
  go_back : Op
  go_left go_right go_home go_end : Op
  clear_text : Op

abbrev pub insert_run : Text → Zipper → Zipper
insert_run [] z = z
insert_run (c ∷ cs) (l, r) = insert_run cs (c ∷ l, r)

abbrev pub zip : Op → Zipper → Zipper
zip (insert_char c) (l, r) = (c ∷ l, r)
zip (paste_text s) z = insert_run (keep (λ c. not (is_control c)) s) z
zip go_back ([], r) = ([], r)
zip go_back (c ∷ l, r) = (l, r)
zip go_left ([], r) = ([], r)
zip go_left (c ∷ l, r) = (l, c ∷ r)
zip go_right (l, []) = (l, [])
zip go_right (l, c ∷ r) = (c ∷ l, r)
zip go_home (l, r) = ([], rev_onto l r)
zip go_end (l, r) = (rev_onto r l, [])
zip clear_text z = ([], [])

abbrev pub perform : Op → EditBuffer → Option EditBuffer
perform (insert_char c) b = insert c b
perform (paste_text s) b = paste s b
perform go_back b = backspace b
perform go_left b = left b
perform go_right b = right b
perform go_home b = some (home b)
perform go_end b = some (end_of_text b)
perform clear_text b = some (clear b)

-- The result is a buffer at the zipper.
abbrev pub Lands : Option EditBuffer → Zipper → Type 0
Lands o z = (b : EditBuffer) × (o ≡ some b) × IsAt b z

insert-Lands : (c : ℕ) (b : EditBuffer) (l r : Text) → IsAt b (l, r) → Lands (insert c b) (c ∷ l, r)
unfolding insert byte_len
insert-Lands c b l r a = (
  record { text = front l ++ c ∷ r; caret = b.caret + len_utf8 c },
  rw (split_at-IsAt b l r a) refl,
  (sym (rev_onto-append l [] (c ∷ r)), omega (arith, a.1)),
)

insert_all-Lands :
    (s : Text) (b : EditBuffer) (z : Zipper) → IsAt b z → Lands (insert_all s b) (insert_run s z)
unfolding insert_all
insert_all-Lands [] b z a = (b, refl, a)
insert_all-Lands (c ∷ cs) b (l, r) a =
    let (b', e, a') = insert-Lands c b l r a in rw e (insert_all-Lands cs b' (c ∷ l, r) a')

remove-gap :
    (l : Text) (c : ℕ) (r : Text) → remove (byte_len l) (rev_onto l (c ∷ r)) ≡ some (front l ++ r)
unfolding remove
remove-gap l c r = rw (remove, split_at-rev_onto l (c ∷ r)) refl

backspace-Lands :
    (b : EditBuffer) (l r : Text) → IsAt b (l, r) → Lands (backspace b) (zip go_back (l, r))
unfolding backspace remove byte_len last_index
backspace-Lands b [] r a = (b, rw (backspace, split_at-IsAt b [] r a) refl, a)
backspace-Lands b (c ∷ l) r a = (
  record { text = front l ++ r; caret = byte_len l },
  rw (backspace, split_at-IsAt b (c ∷ l) r a, last_index-front c l)
      (ap (removed (byte_len l)) (ap (remove (byte_len l)) a.0 ∙ remove-gap l c r)),
  (sym (rev_onto-append l [] r), refl),
)

left-Lands : (b : EditBuffer) (l r : Text) → IsAt b (l, r) → Lands (left b) (zip go_left (l, r))
unfolding left byte_len last_index
left-Lands b [] r a = (b, rw (left, split_at-IsAt b [] r a) refl, a)
left-Lands b (c ∷ l) r a = (
  record b { caret = byte_len l },
  rw (left, split_at-IsAt b (c ∷ l) r a, last_index-front c l) refl,
  (a.0, refl),
)

right-Lands : (b : EditBuffer) (l r : Text) → IsAt b (l, r) → Lands (right b) (zip go_right (l, r))
unfolding right byte_len
right-Lands b l [] a = (b, rw (right, split_at-IsAt b l [] a) refl, a)
right-Lands b l (c ∷ r) a = (
  record b { caret = b.caret + len_utf8 c },
  rw (right, split_at-IsAt b l (c ∷ r) a) refl,
  (a.0, omega (arith, a.1)),
)

rev_onto_twice : (l r s : Text) → rev_onto (rev_onto r l) s ≡ rev_onto l (r ++ s)
rev_onto_twice l [] s = refl
rev_onto_twice l (c ∷ r) s = rev_onto_twice (c ∷ l) r s

end_of_text-Lands :
    (b : EditBuffer) (l r : Text) → IsAt b (l, r) → IsAt (end_of_text b) (rev_onto r l, [])
unfolding end_of_text byte_len
end_of_text-Lands b l r a = (
  a.0 ∙ ap (rev_onto l) (sym (append-nil r)) ∙ sym (rev_onto_twice l r []),
  ap byte_len a.0 ∙ byte_len-rev_onto l r ∙ (omega (arith, byte_len-rev_onto r l)),
)

-- At any gap of any text, every operation of the buffer returns without a panic, and the new buffer
-- is where the zipper's operation leads.
pub perform-Lands :
    (o : Op) (b : EditBuffer) (z : Zipper) → IsAt b z → Lands (perform o b) (zip o z)
unfolding home clear paste byte_len
perform-Lands (insert_char c) b (l, r) a = insert-Lands c b l r a
perform-Lands (paste_text s) b z a = insert_all-Lands (keep (λ c. not (is_control c)) s) b z a
perform-Lands go_back b (l, r) a = backspace-Lands b l r a
perform-Lands go_left b (l, r) a = left-Lands b l r a
perform-Lands go_right b (l, r) a = right-Lands b l r a
perform-Lands go_home b (l, r) a = (home b, refl, (a.0, refl))
perform-Lands go_end b (l, r) a = (end_of_text b, refl, end_of_text-Lands b l r a)
perform-Lands clear_text b z a = (clear b, refl, (refl, refl))

abbrev pub perform_all : List Op → EditBuffer → Option EditBuffer
perform_all [] b = some b
perform_all (o ∷ os) b = insert_next (perform_all os) (perform o b)

abbrev pub zip_all : List Op → Zipper → Zipper
zip_all [] z = z
zip_all (o ∷ os) z = zip_all os (zip o z)

perform_all-Lands :
    (os : List Op) (b : EditBuffer) (z : Zipper)
    → IsAt b z
    → Lands (perform_all os b) (zip_all os z)
perform_all-Lands [] b z a = (b, refl, a)
perform_all-Lands (o ∷ os) b z a =
    let (b', e, a') = perform-Lands o b z a in rw e (perform_all-Lands os b' (zip o z) a')

seeded-IsAt : (s : Text) → IsAt (seeded s) (rev_onto s [], [])
unfolding seeded
seeded-IsAt s = (sym (rev_onto_twice [] s [] ∙ append-nil s), sym (byte_len-front s))

-- From a prompt seeded with any text, every sequence of keys runs without a panic, and the caret
-- and the text are those of the zipper that starts with its gap at the end of that text.
pub seeded-Lands :
    (s : Text) (os : List Op) → Lands (perform_all os (seeded s)) (zip_all os (rev_onto s [], []))
seeded-Lands s os = perform_all-Lands os (seeded s) (rev_onto s [], []) (seeded-IsAt s)
