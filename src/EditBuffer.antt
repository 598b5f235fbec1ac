-- ===== src/EditBuffer.antt =====
-- src/editbuf.rs: the prompt's text with a caret, which is a byte offset. `none` is a panic: an
-- index that is not on a character boundary.
pub mod Zipper
use fleetcom.Common.{
  ℕ, zero, suc, ◌+◌, ◌-◌, ◌==◌, Bool, not, Option, none, some, List, [], ◌∷◌, ◌++◌, leb, keep,
  if◌then◌else◌,
}
use fleetcom.Text.{Text, len_utf8, byte_len, is_control}

pub record EditBuffer : Type 0 where
  pub text : Text
  pub caret : ℕ

-- `str::split_at`, which `&text[..i]`, `&text[i..]` and `String::insert` do alike.
abbrev pub cons_left : ℕ → Option (Text × Text) → Option (Text × Text)
cons_left c none = none
cons_left c (some (l, r)) = some (c ∷ l, r)

unfoldable pub split_at : ℕ → Text → Option (Text × Text)
split_at zero s = some ([], s)
split_at (suc i) [] = none
split_at (suc i) (c ∷ cs) =
    let rest = cons_left c (split_at (suc i - len_utf8 c) cs) in
    if leb (len_utf8 c) (suc i) then rest else none

-- `char_indices().next_back()`, its index.
unfoldable pub last_index : Text → Option ℕ
last_index [] = none
last_index (c ∷ cs) = elim (last_index cs) [ none ↦ some 0 | some i ↦ some (len_utf8 c + i) ]

-- `String::remove`: the character at the index goes.
abbrev without_head : Text → Text → Option Text
without_head l [] = none
without_head l (c ∷ r) = some (l ++ r)

unfoldable pub remove : ℕ → Text → Option Text
unfolding split_at
remove i s = elim (split_at i s) [ none ↦ none | some (l, r) ↦ without_head l r ]

unfoldable pub seeded : Text → EditBuffer
seeded s = record { text = s; caret = byte_len s }

unfoldable pub before_caret : EditBuffer → Option Text
before_caret b = elim (split_at b.caret b.text) [ none ↦ none | some (l, r) ↦ some l ]

unfoldable pub at_end : EditBuffer → Bool
at_end b = b.caret == byte_len b.text

unfoldable pub clear : EditBuffer → EditBuffer
clear b = record { text = []; caret = 0 }

-- `take`: the emptied buffer, and the text.
unfoldable pub take_text : EditBuffer → EditBuffer × Text
take_text b = (record { text = []; caret = 0 }, b.text)

abbrev inserted : ℕ → ℕ → Option (Text × Text) → Option EditBuffer
inserted c caret none = none
inserted c caret (some (l, r)) = some (record { text = l ++ c ∷ r; caret = caret + len_utf8 c })

unfoldable pub insert : ℕ → EditBuffer → Option EditBuffer
unfolding split_at
insert c b = inserted c b.caret (split_at b.caret b.text)

-- The loop of `paste`, over the characters that are left.
abbrev pub insert_next : (EditBuffer → Option EditBuffer) → Option EditBuffer → Option EditBuffer
insert_next f none = none
insert_next f (some b) = f b

unfoldable pub insert_all : Text → EditBuffer → Option EditBuffer
insert_all [] b = some b
insert_all (c ∷ cs) b = insert_next (insert_all cs) (insert c b)

unfoldable pub paste : Text → EditBuffer → Option EditBuffer
unfolding insert_all insert
paste s b = insert_all (keep (λ c. not (is_control c)) s) b

abbrev pub removed : ℕ → Option Text → Option EditBuffer
removed i none = none
removed i (some s) = some (record { text = s; caret = i })

abbrev back_over : EditBuffer → Option ℕ → Option EditBuffer
back_over b none = some b
back_over b (some i) = removed i (remove i b.text)

unfoldable pub backspace : EditBuffer → Option EditBuffer
unfolding remove last_index
backspace b = elim (split_at b.caret b.text) [
  | none ↦ none
  | some (l, r) ↦ back_over b (last_index l)
]

abbrev move_to : EditBuffer → Option ℕ → EditBuffer
move_to b none = b
move_to b (some i) = record b { caret = i }

unfoldable pub left : EditBuffer → Option EditBuffer
unfolding last_index
left b = elim (split_at b.caret b.text) [
  | none ↦ none
  | some (l, r) ↦ some (move_to b (last_index l))
]

abbrev step_over : EditBuffer → Text → EditBuffer
step_over b [] = b
step_over b (c ∷ cs) = record b { caret = b.caret + len_utf8 c }

unfoldable pub right : EditBuffer → Option EditBuffer
right b = elim (split_at b.caret b.text) [ none ↦ none | some (l, r) ↦ some (step_over b r) ]

unfoldable pub home : EditBuffer → EditBuffer
home b = record b { caret = 0 }

unfoldable pub end_of_text : EditBuffer → EditBuffer
end_of_text b = record b { caret = byte_len b.text }
