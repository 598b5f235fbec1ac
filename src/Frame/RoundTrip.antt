-- ===== src/Frame/RoundTrip.antt =====
-- What src/frame.rs writes is what it reads.
use fleetcom.Common.{
  ℕ, zero, suc, ◌≤◌, ◌≡◌, refl, sym, ap, ◌∙◌, Bool, true, false, List, [], ◌∷◌, ◌++◌, ltb,
  if◌then◌else◌, length, take, drop, length-append, take_all, drop_all, arith, append_assoc,
  append-nil, All,
}
use fleetcom.Frame.{
  Answer, done, failed, invalid_data, unexpected_eof, max_frame, to_be_bytes, from_be_bytes,
  read_exact, write_frame, read_payload, read_kind, read_length, read_frame,
}

from-to_be_bytes : (n : ℕ) → n ≤ max_frame → from_be_bytes (to_be_bytes n) ≡ n
unfolding from_be_bytes to_be_bytes
from-to_be_bytes n small = omega (arith, small)

-- `read_exact` where the test for enough bytes is known.
abbrev cut : Bool → ℕ → List ℕ → Answer (List ℕ × List ℕ)
cut b n r = if b then failed unexpected_eof else done (take n r, drop n r)

long : (xs ys : List ℕ) → ltb (length (xs ++ ys)) (length xs) ≡ false
long xs ys = ground (arith, length-append xs ys)

read_exact-append :
    (n : ℕ) (xs ys : List ℕ) → length xs ≡ n → read_exact n (xs ++ ys) ≡ done (xs, ys)
unfolding read_exact
read_exact-append n xs ys e =
    rw⁻¹ e (
      ap (λ b. cut b (length xs) (xs ++ ys)) (long xs ys)
      ∙ rw (take_all xs ys, drop_all xs ys) refl)

-- The bytes of a frame.
abbrev pub frame_bytes : ℕ → List ℕ → List ℕ
frame_bytes kind payload = to_be_bytes (length payload) ++ (kind ∷ [] ++ payload)

read_payload-append :
    (kind : ℕ) (payload rest : List ℕ)
    → read_payload kind (read_exact (length payload) (payload ++ rest))
      ≡ done ((kind, payload), rest)
read_payload-append kind payload rest =
    ap (read_payload kind) (read_exact-append (length payload) payload rest refl)

read_length-frame :
    (kind : ℕ) (payload rest : List ℕ)
    → length payload ≤ max_frame
    → read_length (done (to_be_bytes (length payload), kind ∷ payload ++ rest))
      ≡ done ((kind, payload), rest)
read_length-frame kind payload rest small =
    rw (from-to_be_bytes (length payload) small)
      (pick (ltb max_frame (length payload)) (ground (arith, small)))
  where
    pick :
        (b : Bool)
        → b ≡ false
        → (if b
            then failed invalid_data
            else read_kind (length payload) (read_exact 1 (kind ∷ payload ++ rest)))
          ≡ done ((kind, payload), rest)
    pick true h = cc
    pick false h =
        ap (read_kind (length payload)) (read_exact-append 1 (kind ∷ []) (payload ++ rest) refl)
        ∙ read_payload-append kind payload rest

read_frame-bytes :
    (kind : ℕ) (payload rest : List ℕ)
    → length payload ≤ max_frame
    → read_frame (frame_bytes kind payload ++ rest) ≡ done ((kind, payload), rest)
unfolding read_frame
read_frame-bytes kind payload rest small =
    ap read_length (
      ap (read_exact 4) (append_assoc (to_be_bytes (length payload)) (kind ∷ payload) rest)
      ∙ read_exact-append 4 (to_be_bytes (length payload)) (kind ∷ payload ++ rest)
          (four (length payload)))
    ∙ read_length-frame kind payload rest small
  where
    four : (n : ℕ) → length (to_be_bytes n) ≡ 4
    four n = unfold to_be_bytes in refl

-- Frames written one after the other, and read one after the other.
abbrev then_write : (List ℕ → Answer (List ℕ)) → Answer (List ℕ) → Answer (List ℕ)
then_write f (failed e) = failed e
then_write f (done w) = f w

abbrev pub write_all : List (ℕ × List ℕ) → List ℕ → Answer (List ℕ)
write_all [] w = done w
write_all ((kind, payload) ∷ fs) w = then_write (write_all fs) (write_frame kind payload w)

abbrev pub bytes_of : List (ℕ × List ℕ) → List ℕ
bytes_of [] = []
bytes_of ((kind, payload) ∷ fs) = frame_bytes kind payload ++ bytes_of fs

abbrev pub cons_frame :
    ℕ × List ℕ → Answer (List (ℕ × List ℕ) × List ℕ) → Answer (List (ℕ × List ℕ) × List ℕ)
cons_frame f (failed e) = failed e
cons_frame f (done (fs, r)) = done (f ∷ fs, r)

abbrev then_read :
    (List ℕ → Answer (List (ℕ × List ℕ) × List ℕ))
    → Answer ((ℕ × List ℕ) × List ℕ)
    → Answer (List (ℕ × List ℕ) × List ℕ)
then_read f (failed e) = failed e
then_read f (done (x, r)) = cons_frame x (f r)

abbrev pub read_many : ℕ → List ℕ → Answer (List (ℕ × List ℕ) × List ℕ)
read_many zero r = done ([], r)
read_many (suc n) r = then_read (read_many n) (read_frame r)

abbrev pub Fits : List (ℕ × List ℕ) → Type 0
Fits = All (λ f. length f.1 ≤ max_frame)

write_frame-bytes :
    (kind : ℕ) (payload w : List ℕ)
    → length payload ≤ max_frame
    → write_frame kind payload w ≡ done (w ++ frame_bytes kind payload)
unfolding write_frame
write_frame-bytes kind payload w small = ground (arith, small)

write_all-bytes :
    (fs : List (ℕ × List ℕ)) (w : List ℕ) → Fits fs → write_all fs w ≡ done (w ++ bytes_of fs)
write_all-bytes [] w small = ap done (sym (append-nil w))
write_all-bytes ((kind, payload) ∷ fs) w small =
    ap (then_write (write_all fs)) (write_frame-bytes kind payload w small.0)
    ∙ (write_all-bytes fs (w ++ frame_bytes kind payload) small.1
        ∙ ap done (append_assoc w (frame_bytes kind payload) (bytes_of fs)))

read_many-bytes :
    (fs : List (ℕ × List ℕ)) (rest : List ℕ)
    → Fits fs
    → read_many (length fs) (bytes_of fs ++ rest) ≡ done (fs, rest)
read_many-bytes [] rest small = refl
read_many-bytes ((kind, payload) ∷ fs) rest small =
    ap (λ r. then_read (read_many (length fs)) (read_frame r))
      (append_assoc (frame_bytes kind payload) (bytes_of fs) rest)
    ∙ ap (then_read (read_many (length fs)))
        (read_frame-bytes kind payload (bytes_of fs ++ rest) small.0)
    ∙ ap (cons_frame (kind, payload)) (read_many-bytes fs rest small.1)

-- Frames whose payloads are within the limit are all written, after what the stream held, and the
-- peer reads the same kinds and payloads in the same order and is left with the bytes that follow.
pub write_all-read_many :
    (fs : List (ℕ × List ℕ)) (w rest : List ℕ)
    → Fits fs
    → (bytes : List ℕ) × (write_all fs w ≡ done (w ++ bytes))
      × (read_many (length fs) (bytes ++ rest) ≡ done (fs, rest))
write_all-read_many fs w rest small =
    (bytes_of fs, write_all-bytes fs w small, read_many-bytes fs rest small)
