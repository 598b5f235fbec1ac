-- ===== src/Frame.antt =====
-- src/frame.rs: frames over a byte stream. A writer is the bytes written so far; a reader is the
-- bytes that the peer will send before it closes. The system's own I/O errors are left out.
pub mod RoundTrip
use fleetcom.Common.{
  ℕ, zero, suc, ◌+◌, ◌*◌, ◌/◌, ◌%◌, ◌-◌, Bool, Option, none, some, List, [], ◌∷◌, ◌++◌, ltb, leb,
  if◌then◌else◌, length, take, drop,
}

pub data FrameError : Type 0 where
  invalid_input invalid_data unexpected_eof : FrameError

pub data Answer (A : Type 0) : Type 0 where
  done : A → Answer A
  failed : FrameError → Answer A

-- `KIND_CONTROL`, `KIND_SCREEN`, `KIND_HELLO` and `MAX_FRAME`.
abbrev pub kind_control : ℕ
kind_control = 1

abbrev pub kind_screen : ℕ
kind_screen = 2

abbrev pub kind_hello : ℕ
kind_hello = 3

abbrev pub max_frame : ℕ
max_frame = 67108864

-- `fits_base64`.
unfoldable pub fits_base64 : ℕ → Bool
fits_base64 n = leb ((n + 2) / 3 * 4 + 65536) max_frame

-- `u32::to_be_bytes` and `u32::from_be_bytes`.
unfoldable pub to_be_bytes : ℕ → List ℕ
to_be_bytes n = n / 16777216 % 256 ∷ n / 65536 % 256 ∷ n / 256 % 256 ∷ n % 256 ∷ []

abbrev pub be_digits : ℕ → List ℕ → ℕ
be_digits n [] = n
be_digits n (b ∷ bs) = be_digits (n * 256 + b) bs

unfoldable pub from_be_bytes : List ℕ → ℕ
from_be_bytes bs = be_digits 0 bs

-- `read_exact` of `n` bytes: the bytes, and those that follow.
unfoldable pub read_exact : ℕ → List ℕ → Answer (List ℕ × List ℕ)
read_exact n r = if ltb (length r) n then failed unexpected_eof else done (take n r, drop n r)

-- `write_frame`: the stream with the frame at its end. An oversized payload writes nothing.
unfoldable pub write_frame : ℕ → List ℕ → List ℕ → Answer (List ℕ)
write_frame kind payload w =
    if ltb max_frame (length payload)
    then failed invalid_input
    else done (w ++ (to_be_bytes (length payload) ++ (kind ∷ [] ++ payload)))

abbrev first_byte : List ℕ → ℕ
first_byte [] = 0
first_byte (b ∷ bs) = b

abbrev pub read_payload : ℕ → Answer (List ℕ × List ℕ) → Answer ((ℕ × List ℕ) × List ℕ)
read_payload kind (failed e) = failed e
read_payload kind (done (payload, r)) = done ((kind, payload), r)

abbrev pub read_kind : ℕ → Answer (List ℕ × List ℕ) → Answer ((ℕ × List ℕ) × List ℕ)
read_kind len (failed e) = failed e
read_kind len (done (kind, r)) = read_payload (first_byte kind) (read_exact len r)

abbrev pub read_length : Answer (List ℕ × List ℕ) → Answer ((ℕ × List ℕ) × List ℕ)
read_length (failed e) = failed e
read_length (done (len, r)) =
    if ltb max_frame (from_be_bytes len)
    then failed invalid_data
    else read_kind (from_be_bytes len) (read_exact 1 r)

-- `read_frame`: the kind and the payload, with what follows the frame.
unfoldable pub read_frame : List ℕ → Answer ((ℕ × List ℕ) × List ℕ)
unfolding read_exact from_be_bytes
read_frame r = read_length (read_exact 4 r)
