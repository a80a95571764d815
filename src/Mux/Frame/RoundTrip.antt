-- ===== src/Mux/Frame/RoundTrip.antt =====
-- `Frame::parse` against `Frame::encode_into`.
use tunnel_weaver.Base.{
  ℕ, ◌≡◌, refl, List, [], ◌∷◌, All, ok, IsU32, IsByte, arith, ◌↔◌, ◌/◌, ◌%◌, ◌^◌,
}
use tunnel_weaver.Mux.FrameType.{FrameType, as_u8}
use tunnel_weaver.Mux.Frame.{Frame, try_from, parse, encode_into, to_be_bytes, from_be_bytes}

try_from-as_u8 : (t : FrameType) → try_from (as_u8 t) ≡ ok t
unfolding try_from as_u8
try_from-as_u8 FrameType.challenge = refl
try_from-as_u8 _ = refl

as_u8-try_from : (b : ℕ) (t : FrameType) → try_from b ≡ ok t → as_u8 t ≡ b
unfolding try_from as_u8
as_u8-try_from b t h = ground arith

to_be-from_be :
    (a b c d : ℕ)
    → IsByte a
    → IsByte b
    → IsByte c
    → IsByte d
    → to_be_bytes (from_be_bytes a b c d) ≡ a ∷ b ∷ c ∷ d ∷ []
to_be-from_be a b c d ha hb hc hd = ground arith

from_be-to_be :
    (n : ℕ)
    → IsU32 n
    → from_be_bytes (n / 2 ^ 24 % 256) (n / 2 ^ 16 % 256) (n / 2 ^ 8 % 256) (n % 256) ≡ n
from_be-to_be n h = omega arith

-- What `parse` accepts is what `encode_into` would write for it.
encode_into-parse :
    (input : List ℕ) (f : Frame)
    → All IsByte input
    → parse input ≡ ok f
    → IsU32 f.stream_id × (encode_into f [] ≡ input)
unfolding parse encode_into
encode_into-parse [] f h e = cc
encode_into-parse (a ∷ []) f h e = cc
encode_into-parse (a ∷ b ∷ []) f h e = cc
encode_into-parse (a ∷ b ∷ c ∷ []) f h e = cc
encode_into-parse (a ∷ b ∷ c ∷ d ∷ []) f h e = cc
encode_into-parse (a ∷ b ∷ c ∷ d ∷ t ∷ rest) f h e =
    ground (arith, as_u8-try_from t f.frame_type, to_be-from_be a b c d)

parse-encode_into : (f : Frame) → IsU32 f.stream_id → parse (encode_into f []) ≡ ok f
unfolding parse encode_into
parse-encode_into f h = rw (from_be-to_be f.stream_id h, try_from-as_u8)

-- Parsing accepts exactly the bytes that encoding a frame with a 32-bit stream id writes.
pub parse-eq-ok_iff :
    (input : List ℕ) (f : Frame)
    → All IsByte input
    → (parse input ≡ ok f) ↔ (IsU32 f.stream_id × (encode_into f [] ≡ input))
parse-eq-ok_iff input f h = (encode_into-parse input f h, λ p. rw (← p.1) (parse-encode_into f p.0))
