-- ===== src/Pdo/Frame.antt =====
-- `parse_frame` of utils/pdo_utils.hpp in core/advrf_middleware_core: a frame is the length of the
-- payload in four bytes, the lowest first, and the payload. Protobuf's `ParseFromArray` is a parameter.
use ecat_middleware_advr.Prelude.{
  ℕ, ◌+◌, ◌*◌, ◌/◌, ◌%◌, ◌<◌, ◌≡◌, List, [], ◌∷◌, Option, none, some, arith, if◌then◌else◌, ltb,
  ◌==◌, ℤ, pos, negsuc, length, u32_mod, to_int32, All, to_int32_small,
}

-- `memcpy` of four bytes into a `uint32_t` on a little-endian host; the bytes that are not there
-- are not read, since the caller has tested the length.
unfoldable pub read_uint32 : List ℕ → ℕ
read_uint32 (a ∷ b ∷ c ∷ d ∷ rest) = a + 256 * b + 65536 * c + 16777216 * d
read_uint32 _ = 0

unfoldable pub drop_four : List ℕ → List ℕ
drop_four (a ∷ b ∷ c ∷ d ∷ rest) = rest
drop_four _ = []

-- `n` is the given length, a signed number, and `parse` gets the bytes and the size, an `int`.
unfoldable pub parse_frame : {Pdo : Type 0} → (List ℕ → ℤ → Option Pdo) → List ℕ → ℤ → Option Pdo
unfolding read_uint32 drop_four
parse_frame parse buf (negsuc n) = none
parse_frame parse buf (pos n) =
    let pb_len = read_uint32 buf in
    if ltb n 4
    then none
    else if (pb_len + 4) % u32_mod == n
    then parse (drop_four buf) (to_int32 pb_len)
    else none

-- The frame of a payload.
unfoldable pub frame : List ℕ → List ℕ
frame payload =
    let n = length payload in
    (n % 256) ∷ (n / 256 % 256) ∷ (n / 65536 % 256) ∷ (n / 16777216 % 256) ∷ payload

-- The length prefix is that of the frame, with no wrap of the 32-bit sum: a frame is accepted only
-- if its prefix and the given length agree exactly, and only what the parser accepts.
pub parse_frame_exact :
    {Pdo : Type 0} (parse : List ℕ → ℤ → Option Pdo) (buf : List ℕ) (n : ℤ) {pdo : Pdo}
    → All (λ b. b < 256) buf
    → parse_frame parse buf n ≡ some pdo
    → (n ≡ pos (read_uint32 buf + 4))
      × (parse (drop_four buf) (to_int32 (read_uint32 buf)) ≡ some pdo)
unfolding parse_frame
parse_frame_exact parse buf (negsuc n) bytes h = cc
parse_frame_exact parse [] (pos n) bytes h = ground arith
parse_frame_exact parse (a ∷ []) (pos n) bytes h = ground arith
parse_frame_exact parse (a ∷ b ∷ []) (pos n) bytes h = ground arith
parse_frame_exact parse (a ∷ b ∷ c ∷ []) (pos n) bytes h = ground arith
parse_frame_exact parse (a ∷ b ∷ c ∷ d ∷ rest) (pos n) bytes h = ground arith

four_bytes :
    (n : ℕ)
    → n < 2147483648
    → n % 256 + 256 * (n / 256 % 256) + 65536 * (n / 65536 % 256) + 16777216 * (n / 16777216 % 256)
      ≡ n
four_bytes n h = omega arith

-- What was framed is parsed from its frame: the parser gets the payload and its length, for every
-- payload shorter than 2^31 bytes.
pub parse_frame-frame :
    {Pdo : Type 0} (parse : List ℕ → ℤ → Option Pdo) (payload : List ℕ)
    → length payload < 2147483648
    → parse_frame parse (frame payload) (pos (length (frame payload)))
      ≡ parse payload (pos (length payload))
unfolding parse_frame frame
parse_frame-frame parse payload h =
    ground (arith, four_bytes (length payload) h, to_int32_small (length payload) h)
