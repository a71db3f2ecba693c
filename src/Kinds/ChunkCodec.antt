-- ===== src/Kinds/ChunkCodec.antt =====
-- `OcbChunkCodecV1`.
use arcadia_tio_rs.Base.{ℕ, ◌==◌, if◌then◌else◌, Bool, ◌≡◌, refl, arith, true, ==→eq, ◌<◌, ◌^◌}
use arcadia_tio_rs.Error.{Result, ok, err, ocb_unsupported_format}

pub data OcbChunkCodecV1 : Type 0 where
  none zstd : OcbChunkCodecV1

-- The discriminant.
unfoldable pub to_u16 : OcbChunkCodecV1 → ℕ
to_u16 none = 0
to_u16 zstd = 1

unfoldable pub from_u16 : ℕ → Result OcbChunkCodecV1
from_u16 value =
    if value == 0
    then ok none
    else if value == 1
    then ok zstd
    else err (ocb_unsupported_format "unknown OCB chunk codec")

-- The derived `==` of an enumeration without fields.
unfoldable pub eq : OcbChunkCodecV1 → OcbChunkCodecV1 → Bool
unfolding to_u16
eq a b = to_u16 a == to_u16 b

pub from_u16-to_u16 : (k : OcbChunkCodecV1) → from_u16 (to_u16 k) ≡ ok k
unfolding from_u16 to_u16
from_u16-to_u16 none = refl
from_u16-to_u16 _ = refl

pub to_u16-lt : (k : OcbChunkCodecV1) → to_u16 k < 2 ^ 16
unfolding to_u16
to_u16-lt none = omega arith
to_u16-lt _ = omega arith

pub eq_refl : (k : OcbChunkCodecV1) → eq k k ≡ true
unfolding eq
eq_refl k = ground arith

pub to_u16-injective : (a b : OcbChunkCodecV1) → to_u16 a ≡ to_u16 b → a ≡ b
to_u16-injective a b h = cc (from_u16-to_u16 a, from_u16-to_u16 b)

pub eq→path : (a b : OcbChunkCodecV1) → eq a b ≡ true → a ≡ b
unfolding eq
eq→path a b h = to_u16-injective a b (==→eq _ _ h)
