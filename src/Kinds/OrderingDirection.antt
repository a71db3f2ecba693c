-- ===== src/Kinds/OrderingDirection.antt =====
-- `OcbOrderingDirectionV1`.
use arcadia_tio_rs.Base.{ℕ, ◌==◌, if◌then◌else◌, Bool, ◌≡◌, refl, arith, true, ==→eq, ◌<◌, ◌^◌}
use arcadia_tio_rs.Error.{Result, ok, err, ocb_corrupt_file}

pub data OcbOrderingDirectionV1 : Type 0 where
  ascending descending : OcbOrderingDirectionV1

-- The discriminant.
unfoldable pub to_u8 : OcbOrderingDirectionV1 → ℕ
to_u8 ascending = 0
to_u8 descending = 1

unfoldable pub from_u8 : ℕ → Result OcbOrderingDirectionV1
from_u8 value =
    if value == 0
    then ok ascending
    else if value == 1
    then ok descending
    else err (ocb_corrupt_file "unknown OCB ordering direction")

-- The derived `==` of an enumeration without fields.
unfoldable pub eq : OcbOrderingDirectionV1 → OcbOrderingDirectionV1 → Bool
unfolding to_u8
eq a b = to_u8 a == to_u8 b

pub from_u8-to_u8 : (k : OcbOrderingDirectionV1) → from_u8 (to_u8 k) ≡ ok k
unfolding from_u8 to_u8
from_u8-to_u8 ascending = refl
from_u8-to_u8 _ = refl

pub to_u8-lt : (k : OcbOrderingDirectionV1) → to_u8 k < 2 ^ 8
unfolding to_u8
to_u8-lt ascending = omega arith
to_u8-lt _ = omega arith

pub eq_refl : (k : OcbOrderingDirectionV1) → eq k k ≡ true
unfolding eq
eq_refl k = ground arith

pub to_u8-injective : (a b : OcbOrderingDirectionV1) → to_u8 a ≡ to_u8 b → a ≡ b
to_u8-injective a b h = cc (from_u8-to_u8 a, from_u8-to_u8 b)

pub eq→path : (a b : OcbOrderingDirectionV1) → eq a b ≡ true → a ≡ b
unfolding eq
eq→path a b h = to_u8-injective a b (==→eq _ _ h)
