-- ===== src/Kinds/NullOrder.antt =====
-- `OcbNullOrderV1`.
use arcadia_tio_rs.Base.{ℕ, ◌==◌, if◌then◌else◌, Bool, ◌≡◌, refl, arith, true, ==→eq, ◌<◌, ◌^◌}
use arcadia_tio_rs.Error.{Result, ok, err, ocb_corrupt_file}

pub data OcbNullOrderV1 : Type 0 where
  nulls_first nulls_last no_nulls : OcbNullOrderV1

-- The discriminant.
unfoldable pub to_u8 : OcbNullOrderV1 → ℕ
to_u8 nulls_first = 0
to_u8 nulls_last = 1
to_u8 no_nulls = 2

unfoldable pub from_u8 : ℕ → Result OcbNullOrderV1
from_u8 value =
    if value == 0
    then ok nulls_first
    else if value == 1
    then ok nulls_last
    else if value == 2
    then ok no_nulls
    else err (ocb_corrupt_file "unknown OCB null order")

-- The derived `==` of an enumeration without fields.
unfoldable pub eq : OcbNullOrderV1 → OcbNullOrderV1 → Bool
unfolding to_u8
eq a b = to_u8 a == to_u8 b

pub from_u8-to_u8 : (k : OcbNullOrderV1) → from_u8 (to_u8 k) ≡ ok k
unfolding from_u8 to_u8
from_u8-to_u8 nulls_first = refl
from_u8-to_u8 _ = refl

pub to_u8-lt : (k : OcbNullOrderV1) → to_u8 k < 2 ^ 8
unfolding to_u8
to_u8-lt nulls_first = omega arith
to_u8-lt _ = omega arith

pub eq_refl : (k : OcbNullOrderV1) → eq k k ≡ true
unfolding eq
eq_refl k = ground arith

pub to_u8-injective : (a b : OcbNullOrderV1) → to_u8 a ≡ to_u8 b → a ≡ b
to_u8-injective a b h = cc (from_u8-to_u8 a, from_u8-to_u8 b)

pub eq→path : (a b : OcbNullOrderV1) → eq a b ≡ true → a ≡ b
unfolding eq
eq→path a b h = to_u8-injective a b (==→eq _ _ h)
