-- ===== src/Kinds/Nullability.antt =====
-- `OcbNullabilityV1`.
use arcadia_tio_rs.Base.{ℕ, ◌==◌, if◌then◌else◌, Bool, ◌≡◌, refl, arith, true, ==→eq, ◌<◌, ◌^◌}
use arcadia_tio_rs.Error.{Result, ok, err, ocb_corrupt_file}

pub data OcbNullabilityV1 : Type 0 where
  non_null nullable : OcbNullabilityV1

-- The discriminant.
unfoldable pub to_u16 : OcbNullabilityV1 → ℕ
to_u16 non_null = 0
to_u16 nullable = 1

unfoldable pub from_u16 : ℕ → Result OcbNullabilityV1
from_u16 value =
    if value == 0
    then ok non_null
    else if value == 1
    then ok nullable
    else err (ocb_corrupt_file "unknown OCB nullability")

-- The derived `==` of an enumeration without fields.
unfoldable pub eq : OcbNullabilityV1 → OcbNullabilityV1 → Bool
unfolding to_u16
eq a b = to_u16 a == to_u16 b

pub from_u16-to_u16 : (k : OcbNullabilityV1) → from_u16 (to_u16 k) ≡ ok k
unfolding from_u16 to_u16
from_u16-to_u16 non_null = refl
from_u16-to_u16 _ = refl

pub to_u16-lt : (k : OcbNullabilityV1) → to_u16 k < 2 ^ 16
unfolding to_u16
to_u16-lt non_null = omega arith
to_u16-lt _ = omega arith

pub eq_refl : (k : OcbNullabilityV1) → eq k k ≡ true
unfolding eq
eq_refl k = ground arith

pub to_u16-injective : (a b : OcbNullabilityV1) → to_u16 a ≡ to_u16 b → a ≡ b
to_u16-injective a b h = cc (from_u16-to_u16 a, from_u16-to_u16 b)

pub eq→path : (a b : OcbNullabilityV1) → eq a b ≡ true → a ≡ b
unfolding eq
eq→path a b h = to_u16-injective a b (==→eq _ _ h)
