-- ===== src/Kinds/LogicalKind.antt =====
-- `OcbLogicalKindV1`.
use arcadia_tio_rs.Base.{ℕ, ◌==◌, if◌then◌else◌, Bool, ◌≡◌, refl, arith, true, ==→eq, ◌<◌, ◌^◌}
use arcadia_tio_rs.Error.{Result, ok, err, ocb_corrupt_file}

pub data OcbLogicalKindV1 : Type 0 where
  plain timestamp_nanos_like scaled_integer dictionary_code enum_code opaque_key : OcbLogicalKindV1

-- The discriminant.
unfoldable pub to_u16 : OcbLogicalKindV1 → ℕ
to_u16 plain = 0
to_u16 timestamp_nanos_like = 1
to_u16 scaled_integer = 2
to_u16 dictionary_code = 3
to_u16 enum_code = 4
to_u16 opaque_key = 5

unfoldable pub from_u16 : ℕ → Result OcbLogicalKindV1
from_u16 value =
    if value == 0
    then ok plain
    else if value == 1
    then ok timestamp_nanos_like
    else if value == 2
    then ok scaled_integer
    else if value == 3
    then ok dictionary_code
    else if value == 4
    then ok enum_code
    else if value == 5
    then ok opaque_key
    else err (ocb_corrupt_file "unknown OCB logical kind")

-- The derived `==` of an enumeration without fields.
unfoldable pub eq : OcbLogicalKindV1 → OcbLogicalKindV1 → Bool
unfolding to_u16
eq a b = to_u16 a == to_u16 b

pub from_u16-to_u16 : (k : OcbLogicalKindV1) → from_u16 (to_u16 k) ≡ ok k
unfolding from_u16 to_u16
from_u16-to_u16 plain = refl
from_u16-to_u16 _ = refl

pub to_u16-lt : (k : OcbLogicalKindV1) → to_u16 k < 2 ^ 16
unfolding to_u16
to_u16-lt plain = omega arith
to_u16-lt _ = omega arith

pub eq_refl : (k : OcbLogicalKindV1) → eq k k ≡ true
unfolding eq
eq_refl k = ground arith

pub to_u16-injective : (a b : OcbLogicalKindV1) → to_u16 a ≡ to_u16 b → a ≡ b
to_u16-injective a b h = cc (from_u16-to_u16 a, from_u16-to_u16 b)

pub eq→path : (a b : OcbLogicalKindV1) → eq a b ≡ true → a ≡ b
unfolding eq
eq→path a b h = to_u16-injective a b (==→eq _ _ h)
