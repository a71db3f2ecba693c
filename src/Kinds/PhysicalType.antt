-- ===== src/Kinds/PhysicalType.antt =====
-- `OcbPhysicalTypeV1`.
use arcadia_tio_rs.Base.{
  ℕ, Option, some, none, ◌==◌, if◌then◌else◌, Bool, ◌≡◌, refl, arith, true, ==→eq, ◌<◌, ◌^◌,
}
use arcadia_tio_rs.Error.{Result, ok, err, ocb_corrupt_file}

pub data OcbPhysicalTypeV1 : Type 0 where
  i32 i64 f32 f64 fixed_binary : OcbPhysicalTypeV1

-- The discriminant.
unfoldable pub to_u16 : OcbPhysicalTypeV1 → ℕ
to_u16 i32 = 1
to_u16 i64 = 2
to_u16 f32 = 3
to_u16 f64 = 4
to_u16 fixed_binary = 5

unfoldable pub from_u16 : ℕ → Result OcbPhysicalTypeV1
from_u16 value =
    if value == 1
    then ok i32
    else if value == 2
    then ok i64
    else if value == 3
    then ok f32
    else if value == 4
    then ok f64
    else if value == 5
    then ok fixed_binary
    else err (ocb_corrupt_file "unknown OCB physical type")

-- The derived `==` of an enumeration without fields.
unfoldable pub eq : OcbPhysicalTypeV1 → OcbPhysicalTypeV1 → Bool
unfolding to_u16
eq a b = to_u16 a == to_u16 b

pub from_u16-to_u16 : (k : OcbPhysicalTypeV1) → from_u16 (to_u16 k) ≡ ok k
unfolding from_u16 to_u16
from_u16-to_u16 i32 = refl
from_u16-to_u16 _ = refl

pub to_u16-lt : (k : OcbPhysicalTypeV1) → to_u16 k < 2 ^ 16
unfolding to_u16
to_u16-lt i32 = omega arith
to_u16-lt _ = omega arith

pub eq_refl : (k : OcbPhysicalTypeV1) → eq k k ≡ true
unfolding eq
eq_refl k = ground arith

pub to_u16-injective : (a b : OcbPhysicalTypeV1) → to_u16 a ≡ to_u16 b → a ≡ b
to_u16-injective a b h = cc (from_u16-to_u16 a, from_u16-to_u16 b)

pub eq→path : (a b : OcbPhysicalTypeV1) → eq a b ≡ true → a ≡ b
unfolding eq
eq→path a b h = to_u16-injective a b (==→eq _ _ h)

-- `primitive_byte_width`.
unfoldable pub primitive_byte_width : OcbPhysicalTypeV1 → Option ℕ
primitive_byte_width i32 = some 4
primitive_byte_width f32 = some 4
primitive_byte_width i64 = some 8
primitive_byte_width f64 = some 8
primitive_byte_width fixed_binary = none
