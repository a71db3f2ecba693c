-- ===== src/Kinds/DictionaryValueKind.antt =====
-- `OcbDictionaryValueKindV1`.
use arcadia_tio_rs.Base.{ℕ, ◌==◌, if◌then◌else◌, Bool, ◌≡◌, refl, arith, true, ==→eq, ◌<◌, ◌^◌}
use arcadia_tio_rs.Error.{Result, ok, err, ocb_corrupt_file}

pub data OcbDictionaryValueKindV1 : Type 0 where
  utf8 bytes fixed_bytes enum_labels : OcbDictionaryValueKindV1

-- The discriminant.
unfoldable pub to_u16 : OcbDictionaryValueKindV1 → ℕ
to_u16 utf8 = 1
to_u16 bytes = 2
to_u16 fixed_bytes = 3
to_u16 enum_labels = 4

unfoldable pub from_u16 : ℕ → Result OcbDictionaryValueKindV1
from_u16 value =
    if value == 1
    then ok utf8
    else if value == 2
    then ok bytes
    else if value == 3
    then ok fixed_bytes
    else if value == 4
    then ok enum_labels
    else err (ocb_corrupt_file "unknown OCB dictionary value kind")

-- The derived `==` of an enumeration without fields.
unfoldable pub eq : OcbDictionaryValueKindV1 → OcbDictionaryValueKindV1 → Bool
unfolding to_u16
eq a b = to_u16 a == to_u16 b

pub from_u16-to_u16 : (k : OcbDictionaryValueKindV1) → from_u16 (to_u16 k) ≡ ok k
unfolding from_u16 to_u16
from_u16-to_u16 utf8 = refl
from_u16-to_u16 _ = refl

pub to_u16-lt : (k : OcbDictionaryValueKindV1) → to_u16 k < 2 ^ 16
unfolding to_u16
to_u16-lt utf8 = omega arith
to_u16-lt _ = omega arith

pub eq_refl : (k : OcbDictionaryValueKindV1) → eq k k ≡ true
unfolding eq
eq_refl k = ground arith

pub to_u16-injective : (a b : OcbDictionaryValueKindV1) → to_u16 a ≡ to_u16 b → a ≡ b
to_u16-injective a b h = cc (from_u16-to_u16 a, from_u16-to_u16 b)

pub eq→path : (a b : OcbDictionaryValueKindV1) → eq a b ≡ true → a ≡ b
unfolding eq
eq→path a b h = to_u16-injective a b (==→eq _ _ h)
