-- ===== src/Kinds/BodyKind.antt =====
-- `OcbBodyKindV1`.
use arcadia_tio_rs.Base.{ℕ, ◌==◌, if◌then◌else◌, Bool, ◌≡◌, refl, arith, true, ==→eq, ◌<◌, ◌^◌}
use arcadia_tio_rs.Error.{Result, ok, err, ocb_corrupt_file}

pub data OcbBodyKindV1 : Type 0 where
  unknown root schema dictionary_index dictionary_values row_group_index ordering_proof column_chunk
        string_table debug_json_metadata validity_bitmap key_tuple row_group_index_delta :
      OcbBodyKindV1

-- The discriminant.
unfoldable pub to_u16 : OcbBodyKindV1 → ℕ
to_u16 unknown = 0
to_u16 root = 1
to_u16 schema = 2
to_u16 dictionary_index = 3
to_u16 dictionary_values = 4
to_u16 row_group_index = 5
to_u16 ordering_proof = 6
to_u16 column_chunk = 7
to_u16 string_table = 8
to_u16 debug_json_metadata = 9
to_u16 validity_bitmap = 10
to_u16 key_tuple = 11
to_u16 row_group_index_delta = 12

unfoldable pub from_u16 : ℕ → Result OcbBodyKindV1
from_u16 value =
    if value == 0
    then ok unknown
    else if value == 1
    then ok root
    else if value == 2
    then ok schema
    else if value == 3
    then ok dictionary_index
    else if value == 4
    then ok dictionary_values
    else if value == 5
    then ok row_group_index
    else if value == 6
    then ok ordering_proof
    else if value == 7
    then ok column_chunk
    else if value == 8
    then ok string_table
    else if value == 9
    then ok debug_json_metadata
    else if value == 10
    then ok validity_bitmap
    else if value == 11
    then ok key_tuple
    else if value == 12
    then ok row_group_index_delta
    else err (ocb_corrupt_file "unknown OCB body kind")

-- The derived `==` of an enumeration without fields.
unfoldable pub eq : OcbBodyKindV1 → OcbBodyKindV1 → Bool
unfolding to_u16
eq a b = to_u16 a == to_u16 b

pub from_u16-to_u16 : (k : OcbBodyKindV1) → from_u16 (to_u16 k) ≡ ok k
unfolding from_u16 to_u16
from_u16-to_u16 unknown = refl
from_u16-to_u16 _ = refl

pub to_u16-lt : (k : OcbBodyKindV1) → to_u16 k < 2 ^ 16
unfolding to_u16
to_u16-lt unknown = omega arith
to_u16-lt _ = omega arith

pub eq_refl : (k : OcbBodyKindV1) → eq k k ≡ true
unfolding eq
eq_refl k = ground arith

pub to_u16-injective : (a b : OcbBodyKindV1) → to_u16 a ≡ to_u16 b → a ≡ b
to_u16-injective a b h = cc (from_u16-to_u16 a, from_u16-to_u16 b)

pub eq→path : (a b : OcbBodyKindV1) → eq a b ≡ true → a ≡ b
unfolding eq
eq→path a b h = to_u16-injective a b (==→eq _ _ h)
