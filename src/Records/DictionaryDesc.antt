-- ===== src/Records/DictionaryDesc.antt =====
-- `OcbDictionaryDescV1` of crates/arcadia-tio-ocb-core/src/format.rs: one dictionary of the index.
pub mod Decode
pub mod Laws
use arcadia_tio_rs.Base.{
  ℕ, ◌*◌, ◌^◌, List, [], ◌∷◌, ◌++◌, ◌≡◌, Bool, not, ◌==◌, ◌&&◌, ◌||◌, leb, ltb, if◌then◌else◌,
  concat, some, none,
}
use arcadia_tio_rs.Error.{
  Result, ok, err, ocb_corrupt_file, ocb_invalid_input, fail_if, ◌>>◌, ◌>>=◌,
}
use arcadia_tio_rs.Bytes.{write_u16, write_u32, write_i32, write_u64, IsU16, IsU32, IsU64}
use arcadia_tio_rs.Format.{null_u32}
use arcadia_tio_rs.Kinds.{
  OcbBodyKindV1, OcbPhysicalTypeV1, OcbLogicalKindV1, OcbNullabilityV1, OcbChunkCodecV1,
  OcbDictionaryValueKindV1, OcbOrderingDirectionV1, OcbNullOrderV1,
}
use arcadia_tio_rs.Kinds.BodyKind
use arcadia_tio_rs.Kinds.PhysicalType
use arcadia_tio_rs.Kinds.LogicalKind
use arcadia_tio_rs.Kinds.Nullability
use arcadia_tio_rs.Kinds.ChunkCodec
use arcadia_tio_rs.Kinds.DictionaryValueKind
use arcadia_tio_rs.Kinds.OrderingDirection
use arcadia_tio_rs.Kinds.NullOrder
use arcadia_tio_rs.BodyRef
use arcadia_tio_rs.BodyRef.{OcbBodyRefV2, is_null}
use arcadia_tio_rs.Records.StatScalar
use arcadia_tio_rs.Records.StatScalar.{OcbStatScalarV1}

pub record OcbDictionaryDescV1 : Type 0 where
  pub dictionary_id : ℕ
  pub name_string_id : ℕ
  pub code_physical_type : OcbPhysicalTypeV1
  pub value_kind : OcbDictionaryValueKindV1
  pub flags : ℕ
  pub values_ref : OcbBodyRefV2
  pub entry_count : ℕ
  pub reserved0 : ℕ

-- The ranges that the Rust types of the fields give.
pub record IsTyped (x : OcbDictionaryDescV1) : Type 0 where
  pub dictionary_id_u32 : IsU32 x.dictionary_id
  pub name_string_id_u32 : IsU32 x.name_string_id
  pub flags_u32 : IsU32 x.flags
  pub values_ref_typed : BodyRef.IsTyped x.values_ref
  pub entry_count_u32 : IsU32 x.entry_count
  pub reserved0_u32 : IsU32 x.reserved0

-- The checks of `write_to`.
unfoldable pub check_writable : OcbDictionaryDescV1 → Result (Unit {0})
unfolding BodyKind.eq
check_writable x = do
  fail_if (not (BodyKind.eq x.values_ref.kind OcbBodyKindV1.dictionary_values))
      (ocb_invalid_input "OCB dictionary values_ref must reference dictionary values")
  ok tt

unfoldable pub body : OcbDictionaryDescV1 → List ℕ
unfolding write_u16 write_u32 write_i32 write_u64 BodyRef.write_to
body x = concat (
    write_u32 x.dictionary_id
    ∷ write_u32 x.name_string_id
    ∷ write_u16 (PhysicalType.to_u16 x.code_physical_type)
    ∷ write_u16 (DictionaryValueKind.to_u16 x.value_kind)
    ∷ write_u32 x.flags
    ∷ BodyRef.write_to x.values_ref
    ∷ write_u32 x.entry_count
    ∷ write_u32 x.reserved0
    ∷ [])

unfoldable pub write_to : OcbDictionaryDescV1 → Result (List ℕ)
unfolding check_writable body
write_to x = do check_writable x; ok (body x)
