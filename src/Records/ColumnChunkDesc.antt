-- ===== src/Records/ColumnChunkDesc.antt =====
-- `OcbColumnChunkDescV1` of crates/arcadia-tio-ocb-core/src/format.rs: one column of one row group.
pub mod Decode
pub mod Laws
use arcadia_tio_rs.Base.{
  ℕ, ◌*◌, ◌^◌, List, [], ◌∷◌, ◌++◌, ◌≡◌, Bool, not, ◌==◌, ◌&&◌, ◌||◌, leb, ltb, if◌then◌else◌,
  concat, some, none,
}
use arcadia_tio_rs.Error.{
  Result, ok, err, ocb_corrupt_file, ocb_invalid_input, fail_if, ◌>>◌, ◌>>=◌,
}
use arcadia_tio_rs.Bytes.{write_u16, write_u32, write_i32, write_u64, IsU16, IsU32, IsU64}
use arcadia_tio_rs.Format.{null_u32}
use arcadia_tio_rs.Kinds.{
  OcbBodyKindV1, OcbPhysicalTypeV1, OcbLogicalKindV1, OcbNullabilityV1, OcbChunkCodecV1,
  OcbDictionaryValueKindV1, OcbOrderingDirectionV1, OcbNullOrderV1,
}
use arcadia_tio_rs.Kinds.BodyKind
use arcadia_tio_rs.Kinds.PhysicalType
use arcadia_tio_rs.Kinds.LogicalKind
use arcadia_tio_rs.Kinds.Nullability
use arcadia_tio_rs.Kinds.ChunkCodec
use arcadia_tio_rs.Kinds.DictionaryValueKind
use arcadia_tio_rs.Kinds.OrderingDirection
use arcadia_tio_rs.Kinds.NullOrder
use arcadia_tio_rs.BodyRef
use arcadia_tio_rs.BodyRef.{OcbBodyRefV2, is_null}
use arcadia_tio_rs.Records.StatScalar
use arcadia_tio_rs.Records.StatScalar.{OcbStatScalarV1}

pub record OcbColumnChunkDescV1 : Type 0 where
  pub row_group_id : ℕ
  pub column_id : ℕ
  pub physical_type : OcbPhysicalTypeV1
  pub codec : OcbChunkCodecV1
  pub flags : ℕ
  pub value_ref : OcbBodyRefV2
  pub validity_ref : OcbBodyRefV2
  pub row_count : ℕ
  pub uncompressed_bytes : ℕ

-- The ranges that the Rust types of the fields give.
pub record IsTyped (x : OcbColumnChunkDescV1) : Type 0 where
  pub row_group_id_u32 : IsU32 x.row_group_id
  pub column_id_u32 : IsU32 x.column_id
  pub flags_u32 : IsU32 x.flags
  pub value_ref_typed : BodyRef.IsTyped x.value_ref
  pub validity_ref_typed : BodyRef.IsTyped x.validity_ref
  pub row_count_u64 : IsU64 x.row_count
  pub uncompressed_bytes_u64 : IsU64 x.uncompressed_bytes

-- The checks of `write_to`.
unfoldable pub check_writable : OcbColumnChunkDescV1 → Result (Unit {0})
unfolding BodyKind.eq is_null
check_writable x = do
  fail_if (not (BodyKind.eq x.value_ref.kind OcbBodyKindV1.column_chunk))
      (ocb_invalid_input "OCB chunk value_ref must reference column chunk")
  fail_if
      (not (is_null x.validity_ref)
        && not (BodyKind.eq x.validity_ref.kind OcbBodyKindV1.validity_bitmap))
      (ocb_invalid_input "OCB chunk validity_ref must reference validity bitmap")
  ok tt

unfoldable pub body : OcbColumnChunkDescV1 → List ℕ
unfolding write_u16 write_u32 write_i32 write_u64 BodyRef.write_to
body x = concat (
    write_u32 x.row_group_id
    ∷ write_u32 x.column_id
    ∷ write_u16 (PhysicalType.to_u16 x.physical_type)
    ∷ write_u16 (ChunkCodec.to_u16 x.codec)
    ∷ write_u32 x.flags
    ∷ BodyRef.write_to x.value_ref
    ∷ BodyRef.write_to x.validity_ref
    ∷ write_u64 x.row_count
    ∷ write_u64 x.uncompressed_bytes
    ∷ [])

unfoldable pub write_to : OcbColumnChunkDescV1 → Result (List ℕ)
unfolding check_writable body
write_to x = do check_writable x; ok (body x)
