-- ===== src/Records/ColumnStats.antt =====
-- `OcbColumnStatsV1` of crates/arcadia-tio-ocb-core/src/format.rs: the bounds of one column of one row group.
pub mod Decode
pub mod Laws
use arcadia_tio_rs.Base.{
  ℕ, ◌*◌, ◌^◌, List, [], ◌∷◌, ◌++◌, ◌≡◌, Bool, not, ◌==◌, ◌&&◌, ◌||◌, leb, ltb, if◌then◌else◌,
  concat, some, none,
}
use arcadia_tio_rs.Error.{
  Result, ok, err, ocb_corrupt_file, ocb_invalid_input, fail_if, ◌>>◌, ◌>>=◌,
}
use arcadia_tio_rs.Bytes.{write_u16, write_u32, write_i32, write_u64, IsU16, IsU32, IsU64}
use arcadia_tio_rs.Format.{null_u32}
use arcadia_tio_rs.Kinds.{
  OcbBodyKindV1, OcbPhysicalTypeV1, OcbLogicalKindV1, OcbNullabilityV1, OcbChunkCodecV1,
  OcbDictionaryValueKindV1, OcbOrderingDirectionV1, OcbNullOrderV1,
}
use arcadia_tio_rs.Kinds.BodyKind
use arcadia_tio_rs.Kinds.PhysicalType
use arcadia_tio_rs.Kinds.LogicalKind
use arcadia_tio_rs.Kinds.Nullability
use arcadia_tio_rs.Kinds.ChunkCodec
use arcadia_tio_rs.Kinds.DictionaryValueKind
use arcadia_tio_rs.Kinds.OrderingDirection
use arcadia_tio_rs.Kinds.NullOrder
use arcadia_tio_rs.BodyRef
use arcadia_tio_rs.BodyRef.{OcbBodyRefV2, is_null}
use arcadia_tio_rs.Records.StatScalar
use arcadia_tio_rs.Records.StatScalar.{OcbStatScalarV1}

pub record OcbColumnStatsV1 : Type 0 where
  pub row_group_id : ℕ
  pub column_id : ℕ
  pub physical_type : OcbPhysicalTypeV1
  pub flags : ℕ
  pub null_count : ℕ
  pub min_value : OcbStatScalarV1
  pub max_value : OcbStatScalarV1

-- The ranges that the Rust types of the fields give.
pub record IsTyped (x : OcbColumnStatsV1) : Type 0 where
  pub row_group_id_u32 : IsU32 x.row_group_id
  pub column_id_u32 : IsU32 x.column_id
  pub flags_u16 : IsU16 x.flags
  pub null_count_u32 : IsU32 x.null_count
  pub min_value_typed : StatScalar.IsTyped x.min_value
  pub max_value_typed : StatScalar.IsTyped x.max_value

unfoldable pub types_differ : OcbColumnStatsV1 → Bool
unfolding StatScalar.physical_type_of PhysicalType.eq
types_differ x =
    not (PhysicalType.eq (StatScalar.physical_type_of x.min_value) x.physical_type)
    || not (PhysicalType.eq (StatScalar.physical_type_of x.max_value) x.physical_type)

-- The checks of `write_to`.
unfoldable pub check_writable : OcbColumnStatsV1 → Result (Unit {0})
unfolding types_differ
check_writable x = do
  fail_if (types_differ x)
      (ocb_invalid_input "OCB stats scalar type must match stats physical type")
  ok tt

unfoldable pub body : OcbColumnStatsV1 → List ℕ
unfolding write_u16 write_u32 write_i32 write_u64 BodyRef.write_to StatScalar.write_to
body x = concat (
    write_u32 x.row_group_id
    ∷ write_u32 x.column_id
    ∷ write_u16 (PhysicalType.to_u16 x.physical_type)
    ∷ write_u16 x.flags
    ∷ write_u32 x.null_count
    ∷ StatScalar.write_to x.min_value
    ∷ StatScalar.write_to x.max_value
    ∷ [])

unfoldable pub write_to : OcbColumnStatsV1 → Result (List ℕ)
unfolding check_writable body
write_to x = do check_writable x; ok (body x)
