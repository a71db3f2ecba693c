-- ===== src/Records/ColumnDesc.antt =====
-- `OcbColumnDescV1` of crates/arcadia-tio-ocb-core/src/format.rs: one column of the schema.
pub mod Decode
pub mod Laws
use arcadia_tio_rs.Base.{
  ℕ, ◌*◌, ◌^◌, List, [], ◌∷◌, ◌++◌, ◌≡◌, Bool, not, ◌==◌, ◌&&◌, ◌||◌, leb, ltb, if◌then◌else◌,
  concat, some, none,
}
use arcadia_tio_rs.Error.{
  Result, ok, err, ocb_corrupt_file, ocb_invalid_input, fail_if, ◌>>◌, ◌>>=◌,
}
use arcadia_tio_rs.Bytes.{write_u16, write_u32, write_i32, write_u64, IsU16, IsU32, IsU64}
use arcadia_tio_rs.Format.{null_u32}
use arcadia_tio_rs.Kinds.{
  OcbBodyKindV1, OcbPhysicalTypeV1, OcbLogicalKindV1, OcbNullabilityV1, OcbChunkCodecV1,
  OcbDictionaryValueKindV1, OcbOrderingDirectionV1, OcbNullOrderV1,
}
use arcadia_tio_rs.Kinds.BodyKind
use arcadia_tio_rs.Kinds.PhysicalType
use arcadia_tio_rs.Kinds.LogicalKind
use arcadia_tio_rs.Kinds.Nullability
use arcadia_tio_rs.Kinds.ChunkCodec
use arcadia_tio_rs.Kinds.DictionaryValueKind
use arcadia_tio_rs.Kinds.OrderingDirection
use arcadia_tio_rs.Kinds.NullOrder
use arcadia_tio_rs.BodyRef
use arcadia_tio_rs.BodyRef.{OcbBodyRefV2, is_null}
use arcadia_tio_rs.Records.StatScalar
use arcadia_tio_rs.Records.StatScalar.{OcbStatScalarV1}

pub record OcbColumnDescV1 : Type 0 where
  pub column_id : ℕ
  pub name_string_id : ℕ
  pub physical_type : OcbPhysicalTypeV1
  pub logical_kind : OcbLogicalKindV1
  pub flags : ℕ
  pub dictionary_id : ℕ
  pub scale : ℕ
  pub nullability : OcbNullabilityV1
  pub reserved0 : ℕ
  pub fixed_binary_width : ℕ

-- The ranges that the Rust types of the fields give.
pub record IsTyped (x : OcbColumnDescV1) : Type 0 where
  pub column_id_u32 : IsU32 x.column_id
  pub name_string_id_u32 : IsU32 x.name_string_id
  pub flags_u32 : IsU32 x.flags
  pub dictionary_id_u32 : IsU32 x.dictionary_id
  pub scale_i32 : IsU32 x.scale
  pub reserved0_u16 : IsU16 x.reserved0
  pub fixed_binary_width_u32 : IsU32 x.fixed_binary_width

unfoldable pub value_byte_width : OcbColumnDescV1 → Result ℕ
unfolding PhysicalType.primitive_byte_width
value_byte_width x = elim (PhysicalType.primitive_byte_width x.physical_type) [
  | none ↦ do
    fail_if (x.fixed_binary_width == 0)
        (ocb_corrupt_file "OCB fixed-binary column requires fixed width")
    ok x.fixed_binary_width
  | some width ↦ do
    fail_if (not (x.fixed_binary_width == 0))
        (ocb_corrupt_file "OCB primitive column has unexpected fixed-binary width")
    ok width
]

unfoldable pub expected_value_bytes : OcbColumnDescV1 → ℕ → Result ℕ
unfolding value_byte_width
expected_value_bytes x row_count = do
  width ← value_byte_width x
  fail_if (leb (2 ^ 64) (row_count * width))
      (ocb_corrupt_file "OCB column chunk value byte length overflows")
  ok (row_count * width)

-- The checks of `write_to`.
unfoldable pub check_writable : OcbColumnDescV1 → Result (Unit {0})
unfolding LogicalKind.eq PhysicalType.eq
check_writable x = do
  fail_if
      (LogicalKind.eq x.logical_kind OcbLogicalKindV1.dictionary_code
        && x.dictionary_id == null_u32)
      (ocb_invalid_input "OCB dictionary-coded column must reference a dictionary")
  (if PhysicalType.eq x.physical_type OcbPhysicalTypeV1.fixed_binary
      then fail_if (x.fixed_binary_width == 0)
          (ocb_invalid_input "OCB fixed-binary column requires fixed width")
      else fail_if (not (x.fixed_binary_width == 0))
          (ocb_invalid_input "OCB primitive column has unexpected fixed-binary width"))
  ok tt

unfoldable pub body : OcbColumnDescV1 → List ℕ
unfolding write_u16 write_u32 write_i32 write_u64 BodyRef.write_to
body x = concat (
    write_u32 x.column_id
    ∷ write_u32 x.name_string_id
    ∷ write_u16 (PhysicalType.to_u16 x.physical_type)
    ∷ write_u16 (LogicalKind.to_u16 x.logical_kind)
    ∷ write_u32 x.flags
    ∷ write_u32 x.dictionary_id
    ∷ write_i32 x.scale
    ∷ write_u16 (Nullability.to_u16 x.nullability)
    ∷ write_u16 x.reserved0
    ∷ write_u32 x.fixed_binary_width
    ∷ [])

unfoldable pub write_to : OcbColumnDescV1 → Result (List ℕ)
unfolding check_writable body
write_to x = do check_writable x; ok (body x)
