-- ===== src/Records/RowGroupDesc.antt =====
-- `OcbRowGroupDescV1` of crates/arcadia-tio-ocb-core/src/format.rs: one row group of the index.
pub mod Decode
pub mod Laws
use arcadia_tio_rs.Base.{
  ℕ, ◌*◌, ◌^◌, List, [], ◌∷◌, ◌++◌, ◌≡◌, Bool, not, ◌==◌, ◌&&◌, ◌||◌, leb, ltb, if◌then◌else◌,
  concat, some, none,
}
use arcadia_tio_rs.Error.{
  Result, ok, err, ocb_corrupt_file, ocb_invalid_input, fail_if, ◌>>◌, ◌>>=◌,
}
use arcadia_tio_rs.Bytes.{write_u16, write_u32, write_i32, write_u64, IsU16, IsU32, IsU64}
use arcadia_tio_rs.Format.{null_u32}
use arcadia_tio_rs.Kinds.{
  OcbBodyKindV1, OcbPhysicalTypeV1, OcbLogicalKindV1, OcbNullabilityV1, OcbChunkCodecV1,
  OcbDictionaryValueKindV1, OcbOrderingDirectionV1, OcbNullOrderV1,
}
use arcadia_tio_rs.Kinds.BodyKind
use arcadia_tio_rs.Kinds.PhysicalType
use arcadia_tio_rs.Kinds.LogicalKind
use arcadia_tio_rs.Kinds.Nullability
use arcadia_tio_rs.Kinds.ChunkCodec
use arcadia_tio_rs.Kinds.DictionaryValueKind
use arcadia_tio_rs.Kinds.OrderingDirection
use arcadia_tio_rs.Kinds.NullOrder
use arcadia_tio_rs.BodyRef
use arcadia_tio_rs.BodyRef.{OcbBodyRefV2, is_null}
use arcadia_tio_rs.Records.StatScalar
use arcadia_tio_rs.Records.StatScalar.{OcbStatScalarV1}

pub record OcbRowGroupDescV1 : Type 0 where
  pub row_group_id : ℕ
  pub flags : ℕ
  pub base_row : ℕ
  pub row_count : ℕ
  pub chunk_desc_begin : ℕ
  pub chunk_desc_count : ℕ
  pub stat_begin : ℕ
  pub stat_count : ℕ
  pub first_key_tuple_ref : OcbBodyRefV2
  pub last_key_tuple_ref : OcbBodyRefV2

-- The ranges that the Rust types of the fields give.
pub record IsTyped (x : OcbRowGroupDescV1) : Type 0 where
  pub row_group_id_u32 : IsU32 x.row_group_id
  pub flags_u32 : IsU32 x.flags
  pub base_row_u64 : IsU64 x.base_row
  pub row_count_u64 : IsU64 x.row_count
  pub chunk_desc_begin_u64 : IsU64 x.chunk_desc_begin
  pub chunk_desc_count_u32 : IsU32 x.chunk_desc_count
  pub stat_begin_u64 : IsU64 x.stat_begin
  pub stat_count_u32 : IsU32 x.stat_count
  pub first_key_tuple_ref_typed : BodyRef.IsTyped x.first_key_tuple_ref
  pub last_key_tuple_ref_typed : BodyRef.IsTyped x.last_key_tuple_ref

unfoldable pub body : OcbRowGroupDescV1 → List ℕ
unfolding write_u16 write_u32 write_i32 write_u64 BodyRef.write_to StatScalar.write_to
body x = concat (
    write_u32 x.row_group_id
    ∷ write_u32 x.flags
    ∷ write_u64 x.base_row
    ∷ write_u64 x.row_count
    ∷ write_u64 x.chunk_desc_begin
    ∷ write_u32 x.chunk_desc_count
    ∷ write_u32 0
    ∷ write_u64 x.stat_begin
    ∷ write_u32 x.stat_count
    ∷ write_u32 0
    ∷ BodyRef.write_to x.first_key_tuple_ref
    ∷ BodyRef.write_to x.last_key_tuple_ref
    ∷ [])

unfoldable pub write_to : OcbRowGroupDescV1 → Result (List ℕ)
unfolding body
write_to x = ok (body x)
