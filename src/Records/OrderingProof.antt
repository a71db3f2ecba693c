-- ===== src/Records/OrderingProof.antt =====
-- `OcbRowGroupOrderingProofV1` of crates/arcadia-tio-ocb-core/src/format.rs: the first and the last key tuple of one row group.
pub mod Decode
pub mod Laws
use arcadia_tio_rs.Base.{
  ℕ, ◌*◌, ◌^◌, List, [], ◌∷◌, ◌++◌, ◌≡◌, Bool, not, ◌==◌, ◌&&◌, ◌||◌, leb, ltb, if◌then◌else◌,
  concat, some, none,
}
use arcadia_tio_rs.Error.{
  Result, ok, err, ocb_corrupt_file, ocb_invalid_input, fail_if, ◌>>◌, ◌>>=◌,
}
use arcadia_tio_rs.Bytes.{write_u16, write_u32, write_i32, write_u64, IsU16, IsU32, IsU64}
use arcadia_tio_rs.Format.{null_u32}
use arcadia_tio_rs.Kinds.{
  OcbBodyKindV1, OcbPhysicalTypeV1, OcbLogicalKindV1, OcbNullabilityV1, OcbChunkCodecV1,
  OcbDictionaryValueKindV1, OcbOrderingDirectionV1, OcbNullOrderV1,
}
use arcadia_tio_rs.Kinds.BodyKind
use arcadia_tio_rs.Kinds.PhysicalType
use arcadia_tio_rs.Kinds.LogicalKind
use arcadia_tio_rs.Kinds.Nullability
use arcadia_tio_rs.Kinds.ChunkCodec
use arcadia_tio_rs.Kinds.DictionaryValueKind
use arcadia_tio_rs.Kinds.OrderingDirection
use arcadia_tio_rs.Kinds.NullOrder
use arcadia_tio_rs.BodyRef
use arcadia_tio_rs.BodyRef.{OcbBodyRefV2, is_null}
use arcadia_tio_rs.Records.StatScalar
use arcadia_tio_rs.Records.StatScalar.{OcbStatScalarV1}

pub record OcbRowGroupOrderingProofV1 : Type 0 where
  pub row_group_id : ℕ
  pub flags : ℕ
  pub first_tuple_ref : OcbBodyRefV2
  pub last_tuple_ref : OcbBodyRefV2

-- The ranges that the Rust types of the fields give.
pub record IsTyped (x : OcbRowGroupOrderingProofV1) : Type 0 where
  pub row_group_id_u32 : IsU32 x.row_group_id
  pub flags_u32 : IsU32 x.flags
  pub first_tuple_ref_typed : BodyRef.IsTyped x.first_tuple_ref
  pub last_tuple_ref_typed : BodyRef.IsTyped x.last_tuple_ref

-- The checks of `write_to`.
unfoldable pub check_writable : OcbRowGroupOrderingProofV1 → Result (Unit {0})
unfolding BodyKind.eq is_null
check_writable x = do
  fail_if
      (not (is_null x.first_tuple_ref)
        && not (BodyKind.eq x.first_tuple_ref.kind OcbBodyKindV1.key_tuple))
      (ocb_invalid_input "OCB ordering first_tuple_ref must reference key tuple")
  fail_if
      (not (is_null x.last_tuple_ref)
        && not (BodyKind.eq x.last_tuple_ref.kind OcbBodyKindV1.key_tuple))
      (ocb_invalid_input "OCB ordering last_tuple_ref must reference key tuple")
  ok tt

unfoldable pub body : OcbRowGroupOrderingProofV1 → List ℕ
unfolding write_u16 write_u32 write_i32 write_u64 BodyRef.write_to
body x = concat (
    write_u32 x.row_group_id
    ∷ write_u32 x.flags
    ∷ BodyRef.write_to x.first_tuple_ref
    ∷ BodyRef.write_to x.last_tuple_ref
    ∷ [])

unfoldable pub write_to : OcbRowGroupOrderingProofV1 → Result (List ℕ)
unfolding check_writable body
write_to x = do check_writable x; ok (body x)
