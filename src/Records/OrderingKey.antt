-- ===== src/Records/OrderingKey.antt =====
-- `OcbOrderingKeyV1` of crates/arcadia-tio-ocb-core/src/format.rs: one column of the ordering.
pub mod Decode
pub mod Laws
use arcadia_tio_rs.Base.{
  ℕ, ◌*◌, ◌^◌, List, [], ◌∷◌, ◌++◌, ◌≡◌, Bool, not, ◌==◌, ◌&&◌, ◌||◌, leb, ltb, if◌then◌else◌,
  concat, some, none,
}
use arcadia_tio_rs.Error.{
  Result, ok, err, ocb_corrupt_file, ocb_invalid_input, fail_if, ◌>>◌, ◌>>=◌,
}
use arcadia_tio_rs.Bytes.{write_u16, write_u32, write_i32, write_u64, IsU16, IsU32, IsU64}
use arcadia_tio_rs.Format.{null_u32}
use arcadia_tio_rs.Kinds.{
  OcbBodyKindV1, OcbPhysicalTypeV1, OcbLogicalKindV1, OcbNullabilityV1, OcbChunkCodecV1,
  OcbDictionaryValueKindV1, OcbOrderingDirectionV1, OcbNullOrderV1,
}
use arcadia_tio_rs.Kinds.BodyKind
use arcadia_tio_rs.Kinds.PhysicalType
use arcadia_tio_rs.Kinds.LogicalKind
use arcadia_tio_rs.Kinds.Nullability
use arcadia_tio_rs.Kinds.ChunkCodec
use arcadia_tio_rs.Kinds.DictionaryValueKind
use arcadia_tio_rs.Kinds.OrderingDirection
use arcadia_tio_rs.Kinds.NullOrder
use arcadia_tio_rs.BodyRef
use arcadia_tio_rs.BodyRef.{OcbBodyRefV2, is_null}
use arcadia_tio_rs.Records.StatScalar
use arcadia_tio_rs.Records.StatScalar.{OcbStatScalarV1}

pub record OcbOrderingKeyV1 : Type 0 where
  pub column_id : ℕ
  pub direction : OcbOrderingDirectionV1
  pub null_order : OcbNullOrderV1
  pub reserved0 : ℕ

-- The ranges that the Rust types of the fields give.
pub record IsTyped (x : OcbOrderingKeyV1) : Type 0 where
  pub column_id_u32 : IsU32 x.column_id
  pub reserved0_u16 : IsU16 x.reserved0

unfoldable pub body : OcbOrderingKeyV1 → List ℕ
unfolding write_u16 write_u32 write_i32 write_u64 BodyRef.write_to
body x = concat (
    write_u32 x.column_id
    ∷ (OrderingDirection.to_u8 x.direction ∷ NullOrder.to_u8 x.null_order ∷ [])
    ∷ write_u16 x.reserved0
    ∷ [])

unfoldable pub write_to : OcbOrderingKeyV1 → Result (List ℕ)
unfolding body
write_to x = ok (body x)
