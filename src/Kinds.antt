-- ===== src/Kinds.antt =====
-- The enumerations of crates/arcadia-tio-ocb-core/src/format.rs with their codes, one in each module.
pub mod BodyKind
pub mod ChecksumKind
pub mod PhysicalType
pub mod LogicalKind
pub mod Nullability
pub mod ChunkCodec
pub mod DictionaryValueKind
pub mod OrderingDirection
pub mod NullOrder
pub use BodyKind.{OcbBodyKindV1}
pub use ChecksumKind.{OcbChecksumKindV1}
pub use PhysicalType.{OcbPhysicalTypeV1}
pub use LogicalKind.{OcbLogicalKindV1}
pub use Nullability.{OcbNullabilityV1}
pub use ChunkCodec.{OcbChunkCodecV1}
pub use DictionaryValueKind.{OcbDictionaryValueKindV1}
pub use OrderingDirection.{OcbOrderingDirectionV1}
pub use NullOrder.{OcbNullOrderV1}
