-- ===== src/Records.antt =====
-- The records of fixed size that the tables of a file hold, of
-- crates/arcadia-tio-ocb-core/src/format.rs.
pub mod StatScalar
pub mod ColumnDesc
pub mod DictionaryDesc
pub mod RowGroupDesc
pub mod ColumnChunkDesc
pub mod ColumnStats
pub mod OrderingKey
pub mod OrderingProof
