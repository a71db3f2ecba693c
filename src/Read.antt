-- ===== src/Read.antt =====
-- crates/arcadia-tio-ocb-core/src/read.rs: opening a file of version 2 and reading its metadata.
pub mod Source
pub mod Metadata
pub mod Delta
pub mod Select
pub mod Auxiliary
pub mod Graph
pub mod Open
pub mod End
