-- ===== src/Lib.antt =====
-- Ordered Column Bundle (OCB) files: the on-disk format of `arcadia-tio-ocb-core`.
--
-- An OCB file starts with a bootstrap page. A version 1 page refers to one root; a version 2 page
-- holds a table of two root slots, of which a commit overwrites one and leaves the other alone.
-- A slot refers to a root, a root to the tables of the file (string table, schema, dictionary index,
-- row-group index, ordering proof), and a table holds records of fixed size. Every object ends in a
-- CRC-32C of its bytes; that of a version 2 page takes the slot table for zeros. The readers check counts and lengths against the bytes at hand, and charge the
-- vectors that they collect to a budget that the resource limits set.
--
-- The files, and the code in crates/arcadia-tio-ocb-core/src that each is about:
--   Base, Error          shared names, lemmas and rule sets; error.rs with `Result`
--   Bytes                the `read_*` and `write_*` helpers of format.rs. A byte is a number below 256,
--                        a reader is a function from the unread bytes to a result and the bytes after it
--                        (`Reader`), and `Bytes.Reads` has one rule for each kind of step of a decoder
--   Crc                  `crc32c*`, and the checksum steps of all objects but the page of version 2
--                        (`seal`, `unseal`)
--   Object, Table        the frame of the objects of fixed size; counts, lengths, record sequences and
--                        allocation (`checked_*`, `validate_record_sequence`, `read_record_sequence`)
--   Format, Kinds        the constants and the enumerations of format.rs with their codes
--   BodyRef              `OcbBodyRefV2`
--   RootSlot             `OcbRootSlotV2`, with `validate_candidate` and `validate_root`
--   RootV1, RootV2       `OcbRootV1`, `OcbRootV2`
--   BootstrapV1, BootstrapV2   `OcbBootstrapPageV1`, `OcbBootstrapPageV2`
--   Records              the records of fixed size that tables hold
--   StringTable, Schema, DictionaryIndex, RowGroupIndex, RowGroupIndexDelta, OrderingProof
--                        the tables `Ocb...V1` of those names
--   DictionaryValues, ColumnChunk   `OcbDictionaryValuesV1`, and `OcbColumnChunkObjectV1` with its decoding
--   Limits               resource_limits.rs
--   Read                 read.rs:
--     Source             the reads of a file, and `read_object_bytes*`
--     Metadata           `OcbMetadataV1`, and `read_metadata_objects*`
--     Delta              `apply_row_group_index_delta`
--     Select             `choose_v2_metadata`
--     Auxiliary          `OcbOpenAuxiliaryObjectCache`
--     Graph              the `validate_*` functions of the metadata graph
--     Open               `read_metadata*`, `select_v2_metadata` and `validate_*_referenced_objects_*`
--     End                `selected_snapshot_referenced_end`
--   Tests                concrete records, and each theorem at them
-- A component X declares its data and its writer in X.antt, its reader in X/Decode.antt, and what is
-- proved of both in X/Laws.antt and the other files below X.
--
-- How the model stands to the code. A struct is a record with the fields of the source; `IsTyped`
-- lists the ranges that the Rust types of the fields give. A function is named as in the source;
-- `encode_without_checksum` is cut into its checks (`check_encodable`) and the pieces it writes, and
-- the body of a `read_from` is cut into the checksum step and `decode`, what its cursor reads.
-- `write_to` returns the bytes that the source writes to its writer. A writer that fails, and a reader
-- that fails with anything but the end of its input, are not modelled. A signed or a floating-point
-- number is its bit pattern. `usize` has 64 bits. A budget that the source changes in place is
-- returned. Each loop runs along a list or down from a count, but for the one of `choose_v2_metadata`:
-- its fuel is the number of candidates, of which each turn takes one away at least; a loop that has
-- used up its turns gives `none`, which no outcome of the code is.
--
-- A file is the list of its bytes, which do not change while it is read; a read returns all the bytes
-- asked for, or fails at the end of the file. A hash map is the list of its entries, and a key that is
-- inserted twice is found as it was inserted last. The cache of auxiliary objects is passed from step to
-- step, and a step that fails keeps what it did to it. An object that the source validates in pieces of a
-- buffer is validated as a whole. The times and counts that the source measures are left out.
--
-- `Table.Platform` is what the code relies on and does not define: which requests the allocator
-- grants, for bytes and for the entries of hash maps, which bytes are UTF-8, what the zstd decoder gives
-- for an input, and the sizes of the types held in vectors.
--
-- Not modelled: in read.rs the reading of single column chunks, the cursor over a shared file, and the
-- maintenance analysis; the other files of that crate (projections, parallel preparation and
-- reading, column bundles, compact L2 records, manifests, certification); and the crates
-- arcadia-tio-rs and arcadia-tio-sys, which wrap a native library.
pub mod Base
pub mod Error
pub mod Bytes
pub mod Crc
pub mod Object
pub mod Format
pub mod Kinds
pub mod BodyRef
pub mod RootSlot
pub mod RootV1
pub mod RootV2
pub mod BootstrapV1
pub mod BootstrapV2
pub mod Limits
pub mod Table
pub mod Records
pub mod Schema
pub mod DictionaryIndex
pub mod OrderingProof
pub mod RowGroupIndex
pub mod RowGroupIndexDelta
pub mod StringTable
pub mod Tests
pub mod Read
pub mod DictionaryValues
pub mod ColumnChunk
