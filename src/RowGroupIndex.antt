-- ===== src/RowGroupIndex.antt =====
-- `OcbRowGroupIndexV1` of crates/arcadia-tio-ocb-core/src/format.rs: the row groups of a file, their column chunks and statistics.
pub mod Decode
pub mod Laws
use arcadia_tio_rs.Base.{ℕ, ◌*◌, ◌^◌, ◌<◌, List, [], ◌∷◌, ◌++◌, Bool, not, All, length, concat, map}
use arcadia_tio_rs.Error.{Result, ok, ocb_invalid_input, fail_if, ◌>>◌, ◌>>=◌}
use arcadia_tio_rs.Bytes.{write_u16, write_u32, write_u64, IsU16, IsU32, IsU64}
use arcadia_tio_rs.Format.{row_group_index_magic_v1, row_group_index_v1_header_len}
use arcadia_tio_rs.Object.{sealed}
use arcadia_tio_rs.Table.{write_records, count_u32, count_u16}
use arcadia_tio_rs.Records.RowGroupDesc
use arcadia_tio_rs.Records.RowGroupDesc.{OcbRowGroupDescV1}
use arcadia_tio_rs.Records.ColumnChunkDesc
use arcadia_tio_rs.Records.ColumnChunkDesc.{OcbColumnChunkDescV1}
use arcadia_tio_rs.Records.ColumnStats
use arcadia_tio_rs.Records.ColumnStats.{OcbColumnStatsV1}

pub record OcbRowGroupIndexV1 : Type 0 where
  pub version : ℕ
  pub flags : ℕ
  pub row_groups : List OcbRowGroupDescV1
  pub column_chunks : List OcbColumnChunkDescV1
  pub stats : List OcbColumnStatsV1
  pub crc32c : ℕ

-- The ranges that the Rust types of the fields give.
pub record IsTyped (x : OcbRowGroupIndexV1) : Type 0 where
  pub version_u16 : IsU16 x.version
  pub flags_u32 : IsU32 x.flags
  pub row_groups_typed : All RowGroupDesc.IsTyped x.row_groups
  pub column_chunks_typed : All ColumnChunkDesc.IsTyped x.column_chunks
  pub stats_typed : All ColumnStats.IsTyped x.stats

-- What is written before the tables.
unfoldable pub front : OcbRowGroupIndexV1 → ℕ → ℕ → ℕ → List (List ℕ)
unfolding write_u16 write_u32 write_u64
front x row_group_count column_chunk_count stat_count =
    (row_group_index_magic_v1
      ∷ write_u16 x.version
      ∷ write_u16 row_group_index_v1_header_len
      ∷ write_u32 row_group_count
      ∷ write_u32 column_chunk_count
      ∷ write_u32 stat_count
      ∷ write_u32 x.flags
      ∷ write_u32 0
      ∷ [])

unfoldable pub encode_without_checksum : OcbRowGroupIndexV1 → Result (List ℕ)
unfolding count_u32 count_u16 front write_records write_u32 RowGroupDesc.write_to
    ColumnChunkDesc.write_to ColumnStats.write_to
encode_without_checksum x = do
  row_group_count ←
      count_u32 (length x.row_groups)
        (ocb_invalid_input "OCB row-group index has too many row groups")
  column_chunk_count ←
      count_u32 (length x.column_chunks)
        (ocb_invalid_input "OCB row-group index has too many column chunks")
  stat_count ←
      count_u32 (length x.stats) (ocb_invalid_input "OCB row-group index has too many stats")
  row_groups ← write_records RowGroupDesc.write_to x.row_groups
  column_chunks ← write_records ColumnChunkDesc.write_to x.column_chunks
  stats ← write_records ColumnStats.write_to x.stats
  ok (
      (concat (front x row_group_count column_chunk_count stat_count)
        ++ concat (row_groups ∷ column_chunks ∷ stats ∷ []))
      ++ write_u32 0)

unfoldable pub write_to : OcbRowGroupIndexV1 → Result (List ℕ)
unfolding sealed encode_without_checksum
write_to x = sealed (encode_without_checksum x)
