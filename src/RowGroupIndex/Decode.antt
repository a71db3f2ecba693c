-- ===== src/RowGroupIndex/Decode.antt =====
-- `OcbRowGroupIndexV1::read_from_bytes_with_budget` and `read_from_bytes`.
use arcadia_tio_rs.Base.{ℕ, ◌==◌, ◌∷◌, [], not, List, length}
use arcadia_tio_rs.Error.{Result, ok, ocb_corrupt_file, ocb_unsupported_format}
use arcadia_tio_rs.Error
use arcadia_tio_rs.Bytes.{
  Reader, ◌>>=◌, ◌>>◌, pure, lift, check, read_exact_ocb, read_u16, read_u32, read_u64, cursor,
  bytes_eq,
}
use arcadia_tio_rs.Format.{
  row_group_index_magic_v1, row_group_index_v1_header_len, row_group_desc_v1_len,
  column_chunk_desc_v1_len, column_stats_v1_len,
}
use arcadia_tio_rs.Crc.{unseal}
use arcadia_tio_rs.Limits.{
  MetadataMaterializationBudget, charge, policy_a_metadata_materialization_budget,
}
use arcadia_tio_rs.Table.{
  Platform, checked_record_count, checked_materialized_vec_bytes, checked_materialized_sum,
  position, tell, set_position, validate_record_sequence, read_record_sequence,
}
use arcadia_tio_rs.Records.RowGroupDesc.Decode as RowGroupDesc
use arcadia_tio_rs.Records.ColumnChunkDesc.Decode as ColumnChunkDesc
use arcadia_tio_rs.Records.ColumnStats.Decode as ColumnStats
use arcadia_tio_rs.RowGroupIndex.{OcbRowGroupIndexV1}

-- What the cursor over the checked bytes reads; the budget comes back with the table.
unfoldable pub decode :
    Platform
    → ℕ
    → MetadataMaterializationBudget
    → ℕ
    → Reader (OcbRowGroupIndexV1 × MetadataMaterializationBudget)
decode p total budget actual_crc = do
  magic ← read_exact_ocb 8
  check (not (bytes_eq magic row_group_index_magic_v1))
      (ocb_corrupt_file "invalid OCB row-group index magic")
  version ← read_u16
  check (not (version == 1)) (ocb_unsupported_format "unsupported OCB row-group index version")
  header_bytes ← read_u16
  check (not (header_bytes == row_group_index_v1_header_len))
      (ocb_corrupt_file "invalid OCB row-group index header length")
  row_group_count ← read_u32
  column_chunk_count ← read_u32
  stat_count ← read_u32
  flags ← read_u32
  reserved0 ← read_u32
  at ← position total
  row_group_count ← lift (
      checked_record_count total at row_group_count row_group_desc_v1_len
        "OCB row-group index row-group count")
  records_start ← tell
  validate_record_sequence row_group_count RowGroupDesc.read_from
  at ← position total
  column_chunk_count ← lift (
      checked_record_count total at column_chunk_count column_chunk_desc_v1_len
        "OCB row-group index column-chunk count")
  validate_record_sequence column_chunk_count ColumnChunkDesc.read_from
  at ← position total
  stat_count ← lift (
      checked_record_count total at stat_count column_stats_v1_len "OCB row-group index stat count")
  validate_record_sequence stat_count ColumnStats.read_from
  row_groups_bytes ← lift (checked_materialized_vec_bytes p.size_of_row_group_desc row_group_count)
  column_chunks_bytes ←
      lift (checked_materialized_vec_bytes p.size_of_column_chunk_desc column_chunk_count)
  stats_bytes ← lift (checked_materialized_vec_bytes p.size_of_column_stats stat_count)
  bytes ←
      lift (checked_materialized_sum (row_groups_bytes ∷ column_chunks_bytes ∷ stats_bytes ∷ []))
  charged ← lift (charge budget bytes)
  set_position records_start
  row_groups ←
      read_record_sequence p p.size_of_row_group_desc row_group_count
        "OCB row-group allocation failed within resource limit" RowGroupDesc.read_from
  column_chunks ←
      read_record_sequence p p.size_of_column_chunk_desc column_chunk_count
        "OCB column-chunk descriptor allocation failed within resource limit"
        ColumnChunkDesc.read_from
  stats ←
      read_record_sequence p p.size_of_column_stats stat_count
        "OCB column-stat allocation failed within resource limit" ColumnStats.read_from
  pure (
    record {
      version = version;
      flags = flags;
      row_groups = row_groups;
      column_chunks = column_chunks;
      stats = stats;
      crc32c = actual_crc;
    },
    charged,
  )

unfoldable pub read_from_bytes_with_budget :
    Platform
    → List ℕ
    → MetadataMaterializationBudget
    → Result (OcbRowGroupIndexV1 × MetadataMaterializationBudget)
unfolding decode ◌>>=◌ ◌>>◌ pure lift check read_exact_ocb read_u16 read_u32 read_u64 cursor
    bytes_eq unseal RowGroupDesc.read_from ColumnChunkDesc.read_from ColumnStats.read_from
    checked_record_count checked_materialized_vec_bytes checked_materialized_sum position tell
    set_position validate_record_sequence read_record_sequence charge
read_from_bytes_with_budget p bytes budget =
    Error.◌>>=◌ (unseal "OCB row-group index crc mismatch" bytes)
      (λ (actual_crc, stable). cursor (decode p (length stable) budget actual_crc) stable)

unfoldable pub read_from_bytes : Platform → List ℕ → Result OcbRowGroupIndexV1
unfolding read_from_bytes_with_budget policy_a_metadata_materialization_budget
read_from_bytes p bytes =
    Error.◌>>=◌ (read_from_bytes_with_budget p bytes policy_a_metadata_materialization_budget)
      (λ (table, _). ok table)
