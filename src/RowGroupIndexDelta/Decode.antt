-- ===== src/RowGroupIndexDelta/Decode.antt =====
-- `OcbRowGroupIndexDeltaV1::read_from_bytes_with_budget` and `read_from_bytes`.
use arcadia_tio_rs.Base.{ℕ, ◌==◌, ◌∷◌, [], not, List, length}
use arcadia_tio_rs.Error.{Result, ok, ocb_corrupt_file, ocb_unsupported_format}
use arcadia_tio_rs.Error
use arcadia_tio_rs.Bytes.{
  Reader, ◌>>=◌, ◌>>◌, pure, lift, check, read_exact_ocb, read_u16, read_u32, read_u64, cursor,
  bytes_eq,
}
use arcadia_tio_rs.Format.{
  row_group_index_delta_magic_v1, row_group_index_delta_v1_header_len, row_group_desc_v1_len,
  column_chunk_desc_v1_len, column_stats_v1_len, ordering_key_v1_len,
  row_group_ordering_proof_v1_len,
}
use arcadia_tio_rs.Crc.{unseal}
use arcadia_tio_rs.Limits.{
  MetadataMaterializationBudget, charge, policy_a_metadata_materialization_budget,
}
use arcadia_tio_rs.Table.{
  Platform, checked_record_count, checked_materialized_vec_bytes, checked_materialized_sum,
  position, tell, set_position, validate_record_sequence, read_record_sequence,
}
use arcadia_tio_rs.Records.RowGroupDesc.Decode as RowGroupDesc
use arcadia_tio_rs.Records.ColumnChunkDesc.Decode as ColumnChunkDesc
use arcadia_tio_rs.Records.ColumnStats.Decode as ColumnStats
use arcadia_tio_rs.Records.OrderingKey.Decode as OrderingKey
use arcadia_tio_rs.Records.OrderingProof.Decode as OrderingProof
use arcadia_tio_rs.RowGroupIndexDelta.{OcbRowGroupIndexDeltaV1}

-- What the cursor over the checked bytes reads; the budget comes back with the table.
unfoldable pub decode :
    Platform
    → ℕ
    → MetadataMaterializationBudget
    → ℕ
    → Reader (OcbRowGroupIndexDeltaV1 × MetadataMaterializationBudget)
decode p total budget actual_crc = do
  magic ← read_exact_ocb 8
  check (not (bytes_eq magic row_group_index_delta_magic_v1))
      (ocb_corrupt_file "invalid OCB row-group index delta magic")
  version ← read_u16
  check (not (version == 1))
      (ocb_unsupported_format "unsupported OCB row-group index delta version")
  header_bytes ← read_u16
  check (not (header_bytes == row_group_index_delta_v1_header_len))
      (ocb_corrupt_file "invalid OCB row-group index delta header length")
  base_row_group_count ← read_u32
  base_column_chunk_count ← read_u32
  base_stat_count ← read_u32
  base_ordering_proof_count ← read_u32
  row_group_count ← read_u32
  column_chunk_count ← read_u32
  stat_count ← read_u32
  ordering_key_count ← read_u16
  reserved0 ← read_u16
  ordering_proof_count ← read_u32
  flags ← read_u32
  reserved1 ← read_u32
  at ← position total
  row_group_count ← lift (
      checked_record_count total at row_group_count row_group_desc_v1_len
        "OCB row-group index delta row-group count")
  records_start ← tell
  validate_record_sequence row_group_count RowGroupDesc.read_from
  at ← position total
  column_chunk_count ← lift (
      checked_record_count total at column_chunk_count column_chunk_desc_v1_len
        "OCB row-group index delta column-chunk count")
  validate_record_sequence column_chunk_count ColumnChunkDesc.read_from
  at ← position total
  stat_count ← lift (
      checked_record_count total at stat_count column_stats_v1_len
        "OCB row-group index delta stat count")
  validate_record_sequence stat_count ColumnStats.read_from
  at ← position total
  ordering_key_count ← lift (
      checked_record_count total at ordering_key_count ordering_key_v1_len
        "OCB row-group index delta ordering-key count")
  validate_record_sequence ordering_key_count OrderingKey.read_from
  at ← position total
  ordering_proof_count ← lift (
      checked_record_count total at ordering_proof_count row_group_ordering_proof_v1_len
        "OCB row-group index delta ordering-proof count")
  validate_record_sequence ordering_proof_count OrderingProof.read_from
  row_groups_bytes ← lift (checked_materialized_vec_bytes p.size_of_row_group_desc row_group_count)
  column_chunks_bytes ←
      lift (checked_materialized_vec_bytes p.size_of_column_chunk_desc column_chunk_count)
  stats_bytes ← lift (checked_materialized_vec_bytes p.size_of_column_stats stat_count)
  ordering_keys_bytes ←
      lift (checked_materialized_vec_bytes p.size_of_ordering_key ordering_key_count)
  row_group_ordering_proofs_bytes ←
      lift (checked_materialized_vec_bytes p.size_of_ordering_proof ordering_proof_count)
  bytes ← lift (
      checked_materialized_sum (
        row_groups_bytes ∷ column_chunks_bytes ∷ stats_bytes ∷ ordering_keys_bytes
        ∷ row_group_ordering_proofs_bytes ∷ []))
  charged ← lift (charge budget bytes)
  set_position records_start
  row_groups ←
      read_record_sequence p p.size_of_row_group_desc row_group_count
        "OCB row-group delta allocation failed within resource limit" RowGroupDesc.read_from
  column_chunks ←
      read_record_sequence p p.size_of_column_chunk_desc column_chunk_count
        "OCB column-chunk delta allocation failed within resource limit" ColumnChunkDesc.read_from
  stats ←
      read_record_sequence p p.size_of_column_stats stat_count
        "OCB column-stat delta allocation failed within resource limit" ColumnStats.read_from
  ordering_keys ←
      read_record_sequence p p.size_of_ordering_key ordering_key_count
        "OCB ordering-key delta allocation failed within resource limit" OrderingKey.read_from
  row_group_ordering_proofs ←
      read_record_sequence p p.size_of_ordering_proof ordering_proof_count
        "OCB ordering-proof delta allocation failed within resource limit" OrderingProof.read_from
  pure (
    record {
      version = version;
      base_row_group_count = base_row_group_count;
      base_column_chunk_count = base_column_chunk_count;
      base_stat_count = base_stat_count;
      base_ordering_proof_count = base_ordering_proof_count;
      flags = flags;
      row_groups = row_groups;
      column_chunks = column_chunks;
      stats = stats;
      ordering_keys = ordering_keys;
      row_group_ordering_proofs = row_group_ordering_proofs;
      crc32c = actual_crc;
    },
    charged,
  )

unfoldable pub read_from_bytes_with_budget :
    Platform
    → List ℕ
    → MetadataMaterializationBudget
    → Result (OcbRowGroupIndexDeltaV1 × MetadataMaterializationBudget)
unfolding decode ◌>>=◌ ◌>>◌ pure lift check read_exact_ocb read_u16 read_u32 read_u64 cursor
    bytes_eq unseal RowGroupDesc.read_from ColumnChunkDesc.read_from ColumnStats.read_from
    OrderingKey.read_from OrderingProof.read_from checked_record_count
    checked_materialized_vec_bytes checked_materialized_sum position tell set_position
    validate_record_sequence read_record_sequence charge
read_from_bytes_with_budget p bytes budget =
    Error.◌>>=◌ (unseal "OCB row-group index delta crc mismatch" bytes)
      (λ (actual_crc, stable). cursor (decode p (length stable) budget actual_crc) stable)

unfoldable pub read_from_bytes : Platform → List ℕ → Result OcbRowGroupIndexDeltaV1
unfolding read_from_bytes_with_budget policy_a_metadata_materialization_budget
read_from_bytes p bytes =
    Error.◌>>=◌ (read_from_bytes_with_budget p bytes policy_a_metadata_materialization_budget)
      (λ (table, _). ok table)
