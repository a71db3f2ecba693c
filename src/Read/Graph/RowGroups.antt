-- ===== src/Read/Graph/RowGroups.antt =====
-- `validate_row_group_graph`: the row groups one after the other, each with its part of the chunk table
-- and of the statistics.
pub mod Run
pub mod Laws
use arcadia_tio_rs.Base.{ℕ, suc, List, [], ◌∷◌, length, not, ◌==◌}
use arcadia_tio_rs.Error.{Result, ok, err, ocb_corrupt_file, fail_if}
use arcadia_tio_rs.Limits.{OcbResourceLimits}
use arcadia_tio_rs.Table.{Platform}
use arcadia_tio_rs.Records.ColumnDesc.{OcbColumnDescV1}
use arcadia_tio_rs.Records.RowGroupDesc.{OcbRowGroupDescV1}
use arcadia_tio_rs.Records.ColumnChunkDesc.{OcbColumnChunkDescV1}
use arcadia_tio_rs.Records.ColumnStats.{OcbColumnStatsV1}
use arcadia_tio_rs.RowGroupIndex.{OcbRowGroupIndexV1}
use arcadia_tio_rs.Read.Metadata.{OcbMetadataV1, Map}
use arcadia_tio_rs.Read.Auxiliary.{Scoped, ◌>>=◌, ◌>>◌, lift}
use arcadia_tio_rs.Read.Auxiliary.Bodies.{validate_key_tuple}
use arcadia_tio_rs.Read.Graph.{contains, key_list, set_eq, reserve_entries}
use arcadia_tio_rs.Read.Graph.Chunks.{
  OcbOpenValidationMode, validate_chunk_desc, validate_stat_desc,
}
use arcadia_tio_rs.Read.Graph.RowGroupDescs.{
  Progress, validate_row_group_desc, checked_chunks_for_row_group, checked_stats_for_row_group,
}

abbrev pub start : Progress
start = record {
  row_group_positions_by_id = [];
  expected_base_row = 0;
  expected_chunk_begin = 0;
  expected_stat_begin = 0;
}

module _ (p : Platform) (file : List ℕ) (file_len : ℕ) (columns_by_id : Map OcbColumnDescV1)
    (validation : OcbOpenValidationMode) (resource_limits : OcbResourceLimits)
    (index : OcbRowGroupIndexV1) where
  -- The loop over the chunks of a row group; it returns `chunk_columns`.
  unfoldable pub validate_chunks :
      OcbRowGroupDescV1 → List OcbColumnChunkDescV1 → List ℕ → Scoped (List ℕ)
  unfolding ◌>>◌ lift validate_chunk_desc contains
  validate_chunks row_group [] chunk_columns = lift (ok chunk_columns)
  validate_chunks row_group (chunk ∷ chunks) chunk_columns = do
    lift (
        validate_chunk_desc p file file_len row_group chunk columns_by_id validation
          resource_limits)
    lift (
        fail_if (contains chunk_columns chunk.column_id)
          (ocb_corrupt_file "OCB row group has duplicate chunk descriptors for a column"))
    validate_chunks row_group chunks (chunk.column_id ∷ chunk_columns)

  unfoldable pub validate_stats :
      OcbRowGroupDescV1 → List OcbColumnStatsV1 → List ℕ → Scoped (Unit {0})
  unfolding ◌>>◌ lift validate_stat_desc contains
  validate_stats row_group [] stat_columns = lift (ok tt)
  validate_stats row_group (stat ∷ stats) stat_columns = do
    lift (validate_stat_desc row_group stat columns_by_id)
    lift (
        fail_if (contains stat_columns stat.column_id)
          (ocb_corrupt_file "OCB row group has duplicate stats for a column"))
    validate_stats row_group stats (stat.column_id ∷ stat_columns)

  -- The body of the loop after `validate_row_group_desc`.
  unfoldable pub validate_members : OcbRowGroupDescV1 → Scoped (Unit {0})
  unfolding ◌>>=◌ ◌>>◌ lift validate_key_tuple checked_chunks_for_row_group reserve_entries
      validate_chunks set_eq key_list checked_stats_for_row_group validate_stats
  validate_members row_group = do
    validate_key_tuple p file file_len row_group.first_key_tuple_ref
    validate_key_tuple p file file_len row_group.last_key_tuple_ref
    chunks ← lift (checked_chunks_for_row_group index row_group)
    lift (reserve_entries p (length chunks))
    chunk_columns ← validate_chunks row_group chunks []
    lift (
        fail_if (not (set_eq chunk_columns (key_list columns_by_id)))
          (ocb_corrupt_file "OCB row group chunk descriptors do not cover all schema columns"))
    stats ← lift (checked_stats_for_row_group index row_group)
    lift (reserve_entries p (length stats))
    validate_stats row_group stats []

  unfoldable pub validate_row_groups : List OcbRowGroupDescV1 → ℕ → Progress → Scoped Progress
  unfolding ◌>>=◌ ◌>>◌ lift validate_row_group_desc validate_members
  validate_row_groups [] row_group_position progress = lift (ok progress)
  validate_row_groups (row_group ∷ row_groups) row_group_position progress = do
    next ← lift (validate_row_group_desc row_group row_group_position progress)
    validate_members row_group
    validate_row_groups row_groups (suc row_group_position) next

  unfoldable pub validate_row_group_graph : Scoped (Map ℕ)
  unfolding ◌>>=◌ ◌>>◌ lift reserve_entries validate_row_groups
  validate_row_group_graph = do
    lift (reserve_entries p (length columns_by_id))
    lift (reserve_entries p (length index.row_groups))
    progress ← validate_row_groups index.row_groups 0 start
    lift (
        fail_if (not (progress.expected_chunk_begin == length index.column_chunks))
          (ocb_corrupt_file "OCB row-group chunk descriptor ranges do not cover the chunk table"))
    lift (
        fail_if (not (progress.expected_stat_begin == length index.stats))
          (ocb_corrupt_file "OCB row-group stat ranges do not cover the stats table"))
    lift (ok progress.row_group_positions_by_id)
