-- ===== src/Read/Graph/RowGroupDescs.antt =====
-- `validate_row_group_desc`, `checked_chunks_for_row_group` and `checked_stats_for_row_group`: one row
-- group against those before it, and its parts of the tables.
use arcadia_tio_rs.Base.{ℕ, ◌+◌, ◌^◌, List, ◌∷◌, length, take, drop, not, ◌==◌, leb, ltb, String}
use arcadia_tio_rs.Error.{Result, ok, ocb_corrupt_file, fail_if, ◌>>◌}
use arcadia_tio_rs.Records.RowGroupDesc.{OcbRowGroupDescV1}
use arcadia_tio_rs.Records.ColumnChunkDesc.{OcbColumnChunkDescV1}
use arcadia_tio_rs.Records.ColumnStats.{OcbColumnStatsV1}
use arcadia_tio_rs.RowGroupIndex.{OcbRowGroupIndexV1}
use arcadia_tio_rs.Read.Metadata.{Map}
use arcadia_tio_rs.Read.Graph.{contains_key}

-- `get(begin..end)`, with `checked_add` for the end.
unfoldable pub slice {ℓ} : {A : Type ℓ} → List A → ℕ → ℕ → String → String → Result (List A)
slice table begin count overflow out_of_bounds = do
  fail_if (leb (2 ^ 64) (begin + count)) (ocb_corrupt_file overflow)
  fail_if (ltb (length table) (begin + count)) (ocb_corrupt_file out_of_bounds)
  ok (take count (drop begin table))

unfoldable pub checked_chunks_for_row_group :
    OcbRowGroupIndexV1 → OcbRowGroupDescV1 → Result (List OcbColumnChunkDescV1)
unfolding slice
checked_chunks_for_row_group index row_group =
    slice index.column_chunks row_group.chunk_desc_begin row_group.chunk_desc_count
      "OCB row-group chunk descriptor range overflows"
      "OCB row-group chunk descriptor range is out of bounds"

unfoldable pub checked_stats_for_row_group :
    OcbRowGroupIndexV1 → OcbRowGroupDescV1 → Result (List OcbColumnStatsV1)
unfolding slice
checked_stats_for_row_group index row_group =
    slice index.stats row_group.stat_begin row_group.stat_count
      "OCB row-group stat descriptor range overflows"
      "OCB row-group stat descriptor range is out of bounds"

-- What the loop carries from one row group to the next.
pub record Progress : Type 0 where
  pub row_group_positions_by_id : Map ℕ
  pub expected_base_row : ℕ
  pub expected_chunk_begin : ℕ
  pub expected_stat_begin : ℕ

unfoldable pub validate_row_group_desc : OcbRowGroupDescV1 → ℕ → Progress → Result Progress
unfolding contains_key
validate_row_group_desc row_group row_group_position progress = do
  fail_if (contains_key progress.row_group_positions_by_id row_group.row_group_id)
      (ocb_corrupt_file "OCB row-group index has duplicate row group ids")
  fail_if (not (row_group.base_row == progress.expected_base_row))
      (ocb_corrupt_file "OCB row-group base rows are not contiguous")
  fail_if (not (row_group.chunk_desc_begin == progress.expected_chunk_begin))
      (ocb_corrupt_file "OCB row-group chunk descriptor ranges are not contiguous")
  fail_if (not (row_group.stat_begin == progress.expected_stat_begin))
      (ocb_corrupt_file "OCB row-group stat ranges are not contiguous")
  fail_if (leb (2 ^ 64) (progress.expected_base_row + row_group.row_count))
      (ocb_corrupt_file "OCB row-group base row range overflows")
  fail_if (leb (2 ^ 64) (progress.expected_chunk_begin + row_group.chunk_desc_count))
      (ocb_corrupt_file "OCB row-group chunk descriptor range overflows")
  fail_if (leb (2 ^ 64) (progress.expected_stat_begin + row_group.stat_count))
      (ocb_corrupt_file "OCB row-group stat descriptor range overflows")
  ok (record {
    row_group_positions_by_id =
        (row_group.row_group_id, row_group_position) ∷ progress.row_group_positions_by_id;
    expected_base_row = progress.expected_base_row + row_group.row_count;
    expected_chunk_begin = progress.expected_chunk_begin + row_group.chunk_desc_count;
    expected_stat_begin = progress.expected_stat_begin + row_group.stat_count;
  })
