-- ===== src/Read/Graph/RowGroups/Laws.antt =====
-- What the validation of the row groups guarantees: their ranges of rows, chunks and statistics tile the
-- tables, and each is found by its id.
use arcadia_tio_rs.Base.{
  ℕ, suc, ◌≡◌, sym, ◌∙◌, ap, arith, List, [], ◌∷◌, length, not, ◌==◌, take, drop, concat, map,
}
use arcadia_tio_rs.Error.{ArcadiaTioError, ok, fail_if, ok-injective}
use arcadia_tio_rs.Limits.{OcbResourceLimits}
use arcadia_tio_rs.Table.{Platform}
use arcadia_tio_rs.Records.ColumnDesc.{OcbColumnDescV1}
use arcadia_tio_rs.Records.RowGroupDesc.{OcbRowGroupDescV1}
use arcadia_tio_rs.RowGroupIndex.{OcbRowGroupIndexV1}
use arcadia_tio_rs.Read.Metadata.{Map}
use arcadia_tio_rs.Read.Auxiliary.{OcbOpenAuxiliaryObjectCache, lift}
use arcadia_tio_rs.Read.Auxiliary.Outcomes.{bound, followed, lifted, checked}
use arcadia_tio_rs.Read.Graph.{reserve_entries}
use arcadia_tio_rs.Read.Graph.Chunks.{OcbOpenValidationMode}
use arcadia_tio_rs.Read.Graph.Tiles.{Tiles, Tiles-concat}
use arcadia_tio_rs.Read.Graph.RowGroupDescs.{Progress, validate_row_group_desc}
use arcadia_tio_rs.Read.Graph.RowGroups.{
  validate_members, validate_row_groups, validate_row_group_graph, start,
}
use arcadia_tio_rs.Read.Graph.RowGroups.Run.{
  base_row, row_count, chunk_begin, chunk_count, stat_begin, stat_count, desc-IsNext, Indexed,
  IsRun, IsRun-nil, IsRun-cons,
}

-- The three kinds of ranges of a row group.
-- A test of equality that did not fail.
passed_eq : (a b : ℕ) (e : ArcadiaTioError) → fail_if (not (a == b)) e ≡ ok tt → a ≡ b
passed_eq a b e h = ground arith

-- The tables are covered, and every row group is found.
pub record IsCovered (index : OcbRowGroupIndexV1) (positions : Map ℕ) : Type 0 where
  pub rows : Tiles base_row row_count 0 index.row_groups
  pub chunks :
      concat (
        map (λ g. take (chunk_count g) (drop (chunk_begin g) index.column_chunks)) index.row_groups)
      ≡ index.column_chunks
  pub stats :
      concat (map (λ g. take (stat_count g) (drop (stat_begin g) index.stats)) index.row_groups)
      ≡ index.stats
  pub indexed : Indexed 0 index.row_groups positions

module _ (p : Platform) (file : List ℕ) (file_len : ℕ) (columns_by_id : Map OcbColumnDescV1)
    (validation : OcbOpenValidationMode) (resource_limits : OcbResourceLimits)
    (index : OcbRowGroupIndexV1) where
  row_groups-IsRun :
      (row_groups : List OcbRowGroupDescV1) (position : ℕ) (before after : Progress)
      (cache touched : OcbOpenAuxiliaryObjectCache)
      → validate_row_groups p file file_len columns_by_id validation resource_limits index
          row_groups position before cache
        ≡ (ok after, touched)
      → IsRun row_groups position before after
  unfolding validate_row_groups lift
  row_groups-IsRun [] position before after cache touched h =
      rw (← ok-injective (ap (λ outcome. outcome.0) h)) (IsRun-nil position before)
  row_groups-IsRun (g ∷ row_groups) position before after cache touched h =
      let (between, described, h1) = lifted (validate_row_group_desc g position before) _ cache h in
      let (later, _, h2) =
        followed (validate_members p file file_len columns_by_id validation resource_limits index g)
          _ cache h1 in
      IsRun-cons g row_groups position before between after
        (desc-IsNext g position before between described)
        (row_groups-IsRun row_groups (suc position) between after later touched h2)

  -- If `validate_row_group_graph` accepts a row-group index, the row groups follow one another
  -- without gap or overlap from row 0, their column chunks taken in order are the chunk table,
  -- their statistics taken in order are the statistics table, and the map that it returns has each
  -- row group's id with its position.
  pub row_group_graph-IsCovered :
      (cache touched : OcbOpenAuxiliaryObjectCache) (positions : Map ℕ)
      → validate_row_group_graph p file file_len columns_by_id validation resource_limits index
          cache
        ≡ (ok positions, touched)
      → IsCovered index positions
  unfolding validate_row_group_graph lift
  row_group_graph-IsCovered cache touched positions h =
      let (_, h1) = checked (reserve_entries p (length columns_by_id)) _ cache h in
      let (_, h2) = checked (reserve_entries p (length index.row_groups)) _ cache h1 in
      let (progress, between, ran, h3) =
        bound
          (validate_row_groups p file file_len columns_by_id validation resource_limits index
            index.row_groups 0 start)
          _ cache h2 in
      let (chunks, h4) =
        checked (fail_if (not (progress.expected_chunk_begin == length index.column_chunks)) _) _
          between h3 in
      let (stats, h5) =
        checked (fail_if (not (progress.expected_stat_begin == length index.stats)) _) _ between
          h4 in
      let same : progress.row_group_positions_by_id ≡ positions =
        ok-injective (ap (λ outcome. outcome.0) h5) in
      let run = row_groups-IsRun index.row_groups 0 start progress cache between ran in
      record {
        rows = run.rows;
        chunks =
            Tiles-concat chunk_begin chunk_count index.column_chunks 0 index.row_groups run.chunks
              (sym run.chunk_end ∙ passed_eq _ _ _ chunks);
        stats =
            Tiles-concat stat_begin stat_count index.stats 0 index.row_groups run.stats
              (sym run.stat_end ∙ passed_eq _ _ _ stats);
        indexed = rw (← same) run.indexed;
      }
