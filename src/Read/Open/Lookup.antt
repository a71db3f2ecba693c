-- ===== src/Read/Open/Lookup.antt =====
-- A row group is found by its id in the metadata of a file.
use arcadia_tio_rs.Base.{ℕ, zero, suc, ◌+◌, ◌≡◌, ◌∙◌, ap, arith, List, [], ◌∷◌, some, get_elem?}
use arcadia_tio_rs.Error.{ok}
use arcadia_tio_rs.Limits.{OcbResourceLimits}
use arcadia_tio_rs.Table.{Platform}
use arcadia_tio_rs.Records.RowGroupDesc.{OcbRowGroupDescV1}
use arcadia_tio_rs.Read.Metadata.{OcbMetadataV1, Map, get, row_group_by_id}
use arcadia_tio_rs.Read.Graph.Chunks.{OcbOpenValidationMode}
use arcadia_tio_rs.Read.Graph.RowGroups.Run.{Indexed}
use arcadia_tio_rs.Read.Open.{read_metadata_from_source_with_validation_and_resource_limits}
use arcadia_tio_rs.Read.Open.Laws.{IsSound, read_metadata-IsSound}

-- A row group that the map has with its place is found by its id.
Indexed-get :
    (position i : ℕ) (row_groups : List OcbRowGroupDescV1) (m : Map ℕ) {g : OcbRowGroupDescV1}
    → Indexed position row_groups m
    → get_elem? row_groups i ≡ some g
    → get m g.row_group_id ≡ some (position + i)
unfolding Indexed
Indexed-get position i [] m indexed h = absurd (cc h)
Indexed-get position zero (x ∷ row_groups) m {g = g} (found, rest) h =
    let same : x ≡ g = cc h in rw (← same) (found ∙ ap some (omega arith))
Indexed-get position (suc i) (x ∷ row_groups) m (found, rest) h =
    Indexed-get (suc position) i row_groups m rest h ∙ ap some (omega arith)

-- A row group of covered tables is found by its id.
pub covered-finds :
    (metadata : OcbMetadataV1) (i : ℕ) (g : OcbRowGroupDescV1)
    → IsSound metadata
    → get_elem? metadata.row_group_index.row_groups i ≡ some g
    → row_group_by_id metadata g.row_group_id ≡ some g
unfolding row_group_by_id
covered-finds metadata i g sound at_i =
    let found : get metadata.row_group_positions_by_id g.row_group_id ≡ some i =
      Indexed-get 0 i metadata.row_group_index.row_groups metadata.row_group_positions_by_id
        sound.indexed at_i
      ∙ ap some (omega arith) in
    rw (found, row_group_by_id) at_i

-- In metadata that opening a file returned, `row_group_by_id` finds every row group of the row-
-- group index by its id.
pub row_group_by_id-finds :
    (p : Platform) (file : List ℕ) (validation : OcbOpenValidationMode)
    (resource_limits : OcbResourceLimits) (metadata : OcbMetadataV1) (i : ℕ) (g : OcbRowGroupDescV1)
    → read_metadata_from_source_with_validation_and_resource_limits p file validation
        resource_limits
      ≡ ok metadata
    → get_elem? metadata.row_group_index.row_groups i ≡ some g
    → row_group_by_id metadata g.row_group_id ≡ some g
row_group_by_id-finds p file validation resource_limits metadata i g h at_i =
    covered-finds metadata i g (read_metadata-IsSound p file validation resource_limits metadata h)
      at_i
