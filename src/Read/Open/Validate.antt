-- ===== src/Read/Open/Validate.antt =====
-- `validate_metadata_graph` and `validate_v2_root_referenced_objects_with_scope`: everything that a root
-- refers to.
use arcadia_tio_rs.Base.{ℕ, List, [], ◌∷◌, Option, some, none}
use arcadia_tio_rs.Error.{Result, ok, err, ocb_corrupt_file}
use arcadia_tio_rs.Kinds.{OcbBodyKindV1}
use arcadia_tio_rs.BodyRef.{OcbBodyRefV2}
use arcadia_tio_rs.Limits.{OcbResourceLimits, MetadataMaterializationBudget, from_limits}
use arcadia_tio_rs.Table.{Platform}
use arcadia_tio_rs.RootV2.{OcbRootV2}
use arcadia_tio_rs.Read.Source.{validate_optional_object}
use arcadia_tio_rs.Read.Metadata.{OcbMetadataV1, Map}
use arcadia_tio_rs.Read.Metadata.Objects.{read_metadata_objects_v2_with_resource_limits}
use arcadia_tio_rs.Read.Auxiliary.{Scoped, ◌>>=◌, ◌>>◌, lift, preflight}
use arcadia_tio_rs.Read.Auxiliary.Bodies.{validate_key_tuple}
use arcadia_tio_rs.Read.Graph.Roots.{validate_v2_root_semantics, validate_root_counts}
use arcadia_tio_rs.Read.Graph.Columns.{validate_schema_graph}
use arcadia_tio_rs.Read.Graph.Dictionaries.{validate_dictionary_graph}
use arcadia_tio_rs.Read.Graph.Chunks.{OcbOpenValidationMode}
use arcadia_tio_rs.Read.Graph.RowGroups.{validate_row_group_graph}
use arcadia_tio_rs.Read.Graph.Ordering.{validate_ordering_graph}

module _ (p : Platform) (file : List ℕ) where
  unfoldable pub validate_key_tuples : ℕ → List OcbBodyRefV2 → Scoped (Unit {0})
  unfolding ◌>>◌ lift validate_key_tuple
  validate_key_tuples file_len [] = lift (ok tt)
  validate_key_tuples file_len (reference ∷ references) = do
    validate_key_tuple p file file_len reference
    validate_key_tuples file_len references

  -- The key tuples of a root of version 2.
  unfoldable pub validate_root_key_tuples : ℕ → Option OcbRootV2 → Scoped (Unit {0})
  unfolding lift validate_key_tuples
  validate_root_key_tuples file_len none = lift (ok tt)
  validate_root_key_tuples file_len (some root) = validate_key_tuples file_len (
      root.first_key_tuple_ref ∷ root.last_key_tuple_ref ∷ root.append_first_key_tuple_ref
      ∷ root.append_last_key_tuple_ref ∷ [])

  module _ (validation : OcbOpenValidationMode) (resource_limits : OcbResourceLimits) where
    -- The budget that the source changes in place is returned.
    unfoldable pub validate_metadata_graph :
        OcbMetadataV1
        → ℕ
        → Option OcbRootV2
        → MetadataMaterializationBudget
        → Scoped (Map ℕ × MetadataMaterializationBudget)
    unfolding ◌>>=◌ ◌>>◌ lift validate_root_counts validate_schema_graph preflight
        validate_dictionary_graph validate_row_group_graph validate_ordering_graph
        validate_root_key_tuples
    validate_metadata_graph metadata root_column_chunk_count v2_root budget = do
      lift (validate_root_counts metadata root_column_chunk_count)
      columns_by_id ← lift (validate_schema_graph p metadata)
      preflight p metadata v2_root
      charged ← validate_dictionary_graph p file metadata.file_len metadata columns_by_id budget
      row_group_positions_by_id ←
          validate_row_group_graph p file metadata.file_len columns_by_id validation resource_limits
            metadata.row_group_index
      validate_ordering_graph p file metadata.file_len columns_by_id row_group_positions_by_id
          metadata
      validate_root_key_tuples metadata.file_len v2_root
      lift (ok (row_group_positions_by_id, charged))

    unfoldable pub validate_v2_metadata_graph :
        OcbMetadataV1
        → OcbRootV2
        → MetadataMaterializationBudget
        → Scoped (Map ℕ × MetadataMaterializationBudget)
    unfolding ◌>>◌ lift validate_v2_root_semantics validate_metadata_graph
    validate_v2_metadata_graph metadata root budget = do
      lift (validate_v2_root_semantics root metadata)
      validate_metadata_graph metadata root.column_chunk_count (some root) budget

    -- The `match` on the kind of the commit diagnostics.
    unfoldable pub validate_diagnostics : ℕ → OcbBodyRefV2 → Result (Unit {0})
    unfolding validate_optional_object
    validate_diagnostics file_len reference = elim reference.kind [
      | OcbBodyKindV1.unknown ↦ ok tt
      | OcbBodyKindV1.debug_json_metadata ↦
          validate_optional_object p file file_len reference OcbBodyKindV1.debug_json_metadata
            resource_limits
      | OcbBodyKindV1.row_group_index_delta ↦
          validate_optional_object p file file_len reference OcbBodyKindV1.row_group_index_delta
            resource_limits
      | _ ↦ err (ocb_corrupt_file "OCB root commit_diagnostics_ref has invalid kind")
    ]

    -- The metadata as the cache leaves it.
    unfoldable pub with_auxiliary_bytes : OcbMetadataV1 → Scoped OcbMetadataV1
    with_auxiliary_bytes metadata cache =
        (ok (record metadata { open_auxiliary_encoded_bytes = cache.total_unique_bytes }), cache)

    unfoldable pub validate_v2_root_referenced_objects_with_scope :
        ℕ → OcbRootV2 → Scoped OcbMetadataV1
    unfolding ◌>>=◌ ◌>>◌ lift read_metadata_objects_v2_with_resource_limits from_limits
        validate_v2_metadata_graph validate_optional_object validate_diagnostics
        with_auxiliary_bytes
    validate_v2_root_referenced_objects_with_scope file_len root = do
      (metadata, budget1) ← lift (
          read_metadata_objects_v2_with_resource_limits p file file_len root resource_limits
            (from_limits resource_limits))
      (row_group_positions_by_id, budget2) ← validate_v2_metadata_graph metadata root budget1
      lift (
          validate_optional_object p file file_len root.debug_json_ref
            OcbBodyKindV1.debug_json_metadata resource_limits)
      lift (validate_diagnostics file_len root.commit_diagnostics_ref)
      with_auxiliary_bytes (record metadata {
        row_group_positions_by_id = row_group_positions_by_id;
        open_metadata_materialized_bytes = budget2.charged_bytes;
      })
