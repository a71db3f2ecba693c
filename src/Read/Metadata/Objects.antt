-- ===== src/Read/Metadata/Objects.antt =====
-- `read_metadata_objects_with_resource_limits` and its form for a root of version 2.
use arcadia_tio_rs.Base.{ℕ, List, [], true, false, Option, some, none, if◌then◌else◌}
use arcadia_tio_rs.Error.{Result, ok, ◌>>=◌}
use arcadia_tio_rs.Kinds.{OcbBodyKindV1}
use arcadia_tio_rs.Kinds.BodyKind
use arcadia_tio_rs.BodyRef.{OcbBodyRefV2, is_null}
use arcadia_tio_rs.Limits.{OcbResourceLimits, MetadataMaterializationBudget, policy_a, from_limits}
use arcadia_tio_rs.Table.{Platform}
use arcadia_tio_rs.RootV1.{OcbRootV1}
use arcadia_tio_rs.RootV2.{OcbRootV2, to_v1_root}
use arcadia_tio_rs.Schema.Decode as Schema
use arcadia_tio_rs.StringTable.Decode as StringTable
use arcadia_tio_rs.DictionaryIndex.Decode as DictionaryIndex
use arcadia_tio_rs.RowGroupIndex.Decode as RowGroupIndex
use arcadia_tio_rs.RowGroupIndexDelta.Decode as RowGroupIndexDelta
use arcadia_tio_rs.OrderingProof.Decode as OrderingProof
use arcadia_tio_rs.Read.Source.{read_object_bytes_with_resource_limits}
use arcadia_tio_rs.Read.Metadata.{OcbMetadataV1}
use arcadia_tio_rs.Read.Delta.{apply_row_group_index_delta}

module _ (p : Platform) (file : List ℕ) (file_len : ℕ) where
  -- A table behind a reference that may be null.
  unfoldable pub read_optional_table {ℓ} :
      {A : Type ℓ}
      → OcbBodyRefV2
      → OcbBodyKindV1
      → (Platform
          → List ℕ
          → MetadataMaterializationBudget
          → Result (A × MetadataMaterializationBudget))
      → OcbResourceLimits
      → MetadataMaterializationBudget
      → Result (Option A × MetadataMaterializationBudget)
  unfolding is_null read_object_bytes_with_resource_limits
  read_optional_table reference kind read_table resource_limits budget =
      if is_null reference then ok (none, budget) else (do
        bytes ←
            read_object_bytes_with_resource_limits p file file_len reference kind resource_limits
        (table, charged) ← read_table p bytes budget
        ok (some table, charged))

  unfoldable pub read_metadata_objects_with_resource_limits :
      OcbRootV1
      → OcbResourceLimits
      → MetadataMaterializationBudget
      → Result (OcbMetadataV1 × MetadataMaterializationBudget)
  unfolding read_optional_table read_object_bytes_with_resource_limits
      Schema.read_from_bytes_with_budget StringTable.read_from_bytes_with_budget
      DictionaryIndex.read_from_bytes_with_budget RowGroupIndex.read_from_bytes_with_budget
      OrderingProof.read_from_bytes_with_budget
  read_metadata_objects_with_resource_limits root resource_limits budget0 = do
    schema_bytes ←
        read_object_bytes_with_resource_limits p file file_len root.schema_ref OcbBodyKindV1.schema
          resource_limits
    (schema, budget1) ← Schema.read_from_bytes_with_budget p schema_bytes budget0
    string_table_bytes ←
        read_object_bytes_with_resource_limits p file file_len schema.string_table_ref
          OcbBodyKindV1.string_table resource_limits
    (string_table, budget2) ← StringTable.read_from_bytes_with_budget p string_table_bytes budget1
    (dictionary_index, budget3) ←
        read_optional_table root.dictionary_index_ref OcbBodyKindV1.dictionary_index
          DictionaryIndex.read_from_bytes_with_budget resource_limits budget2
    row_group_index_bytes ←
        read_object_bytes_with_resource_limits p file file_len root.row_group_index_ref
          OcbBodyKindV1.row_group_index resource_limits
    (row_group_index, budget4) ←
        RowGroupIndex.read_from_bytes_with_budget p row_group_index_bytes budget3
    (ordering_proof, budget5) ←
        read_optional_table root.ordering_proof_ref OcbBodyKindV1.ordering_proof
          OrderingProof.read_from_bytes_with_budget resource_limits budget4
    ok (
      record {
        root = root;
        string_table = string_table;
        schema = schema;
        dictionary_index = dictionary_index;
        row_group_index = row_group_index;
        row_group_positions_by_id = [];
        ordering_proof = ordering_proof;
        file_len = file_len;
        appendable = false;
        root_generation = 0;
        previous_root_generation = none;
        resource_limits = resource_limits;
        open_metadata_materialized_bytes = budget5.charged_bytes;
        open_auxiliary_encoded_bytes = 0;
      },
      budget5,
    )

  -- The `if` that applies the row-group index delta of the last commit.
  unfoldable pub apply_commit_delta :
      OcbRootV2
      → OcbResourceLimits
      → OcbMetadataV1
      → MetadataMaterializationBudget
      → Result (OcbMetadataV1 × MetadataMaterializationBudget)
  unfolding BodyKind.eq read_object_bytes_with_resource_limits
      RowGroupIndexDelta.read_from_bytes_with_budget apply_row_group_index_delta
  apply_commit_delta root resource_limits metadata budget0 =
      if BodyKind.eq root.commit_diagnostics_ref.kind OcbBodyKindV1.row_group_index_delta
      then (do
        delta_bytes ←
            read_object_bytes_with_resource_limits p file file_len root.commit_diagnostics_ref
              OcbBodyKindV1.row_group_index_delta resource_limits
        (delta, budget1) ← RowGroupIndexDelta.read_from_bytes_with_budget p delta_bytes budget0
        apply_row_group_index_delta p metadata delta budget1)
      else ok (metadata, budget0)

  unfoldable pub read_metadata_objects_v2_with_resource_limits :
      OcbRootV2
      → OcbResourceLimits
      → MetadataMaterializationBudget
      → Result (OcbMetadataV1 × MetadataMaterializationBudget)
  unfolding read_metadata_objects_with_resource_limits apply_commit_delta to_v1_root is_null
  read_metadata_objects_v2_with_resource_limits root resource_limits budget0 = do
    (metadata, budget1) ←
        read_metadata_objects_with_resource_limits (to_v1_root root) resource_limits budget0
    let appendable = record metadata {
      appendable = true;
      root_generation = root.generation;
      previous_root_generation =
          if is_null root.previous_root_ref then none else some root.previous_generation;
    }
    (extended, budget2) ← apply_commit_delta root resource_limits appendable budget1
    ok (record extended { open_metadata_materialized_bytes = budget2.charged_bytes }, budget2)

  unfoldable pub read_metadata_objects_v2 : OcbRootV2 → Result OcbMetadataV1
  unfolding read_metadata_objects_v2_with_resource_limits from_limits
  read_metadata_objects_v2 root = do
    (metadata, _) ←
        read_metadata_objects_v2_with_resource_limits root policy_a (from_limits policy_a)
    ok metadata
