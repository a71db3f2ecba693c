-- ===== src/Read/Open/Laws.antt =====
-- What opening a file guarantees of the metadata that it returns.
use arcadia_tio_rs.Base.{
  ℕ, ◌*◌, ◌^◌, ◌≡◌, refl, ap, List, length, not, ◌==◌, leb, ltb, Option, some, none, if-cases, inl,
  inr,
}
use arcadia_tio_rs.Error.{Result, ok, err, fail_if-eq-ok, then-eq-ok, >>=-eq-ok, ok-injective}
use arcadia_tio_rs.Bytes.{cursor, bytes_eq}
use arcadia_tio_rs.Format.{
  bootstrap_page_v1_len, bootstrap_magic_v1, bootstrap_magic_v2, root_v1_len,
}
use arcadia_tio_rs.Kinds.{OcbBodyKindV1}
use arcadia_tio_rs.BodyRef.{validate}
use arcadia_tio_rs.Limits.{OcbResourceLimits, MetadataMaterializationBudget, from_limits}
use arcadia_tio_rs.Table.{Platform}
use arcadia_tio_rs.RootV1.Decode as RootV1
use arcadia_tio_rs.RootV2.{OcbRootV2}
use arcadia_tio_rs.BootstrapV1.Decode as BootstrapV1
use arcadia_tio_rs.BootstrapV2.Decode as BootstrapV2
use arcadia_tio_rs.BootstrapV2.Decode.{decoded_root_slots}
use arcadia_tio_rs.Read.Source.{
  read_at, read_object_bytes_with_resource_limits, validate_optional_object,
}
use arcadia_tio_rs.Read.Metadata.{OcbMetadataV1, Map}
use arcadia_tio_rs.Read.Metadata.Objects.{
  read_metadata_objects_with_resource_limits, read_metadata_objects_v2_with_resource_limits,
}
use arcadia_tio_rs.Read.Auxiliary.{OcbOpenAuxiliaryObjectCache, lift, new_cache, preflight}
use arcadia_tio_rs.Read.Auxiliary.Outcomes.{bound, followed, lifted, checked}
use arcadia_tio_rs.Read.Graph.Roots.{validate_root_counts, validate_v2_root_semantics}
use arcadia_tio_rs.Read.Graph.Columns.{validate_schema_graph}
use arcadia_tio_rs.Read.Graph.Dictionaries.{validate_dictionary_graph}
use arcadia_tio_rs.Read.Graph.Chunks.{OcbOpenValidationMode}
use arcadia_tio_rs.Read.Graph.RowGroups.{validate_row_group_graph}
use arcadia_tio_rs.Read.Graph.RowGroups.Laws.{IsCovered, row_group_graph-IsCovered}
use arcadia_tio_rs.Read.Graph.Ordering.{validate_ordering_graph}
use arcadia_tio_rs.Read.Select.{OcbRootCandidateV2, choose_v2_metadata}
use arcadia_tio_rs.Read.Select.Laws.{Selects, choose_v2_metadata-Selects}
use arcadia_tio_rs.Read.Open.{
  collect_candidates, select_v2_metadata, read_metadata_v1, read_metadata_v2, validated,
  read_metadata_from_source_with_validation_and_resource_limits,
}
use arcadia_tio_rs.Read.Open.Validate.{
  validate_metadata_graph, validate_v2_metadata_graph, validate_root_key_tuples,
  validate_diagnostics, with_auxiliary_bytes, validate_v2_root_referenced_objects_with_scope,
}

-- Metadata whose row groups cover their tables, and are found.
abbrev pub IsSound : OcbMetadataV1 → Type 0
IsSound metadata = IsCovered metadata.row_group_index metadata.row_group_positions_by_id

module _ (p : Platform) (file : List ℕ) (validation : OcbOpenValidationMode)
    (resource_limits : OcbResourceLimits) where
  graph-IsCovered :
      (metadata : OcbMetadataV1) (root_column_chunk_count : ℕ) (v2_root : Option OcbRootV2)
      (budget charged : MetadataMaterializationBudget) (cache touched : OcbOpenAuxiliaryObjectCache)
      (positions : Map ℕ)
      → validate_metadata_graph p file validation resource_limits metadata root_column_chunk_count
          v2_root budget cache
        ≡ (ok (positions, charged), touched)
      → IsCovered metadata.row_group_index positions
  unfolding validate_metadata_graph lift
  graph-IsCovered metadata root_column_chunk_count v2_root budget charged cache touched positions
        h =
      let (_, h1) = checked (validate_root_counts metadata root_column_chunk_count) _ cache h in
      let (columns, _, h2) = lifted (validate_schema_graph p metadata) _ cache h1 in
      let (cache3, _, h3) = followed (preflight p metadata v2_root) _ cache h2 in
      let (paid, cache4, _, h4) =
        bound (validate_dictionary_graph p file metadata.file_len metadata columns budget) _ cache3
          h3 in
      let (found, cache5, ran, h5) =
        bound
          (validate_row_group_graph p file metadata.file_len columns validation resource_limits
            metadata.row_group_index)
          _ cache4 h4 in
      let (cache6, _, h6) =
        followed (validate_ordering_graph p file metadata.file_len columns found metadata) _ cache5
          h5 in
      let (cache7, _, h7) =
        followed (validate_root_key_tuples p file metadata.file_len v2_root) _ cache6 h6 in
      let same : found ≡ positions = ap (λ r. r.0) (ok-injective (ap (λ outcome. outcome.0) h7)) in
      rw (← same) (
        row_group_graph-IsCovered p file metadata.file_len columns validation resource_limits
          metadata.row_group_index cache4 cache5 found ran)

  scope-IsSound :
      (file_len : ℕ) (root : OcbRootV2) (metadata : OcbMetadataV1)
      (cache touched : OcbOpenAuxiliaryObjectCache)
      → validate_v2_root_referenced_objects_with_scope p file validation resource_limits file_len
          root cache
        ≡ (ok metadata, touched)
      → IsSound metadata
  unfolding validate_v2_root_referenced_objects_with_scope validate_v2_metadata_graph
      with_auxiliary_bytes
  scope-IsSound file_len root metadata cache touched h =
      let ((read, budget), _, h1) =
        lifted
          (read_metadata_objects_v2_with_resource_limits p file file_len root resource_limits
            (from_limits resource_limits))
          _ cache h in
      let ((positions, charged), cache2, ran, h2) =
        bound (validate_v2_metadata_graph p file validation resource_limits read root budget) _
          cache h1 in
      let (_, h3) =
        checked
          (validate_optional_object p file file_len root.debug_json_ref
            OcbBodyKindV1.debug_json_metadata resource_limits)
          _ cache2 h2 in
      let (_, h4) =
        checked
          (validate_diagnostics p file validation resource_limits file_len
            root.commit_diagnostics_ref)
          _ cache2 h3 in
      let (_, graph) = checked (validate_v2_root_semantics root read) _ cache ran in
      let covered : IsCovered read.row_group_index positions =
        graph-IsCovered read root.column_chunk_count (some root) budget charged cache cache2
          positions graph in
      rw (← ok-injective (ap (λ outcome. outcome.0) h4)) covered

  select-IsSound :
      (file_len : ℕ) (candidates : List OcbRootCandidateV2) (cache : OcbOpenAuxiliaryObjectCache)
      (metadata : OcbMetadataV1)
      → choose_v2_metadata
          (validate_v2_root_referenced_objects_with_scope p file validation resource_limits
            file_len)
          candidates
          cache
        ≡ ok metadata
      → IsSound metadata
  unfolding Selects
  select-IsSound file_len candidates cache metadata h =
      let validate_root =
        validate_v2_root_referenced_objects_with_scope p file validation resource_limits file_len in
      let chosen : Selects validate_root candidates (ok metadata) =
        rw h at (choose_v2_metadata-Selects validate_root candidates cache) in
      let outcome = validate_root chosen.chosen.root chosen.cache in
      scope-IsSound file_len chosen.chosen.root metadata chosen.cache (outcome.1)
        (ap (λ r. (r, outcome.1)) chosen.validated)

  v2-IsSound :
      (file_len : ℕ) (metadata : OcbMetadataV1)
      → read_metadata_v2 p file file_len validation resource_limits ≡ ok metadata
      → IsSound metadata
  unfolding read_metadata_v2 select_v2_metadata
  v2-IsSound file_len metadata h =
      let (bootstrap, _, h1) = >>=-eq-ok (cursor BootstrapV2.read_from file) _ h in
      let (candidates, _, h2) =
        >>=-eq-ok
          (collect_candidates p file file_len validation resource_limits 0
            (decoded_root_slots bootstrap))
          _ h1 in
      select-IsSound file_len candidates (new_cache resource_limits) metadata h2

  validated-IsSound :
      (read metadata : OcbMetadataV1)
      (outcome : Result (Map ℕ × MetadataMaterializationBudget) × OcbOpenAuxiliaryObjectCache)
      → ((positions : Map ℕ) (charged : MetadataMaterializationBudget)
            (touched : OcbOpenAuxiliaryObjectCache)
          → outcome ≡ (ok (positions, charged), touched)
          → IsCovered read.row_group_index positions)
      → validated read outcome ≡ ok metadata
      → IsSound metadata
  validated-IsSound read metadata (err e, cache) covered h = absurd (cc h)
  validated-IsSound read metadata (ok (positions, charged), cache) covered h =
      rw (← ok-injective h) (covered positions charged cache refl)

  v1-IsSound :
      (file_len : ℕ) (metadata : OcbMetadataV1)
      → read_metadata_v1 p file file_len validation resource_limits ≡ ok metadata
      → IsSound metadata
  unfolding read_metadata_v1
  v1-IsSound file_len metadata h =
      let (bootstrap, _, h1) = >>=-eq-ok (cursor BootstrapV1.read_from file) _ h in
      let (_, h2) = then-eq-ok (validate bootstrap.root_ref OcbBodyKindV1.root file_len) _ h1 in
      let (_, h3) = fail_if-eq-ok (not (bootstrap.root_ref.size == root_v1_len)) _ _ h2 in
      let (root_bytes, _, h4) =
        >>=-eq-ok
          (read_object_bytes_with_resource_limits p file file_len bootstrap.root_ref
            OcbBodyKindV1.root resource_limits)
          _ h3 in
      let (root, _, h5) = >>=-eq-ok (cursor RootV1.read_from root_bytes) _ h4 in
      let ((read, budget), _, h6) =
        >>=-eq-ok
          (read_metadata_objects_with_resource_limits p file file_len root resource_limits
            (from_limits resource_limits))
          _ h5 in
      let count = read.root.column_count * read.root.row_group_count in
      let (_, h7) = fail_if-eq-ok (leb (2 ^ 32) count) _ _ h6 in
      validated-IsSound read metadata
        (validate_metadata_graph p file validation resource_limits read count none budget
          (new_cache resource_limits))
        (λ positions charged touched ran.
          graph-IsCovered read count none budget charged (new_cache resource_limits) touched
            positions ran)
        h7

  -- Metadata that opening a file returned, in either version and with either extent of validation,
  -- are consistent: the row groups follow one another without gap or overlap from row 0, their
  -- column chunks taken in order are the chunk table, their statistics taken in order are the
  -- statistics table, and the map of positions has each row group's id with its position.
  pub read_metadata-IsSound :
      (metadata : OcbMetadataV1)
      → read_metadata_from_source_with_validation_and_resource_limits p file validation
          resource_limits
        ≡ ok metadata
      → IsSound metadata
  unfolding read_metadata_from_source_with_validation_and_resource_limits
  read_metadata-IsSound metadata h =
      let (_, h1) = fail_if-eq-ok (ltb (length file) bootstrap_page_v1_len) _ _ h in
      let (magic, _, h2) = >>=-eq-ok (read_at file 0 8) _ h1 in
      elim (if-cases (bytes_eq magic bootstrap_magic_v1) _ _ h2) [
        | inl (_, first) ↦ v1-IsSound (length file) metadata first
        | inr (_, h3) ↦ elim (if-cases (bytes_eq magic bootstrap_magic_v2) _ _ h3) [
          | inl (_, second) ↦ v2-IsSound (length file) metadata second
          | inr (_, neither) ↦ absurd (cc neither)
        ]
      ]
