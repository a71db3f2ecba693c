-- ===== src/Read/Open.antt =====
-- Opening a file: `read_metadata`, `read_metadata_v1`, `read_metadata_v2` and `select_v2_metadata` of
-- crates/arcadia-tio-ocb-core/src/read.rs.
pub mod Validate
pub mod Laws
pub mod Lookup
pub mod Recovery
use arcadia_tio_rs.Base.{
  ℕ, suc, ◌*◌, ◌^◌, List, [], ◌∷◌, length, Bool, true, false, not, ◌==◌, leb, ltb, Option, some,
  none, if◌then◌else◌,
}
use arcadia_tio_rs.Error.{
  Result, ok, err, ocb_corrupt_file, ocb_unsupported_format, fail_if, ◌>>◌, ◌>>=◌,
}
use arcadia_tio_rs.Bytes.{cursor, read_exact_ocb, bytes_eq}
use arcadia_tio_rs.Format.{
  bootstrap_page_v1_len, bootstrap_magic_v1, bootstrap_magic_v2, root_v1_len,
}
use arcadia_tio_rs.Kinds.{OcbBodyKindV1}
use arcadia_tio_rs.BodyRef.{OcbBodyRefV2, validate}
use arcadia_tio_rs.Limits.{OcbResourceLimits, MetadataMaterializationBudget, from_limits, policy_a}
use arcadia_tio_rs.Table.{Platform}
use arcadia_tio_rs.RootSlot.{OcbRootSlotV2, is_empty, validate_candidate}
use arcadia_tio_rs.RootSlot.Root.{validate_root}
use arcadia_tio_rs.RootV1.{OcbRootV1}
use arcadia_tio_rs.RootV1.Decode as RootV1
use arcadia_tio_rs.RootV2.{OcbRootV2, validate_references}
use arcadia_tio_rs.RootV2.Decode as RootV2
use arcadia_tio_rs.BootstrapV1.Decode as BootstrapV1
use arcadia_tio_rs.BootstrapV2.{OcbBootstrapPageV2}
use arcadia_tio_rs.BootstrapV2.Decode as BootstrapV2
use arcadia_tio_rs.BootstrapV2.Decode.{decoded_root_slots}
use arcadia_tio_rs.Read.Source.{read_at, read_object_bytes_with_resource_limits}
use arcadia_tio_rs.Read.Metadata.{OcbMetadataV1, Map}
use arcadia_tio_rs.Read.Metadata.Objects.{read_metadata_objects_with_resource_limits}
use arcadia_tio_rs.Read.Auxiliary.{OcbOpenAuxiliaryObjectCache, new_cache}
use arcadia_tio_rs.Read.Graph.Chunks.{OcbOpenValidationMode}
use arcadia_tio_rs.Read.Select.{
  OcbRootCandidateV2, is_discardable_candidate_error, choose_v2_metadata,
}
use arcadia_tio_rs.Read.Open.Validate.{
  validate_metadata_graph, validate_v2_root_referenced_objects_with_scope,
}

-- `continue` for an error that says that the file is corrupt.
unfoldable pub or_skip : Result (Option OcbRootCandidateV2) → Result (Option OcbRootCandidateV2)
unfolding is_discardable_candidate_error
or_skip (ok candidate) = ok candidate
or_skip (err e) = if is_discardable_candidate_error e then ok none else err e

-- The metadata with the outcome of its validation.
abbrev pub validated :
    OcbMetadataV1
    → (Result (Map ℕ × MetadataMaterializationBudget) × OcbOpenAuxiliaryObjectCache)
    → Result OcbMetadataV1
validated metadata (err e, cache) = err e
validated metadata (ok (row_group_positions_by_id, budget), cache) = ok (record metadata {
  row_group_positions_by_id = row_group_positions_by_id;
  open_metadata_materialized_bytes = budget.charged_bytes;
  open_auxiliary_encoded_bytes = cache.total_unique_bytes;
})

module _ (p : Platform) (file : List ℕ) (file_len : ℕ) (validation : OcbOpenValidationMode)
    (resource_limits : OcbResourceLimits) where
  -- The loop body for a slot that could be decoded and is not empty; every error in it is filtered in
  -- the same way.
  unfoldable pub read_candidate : ℕ → OcbRootSlotV2 → Result OcbRootCandidateV2
  unfolding validate_candidate read_object_bytes_with_resource_limits cursor RootV2.read_from
      validate_references validate_root
  read_candidate idx slot = do
    validate_candidate slot idx file_len
    root_bytes ←
        read_object_bytes_with_resource_limits p file file_len slot.root_ref OcbBodyKindV1.root
          resource_limits
    root ← cursor RootV2.read_from root_bytes
    validate_references root file_len
    validate_root slot root
    ok (record { slot = slot; root = root })

  unfoldable pub examine_slot : ℕ → Result OcbRootSlotV2 → Result (Option OcbRootCandidateV2)
  unfolding is_empty read_candidate
  examine_slot idx slot_result = do
    slot ← slot_result
    (if is_empty slot
        then ok none
        else (do candidate ← read_candidate idx slot; ok (some candidate)))

  -- The loop over the slots.
  unfoldable pub collect_candidates :
      ℕ → List (Result OcbRootSlotV2) → Result (List OcbRootCandidateV2)
  unfolding or_skip examine_slot
  collect_candidates idx [] = ok []
  collect_candidates idx (slot_result ∷ slot_results) = do
    found ← or_skip (examine_slot idx slot_result)
    candidates ← collect_candidates (suc idx) slot_results
    elim found [ none ↦ ok candidates | some candidate ↦ ok (candidate ∷ candidates) ]

  unfoldable pub select_v2_metadata : OcbBootstrapPageV2 → Result OcbMetadataV1
  unfolding decoded_root_slots collect_candidates choose_v2_metadata new_cache
      validate_v2_root_referenced_objects_with_scope
  select_v2_metadata bootstrap = do
    candidates ← collect_candidates 0 (decoded_root_slots bootstrap)
    choose_v2_metadata
        (validate_v2_root_referenced_objects_with_scope p file validation resource_limits file_len)
        candidates (new_cache resource_limits)

  unfoldable pub read_metadata_v2 : Result OcbMetadataV1
  unfolding cursor BootstrapV2.read_from select_v2_metadata
  read_metadata_v2 = do bootstrap ← cursor BootstrapV2.read_from file; select_v2_metadata bootstrap

  unfoldable pub read_metadata_v1 : Result OcbMetadataV1
  unfolding cursor BootstrapV1.read_from validate read_object_bytes_with_resource_limits
      RootV1.read_from read_metadata_objects_with_resource_limits from_limits
      validate_metadata_graph new_cache
  read_metadata_v1 = do
    bootstrap ← cursor BootstrapV1.read_from file
    validate bootstrap.root_ref OcbBodyKindV1.root file_len
    fail_if (not (bootstrap.root_ref.size == root_v1_len))
        (ocb_corrupt_file "OCB root object length is invalid")
    root_bytes ←
        read_object_bytes_with_resource_limits p file file_len bootstrap.root_ref OcbBodyKindV1.root
          resource_limits
    root ← cursor RootV1.read_from root_bytes
    (metadata, budget) ←
        read_metadata_objects_with_resource_limits p file file_len root resource_limits
          (from_limits resource_limits)
    let root_column_chunk_count = metadata.root.column_count * metadata.root.row_group_count
    fail_if (leb (2 ^ 32) root_column_chunk_count)
        (ocb_corrupt_file "OCB v1 root column chunk count overflows")
    validated metadata (
        validate_metadata_graph p file validation resource_limits metadata root_column_chunk_count
          none budget (new_cache resource_limits))

-- The file is its bytes, so that its length is theirs.
unfoldable pub read_metadata_from_source_with_validation_and_resource_limits :
    Platform → List ℕ → OcbOpenValidationMode → OcbResourceLimits → Result OcbMetadataV1
unfolding read_at bytes_eq read_metadata_v1 read_metadata_v2
read_metadata_from_source_with_validation_and_resource_limits p file validation resource_limits = do
  fail_if (ltb (length file) bootstrap_page_v1_len)
      (ocb_corrupt_file "OCB file is shorter than bootstrap page")
  magic ← read_at file 0 8
  (if bytes_eq magic bootstrap_magic_v1
      then read_metadata_v1 p file (length file) validation resource_limits
      else if bytes_eq magic bootstrap_magic_v2
      then read_metadata_v2 p file (length file) validation resource_limits
      else err (ocb_unsupported_format "invalid OCB bootstrap magic"))

unfoldable pub read_metadata : Platform → List ℕ → Result OcbMetadataV1
unfolding read_metadata_from_source_with_validation_and_resource_limits
read_metadata p file =
    read_metadata_from_source_with_validation_and_resource_limits p file
      OcbOpenValidationMode.metadata_graph policy_a
