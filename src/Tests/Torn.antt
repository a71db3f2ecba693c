-- ===== src/Tests/Torn.antt =====
-- A file of version 2 with one snapshot, in the second slot, while the first slot is overwritten.
use arcadia_tio_rs.Base.{ℕ, arith, List, [], ◌∷◌, ◌++◌, none, ◌≡◌, refl, true}
use arcadia_tio_rs.Error.{ok, err, ocb_corrupt_file}
use arcadia_tio_rs.Bytes.{cursor, zeros}
use arcadia_tio_rs.Kinds.{OcbBodyKindV1}
use arcadia_tio_rs.BodyRef
use arcadia_tio_rs.BodyRef.{OcbBodyRefV2}
use arcadia_tio_rs.Limits.{policy_a}
use arcadia_tio_rs.RootSlot
use arcadia_tio_rs.RootSlot.{OcbRootSlotV2}
use arcadia_tio_rs.RootV2
use arcadia_tio_rs.RootV2.{OcbRootV2}
use arcadia_tio_rs.RootSlot.Decode as RootSlotDecode
use arcadia_tio_rs.Schema
use arcadia_tio_rs.Schema.{OcbSchemaV1}
use arcadia_tio_rs.RowGroupIndex
use arcadia_tio_rs.RowGroupIndex.{OcbRowGroupIndexV1}
use arcadia_tio_rs.BootstrapV2
use arcadia_tio_rs.BootstrapV2.Page.{front}
use arcadia_tio_rs.BootstrapV2.Laws.{page_of}
use arcadia_tio_rs.BootstrapV2.Recovery.{stored}
use arcadia_tio_rs.Read.Metadata.{OcbMetadataV1}
use arcadia_tio_rs.Read.Select.{OcbRootCandidateV2, is_discardable_candidate_error}
use arcadia_tio_rs.Read.Auxiliary.{new_cache}
use arcadia_tio_rs.Read.Graph.Chunks.{OcbOpenValidationMode}
use arcadia_tio_rs.Read.Open.{read_metadata_v2, read_candidate}
use arcadia_tio_rs.Read.Open.Validate.{validate_v2_root_referenced_objects_with_scope}
use arcadia_tio_rs.Read.Open.Recovery.{torn_file, torn_commit_slot0}
use arcadia_tio_rs.Tests.Samples.{platform}
use arcadia_tio_rs.Tests.Roots.{
  null-IsTyped, sixteen, page, page_bytes, page-IsTyped, page_written, torn,
}
use arcadia_tio_rs.Tests.Files.{small_strings, written, unchecked, string_bytes, row_group}

abbrev schema : OcbSchemaV1
schema = record {
  version = 1;
  string_table_ref = unchecked 4608 24 OcbBodyKindV1.string_table;
  columns = [];
  crc32c = 0;
}

unfoldable schema_bytes : List ℕ
unfolding Schema.write_to
schema_bytes = written (Schema.write_to schema)

abbrev index : OcbRowGroupIndexV1
index = record {
  version = 1;
  flags = 0;
  row_groups = row_group 0 0 3 ∷ row_group 1 3 2 ∷ [];
  column_chunks = [];
  stats = [];
  crc32c = 0;
}

unfoldable index_bytes : List ℕ
unfolding RowGroupIndex.write_to
index_bytes = written (RowGroupIndex.write_to index)

abbrev root : OcbRootV2
root = record {
  version = 2;
  flags = 0;
  generation = 1;
  previous_generation = 0;
  previous_root_ref = BodyRef.null;
  append_base_row = 0;
  append_row_count = 5;
  append_base_row_group = 0;
  append_row_group_count = 2;
  row_count = 5;
  column_count = 0;
  row_group_count = 2;
  dictionary_count = 0;
  column_chunk_count = 0;
  schema_ref = unchecked 4552 56 OcbBodyKindV1.schema;
  dictionary_index_ref = BodyRef.null;
  row_group_index_ref = unchecked 4632 276 OcbBodyKindV1.row_group_index;
  ordering_proof_ref = BodyRef.null;
  debug_json_ref = BodyRef.null;
  first_key_tuple_ref = BodyRef.null;
  last_key_tuple_ref = BodyRef.null;
  append_first_key_tuple_ref = BodyRef.null;
  append_last_key_tuple_ref = BodyRef.null;
  commit_diagnostics_ref = BodyRef.null;
  created_unix_nanos = 0;
  content_flags = 0;
  crc32c = 0;
}

unfoldable root_bytes : List ℕ
unfolding RootV2.write_to
root_bytes = written (RootV2.write_to root)

abbrev slot : OcbRootSlotV2
slot = record {
  version = 2;
  slot_id = 1;
  flags = 0;
  generation = 1;
  root_ref = unchecked 4096 456 OcbBodyKindV1.root;
  previous_generation = 0;
  previous_root_ref = BodyRef.null;
  commit_diagnostics_ref = BodyRef.null;
  committed_unix_nanos = 9;
  writer_version = sixteen;
  crc32c = 0;
}

unfoldable slot_bytes : List ℕ
unfolding RootSlot.write_to
slot_bytes = written (RootSlot.write_to slot)

abbrev snapshot : List ℕ
snapshot = root_bytes ++ (schema_bytes ++ (string_bytes ++ index_bytes))

abbrev file : List ℕ
file = torn_file page_bytes torn slot_bytes snapshot

abbrev candidate : OcbRootCandidateV2
candidate = record { slot = stored slot; root = record root { crc32c = 2832018489 } }

-- What is kept of the file once it is open.
abbrev metadata : OcbMetadataV1
metadata = record {
  root = record {
    version = 1;
    flags = 0;
    row_count = 5;
    column_count = 0;
    row_group_count = 2;
    dictionary_count = 0;
    schema_ref = root.schema_ref;
    dictionary_index_ref = BodyRef.null;
    row_group_index_ref = root.row_group_index_ref;
    ordering_proof_ref = BodyRef.null;
    debug_json_ref = BodyRef.null;
    created_unix_nanos = 0;
    content_flags = 0;
    crc32c = 2832018489;
  };
  string_table = record small_strings { crc32c = 588224506 };
  schema = record schema { crc32c = 491783094 };
  dictionary_index = none;
  row_group_index = record index { crc32c = 3205080019 };
  row_group_positions_by_id = (1, 1) ∷ (0, 0) ∷ [];
  ordering_proof = none;
  file_len = 4908;
  appendable = true;
  root_generation = 1;
  previous_root_generation = none;
  resource_limits = policy_a;
  open_metadata_materialized_bytes = 224;
  open_auxiliary_encoded_bytes = 0;
}

slot-IsTyped : RootSlot.IsTyped slot
slot-IsTyped = record {
  version_u16 = omega arith;
  slot_id_u16 = omega arith;
  flags_u16 = omega arith;
  generation_u64 = omega arith;
  root_ref_typed = record {
    offset_u64 = omega arith;
    size_u64 = omega arith;
    flags_u16 = omega arith;
    reserved0_u16 = omega arith;
    checksum_u32 = omega arith;
    reserved1_u32 = omega arith;
  };
  previous_generation_u64 = omega arith;
  previous_root_ref_typed = null-IsTyped;
  commit_diagnostics_ref_typed = null-IsTyped;
  committed_unix_nanos_u64 = omega arith;
  writer_version_size = refl;
  writer_version_bytes = omega arith;
  crc32c_u32 = omega arith;
}

slot_written : RootSlot.write_to slot ≡ ok slot_bytes
unfolding RootSlot.write_to slot_bytes
slot_written = refl

torn_refused :
    cursor RootSlotDecode.read_from torn ≡ err (ocb_corrupt_file "OCB root slot crc mismatch")
unfolding RootSlotDecode.read_from cursor
torn_refused = refl

candidate_read :
    read_candidate platform file 4908 OcbOpenValidationMode.metadata_graph policy_a 1 (stored slot)
    ≡ ok candidate
unfolding read_candidate root_bytes schema_bytes string_bytes index_bytes slot_bytes stored page_of
    front BootstrapV2.header BootstrapV2.pieces zeros
candidate_read = refl

snapshot_valid :
    (validate_v2_root_referenced_objects_with_scope platform file
      OcbOpenValidationMode.metadata_graph policy_a 4908 candidate.root
      (new_cache policy_a)).0
    ≡ ok metadata
unfolding validate_v2_root_referenced_objects_with_scope root_bytes schema_bytes string_bytes
    index_bytes slot_bytes stored page_of new_cache front BootstrapV2.header BootstrapV2.pieces
    zeros
snapshot_valid = refl

torn_commit_slot0_example :
    read_metadata_v2 platform file 4908 OcbOpenValidationMode.metadata_graph policy_a ≡ ok metadata
unfolding is_discardable_candidate_error RootSlot.is_empty stored
torn_commit_slot0_example =
    torn_commit_slot0 platform OcbOpenValidationMode.metadata_graph policy_a 4908 page slot
      page_bytes torn slot_bytes snapshot (ocb_corrupt_file "OCB root slot crc mismatch") candidate
      metadata page-IsTyped slot-IsTyped page_written slot_written refl torn_refused refl refl
      candidate_read snapshot_valid
