-- ===== src/Tests/Files.antt =====
-- A small file of version 1: two row groups, no columns.
use arcadia_tio_rs.Base.{ℕ, List, [], ◌∷◌, ◌++◌, replicate, none, ◌≡◌, refl, false}
use arcadia_tio_rs.Error.{Result, ok, err}
use arcadia_tio_rs.Kinds.{OcbBodyKindV1, OcbChecksumKindV1}
use arcadia_tio_rs.BodyRef
use arcadia_tio_rs.BodyRef.{OcbBodyRefV2}
use arcadia_tio_rs.Limits.{policy_a}
use arcadia_tio_rs.Records.RowGroupDesc.{OcbRowGroupDescV1}
use arcadia_tio_rs.BootstrapV1
use arcadia_tio_rs.BootstrapV1.{OcbBootstrapPageV1}
use arcadia_tio_rs.RootV1
use arcadia_tio_rs.RootV1.{OcbRootV1}
use arcadia_tio_rs.Schema
use arcadia_tio_rs.Schema.{OcbSchemaV1}
use arcadia_tio_rs.StringTable
use arcadia_tio_rs.StringTable.{OcbStringTableV1}
use arcadia_tio_rs.RowGroupIndex
use arcadia_tio_rs.RowGroupIndex.{OcbRowGroupIndexV1}
use arcadia_tio_rs.Read.Metadata.{OcbMetadataV1}
use arcadia_tio_rs.Read.Graph.Chunks.{OcbOpenValidationMode}
use arcadia_tio_rs.Read.Open.{read_metadata_from_source_with_validation_and_resource_limits}
use arcadia_tio_rs.Tests.Samples.{platform}

abbrev pub written : Result (List ℕ) → List ℕ
written (ok bytes) = bytes
written (err e) = []

-- A reference without a checksum.
abbrev pub unchecked : ℕ → ℕ → OcbBodyKindV1 → OcbBodyRefV2
unchecked offset size kind = record {
  offset = offset;
  size = size;
  kind = kind;
  flags = 0;
  checksum_kind = OcbChecksumKindV1.none;
  reserved0 = 0;
  checksum = 0;
  reserved1 = 0;
}

abbrev pub row_group : ℕ → ℕ → ℕ → OcbRowGroupDescV1
row_group id base_row row_count = record {
  row_group_id = id;
  flags = 0;
  base_row = base_row;
  row_count = row_count;
  chunk_desc_begin = 0;
  chunk_desc_count = 0;
  stat_begin = 0;
  stat_count = 0;
  first_key_tuple_ref = BodyRef.null;
  last_key_tuple_ref = BodyRef.null;
}

abbrev pub small_strings : OcbStringTableV1
small_strings = record { version = 1; strings = []; crc32c = 0 }

unfoldable pub string_bytes : List ℕ
unfolding StringTable.write_to
string_bytes = written (StringTable.write_to small_strings)

abbrev pub small_schema : OcbSchemaV1
small_schema = record {
  version = 1;
  string_table_ref = unchecked 4372 24 OcbBodyKindV1.string_table;
  columns = [];
  crc32c = 0;
}

unfoldable pub schema_bytes : List ℕ
unfolding Schema.write_to
schema_bytes = written (Schema.write_to small_schema)

abbrev pub small_index : OcbRowGroupIndexV1
small_index = record {
  version = 1;
  flags = 0;
  row_groups = row_group 7 0 3 ∷ row_group 5 3 2 ∷ [];
  column_chunks = [];
  stats = [];
  crc32c = 0;
}

unfoldable pub index_bytes : List ℕ
unfolding RowGroupIndex.write_to
index_bytes = written (RowGroupIndex.write_to small_index)

abbrev pub small_root : OcbRootV1
small_root = record {
  version = 1;
  flags = 0;
  row_count = 5;
  column_count = 0;
  row_group_count = 2;
  dictionary_count = 0;
  schema_ref = unchecked 4316 56 OcbBodyKindV1.schema;
  dictionary_index_ref = BodyRef.null;
  row_group_index_ref = unchecked 4396 276 OcbBodyKindV1.row_group_index;
  ordering_proof_ref = BodyRef.null;
  debug_json_ref = BodyRef.null;
  created_unix_nanos = 0;
  content_flags = 0;
  crc32c = 0;
}

unfoldable pub root_bytes : List ℕ
unfolding RootV1.write_to
root_bytes = written (RootV1.write_to small_root)

abbrev pub small_page : OcbBootstrapPageV1
small_page = record {
  format_major = 1;
  format_minor = 0;
  flags = 0;
  page_size = 4096;
  file_uuid = replicate 16 9;
  root_ref = unchecked 4096 220 OcbBodyKindV1.root;
  crc32c = 0;
}

unfoldable pub page_bytes : List ℕ
unfolding BootstrapV1.write_to
page_bytes = written (BootstrapV1.write_to small_page)

abbrev pub small_file : List ℕ
small_file = page_bytes ++ (root_bytes ++ (schema_bytes ++ (string_bytes ++ index_bytes)))

-- What is kept of the file once it is open.
abbrev pub small_metadata : OcbMetadataV1
small_metadata = record {
  root = record small_root { crc32c = 1767777911 };
  string_table = record small_strings { crc32c = 588224506 };
  schema = record small_schema { crc32c = 3831072646 };
  dictionary_index = none;
  row_group_index = record small_index { crc32c = 144256795 };
  row_group_positions_by_id = (5, 1) ∷ (7, 0) ∷ [];
  ordering_proof = none;
  file_len = 4672;
  appendable = false;
  root_generation = 0;
  previous_root_generation = none;
  resource_limits = policy_a;
  open_metadata_materialized_bytes = 224;
  open_auxiliary_encoded_bytes = 0;
}

pub small_file-opens :
    read_metadata_from_source_with_validation_and_resource_limits platform small_file
      OcbOpenValidationMode.metadata_graph policy_a
    ≡ ok small_metadata
unfolding read_metadata_from_source_with_validation_and_resource_limits string_bytes schema_bytes
    index_bytes root_bytes page_bytes
small_file-opens = refl
