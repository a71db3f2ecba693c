-- ===== src/RootV2/Decode.antt =====
-- `OcbRootV2::read_from`.
use arcadia_tio_rs.Base.{ℕ, ◌==◌, not}
use arcadia_tio_rs.Error.{ocb_corrupt_file, ocb_unsupported_format}
use arcadia_tio_rs.Bytes.{
  Reader, ◌>>=◌, ◌>>◌, pure, check, read_exact_ocb, read_u16, read_u32, read_u64, bytes_eq,
}
use arcadia_tio_rs.Format.{format_major_v2, root_v2_len, root_magic_v2}
use arcadia_tio_rs.BodyRef.Decode as BodyRef
use arcadia_tio_rs.Object.{read_sealed}
use arcadia_tio_rs.RootV2.{OcbRootV2}

-- What the cursor over the checked buffer reads.
unfoldable pub decode : ℕ → Reader OcbRootV2
decode actual_crc = do
  magic ← read_exact_ocb 8
  check (not (bytes_eq magic root_magic_v2)) (ocb_corrupt_file "invalid OCB root magic")
  version ← read_u16
  check (not (version == format_major_v2)) (ocb_unsupported_format "unsupported OCB root version")
  header_bytes ← read_u16
  check (not (header_bytes == root_v2_len)) (ocb_corrupt_file "invalid OCB root header length")
  flags ← read_u32
  generation ← read_u64
  previous_generation ← read_u64
  previous_root_ref ← BodyRef.read_from
  append_base_row ← read_u64
  append_row_count ← read_u64
  append_base_row_group ← read_u32
  append_row_group_count ← read_u32
  row_count ← read_u64
  column_count ← read_u32
  row_group_count ← read_u32
  dictionary_count ← read_u32
  column_chunk_count ← read_u32
  schema_ref ← BodyRef.read_from
  dictionary_index_ref ← BodyRef.read_from
  row_group_index_ref ← BodyRef.read_from
  ordering_proof_ref ← BodyRef.read_from
  debug_json_ref ← BodyRef.read_from
  first_key_tuple_ref ← BodyRef.read_from
  last_key_tuple_ref ← BodyRef.read_from
  append_first_key_tuple_ref ← BodyRef.read_from
  append_last_key_tuple_ref ← BodyRef.read_from
  commit_diagnostics_ref ← BodyRef.read_from
  created_unix_nanos ← read_u64
  content_flags ← read_u64
  reserved0 ← read_u32
  pure (record {
    version = version;
    flags = flags;
    generation = generation;
    previous_generation = previous_generation;
    previous_root_ref = previous_root_ref;
    append_base_row = append_base_row;
    append_row_count = append_row_count;
    append_base_row_group = append_base_row_group;
    append_row_group_count = append_row_group_count;
    row_count = row_count;
    column_count = column_count;
    row_group_count = row_group_count;
    dictionary_count = dictionary_count;
    column_chunk_count = column_chunk_count;
    schema_ref = schema_ref;
    dictionary_index_ref = dictionary_index_ref;
    row_group_index_ref = row_group_index_ref;
    ordering_proof_ref = ordering_proof_ref;
    debug_json_ref = debug_json_ref;
    first_key_tuple_ref = first_key_tuple_ref;
    last_key_tuple_ref = last_key_tuple_ref;
    append_first_key_tuple_ref = append_first_key_tuple_ref;
    append_last_key_tuple_ref = append_last_key_tuple_ref;
    commit_diagnostics_ref = commit_diagnostics_ref;
    created_unix_nanos = created_unix_nanos;
    content_flags = content_flags;
    crc32c = actual_crc;
  })

unfoldable pub read_from : Reader OcbRootV2
unfolding decode read_sealed ◌>>=◌ ◌>>◌ pure check read_exact_ocb read_u16 read_u32 read_u64
    bytes_eq BodyRef.read_from
read_from = read_sealed root_v2_len "OCB root crc mismatch" decode
