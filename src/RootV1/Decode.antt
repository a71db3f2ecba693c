-- ===== src/RootV1/Decode.antt =====
-- `OcbRootV1::read_from`.
use arcadia_tio_rs.Base.{ℕ, ◌==◌, not}
use arcadia_tio_rs.Error.{ocb_corrupt_file, ocb_unsupported_format}
use arcadia_tio_rs.Bytes.{
  Reader, ◌>>=◌, ◌>>◌, pure, check, read_exact_ocb, read_u16, read_u32, read_u64, bytes_eq,
}
use arcadia_tio_rs.Format.{root_v1_len, root_magic_v1}
use arcadia_tio_rs.BodyRef.Decode as BodyRef
use arcadia_tio_rs.Object.{read_sealed}
use arcadia_tio_rs.RootV1.{OcbRootV1}

-- What the cursor over the checked buffer reads.
unfoldable pub decode : ℕ → Reader OcbRootV1
decode actual_crc = do
  magic ← read_exact_ocb 8
  check (not (bytes_eq magic root_magic_v1)) (ocb_corrupt_file "invalid OCB root magic")
  version ← read_u16
  check (not (version == 1)) (ocb_unsupported_format "unsupported OCB root version")
  header_bytes ← read_u16
  check (not (header_bytes == root_v1_len)) (ocb_corrupt_file "invalid OCB root header length")
  flags ← read_u32
  row_count ← read_u64
  column_count ← read_u32
  row_group_count ← read_u32
  dictionary_count ← read_u32
  reserved0 ← read_u32
  schema_ref ← BodyRef.read_from
  dictionary_index_ref ← BodyRef.read_from
  row_group_index_ref ← BodyRef.read_from
  ordering_proof_ref ← BodyRef.read_from
  debug_json_ref ← BodyRef.read_from
  created_unix_nanos ← read_u64
  content_flags ← read_u64
  pure (record {
    version = version;
    flags = flags;
    row_count = row_count;
    column_count = column_count;
    row_group_count = row_group_count;
    dictionary_count = dictionary_count;
    schema_ref = schema_ref;
    dictionary_index_ref = dictionary_index_ref;
    row_group_index_ref = row_group_index_ref;
    ordering_proof_ref = ordering_proof_ref;
    debug_json_ref = debug_json_ref;
    created_unix_nanos = created_unix_nanos;
    content_flags = content_flags;
    crc32c = actual_crc;
  })

unfoldable pub read_from : Reader OcbRootV1
unfolding decode read_sealed ◌>>=◌ ◌>>◌ pure check read_exact_ocb read_u16 read_u32 read_u64
    bytes_eq BodyRef.read_from
read_from = read_sealed root_v1_len "OCB root crc mismatch" decode
