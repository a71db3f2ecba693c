-- ===== src/BootstrapV1/Decode.antt =====
-- `OcbBootstrapPageV1::read_from`.
use arcadia_tio_rs.Base.{ℕ, ◌==◌, ltb, not, ◌||◌}
use arcadia_tio_rs.Error.{ocb_corrupt_file, ocb_unsupported_format}
use arcadia_tio_rs.Bytes.{
  Reader, ◌>>=◌, ◌>>◌, pure, check, read_exact_ocb, read_u16, read_u32, read_u64, bytes_eq,
}
use arcadia_tio_rs.Format.{
  format_major_v1, format_minor_v1, bootstrap_page_v1_len, bootstrap_magic_v1,
}
use arcadia_tio_rs.BodyRef.Decode as BodyRef
use arcadia_tio_rs.Object.{read_sealed}
use arcadia_tio_rs.BootstrapV1.{OcbBootstrapPageV1}

-- What the cursor over the checked buffer reads.
unfoldable pub decode : ℕ → Reader OcbBootstrapPageV1
decode actual_crc = do
  magic ← read_exact_ocb 8
  check (not (bytes_eq magic bootstrap_magic_v1)) (ocb_corrupt_file "invalid OCB bootstrap magic")
  format_major ← read_u16
  format_minor ← read_u16
  check (not (format_major == format_major_v1) || ltb format_minor_v1 format_minor)
      (ocb_unsupported_format "unsupported OCB bootstrap format version")
  flags ← read_u32
  page_size ← read_u32
  check (not (page_size == bootstrap_page_v1_len))
      (ocb_corrupt_file "invalid OCB bootstrap page size")
  file_uuid ← read_exact_ocb 16
  root_ref ← BodyRef.read_from
  pure (record {
    format_major = format_major;
    format_minor = format_minor;
    flags = flags;
    page_size = page_size;
    file_uuid = file_uuid;
    root_ref = root_ref;
    crc32c = actual_crc;
  })

unfoldable pub read_from : Reader OcbBootstrapPageV1
unfolding decode read_sealed ◌>>=◌ ◌>>◌ pure check read_exact_ocb read_u16 read_u32 read_u64
    bytes_eq BodyRef.read_from
read_from = read_sealed bootstrap_page_v1_len "OCB bootstrap crc mismatch" decode
