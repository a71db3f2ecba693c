-- ===== src/RootSlot/Decode.antt =====
-- `OcbRootSlotV2::read_from`.
use arcadia_tio_rs.Base.{ℕ, ◌==◌, leb, not}
use arcadia_tio_rs.Error.{ocb_corrupt_file, ocb_unsupported_format}
use arcadia_tio_rs.Bytes.{
  Reader, ◌>>=◌, ◌>>◌, pure, check, read_exact_ocb, read_u16, read_u32, read_u64, bytes_eq,
}
use arcadia_tio_rs.Format.{
  format_major_v2, root_slot_v2_len, root_slot_v2_count, root_slot_magic_v2,
}
use arcadia_tio_rs.BodyRef.Decode as BodyRef
use arcadia_tio_rs.Object.{read_sealed}
use arcadia_tio_rs.RootSlot.{OcbRootSlotV2}

-- What the cursor over the checked buffer reads.
unfoldable pub decode : ℕ → Reader OcbRootSlotV2
decode actual_crc = do
  magic ← read_exact_ocb 8
  check (not (bytes_eq magic root_slot_magic_v2)) (ocb_corrupt_file "invalid OCB root slot magic")
  version ← read_u16
  check (not (version == format_major_v2))
      (ocb_unsupported_format "unsupported OCB root slot version")
  header_bytes ← read_u16
  check (not (header_bytes == root_slot_v2_len))
      (ocb_corrupt_file "invalid OCB root slot header length")
  slot_id ← read_u16
  check (leb root_slot_v2_count slot_id) (ocb_corrupt_file "invalid OCB root slot id")
  flags ← read_u16
  generation ← read_u64
  root_ref ← BodyRef.read_from
  previous_generation ← read_u64
  previous_root_ref ← BodyRef.read_from
  commit_diagnostics_ref ← BodyRef.read_from
  committed_unix_nanos ← read_u64
  writer_version ← read_exact_ocb 16
  reserved0 ← read_u32
  pure (record {
    version = version;
    slot_id = slot_id;
    flags = flags;
    generation = generation;
    root_ref = root_ref;
    previous_generation = previous_generation;
    previous_root_ref = previous_root_ref;
    commit_diagnostics_ref = commit_diagnostics_ref;
    committed_unix_nanos = committed_unix_nanos;
    writer_version = writer_version;
    crc32c = actual_crc;
  })

unfoldable pub read_from : Reader OcbRootSlotV2
unfolding decode read_sealed ◌>>=◌ ◌>>◌ pure check read_exact_ocb read_u16 read_u32 read_u64
    bytes_eq BodyRef.read_from
read_from = read_sealed root_slot_v2_len "OCB root slot crc mismatch" decode
