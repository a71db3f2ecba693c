-- ===== src/BootstrapV2/Decode.antt =====
-- `OcbBootstrapPageV2::read_from` and `decoded_root_slots`.
use arcadia_tio_rs.Base.{ℕ, ◌+◌, ◌*◌, List, [], ◌∷◌, ◌==◌, ltb, not, ◌||◌, take, drop}
use arcadia_tio_rs.Error.{Result, ocb_corrupt_file, ocb_unsupported_format}
use arcadia_tio_rs.Bytes.{
  Reader, ◌>>=◌, ◌>>◌, pure, lift, check, cursor, read_exact_ocb, read_u16, read_u32,
  read_u32_at_end, bytes_eq,
}
use arcadia_tio_rs.Format.{
  format_major_v2, format_minor_v2, bootstrap_page_v2_len, bootstrap_magic_v2, root_slot_v2_len,
  root_slot_table_v2_offset,
}
use arcadia_tio_rs.RootSlot.{OcbRootSlotV2}
use arcadia_tio_rs.RootSlot.Decode as RootSlot
use arcadia_tio_rs.BootstrapV2.{OcbBootstrapPageV2, bootstrap_crc32c}

-- `buf[start..end]` for one row of the slot table.
unfoldable pub slot_at : ℕ → List ℕ → List ℕ
slot_at idx buf =
    take root_slot_v2_len (drop (root_slot_table_v2_offset + idx * root_slot_v2_len) buf)

-- What the cursor over the page reads; the slots are copied from the page.
unfoldable pub decode : ℕ → List ℕ → List ℕ → Reader OcbBootstrapPageV2
decode actual_crc slot0 slot1 = do
  magic ← read_exact_ocb 8
  check (not (bytes_eq magic bootstrap_magic_v2)) (ocb_corrupt_file "invalid OCB bootstrap magic")
  format_major ← read_u16
  format_minor ← read_u16
  check (not (format_major == format_major_v2) || ltb format_minor_v2 format_minor)
      (ocb_unsupported_format "unsupported OCB bootstrap format version")
  flags ← read_u32
  page_size ← read_u32
  check (not (page_size == bootstrap_page_v2_len))
      (ocb_corrupt_file "invalid OCB bootstrap page size")
  file_uuid ← read_exact_ocb 16
  pure (record {
    format_major = format_major;
    format_minor = format_minor;
    flags = flags;
    page_size = page_size;
    file_uuid = file_uuid;
    slot0 = slot0;
    slot1 = slot1;
    crc32c_field = actual_crc;
  })

-- The page as it was read, before its checksum is compared.
unfoldable pub decode_page : List ℕ → Reader OcbBootstrapPageV2
decode_page buf = do
  actual_crc ← lift (read_u32_at_end buf)
  expected_crc ← lift (bootstrap_crc32c buf)
  check (not (actual_crc == expected_crc)) (ocb_corrupt_file "OCB bootstrap crc mismatch")
  lift (cursor (decode actual_crc (slot_at 0 buf) (slot_at 1 buf)) buf)

unfoldable pub read_from : Reader OcbBootstrapPageV2
unfolding decode decode_page ◌>>=◌ ◌>>◌ pure lift check cursor read_exact_ocb read_u16 read_u32
    bytes_eq read_u32_at_end bootstrap_crc32c slot_at
read_from = do buf ← read_exact_ocb bootstrap_page_v2_len; decode_page buf

-- Each slot is decoded on its own, with its own outcome.
unfoldable pub decoded_root_slots : OcbBootstrapPageV2 → List (Result OcbRootSlotV2)
unfolding cursor RootSlot.read_from
decoded_root_slots page =
    cursor RootSlot.read_from page.slot0 ∷ cursor RootSlot.read_from page.slot1 ∷ []
