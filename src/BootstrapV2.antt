-- ===== src/BootstrapV2.antt =====
-- `OcbBootstrapPageV2` of crates/arcadia-tio-ocb-core/src/format.rs: the first page of a version 2
-- file, with the two commit slots, which its checksum leaves out.
pub mod Decode
pub mod Page
pub mod Laws
pub mod Recovery
use arcadia_tio_rs.Base.{
  ℕ, ◌+◌, ◌-◌, ◌*◌, List, [], ◌∷◌, ◌++◌, ◌≡◌, not, ◌==◌, ◌||◌, ltb, concat, length, All, take, drop,
}
use arcadia_tio_rs.Error.{
  Result, ok, ocb_corrupt_file, ocb_invalid_input, ocb_unsupported_format, fail_if, ◌>>◌, ◌>>=◌,
}
use arcadia_tio_rs.Bytes.{write_u16, write_u32, write_u32_at_end, zeros, IsU16, IsU32, IsByte}
use arcadia_tio_rs.Crc.{crc32c}
use arcadia_tio_rs.Format.{
  format_major_v2, format_minor_v2, bootstrap_page_v2_len, bootstrap_magic_v2, root_slot_v2_len,
  root_slot_table_v2_offset, root_slot_table_v2_len,
}
use arcadia_tio_rs.RootSlot
use arcadia_tio_rs.RootSlot.{OcbRootSlotV2}

-- `slot0` and `slot1` are the two rows of `root_slot_bytes`.
pub record OcbBootstrapPageV2 : Type 0 where
  pub format_major : ℕ
  pub format_minor : ℕ
  pub flags : ℕ
  pub page_size : ℕ
  pub file_uuid : List ℕ
  pub slot0 : List ℕ
  pub slot1 : List ℕ
  pub crc32c_field : ℕ

-- The ranges and sizes that the Rust types of the fields give.
pub record IsTyped (x : OcbBootstrapPageV2) : Type 0 where
  pub format_major_u16 : IsU16 x.format_major
  pub format_minor_u16 : IsU16 x.format_minor
  pub flags_u32 : IsU32 x.flags
  pub page_size_u32 : IsU32 x.page_size
  pub file_uuid_size : length x.file_uuid ≡ 16
  pub slot0_size : length x.slot0 ≡ root_slot_v2_len
  pub slot1_size : length x.slot1 ≡ root_slot_v2_len

-- `OcbBootstrapPageV2::new`; a slot that cannot be encoded is refused. `to_bytes` copies the 160
-- bytes that `write_to` writes.
unfoldable pub new : List ℕ → OcbRootSlotV2 → OcbRootSlotV2 → Result OcbBootstrapPageV2
unfolding RootSlot.write_to
new file_uuid first second = do
  slot0 ← RootSlot.write_to first
  slot1 ← RootSlot.write_to second
  ok (record {
    format_major = format_major_v2;
    format_minor = format_minor_v2;
    flags = 0;
    page_size = bootstrap_page_v2_len;
    file_uuid = file_uuid;
    slot0 = slot0;
    slot1 = slot1;
    crc32c_field = 0;
  })

-- The checksum of a page, taken with the slot table and the trailer set to zero.
unfoldable pub bootstrap_crc32c : List ℕ → Result ℕ
unfolding crc32c write_u32_at_end
bootstrap_crc32c bytes = do
  fail_if (not (length bytes == bootstrap_page_v2_len))
      (ocb_corrupt_file "OCB bootstrap checksum requires one full bootstrap page")
  let stable =
      take root_slot_table_v2_offset bytes
      ++ (zeros root_slot_table_v2_len
          ++ drop (root_slot_table_v2_offset + root_slot_table_v2_len) bytes)
  ok (crc32c (write_u32_at_end stable 0))

-- The checks of `encode_without_checksum`.
unfoldable pub check_encodable : OcbBootstrapPageV2 → Result (Unit {0})
check_encodable page = do
  fail_if (not (page.page_size == bootstrap_page_v2_len))
      (ocb_invalid_input "OCB bootstrap page_size must match reserved bootstrap page length")
  fail_if (not (page.format_major == format_major_v2) || ltb format_minor_v2 page.format_minor)
      (ocb_unsupported_format "unsupported OCB bootstrap format version")
  ok tt

-- The fields in the order in which they are written.
unfoldable pub pieces : OcbBootstrapPageV2 → List (List ℕ)
unfolding write_u16 write_u32
pieces x =
    (bootstrap_magic_v2
      ∷ write_u16 x.format_major
      ∷ write_u16 x.format_minor
      ∷ write_u32 x.flags
      ∷ write_u32 x.page_size
      ∷ x.file_uuid
      ∷ [])

-- `buf.resize(len, 0)` of a shorter buffer.
abbrev pub resize : ℕ → List ℕ → List ℕ
resize len buf = buf ++ zeros (len - length buf)

-- The first 64 bytes.
unfoldable pub header : OcbBootstrapPageV2 → List ℕ
header x = resize root_slot_table_v2_offset (concat (pieces x))

unfoldable pub encode_without_checksum : OcbBootstrapPageV2 → Result (List ℕ)
encode_without_checksum x = do
  check_encodable x
  ok (resize (bootstrap_page_v2_len - 4) (header x ++ (x.slot0 ++ x.slot1)) ++ write_u32 0)

unfoldable pub write_to : OcbBootstrapPageV2 → Result (List ℕ)
unfolding check_encodable header pieces write_u16 write_u32 encode_without_checksum bootstrap_crc32c
write_to x = do
  buf ← encode_without_checksum x
  checksum ← bootstrap_crc32c buf
  ok (write_u32_at_end buf checksum)
