-- ===== src/BootstrapV2/Recovery.antt =====
-- A commit that dies while it overwrites one root slot: the page still opens, and the other slot is
-- still decoded.
use arcadia_tio_rs.Base.{
  ℕ, ◌≡◌, ◌∙◌, refl, sym, ap, List, [], ◌∷◌, ◌++◌, length, take, drop, append-nil,
}
use arcadia_tio_rs.Error.{ok}
use arcadia_tio_rs.Bytes.{cursor, write_u32}
use arcadia_tio_rs.Crc.{crc32c}
use arcadia_tio_rs.Format.{root_slot_v2_len}
use arcadia_tio_rs.RootSlot
use arcadia_tio_rs.RootSlot.{OcbRootSlotV2}
use arcadia_tio_rs.RootSlot.Decode as SlotDecode
use arcadia_tio_rs.RootSlot.Laws as SlotLaws
use arcadia_tio_rs.BootstrapV2.{OcbBootstrapPageV2, IsTyped, write_to}
use arcadia_tio_rs.BootstrapV2.Decode.{read_from, decoded_root_slots}
use arcadia_tio_rs.BootstrapV2.Laws.{page_crc, bootstrap_v2_read_from-overwritten}

-- A slot as it is read back.
unfoldable pub stored : OcbRootSlotV2 → OcbRootSlotV2
stored slot = record slot { crc32c = crc32c (RootSlot.body slot ++ write_u32 0) }

decoded :
    (slot : OcbRootSlotV2) (bytes : List ℕ)
    → RootSlot.IsTyped slot
    → RootSlot.write_to slot ≡ ok bytes
    → cursor SlotDecode.read_from bytes ≡ ok (stored slot)
unfolding cursor stored
decoded slot bytes t h =
    let whole : SlotDecode.read_from bytes ≡ ok (stored slot, []) =
      ap SlotDecode.read_from (sym (append-nil bytes))
      ∙ SlotLaws.root_slot_read_from-write_to slot bytes [] t h in
    rw (whole, cursor) refl

-- Let `write_to` have written a page and, for its slot 1, a root slot, both with fields of their
-- Rust types. If slot 0 on disk is overwritten by any 160 bytes, `read_from` still opens the page,
-- with the same file id; slot 1 decodes to the root slot as written, with its stored checksum, and
-- slot 0 to whatever its own bytes decode to.
pub torn_slot0 :
    (x : OcbBootstrapPageV2) (slot : OcbRootSlotV2) (bytes torn kept rest : List ℕ)
    → IsTyped x
    → RootSlot.IsTyped slot
    → write_to x ≡ ok bytes
    → RootSlot.write_to slot ≡ ok kept
    → length torn ≡ root_slot_v2_len
    → (page : OcbBootstrapPageV2) × (read_from
          ((take 64 bytes ++ ((torn ++ kept) ++ drop 384 bytes)) ++ rest)
        ≡ ok (page, rest))
      × (page.file_uuid ≡ x.file_uuid)
      × (decoded_root_slots page ≡ cursor SlotDecode.read_from torn ∷ ok (stored slot) ∷ [])
unfolding decoded_root_slots
torn_slot0 x slot bytes torn kept rest t ts h hs size = (
  record x { slot0 = torn; slot1 = kept; crc32c_field = page_crc x },
  bootstrap_v2_read_from-overwritten x bytes torn kept rest t h size
      (SlotLaws.length-write_to slot kept ts hs),
  refl,
  ap (λ r. cursor SlotDecode.read_from torn ∷ r ∷ []) (decoded slot kept ts hs),
)

-- Let `write_to` have written a page and, for its slot 0, a root slot, both with fields of their
-- Rust types. If slot 1 on disk is overwritten by any 160 bytes, `read_from` still opens the page,
-- with the same file id; slot 0 decodes to the root slot as written, with its stored checksum, and
-- slot 1 to whatever its own bytes decode to.
pub torn_slot1 :
    (x : OcbBootstrapPageV2) (slot : OcbRootSlotV2) (bytes torn kept rest : List ℕ)
    → IsTyped x
    → RootSlot.IsTyped slot
    → write_to x ≡ ok bytes
    → RootSlot.write_to slot ≡ ok kept
    → length torn ≡ root_slot_v2_len
    → (page : OcbBootstrapPageV2) × (read_from
          ((take 64 bytes ++ ((kept ++ torn) ++ drop 384 bytes)) ++ rest)
        ≡ ok (page, rest))
      × (page.file_uuid ≡ x.file_uuid)
      × (decoded_root_slots page ≡ ok (stored slot) ∷ cursor SlotDecode.read_from torn ∷ [])
unfolding decoded_root_slots
torn_slot1 x slot bytes torn kept rest t ts h hs size = (
  record x { slot0 = kept; slot1 = torn; crc32c_field = page_crc x },
  bootstrap_v2_read_from-overwritten x bytes kept torn rest t h
      (SlotLaws.length-write_to slot kept ts hs) size,
  refl,
  ap (λ r. r ∷ cursor SlotDecode.read_from torn ∷ []) (decoded slot kept ts hs),
)
