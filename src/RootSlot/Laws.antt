-- ===== src/RootSlot/Laws.antt =====
-- The root slot: 160 bytes, the round trip through `write_to`, and damage.
use arcadia_tio_rs.Base.{
  ℕ, ◌+◌, ◌≡◌, ◌∙◌, refl, arith, List, ◌++◌, length, length-concat, false, not, ◌==◌, leb,
}
use arcadia_tio_rs.Error.{ok, fail_if-eq-ok, then-eq-ok}
use arcadia_tio_rs.Bytes.{write_u32, bytes_eq}
use arcadia_tio_rs.Bytes.Reads.{
  Reads, step, passed, pure-Reads, read_exact-Reads, read_u16-Reads, read_u32-Reads, read_u64-Reads,
}
use arcadia_tio_rs.Crc.{crc32c, seal}
use arcadia_tio_rs.Format.{
  format_major_v2, root_slot_v2_len, root_slot_v2_count, root_slot_magic_v2,
}
use arcadia_tio_rs.BodyRef.Laws as BodyRef
use arcadia_tio_rs.Object.Laws.{sealed-eq-ok, read_sealed-Reads, length-seal}
use arcadia_tio_rs.RootSlot.{
  OcbRootSlotV2, IsTyped, check_encodable, pieces, body, encode_without_checksum, write_to,
}
use arcadia_tio_rs.RootSlot.Decode.{decode, read_from}

pub length-body : (x : OcbRootSlotV2) → IsTyped x → length (body x) + 4 ≡ root_slot_v2_len
unfolding body pieces
length-body x t = omega (arith, length-concat (pieces x), t.writer_version_size)

decode-Reads :
    (x : OcbRootSlotV2) (crc : ℕ) (rest : List ℕ)
    → IsTyped x
    → not (x.version == format_major_v2) ≡ false
    → leb root_slot_v2_count x.slot_id ≡ false
    → Reads (decode crc) (body x) rest (record x { crc32c = crc })
unfolding decode body pieces bytes_eq
decode-Reads x crc rest t version_two in_table =
    step _ (read_exact-Reads root_slot_magic_v2 _ 8 refl) (
      passed _ refl (
        step _ (read_u16-Reads x.version _ t.version_u16) (
          passed _ version_two (
            step _ (read_u16-Reads root_slot_v2_len _ (omega arith)) (
              passed _ refl (
                step _ (read_u16-Reads x.slot_id _ t.slot_id_u16) (
                  passed _ in_table (
                    step _ (read_u16-Reads x.flags _ t.flags_u16) (
                      step _ (read_u64-Reads x.generation _ t.generation_u64) (
                        step _ (BodyRef.read_from-Reads x.root_ref _ t.root_ref_typed) (
                          step _ (read_u64-Reads x.previous_generation _ t.previous_generation_u64)
                            (step _
                              (BodyRef.read_from-Reads x.previous_root_ref _
                                t.previous_root_ref_typed)
                              (step _
                                (BodyRef.read_from-Reads x.commit_diagnostics_ref _
                                  t.commit_diagnostics_ref_typed)
                                (step _
                                  (read_u64-Reads x.committed_unix_nanos _
                                    t.committed_unix_nanos_u64)
                                  (step _
                                    (read_exact-Reads x.writer_version _ 16 t.writer_version_size)
                                    (step _ (read_u32-Reads 0 _ (omega arith))
                                      (pure-Reads _ _)))))))))))))))))

-- What `encode_without_checksum` accepts, and what it returns then.
encoded :
    (x : OcbRootSlotV2) {buf : List ℕ}
    → encode_without_checksum x ≡ ok buf
    → (not (x.version == format_major_v2) ≡ false)
      × (leb root_slot_v2_count x.slot_id ≡ false)
      × (ok (body x ++ write_u32 0) ≡ ok buf)
unfolding encode_without_checksum check_encodable
encoded x h =
    let (checked, buf) = then-eq-ok (check_encodable x) _ h in
    let (version_two, more) = fail_if-eq-ok _ _ _ checked in
    let (in_table, rest) = fail_if-eq-ok _ _ _ more in (version_two, in_table, buf)

pub written :
    (x : OcbRootSlotV2) {bytes : List ℕ}
    → write_to x ≡ ok bytes
    → bytes ≡ seal (body x ++ write_u32 0)
unfolding write_to
written x h =
    let (buf, e, whole) = sealed-eq-ok (encode_without_checksum x) h in
    let facts = encoded x e in whole ∙ cc (facts.2)

-- `write_to` writes 160 bytes, the length that the bootstrap page keeps for a slot.
pub length-write_to :
    (x : OcbRootSlotV2) (bytes : List ℕ)
    → IsTyped x
    → write_to x ≡ ok bytes
    → length bytes ≡ root_slot_v2_len
length-write_to x bytes t h = rw (written x h) (length-seal (body x) ∙ length-body x t)

-- `read_from` reads back any root slot with fields of their Rust types that `write_to` wrote, with
-- the checksum that was stored, and leaves what follows it.
pub root_slot_read_from-write_to :
    (x : OcbRootSlotV2) (bytes rest : List ℕ)
    → IsTyped x
    → write_to x ≡ ok bytes
    → read_from (bytes ++ rest) ≡ ok (record x { crc32c = crc32c (body x ++ write_u32 0) }, rest)
unfolding read_from write_to
root_slot_read_from-write_to x bytes rest t h =
    let (buf, e, whole) = sealed-eq-ok (encode_without_checksum x) h in
    let (version_two, in_table, same) = encoded x e in
    rw (written x h)
      (read_sealed-Reads root_slot_v2_len _ decode (body x) rest _ (length-body x t)
        (decode-Reads x _ _ t version_two in_table)).run
