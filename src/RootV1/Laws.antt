-- ===== src/RootV1/Laws.antt =====
-- `OcbRootV1`: its length, the round trip through `write_to`, and damage.
use arcadia_tio_rs.Base.{
  ℕ, ◌+◌, ◌≡◌, ◌∙◌, refl, arith, List, ◌++◌, length, length-concat, false, not, ◌==◌,
}
use arcadia_tio_rs.Error.{ok, then-eq-ok}
use arcadia_tio_rs.Bytes.{write_u32, bytes_eq}
use arcadia_tio_rs.Bytes.Reads.{
  Reads, step, passed, pure-Reads, read_exact-Reads, read_u16-Reads, read_u32-Reads, read_u64-Reads,
}
use arcadia_tio_rs.Crc.{crc32c, seal}
use arcadia_tio_rs.Format.{root_v1_len, root_magic_v1}
use arcadia_tio_rs.BodyRef.Laws as BodyRef
use arcadia_tio_rs.Object.Laws.{sealed-eq-ok, read_sealed-Reads, length-seal}
use arcadia_tio_rs.RootV1.{
  OcbRootV1, IsTyped, check_encodable, pieces, body, encode_without_checksum, write_to,
}
use arcadia_tio_rs.RootV1.Decode.{decode, read_from}

pub length-body : (x : OcbRootV1) → IsTyped x → length (body x) + 4 ≡ root_v1_len
unfolding body pieces
length-body x t = omega (arith, length-concat (pieces x))

decode-Reads :
    (x : OcbRootV1) (crc : ℕ) (rest : List ℕ)
    → IsTyped x
    → not (x.version == 1) ≡ false
    → Reads (decode crc) (body x) rest (record x { crc32c = crc })
unfolding decode body pieces bytes_eq
decode-Reads x crc rest t version_one = step _ (read_exact-Reads root_magic_v1 _ 8 refl) (
    passed _ refl (
      step _ (read_u16-Reads x.version _ t.version_u16) (
        passed _ version_one (
          step _ (read_u16-Reads root_v1_len _ (omega arith)) (
            passed _ refl (
              step _ (read_u32-Reads x.flags _ t.flags_u32) (
                step _ (read_u64-Reads x.row_count _ t.row_count_u64) (
                  step _ (read_u32-Reads x.column_count _ t.column_count_u32) (
                    step _ (read_u32-Reads x.row_group_count _ t.row_group_count_u32) (
                      step _ (read_u32-Reads x.dictionary_count _ t.dictionary_count_u32) (
                        step _ (read_u32-Reads 0 _ (omega arith)) (
                          step _ (BodyRef.read_from-Reads x.schema_ref _ t.schema_ref_typed) (
                            step _
                              (BodyRef.read_from-Reads x.dictionary_index_ref _
                                t.dictionary_index_ref_typed)
                              (step _
                                (BodyRef.read_from-Reads x.row_group_index_ref _
                                  t.row_group_index_ref_typed)
                                (step _
                                  (BodyRef.read_from-Reads x.ordering_proof_ref _
                                    t.ordering_proof_ref_typed)
                                  (step _
                                    (BodyRef.read_from-Reads x.debug_json_ref _
                                      t.debug_json_ref_typed)
                                    (step _
                                      (read_u64-Reads x.created_unix_nanos _
                                        t.created_unix_nanos_u64)
                                      (step _ (read_u64-Reads x.content_flags _ t.content_flags_u64)
                                        (pure-Reads _ _)))))))))))))))))))

written :
    (x : OcbRootV1) {bytes : List ℕ} → write_to x ≡ ok bytes → bytes ≡ seal (body x ++ write_u32 0)
unfolding write_to encode_without_checksum
written x h =
    let (buf, e, whole) = sealed-eq-ok (encode_without_checksum x) h in
    let (checked, same) = then-eq-ok (check_encodable x) _ e in whole ∙ cc same

-- `write_to` writes exactly as many bytes as `read_from` takes.
pub length-write_to :
    (x : OcbRootV1) (bytes : List ℕ)
    → IsTyped x
    → write_to x ≡ ok bytes
    → length bytes ≡ root_v1_len
length-write_to x bytes t h = rw (written x h) (length-seal (body x) ∙ length-body x t)

-- `read_from` reads back any root of version 1 with fields of their Rust types that `write_to`
-- wrote, with the checksum that was stored, and leaves what follows it.
pub root_v1_read_from-write_to :
    (x : OcbRootV1) (bytes rest : List ℕ)
    → IsTyped x
    → x.version ≡ 1
    → write_to x ≡ ok bytes
    → read_from (bytes ++ rest) ≡ ok (record x { crc32c = crc32c (body x ++ write_u32 0) }, rest)
unfolding read_from
root_v1_read_from-write_to x bytes rest t v h =
    rw (written x h)
      (read_sealed-Reads root_v1_len _ decode (body x) rest _ (length-body x t)
        (decode-Reads x _ _ t (rw v refl))).run
