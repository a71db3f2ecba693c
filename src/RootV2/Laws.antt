-- ===== src/RootV2/Laws.antt =====
-- `OcbRootV2`: its length, the round trip through `write_to`, and damage.
use arcadia_tio_rs.Base.{
  ℕ, ◌+◌, ◌≤◌, ◌≡◌, ◌∙◌, refl, arith, List, ◌++◌, length, length-concat, false, not, ◌==◌, ne_false,
  ltb-false,
}
use arcadia_tio_rs.Error.{ok, fail_if-eq-ok, then-eq-ok}
use arcadia_tio_rs.Bytes.{write_u32, bytes_eq}
use arcadia_tio_rs.Bytes.Reads.{
  Reads, step, passed, pure-Reads, read_exact-Reads, read_u16-Reads, read_u32-Reads, read_u64-Reads,
}
use arcadia_tio_rs.Crc.{crc32c, seal}
use arcadia_tio_rs.Format.{format_major_v2, root_v2_len, root_magic_v2}
use arcadia_tio_rs.BodyRef.Laws as BodyRef
use arcadia_tio_rs.Object.Laws.{sealed-eq-ok, read_sealed-Reads, length-seal}
use arcadia_tio_rs.RootV2.{
  OcbRootV2, IsTyped, check_encodable, pieces, body, encode_without_checksum, write_to,
  validate_ref_kinds,
}
use arcadia_tio_rs.RootV2.Decode.{decode, read_from}

pub length-body : (x : OcbRootV2) → IsTyped x → length (body x) + 4 ≡ root_v2_len
unfolding body pieces
length-body x t = omega (arith, length-concat (pieces x))

decode-Reads :
    (x : OcbRootV2) (crc : ℕ) (rest : List ℕ)
    → IsTyped x
    → not (x.version == format_major_v2) ≡ false
    → Reads (decode crc) (body x) rest (record x { crc32c = crc })
unfolding decode body pieces bytes_eq
decode-Reads x crc rest t version_two = step _ (read_exact-Reads root_magic_v2 _ 8 refl) (
    passed _ refl (
      step _ (read_u16-Reads x.version _ t.version_u16) (
        passed _ version_two (
          step _ (read_u16-Reads root_v2_len _ (omega arith)) (
            passed _ refl (
              step _ (read_u32-Reads x.flags _ t.flags_u32) (
                step _ (read_u64-Reads x.generation _ t.generation_u64) (
                  step _ (read_u64-Reads x.previous_generation _ t.previous_generation_u64) (
                    step _ (BodyRef.read_from-Reads x.previous_root_ref _ t.previous_root_ref_typed)
                      (step _ (read_u64-Reads x.append_base_row _ t.append_base_row_u64) (
                        step _ (read_u64-Reads x.append_row_count _ t.append_row_count_u64) (
                          step _
                            (read_u32-Reads x.append_base_row_group _ t.append_base_row_group_u32)
                            (step _
                              (read_u32-Reads x.append_row_group_count _
                                t.append_row_group_count_u32)
                              (step _ (read_u64-Reads x.row_count _ t.row_count_u64) (
                                step _ (read_u32-Reads x.column_count _ t.column_count_u32) (
                                  step _ (read_u32-Reads x.row_group_count _ t.row_group_count_u32)
                                    (step _
                                      (read_u32-Reads x.dictionary_count _ t.dictionary_count_u32)
                                      (step _
                                        (read_u32-Reads x.column_chunk_count _
                                          t.column_chunk_count_u32)
                                        (step _
                                          (BodyRef.read_from-Reads x.schema_ref _
                                            t.schema_ref_typed)
                                          (step _
                                            (BodyRef.read_from-Reads x.dictionary_index_ref _
                                              t.dictionary_index_ref_typed)
                                            (step _
                                              (BodyRef.read_from-Reads x.row_group_index_ref _
                                                t.row_group_index_ref_typed)
                                              (step _
                                                (BodyRef.read_from-Reads x.ordering_proof_ref _
                                                  t.ordering_proof_ref_typed)
                                                (step _
                                                  (BodyRef.read_from-Reads x.debug_json_ref _
                                                    t.debug_json_ref_typed)
                                                  (step _
                                                    (BodyRef.read_from-Reads x.first_key_tuple_ref _
                                                      t.first_key_tuple_ref_typed)
                                                    (step _
                                                      (BodyRef.read_from-Reads x.last_key_tuple_ref
                                                        _ t.last_key_tuple_ref_typed)
                                                      (step _
                                                        (BodyRef.read_from-Reads
                                                          x.append_first_key_tuple_ref _
                                                          t.append_first_key_tuple_ref_typed)
                                                        (step _
                                                          (BodyRef.read_from-Reads
                                                            x.append_last_key_tuple_ref _
                                                            t.append_last_key_tuple_ref_typed)
                                                          (step _
                                                            (BodyRef.read_from-Reads
                                                            x.commit_diagnostics_ref _
                                                            t.commit_diagnostics_ref_typed)
                                                            (step _
                                                            (read_u64-Reads x.created_unix_nanos _
                                                            t.created_unix_nanos_u64)
                                                            (step _
                                                            (read_u64-Reads x.content_flags _
                                                            t.content_flags_u64)
                                                            (step _
                                                            (read_u32-Reads 0 _ (omega arith))
                                                            (pure-Reads _
                                                            _))))))))))))))))))))))))))))))))

written :
    (x : OcbRootV2) {bytes : List ℕ} → write_to x ≡ ok bytes → bytes ≡ seal (body x ++ write_u32 0)
unfolding write_to encode_without_checksum
written x h =
    let (buf, e, whole) = sealed-eq-ok (encode_without_checksum x) h in
    let (checked, same) = then-eq-ok (check_encodable x) _ e in whole ∙ cc same

-- `write_to` writes exactly as many bytes as `read_from` takes.
pub length-write_to :
    (x : OcbRootV2) (bytes : List ℕ)
    → IsTyped x
    → write_to x ≡ ok bytes
    → length bytes ≡ root_v2_len
length-write_to x bytes t h = rw (written x h) (length-seal (body x) ∙ length-body x t)

-- What `write_to` accepts as a root has version 2, and its append ranges end inside the root's
-- totals of rows and of row groups.
pub root_v2_write_to-ranges :
    (x : OcbRootV2) (bytes : List ℕ)
    → write_to x ≡ ok bytes
    → (x.version ≡ format_major_v2)
      × (x.append_base_row + x.append_row_count ≤ x.row_count)
      × (x.append_base_row_group + x.append_row_group_count ≤ x.row_group_count)
unfolding write_to encode_without_checksum check_encodable
root_v2_write_to-ranges x bytes h =
    let (buf, e, whole) = sealed-eq-ok (encode_without_checksum x) h in
    let (checked, same) = then-eq-ok (check_encodable x) _ e in
    let (version_two, c1) = fail_if-eq-ok _ _ _ checked in
    let (kinds, c2) = then-eq-ok (validate_ref_kinds x) _ c1 in
    let (fits64, c3) = fail_if-eq-ok _ _ _ c2 in
    let (rows, c4) = fail_if-eq-ok _ _ _ c3 in
    let (fits32, c5) = fail_if-eq-ok _ _ _ c4 in
    let (groups, c6) = fail_if-eq-ok _ _ _ c5 in
    (ne_false _ _ version_two, ltb-false _ _ rows, ltb-false _ _ groups)

-- `read_from` reads back any version 2 root with fields of their Rust types that `write_to` wrote,
-- with the checksum that was stored, and leaves what follows it.
pub root_v2_read_from-write_to :
    (x : OcbRootV2) (bytes rest : List ℕ)
    → IsTyped x
    → write_to x ≡ ok bytes
    → read_from (bytes ++ rest) ≡ ok (record x { crc32c = crc32c (body x ++ write_u32 0) }, rest)
unfolding read_from
root_v2_read_from-write_to x bytes rest t h =
    let v : x.version ≡ format_major_v2 = (root_v2_write_to-ranges x bytes h).0 in
    rw (written x h)
      (read_sealed-Reads root_v2_len _ decode (body x) rest _ (length-body x t)
        (decode-Reads x _ _ t (rw v refl))).run
