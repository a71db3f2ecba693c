-- ===== src/BootstrapV1/Laws.antt =====
-- `OcbBootstrapPageV1`: its length, the round trip through `write_to`, and damage.
use arcadia_tio_rs.Base.{
  ℕ, ◌+◌, ◌≡◌, ◌∙◌, refl, arith, List, ◌++◌, length, length-concat, false, not, ◌==◌, ltb, ◌||◌,
  ne_false, length-append, length-replicate, ◌-◌,
}
use arcadia_tio_rs.Error.{ok, fail_if-eq-ok, then-eq-ok}
use arcadia_tio_rs.Bytes.{write_u32, bytes_eq}
use arcadia_tio_rs.Bytes.Reads.{
  Reads, step, passed, pure-Reads, read_exact-Reads, read_u16-Reads, read_u32-Reads,
}
use arcadia_tio_rs.Crc.{crc32c, seal}
use arcadia_tio_rs.Format.{
  format_major_v1, format_minor_v1, bootstrap_page_v1_len, bootstrap_magic_v1,
}
use arcadia_tio_rs.BodyRef.Laws as BodyRef
use arcadia_tio_rs.Object.Laws.{sealed-eq-ok, read_sealed-Reads_padded, length-seal}
use arcadia_tio_rs.BootstrapV1.{
  OcbBootstrapPageV1, IsTyped, check_encodable, padding, pieces, body, encode_without_checksum,
  write_to,
}
use arcadia_tio_rs.BootstrapV1.Decode.{decode, read_from}

pub length-body : (x : OcbBootstrapPageV1) → IsTyped x → length (body x) ≡ 68
unfolding body pieces
length-body x t = omega (arith, length-concat (pieces x), t.file_uuid_size)

decode-Reads :
    (x : OcbBootstrapPageV1) (crc : ℕ) (rest : List ℕ)
    → IsTyped x
    → (not (x.format_major == format_major_v1) || ltb format_minor_v1 x.format_minor) ≡ false
    → not (x.page_size == bootstrap_page_v1_len) ≡ false
    → Reads (decode crc) (body x) rest (record x { crc32c = crc })
unfolding decode body pieces bytes_eq
decode-Reads x crc rest t supported whole_page =
    step _ (read_exact-Reads bootstrap_magic_v1 _ 8 refl) (
      passed _ refl (
        step _ (read_u16-Reads x.format_major _ t.format_major_u16) (
          step _ (read_u16-Reads x.format_minor _ t.format_minor_u16) (
            passed _ supported (
              step _ (read_u32-Reads x.flags _ t.flags_u32) (
                step _ (read_u32-Reads x.page_size _ t.page_size_u32) (
                  passed _ whole_page (
                    step _ (read_exact-Reads x.file_uuid _ 16 t.file_uuid_size) (
                      step _ (BodyRef.read_from-Reads x.root_ref _ t.root_ref_typed)
                        (pure-Reads _ _))))))))))

written :
    (x : OcbBootstrapPageV1) {bytes : List ℕ}
    → write_to x ≡ ok bytes
    → (x.page_size ≡ bootstrap_page_v1_len)
      × (bytes ≡ seal ((body x ++ padding (bootstrap_page_v1_len - 4) (body x)) ++ write_u32 0))
unfolding write_to encode_without_checksum check_encodable
written x h =
    let (buf, e, whole) = sealed-eq-ok (encode_without_checksum x) h in
    let (checked, same) = then-eq-ok (check_encodable x) _ e in
    let (size, more) = fail_if-eq-ok _ _ _ checked in (ne_false _ _ size, whole ∙ cc same)

length-page :
    (x : OcbBootstrapPageV1)
    → IsTyped x
    → length (body x ++ padding (bootstrap_page_v1_len - 4) (body x)) + 4 ≡ bootstrap_page_v1_len
length-page x t = omega (
  arith,
  length-append (body x) (padding (bootstrap_page_v1_len - 4) (body x)),
  length-replicate {0} {A = ℕ} (bootstrap_page_v1_len - 4 - length (body x)) 0,
  length-body x t,
)

-- `write_to` writes one page.
pub length-write_to :
    (x : OcbBootstrapPageV1) (bytes : List ℕ)
    → IsTyped x
    → write_to x ≡ ok bytes
    → length bytes ≡ bootstrap_page_v1_len
length-write_to x bytes t h = rw ((written x h).1) (length-seal _ ∙ length-page x t)

-- `read_from` reads back any version 1 page with fields of their Rust types and the version
-- numbers of format 1 that `write_to` wrote, with the checksum that was stored, and leaves what
-- follows it.
pub bootstrap_v1_read_from-write_to :
    (x : OcbBootstrapPageV1) (bytes rest : List ℕ)
    → IsTyped x
    → x.format_major ≡ format_major_v1
    → x.format_minor ≡ format_minor_v1
    → write_to x ≡ ok bytes
    → read_from (bytes ++ rest)
      ≡ ok (
        record x {
          crc32c = crc32c ((body x ++ padding (bootstrap_page_v1_len - 4) (body x)) ++ write_u32 0);
        },
        rest,
      )
unfolding read_from
bootstrap_v1_read_from-write_to x bytes rest t major minor h =
    let (size, whole) = written x h in
    rw whole
      (read_sealed-Reads_padded bootstrap_page_v1_len _ decode (body x) _ rest _ (length-page x t)
        (decode-Reads x _ _ t (rw major (rw minor refl)) (rw size refl))).run
