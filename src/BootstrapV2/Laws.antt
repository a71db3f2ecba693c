-- ===== src/BootstrapV2/Laws.antt =====
-- The version 2 bootstrap page: round trip, and what a new slot table leaves unchanged.
use arcadia_tio_rs.Base.{
  ℕ, ◌-◌, ◌≡◌, ◌∙◌, ap, sym, refl, arith, List, [], ◌++◌, length, length-append, length-concat,
  concat, take, drop, append_assoc, not, ◌==◌, ◌||◌, ltb, eq→==, false, append-nil,
}
use arcadia_tio_rs.Error.{Result, ok, fail_if-eq-ok, then-eq-ok, >>=-eq-ok, ok-injective}
use arcadia_tio_rs.Error
use arcadia_tio_rs.Bytes.{le_bytes, zeros, write_u32, write_u32_at_end, bytes_eq, cursor}
use arcadia_tio_rs.Bytes.Laws.{
  length-le_bytes, length-zeros, write_u32_at_end-append, read_u32_at_end-append,
}
use arcadia_tio_rs.Bytes.Reads.{
  Reads, step, passed, lifted, pure-Reads, read_exact-Reads, read_u16-Reads, read_u32-Reads,
  cursor-Reads,
}
use arcadia_tio_rs.Crc.{crc32c}
use arcadia_tio_rs.Crc.Range.{crc32c-IsU32}
use arcadia_tio_rs.Object.Laws.{lift-Reads}
use arcadia_tio_rs.Format.{
  format_major_v2, format_minor_v2, bootstrap_page_v2_len, bootstrap_magic_v2, root_slot_v2_len,
}
use arcadia_tio_rs.BootstrapV2.{
  OcbBootstrapPageV2, IsTyped, check_encodable, pieces, header, resize, encode_without_checksum,
  bootstrap_crc32c, write_to,
}
use arcadia_tio_rs.BootstrapV2.Decode.{decode, decode_page, slot_at, read_from}
use arcadia_tio_rs.BootstrapV2.Page.{
  front, front-append, take-front, drop-front, length-front, bootstrap_crc32c-front, slot_at_zero,
  slot_at_one,
}

length-pieces : (x : OcbBootstrapPageV2) → IsTyped x → length (concat (pieces x)) ≡ 36
unfolding pieces
length-pieces x t = omega (arith, length-concat (pieces x), t.file_uuid_size)

length-header : (x : OcbBootstrapPageV2) → IsTyped x → length (header x) ≡ 64
unfolding header
length-header x t = omega (
  arith,
  length-pieces x t,
  length-append (concat (pieces x)) (zeros (64 - length (concat (pieces x)))),
  length-zeros (64 - length (concat (pieces x))),
)

decode-Reads :
    (x : OcbBootstrapPageV2) (crc : ℕ) (slot0 slot1 rest : List ℕ)
    → IsTyped x
    → (not (x.format_major == format_major_v2) || ltb format_minor_v2 x.format_minor) ≡ false
    → not (x.page_size == bootstrap_page_v2_len) ≡ false
    → Reads
        (decode crc slot0 slot1)
        (concat (pieces x))
        rest
        (record x { slot0 = slot0; slot1 = slot1; crc32c_field = crc })
unfolding decode pieces bytes_eq
decode-Reads x crc slot0 slot1 rest t supported whole_page =
    step _ (read_exact-Reads bootstrap_magic_v2 _ 8 refl) (
      passed _ refl (
        step _ (read_u16-Reads x.format_major _ t.format_major_u16) (
          step _ (read_u16-Reads x.format_minor _ t.format_minor_u16) (
            passed _ supported (
              step _ (read_u32-Reads x.flags _ t.flags_u32) (
                step _ (read_u32-Reads x.page_size _ t.page_size_u32) (
                  passed _ whole_page (
                    step _ (read_exact-Reads x.file_uuid _ 16 t.file_uuid_size)
                      (pure-Reads _ _)))))))))

-- The checksum of a page with the header of `x`, whatever its slots.
pub page_crc : OcbBootstrapPageV2 → ℕ
page_crc x = crc32c (front (header x) (zeros 320) ++ le_bytes 4 0)

unfoldable pub page_of : OcbBootstrapPageV2 → List ℕ → List ℕ → List ℕ
page_of x slot0 slot1 = front (header x) (slot0 ++ slot1) ++ le_bytes 4 (page_crc x)

length-page_of :
    (x : OcbBootstrapPageV2) (slot0 slot1 : List ℕ)
    → IsTyped x
    → length slot0 ≡ 160
    → length slot1 ≡ 160
    → length (page_of x slot0 slot1) ≡ 4096
unfolding page_of
length-page_of x slot0 slot1 t h0 h1 = omega (
  arith,
  length-append (front (header x) (slot0 ++ slot1)) (le_bytes 4 (page_crc x)),
  length-front (header x) (slot0 ++ slot1) (length-header x t)
      (omega (arith, length-append slot0 slot1)),
  length-le_bytes 4 (page_crc x),
)

-- The cursor's part: the header's fields, and the slots where the table has them.
cursor-page :
    (x : OcbBootstrapPageV2) (crc : ℕ) (slot0 slot1 trailer : List ℕ)
    → IsTyped x
    → length slot0 ≡ 160
    → length slot1 ≡ 160
    → (not (x.format_major == format_major_v2) || ltb format_minor_v2 x.format_minor) ≡ false
    → not (x.page_size == bootstrap_page_v2_len) ≡ false
    → (let buf = front (header x) (slot0 ++ slot1) ++ trailer in
        cursor (decode crc (slot_at 0 buf) (slot_at 1 buf)) buf
        ≡ ok (record x { slot0 = slot0; slot1 = slot1; crc32c_field = crc }))
unfolding header
cursor-page x crc slot0 slot1 trailer t h0 h1 supported whole_page =
    let h : length (header x) ≡ 64 = length-header x t in
    let pad : List ℕ = zeros (64 - length (concat (pieces x))) in
    rw (slot_at_zero (header x) slot0 slot1 trailer h h0) (
      rw (slot_at_one (header x) slot0 slot1 trailer h h0 h1) (
        ap (cursor (decode crc slot0 slot1)) (
          front-append (header x) (slot0 ++ slot1) trailer ∙ append_assoc (concat (pieces x)) pad _)
        ∙ cursor-Reads (decode-Reads x crc slot0 slot1 _ t supported whole_page)))

decode_page-page_of :
    (x : OcbBootstrapPageV2) (slot0 slot1 rest : List ℕ)
    → IsTyped x
    → length slot0 ≡ 160
    → length slot1 ≡ 160
    → (not (x.format_major == format_major_v2) || ltb format_minor_v2 x.format_minor) ≡ false
    → not (x.page_size == bootstrap_page_v2_len) ≡ false
    → Reads
        (decode_page (page_of x slot0 slot1))
        []
        rest
        (record x { slot0 = slot0; slot1 = slot1; crc32c_field = page_crc x })
unfolding decode_page page_of page_crc
decode_page-page_of x slot0 slot1 rest t h0 h1 supported whole_page =
    let h : length (header x) ≡ 64 = length-header x t in
    let table : length (slot0 ++ slot1) ≡ 320 = omega (arith, length-append slot0 slot1) in
    let trailer : List ℕ = le_bytes 4 (page_crc x) in
    let equal : not (page_crc x == page_crc x) ≡ false = ap not (eq→== (page_crc x) _ refl) in
    lifted _
      (read_u32_at_end-append (front (header x) (slot0 ++ slot1)) (page_crc x) (crc32c-IsU32 _))
      (lifted _
        (bootstrap_crc32c-front (header x) (slot0 ++ slot1) trailer h table (length-le_bytes 4 _))
        (passed _ equal (
          lift-Reads rest
            (cursor-page x (page_crc x) slot0 slot1 trailer t h0 h1 supported whole_page))))

read_from-page_of :
    (x : OcbBootstrapPageV2) (slot0 slot1 rest : List ℕ)
    → IsTyped x
    → length slot0 ≡ 160
    → length slot1 ≡ 160
    → (not (x.format_major == format_major_v2) || ltb format_minor_v2 x.format_minor) ≡ false
    → not (x.page_size == bootstrap_page_v2_len) ≡ false
    → read_from (page_of x slot0 slot1 ++ rest)
      ≡ ok (record x { slot0 = slot0; slot1 = slot1; crc32c_field = page_crc x }, rest)
unfolding read_from
read_from-page_of x slot0 slot1 rest t h0 h1 supported whole_page =
    let buf : List ℕ = page_of x slot0 slot1 in
    let r : Reads read_from (buf ++ []) rest _ =
      step _ (read_exact-Reads buf rest 4096 (length-page_of x slot0 slot1 t h0 h1))
        (decode_page-page_of x slot0 slot1 rest t h0 h1 supported whole_page) in
    (rw append-nil at r).run

resize-front :
    (x : OcbBootstrapPageV2)
    → IsTyped x
    → resize (bootstrap_page_v2_len - 4) (header x ++ (x.slot0 ++ x.slot1))
      ≡ front (header x) (x.slot0 ++ x.slot1)
unfolding front
resize-front x t =
    let table : List ℕ = x.slot0 ++ x.slot1 in
    let size : length (header x ++ table) ≡ 384 = omega (
      arith,
      length-append (header x) table,
      length-append x.slot0 x.slot1,
      length-header x t,
      t.slot0_size,
      t.slot1_size,
    ) in
    rw size (append_assoc (header x) table (zeros 3708))

-- The last step of `write_to`: the checksum over the trailer.
stamped :
    (x : OcbBootstrapPageV2) (buf : List ℕ)
    → IsTyped x
    → buf ≡ front (header x) (x.slot0 ++ x.slot1) ++ write_u32 0
    → Error.◌>>=◌ (bootstrap_crc32c buf) (λ checksum. ok (write_u32_at_end buf checksum))
      ≡ ok (page_of x x.slot0 x.slot1)
unfolding page_of page_crc write_u32
stamped x buf t e =
    let h : length (header x) ≡ 64 = length-header x t in
    let table : length (x.slot0 ++ x.slot1) ≡ 320 =
      omega (arith, length-append x.slot0 x.slot1, t.slot0_size, t.slot1_size) in
    rw e (
      rw (bootstrap_crc32c-front (header x) (x.slot0 ++ x.slot1) (le_bytes 4 0) h table refl) (
        ap ok
          (write_u32_at_end-append (front (header x) (x.slot0 ++ x.slot1)) (le_bytes 4 0) _ refl)))

-- What `write_to` accepts and writes.
written :
    (x : OcbBootstrapPageV2) {bytes : List ℕ}
    → IsTyped x
    → write_to x ≡ ok bytes
    → ((not (x.format_major == format_major_v2) || ltb format_minor_v2 x.format_minor) ≡ false)
      × (not (x.page_size == bootstrap_page_v2_len) ≡ false)
      × (bytes ≡ page_of x x.slot0 x.slot1)
unfolding write_to
written x t h =
    let (buf, e, w) = >>=-eq-ok (encode_without_checksum x) _ h in
    let (checked, same) = then-eq-ok (check_encodable x) _ e in
    let (size, more) = fail_if-eq-ok _ _ _ checked in
    let (supported, done) = fail_if-eq-ok _ _ _ more in
    let layout : buf ≡ front (header x) (x.slot0 ++ x.slot1) ++ write_u32 0 =
      sym (ok-injective same) ∙ ap (λ b. b ++ write_u32 0) (resize-front x t) in
    (supported, size, ok-injective (sym w ∙ stamped x buf t layout))

-- A page that passes the checks is written.
pub write_to-page_of :
    (x : OcbBootstrapPageV2)
    → IsTyped x
    → check_encodable x ≡ ok tt
    → write_to x ≡ ok (page_of x x.slot0 x.slot1)
unfolding write_to encode_without_checksum
write_to-page_of x t checked =
    rw checked (stamped x _ t (ap (λ b. b ++ write_u32 0) (resize-front x t)))

-- `read_from` reads back any version 2 page with fields of their Rust types that `write_to` wrote,
-- with the checksum that was stored, and leaves what follows it.
pub bootstrap_v2_read_from-write_to :
    (x : OcbBootstrapPageV2) (bytes rest : List ℕ)
    → IsTyped x
    → write_to x ≡ ok bytes
    → read_from (bytes ++ rest) ≡ ok (record x { crc32c_field = page_crc x }, rest)
bootstrap_v2_read_from-write_to x bytes rest t h =
    let (supported, whole_page, same) = written x t h in
    rw same
      (read_from-page_of x x.slot0 x.slot1 rest t t.slot0_size t.slot1_size supported whole_page)

-- Whatever is written over the two slots of a page on disk, torn or not, the page still opens: it
-- has the header as written, the checksum as stored and the new slots.
pub bootstrap_v2_read_from-overwritten :
    (x : OcbBootstrapPageV2) (bytes slot0 slot1 rest : List ℕ)
    → IsTyped x
    → write_to x ≡ ok bytes
    → length slot0 ≡ root_slot_v2_len
    → length slot1 ≡ root_slot_v2_len
    → read_from ((take 64 bytes ++ ((slot0 ++ slot1) ++ drop 384 bytes)) ++ rest)
      ≡ ok (record x { slot0 = slot0; slot1 = slot1; crc32c_field = page_crc x }, rest)
unfolding page_of
bootstrap_v2_read_from-overwritten x bytes slot0 slot1 rest t h h0 h1 =
    let (supported, whole_page, same) = written x t h in
    let head : length (header x) ≡ 64 = length-header x t in
    let table : length (x.slot0 ++ x.slot1) ≡ 320 =
      omega (arith, length-append x.slot0 x.slot1, t.slot0_size, t.slot1_size) in
    let trailer : List ℕ = le_bytes 4 (page_crc x) in
    let parts : take 64 bytes ++ ((slot0 ++ slot1) ++ drop 384 bytes) ≡ page_of x slot0 slot1 =
      rw same (
        rw (take-front (header x) (x.slot0 ++ x.slot1) trailer head) (
          rw (drop-front (header x) (x.slot0 ++ x.slot1) trailer head table)
            (sym (front-append (header x) (slot0 ++ slot1) trailer)))) in
    rw parts (read_from-page_of x slot0 slot1 rest t h0 h1 supported whole_page)
