-- ===== src/ColumnChunk/Laws.antt =====
-- The column chunk: the round trip through `write_to` and `read_from_bytes`.
use arcadia_tio_rs.Base.{
  ℕ, ◌+◌, ◌-◌, ◌≡◌, ◌∙◌, refl, sym, ap, arith, List, ◌++◌, append_assoc, length, length-append,
  concat, total, length-concat, false, not, ◌==◌, ◌&&◌, take-append, String,
}
use arcadia_tio_rs.Error.{
  ArcadiaTioError, Result, ok, then-eq-ok, fail_if-eq-ok, ok-injective, ocb_invalid_input,
  ocb_corrupt_file,
}
use arcadia_tio_rs.Bytes
use arcadia_tio_rs.Bytes.{Reader, write_u16, write_u32, write_u64, bytes_eq, lift}
use arcadia_tio_rs.Bytes.Laws.{length-write_u16, length-write_u32, length-write_u64}
use arcadia_tio_rs.Bytes.Reads.{
  Reads, step, passed, lifted, pure-Reads, read_exact-Reads, read_u16-Reads, read_u32-Reads,
  read_u64-Reads, cursor-Reads,
}
use arcadia_tio_rs.Crc.{crc32c, seal}
use arcadia_tio_rs.Crc.Range.{unseal-seal}
use arcadia_tio_rs.Format.{column_chunk_magic_v1, column_chunk_v1_header_len}
use arcadia_tio_rs.Object.Laws.{sealed-eq-ok}
use arcadia_tio_rs.Kinds.{OcbPhysicalTypeV1, OcbChunkCodecV1}
use arcadia_tio_rs.Kinds.PhysicalType
use arcadia_tio_rs.Kinds.ChunkCodec
use arcadia_tio_rs.Table.{remaining_before_crc}
use arcadia_tio_rs.Table.Reads.{positioned, told}
use arcadia_tio_rs.ColumnChunk.{
  OcbColumnChunkObjectV1, IsTyped, check_value_bytes, check_encodable, front,
  encode_without_checksum, write_to,
}
use arcadia_tio_rs.ColumnChunk.Decode.{decode, read_from_bytes}

-- The bytes of the object, all but the trailer.
unfoldable pub body : OcbColumnChunkObjectV1 → List ℕ
body x = concat (front x) ++ x.payload

-- A check in the middle of a decoder.
did :
    {B : Type 0} {r : Result (Unit {0})} {k : Reader B} {cs rest : List ℕ} {b : B}
    → r ≡ ok tt
    → Reads k cs rest b
    → Reads (Bytes.◌>>◌ (lift r) k) cs rest b
unfolding Bytes.◌>>◌ lift
did h k = record { run = rw (h, lift) k.run }

check_value_bytes-any :
    (e f : String → ArcadiaTioError) (physical_type : OcbPhysicalTypeV1) (row_count value_bytes : ℕ)
    → check_value_bytes e physical_type row_count value_bytes ≡ ok tt
    → check_value_bytes f physical_type row_count value_bytes ≡ ok tt
unfolding check_value_bytes PhysicalType.primitive_byte_width
check_value_bytes-any e f OcbPhysicalTypeV1.i32 row_count value_bytes h = ground arith
check_value_bytes-any e f OcbPhysicalTypeV1.f32 row_count value_bytes h = ground arith
check_value_bytes-any e f OcbPhysicalTypeV1.i64 row_count value_bytes h = ground arith
check_value_bytes-any e f OcbPhysicalTypeV1.f64 row_count value_bytes h = ground arith
check_value_bytes-any e f OcbPhysicalTypeV1.fixed_binary row_count value_bytes h = refl

length-front : (x : OcbColumnChunkObjectV1) → length (concat (front x)) ≡ 44
unfolding front
length-front x = omega (
  arith,
  length-concat (front x),
  length-write_u16 x.version,
  length-write_u16 column_chunk_v1_header_len,
  length-write_u16 (PhysicalType.to_u16 x.physical_type),
  length-write_u16 (ChunkCodec.to_u16 x.codec),
  length-write_u32 x.flags,
  length-write_u32 x.row_group_id,
  length-write_u32 x.column_id,
  length-write_u64 x.row_count,
  length-write_u64 x.uncompressed_bytes,
)

remaining_payload :
    (total rest len : ℕ)
    → total ≡ 44 + len + 4
    → rest ≡ len + 4
    → remaining_before_crc total (total - rest) ≡ ok len
unfolding remaining_before_crc
remaining_payload total rest len h r = ground arith

-- The writer's checks, as the reader makes them.
encodable :
    (x : OcbColumnChunkObjectV1)
    → check_encodable x ≡ ok tt
    → (check_value_bytes ocb_corrupt_file x.physical_type x.row_count x.uncompressed_bytes ≡ ok tt)
      × ((ChunkCodec.eq x.codec OcbChunkCodecV1.none
            && not (length x.payload == x.uncompressed_bytes))
          ≡ false)
unfolding check_encodable
encodable x h =
    let (values, h1) =
      then-eq-ok
        (check_value_bytes ocb_invalid_input x.physical_type x.row_count x.uncompressed_bytes) _
        h in
    let (plain, _) = fail_if-eq-ok _ _ _ h1 in
    (
      check_value_bytes-any ocb_invalid_input ocb_corrupt_file x.physical_type x.row_count
          x.uncompressed_bytes values,
      plain,
    )

decode-Reads :
    (x : OcbColumnChunkObjectV1) (crc : ℕ)
    → IsTyped x
    → x.version ≡ 1
    → check_encodable x ≡ ok tt
    → Reads
        (decode (length (body x ++ write_u32 0)) crc)
        (concat (front x))
        (x.payload ++ write_u32 0)
        (record x { crc32c = crc })
unfolding decode body front bytes_eq
decode-Reads x crc t version_one h =
    let (values, plain) = encodable x h in
    let crc_size : length (write_u32 0) ≡ 4 = length-write_u32 0 in
    let left_size : length (x.payload ++ write_u32 0) ≡ length x.payload + 4 =
      omega (arith, length-append x.payload (write_u32 0), crc_size) in
    let whole_size : length ((concat (front x) ++ x.payload) ++ write_u32 0)
        ≡ 44 + length x.payload + 4 =
      omega (
        arith,
        length-append (concat (front x) ++ x.payload) (write_u32 0),
        length-append (concat (front x)) x.payload,
        length-front x,
        crc_size,
      ) in
    step _ (read_exact-Reads column_chunk_magic_v1 _ 8 refl) (
      passed _ refl (
        step _ (read_u16-Reads x.version _ t.version_u16) (
          passed _ (ap (λ v. not (v == 1)) version_one) (
            step _ (read_u16-Reads column_chunk_v1_header_len _ (omega arith)) (
              passed _ refl (
                step _ (read_u16-Reads _ _ (PhysicalType.to_u16-lt x.physical_type)) (
                  lifted _ (PhysicalType.from_u16-to_u16 x.physical_type) (
                    step _ (read_u16-Reads _ _ (ChunkCodec.to_u16-lt x.codec)) (
                      lifted _ (ChunkCodec.from_u16-to_u16 x.codec) (
                        step _ (read_u32-Reads x.flags _ t.flags_u32) (
                          step _ (read_u32-Reads x.row_group_id _ t.row_group_id_u32) (
                            step _ (read_u32-Reads x.column_id _ t.column_id_u32) (
                              step _ (read_u64-Reads x.row_count _ t.row_count_u64) (
                                step _
                                  (read_u64-Reads x.uncompressed_bytes _ t.uncompressed_bytes_u64)
                                  (did values (
                                    positioned _ _ (
                                      lifted _
                                        (remaining_payload _ _ (length x.payload) whole_size
                                          left_size)
                                        (passed _ plain (
                                          told _ (
                                            rw (take-append x.payload (write_u32 0))
                                              (pure-Reads _ _)))))))))))))))))))))

-- A column chunk whose fields have their Rust types, of version 1, that `write_to` wrote, is read
-- back by `read_from_bytes` with the checksum that was stored.
pub column_chunk_read_from-write_to :
    (x : OcbColumnChunkObjectV1) (bytes : List ℕ)
    → IsTyped x
    → x.version ≡ 1
    → write_to x ≡ ok bytes
    → read_from_bytes bytes ≡ ok (record x { crc32c = crc32c (body x ++ write_u32 0) })
unfolding write_to read_from_bytes encode_without_checksum body
column_chunk_read_from-write_to x bytes t version_one h =
    let (buf, e, whole) = sealed-eq-ok (encode_without_checksum x) h in
    let (checked, same) = then-eq-ok (check_encodable x) _ e in
    rw (whole ∙ ap seal (sym (ok-injective same))) (
      rw (unseal-seal "OCB column chunk crc mismatch" (concat (front x) ++ x.payload)) (
        rw (append_assoc (concat (front x)) x.payload (write_u32 0))
          (cursor-Reads (decode-Reads x _ t version_one checked))))
