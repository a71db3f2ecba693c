-- ===== src/Records/ColumnChunkDesc/Laws.antt =====
-- `OcbColumnChunkDescV1`: its length, and the round trip.
use arcadia_tio_rs.Base.{ℕ, ◌≡◌, sym, refl, List, length}
use arcadia_tio_rs.Error.{ok, then-eq-ok, ok-injective}
use arcadia_tio_rs.Bytes.Reads.{
  Reads, step, lifted, pure-Reads, read_u16-Reads, read_u32-Reads, read_u64-Reads,
}
use arcadia_tio_rs.Kinds.PhysicalType
use arcadia_tio_rs.Kinds.ChunkCodec
use arcadia_tio_rs.BodyRef.Laws as BodyRef
use arcadia_tio_rs.Records.ColumnChunkDesc.{
  OcbColumnChunkDescV1, IsTyped, check_writable, body, write_to,
}
use arcadia_tio_rs.Records.ColumnChunkDesc.Decode.{read_from}

pub length-body : (x : OcbColumnChunkDescV1) → length (body x) ≡ 96
unfolding body
length-body x = refl

pub write_to-eq-ok :
    (x : OcbColumnChunkDescV1) (bytes : List ℕ) → write_to x ≡ ok bytes → bytes ≡ body x
unfolding write_to
write_to-eq-ok x bytes h = sym (ok-injective ((then-eq-ok (check_writable x) _ h).1))

-- `read_from` reads back the record from the bytes that `write_to` writes, and leaves what follows.
pub read_from-Reads :
    (x : OcbColumnChunkDescV1) (rest : List ℕ) → IsTyped x → Reads read_from (body x) rest x
unfolding read_from body
read_from-Reads x rest t = step _ (read_u32-Reads x.row_group_id _ t.row_group_id_u32) (
    step _ (read_u32-Reads x.column_id _ t.column_id_u32) (
      step _ (read_u16-Reads _ _ (PhysicalType.to_u16-lt x.physical_type)) (
        lifted _ (PhysicalType.from_u16-to_u16 x.physical_type) (
          step _ (read_u16-Reads _ _ (ChunkCodec.to_u16-lt x.codec)) (
            lifted _ (ChunkCodec.from_u16-to_u16 x.codec) (
              step _ (read_u32-Reads x.flags _ t.flags_u32) (
                step _ (BodyRef.read_from-Reads x.value_ref _ t.value_ref_typed) (
                  step _ (BodyRef.read_from-Reads x.validity_ref _ t.validity_ref_typed) (
                    step _ (read_u64-Reads x.row_count _ t.row_count_u64) (
                      step _ (read_u64-Reads x.uncompressed_bytes _ t.uncompressed_bytes_u64)
                        (pure-Reads _ _)))))))))))
