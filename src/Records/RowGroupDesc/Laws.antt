-- ===== src/Records/RowGroupDesc/Laws.antt =====
-- `OcbRowGroupDescV1`: its length, and the round trip.
use arcadia_tio_rs.Base.{ℕ, ◌≡◌, sym, refl, arith, List, length}
use arcadia_tio_rs.Error.{ok, ok-injective}
use arcadia_tio_rs.Bytes.Reads.{Reads, step, pure-Reads, read_u32-Reads, read_u64-Reads}
use arcadia_tio_rs.BodyRef.Laws as BodyRef
use arcadia_tio_rs.Records.RowGroupDesc.{OcbRowGroupDescV1, IsTyped, body, write_to}
use arcadia_tio_rs.Records.RowGroupDesc.Decode.{read_from}

pub length-body : (x : OcbRowGroupDescV1) → length (body x) ≡ 120
unfolding body
length-body x = refl

pub write_to-eq-ok :
    (x : OcbRowGroupDescV1) (bytes : List ℕ) → write_to x ≡ ok bytes → bytes ≡ body x
unfolding write_to
write_to-eq-ok x bytes h = sym (ok-injective h)

-- `read_from` reads back the record from the bytes that `write_to` writes, and leaves what follows.
pub read_from-Reads :
    (x : OcbRowGroupDescV1) (rest : List ℕ) → IsTyped x → Reads read_from (body x) rest x
unfolding read_from body
read_from-Reads x rest t = step _ (read_u32-Reads x.row_group_id _ t.row_group_id_u32) (
    step _ (read_u32-Reads x.flags _ t.flags_u32) (
      step _ (read_u64-Reads x.base_row _ t.base_row_u64) (
        step _ (read_u64-Reads x.row_count _ t.row_count_u64) (
          step _ (read_u64-Reads x.chunk_desc_begin _ t.chunk_desc_begin_u64) (
            step _ (read_u32-Reads x.chunk_desc_count _ t.chunk_desc_count_u32) (
              step _ (read_u32-Reads 0 _ (omega arith)) (
                step _ (read_u64-Reads x.stat_begin _ t.stat_begin_u64) (
                  step _ (read_u32-Reads x.stat_count _ t.stat_count_u32) (
                    step _ (read_u32-Reads 0 _ (omega arith)) (
                      step _
                        (BodyRef.read_from-Reads x.first_key_tuple_ref _
                          t.first_key_tuple_ref_typed)
                        (step _
                          (BodyRef.read_from-Reads x.last_key_tuple_ref _
                            t.last_key_tuple_ref_typed)
                          (pure-Reads _ _))))))))))))
