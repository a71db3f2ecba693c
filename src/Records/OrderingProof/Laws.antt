-- ===== src/Records/OrderingProof/Laws.antt =====
-- `OcbRowGroupOrderingProofV1`: its length, and the round trip.
use arcadia_tio_rs.Base.{ℕ, ◌≡◌, sym, refl, List, length}
use arcadia_tio_rs.Error.{ok, then-eq-ok, ok-injective}
use arcadia_tio_rs.Bytes.Reads.{Reads, step, pure-Reads, read_u32-Reads}
use arcadia_tio_rs.BodyRef.Laws as BodyRef
use arcadia_tio_rs.Records.OrderingProof.{
  OcbRowGroupOrderingProofV1, IsTyped, check_writable, body, write_to,
}
use arcadia_tio_rs.Records.OrderingProof.Decode.{read_from}

pub length-body : (x : OcbRowGroupOrderingProofV1) → length (body x) ≡ 72
unfolding body
length-body x = refl

pub write_to-eq-ok :
    (x : OcbRowGroupOrderingProofV1) (bytes : List ℕ) → write_to x ≡ ok bytes → bytes ≡ body x
unfolding write_to
write_to-eq-ok x bytes h = sym (ok-injective ((then-eq-ok (check_writable x) _ h).1))

-- `read_from` reads back the record from the bytes that `write_to` writes, and leaves what follows.
pub read_from-Reads :
    (x : OcbRowGroupOrderingProofV1) (rest : List ℕ) → IsTyped x → Reads read_from (body x) rest x
unfolding read_from body
read_from-Reads x rest t = step _ (read_u32-Reads x.row_group_id _ t.row_group_id_u32) (
    step _ (read_u32-Reads x.flags _ t.flags_u32) (
      step _ (BodyRef.read_from-Reads x.first_tuple_ref _ t.first_tuple_ref_typed) (
        step _ (BodyRef.read_from-Reads x.last_tuple_ref _ t.last_tuple_ref_typed)
          (pure-Reads _ _))))
