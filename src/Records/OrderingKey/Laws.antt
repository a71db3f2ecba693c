-- ===== src/Records/OrderingKey/Laws.antt =====
-- `OcbOrderingKeyV1`: its length, and the round trip.
use arcadia_tio_rs.Base.{ℕ, ◌≡◌, sym, refl, List, [], ◌∷◌, length}
use arcadia_tio_rs.Error.{ok, ok-injective}
use arcadia_tio_rs.Bytes.Reads.{
  Reads, step, lifted, pure-Reads, read_exact-Reads, read_u16-Reads, read_u32-Reads,
}
use arcadia_tio_rs.Kinds.OrderingDirection
use arcadia_tio_rs.Kinds.NullOrder
use arcadia_tio_rs.Records.OrderingKey.{OcbOrderingKeyV1, IsTyped, body, write_to}
use arcadia_tio_rs.Records.OrderingKey.Decode.{read_from}

pub length-body : (x : OcbOrderingKeyV1) → length (body x) ≡ 8
unfolding body
length-body x = refl

pub write_to-eq-ok :
    (x : OcbOrderingKeyV1) (bytes : List ℕ) → write_to x ≡ ok bytes → bytes ≡ body x
unfolding write_to
write_to-eq-ok x bytes h = sym (ok-injective h)

-- `read_from` reads back the record from the bytes that `write_to` writes, and leaves what follows.
pub read_from-Reads :
    (x : OcbOrderingKeyV1) (rest : List ℕ) → IsTyped x → Reads read_from (body x) rest x
unfolding read_from body
read_from-Reads x rest t = step _ (read_u32-Reads x.column_id _ t.column_id_u32) (
    step _
      (read_exact-Reads (OrderingDirection.to_u8 x.direction ∷ NullOrder.to_u8 x.null_order ∷ []) _
        2 refl)
      (lifted _ (OrderingDirection.from_u8-to_u8 x.direction) (
        lifted _ (NullOrder.from_u8-to_u8 x.null_order)
          (step _ (read_u16-Reads x.reserved0 _ t.reserved0_u16) (pure-Reads _ _)))))
