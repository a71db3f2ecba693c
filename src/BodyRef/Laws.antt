-- ===== src/BodyRef/Laws.antt =====
-- The body reference: its size, its round trip, and what `validate` accepts.
use arcadia_tio_rs.Base.{ℕ, ◌≡◌, refl, List, length}
use arcadia_tio_rs.Bytes.Reads.{
  Reads, step, lifted, pure-Reads, read_u16-Reads, read_u32-Reads, read_u64-Reads,
}
use arcadia_tio_rs.Kinds.BodyKind
use arcadia_tio_rs.Kinds.ChecksumKind
use arcadia_tio_rs.BodyRef.{OcbBodyRefV2, IsTyped, write_to}
use arcadia_tio_rs.BodyRef.Decode.{read_from}

pub length-write_to : (r : OcbBodyRefV2) → length (write_to r) ≡ 32
unfolding write_to
length-write_to r = refl

-- `read_from` reads back any reference that `write_to` wrote, and leaves what follows it.
pub read_from-Reads :
    (r : OcbBodyRefV2) (rest : List ℕ) → IsTyped r → Reads read_from (write_to r) rest r
unfolding read_from write_to
read_from-Reads r rest t = step _ (read_u64-Reads r.offset _ t.offset_u64) (
    step _ (read_u64-Reads r.size _ t.size_u64) (
      step _ (read_u16-Reads _ _ (BodyKind.to_u16-lt r.kind)) (
        lifted _ (BodyKind.from_u16-to_u16 r.kind) (
          step _ (read_u16-Reads r.flags _ t.flags_u16) (
            step _ (read_u16-Reads _ _ (ChecksumKind.to_u16-lt r.checksum_kind)) (
              lifted _ (ChecksumKind.from_u16-to_u16 r.checksum_kind) (
                step _ (read_u16-Reads r.reserved0 _ t.reserved0_u16) (
                  step _ (read_u32-Reads r.checksum _ t.checksum_u32)
                    (step _ (read_u32-Reads r.reserved1 _ t.reserved1_u32) (pure-Reads _ _))))))))))
