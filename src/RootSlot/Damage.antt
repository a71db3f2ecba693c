-- ===== src/RootSlot/Damage.antt =====
-- A damaged root slot is refused.
use arcadia_tio_rs.Base.{ℕ, arith, ◌≡◌, ◌++◌, List, [], ◌∷◌, All, All-append, concat}
use arcadia_tio_rs.Error.{ok, err, ocb_corrupt_file}
use arcadia_tio_rs.Bytes.{IsByte, write_u16, write_u32, write_u64}
use arcadia_tio_rs.Bytes.Laws.{le_bytes-IsByte}
use arcadia_tio_rs.Crc.Detects.{OneByteOff}
use arcadia_tio_rs.Format.{root_slot_v2_len}
use arcadia_tio_rs.BodyRef
use arcadia_tio_rs.BodyRef.{OcbBodyRefV2}
use arcadia_tio_rs.Object.Laws.{read_sealed-damaged}
use arcadia_tio_rs.RootSlot.{OcbRootSlotV2, IsTyped, pieces, body, write_to}
use arcadia_tio_rs.RootSlot.Decode.{decode, read_from}
use arcadia_tio_rs.RootSlot.Laws.{length-body, written}

concat-IsByte : (bss : List (List ℕ)) → All (All IsByte) bss → All IsByte (concat bss)
concat-IsByte [] h = tt
concat-IsByte (bs ∷ bss) (h, hs) = All-append IsByte bs (concat bss) h (concat-IsByte bss hs)

ref-IsByte : (r : OcbBodyRefV2) → All IsByte (BodyRef.write_to r)
unfolding BodyRef.write_to write_u64 write_u32 write_u16
ref-IsByte r = omega arith

pieces-IsByte : (x : OcbRootSlotV2) → IsTyped x → All (All IsByte) (pieces x)
unfolding pieces write_u16 write_u32 write_u64
pieces-IsByte x t = (
  omega arith,
  (
    le_bytes-IsByte 2 x.version,
    (
      omega arith,
      (
        le_bytes-IsByte 2 x.slot_id,
        (
          le_bytes-IsByte 2 x.flags,
          (
            le_bytes-IsByte 8 x.generation,
            (
              ref-IsByte x.root_ref,
              (
                le_bytes-IsByte 8 x.previous_generation,
                (
                  ref-IsByte x.previous_root_ref,
                  (
                    ref-IsByte x.commit_diagnostics_ref,
                    (
                      le_bytes-IsByte 8 x.committed_unix_nanos,
                      (t.writer_version_bytes, (omega arith, tt)),
                    ),
                  ),
                ),
              ),
            ),
          ),
        ),
      ),
    ),
  ),
)

-- A root slot with fields of their Rust types that `write_to` wrote, and of which exactly one byte
-- was changed to another byte afterwards, is refused by `read_from` with the checksum error,
-- whatever follows it.
pub root_slot_damaged :
    (x : OcbRootSlotV2) (bytes damaged rest : List ℕ)
    → IsTyped x
    → write_to x ≡ ok bytes
    → All IsByte damaged
    → OneByteOff bytes damaged
    → read_from (damaged ++ rest) ≡ err (ocb_corrupt_file "OCB root slot crc mismatch")
unfolding read_from body
root_slot_damaged x bytes damaged rest t h hd off =
    read_sealed-damaged root_slot_v2_len "OCB root slot crc mismatch" decode (body x) damaged rest
      (length-body x t) (concat-IsByte (pieces x) (pieces-IsByte x t)) hd (rw (written x h) at off)
