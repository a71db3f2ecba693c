-- ===== src/Records/ColumnDesc/Laws.antt =====
-- `OcbColumnDescV1`: its length, and the round trip.
use arcadia_tio_rs.Base.{ℕ, ◌≡◌, sym, refl, List, length}
use arcadia_tio_rs.Error.{ok, then-eq-ok, ok-injective}
use arcadia_tio_rs.Bytes.Reads.{
  Reads, step, lifted, pure-Reads, read_u16-Reads, read_u32-Reads, read_i32-Reads,
}
use arcadia_tio_rs.Kinds.PhysicalType
use arcadia_tio_rs.Kinds.LogicalKind
use arcadia_tio_rs.Kinds.Nullability
use arcadia_tio_rs.Records.ColumnDesc.{OcbColumnDescV1, IsTyped, check_writable, body, write_to}
use arcadia_tio_rs.Records.ColumnDesc.Decode.{read_from}

pub length-body : (x : OcbColumnDescV1) → length (body x) ≡ 32
unfolding body
length-body x = refl

pub write_to-eq-ok : (x : OcbColumnDescV1) (bytes : List ℕ) → write_to x ≡ ok bytes → bytes ≡ body x
unfolding write_to
write_to-eq-ok x bytes h = sym (ok-injective ((then-eq-ok (check_writable x) _ h).1))

-- `read_from` reads back the record from the bytes that `write_to` writes, and leaves what follows.
pub read_from-Reads :
    (x : OcbColumnDescV1) (rest : List ℕ) → IsTyped x → Reads read_from (body x) rest x
unfolding read_from body
read_from-Reads x rest t = step _ (read_u32-Reads x.column_id _ t.column_id_u32) (
    step _ (read_u32-Reads x.name_string_id _ t.name_string_id_u32) (
      step _ (read_u16-Reads _ _ (PhysicalType.to_u16-lt x.physical_type)) (
        lifted _ (PhysicalType.from_u16-to_u16 x.physical_type) (
          step _ (read_u16-Reads _ _ (LogicalKind.to_u16-lt x.logical_kind)) (
            lifted _ (LogicalKind.from_u16-to_u16 x.logical_kind) (
              step _ (read_u32-Reads x.flags _ t.flags_u32) (
                step _ (read_u32-Reads x.dictionary_id _ t.dictionary_id_u32) (
                  step _ (read_i32-Reads x.scale _ t.scale_i32) (
                    step _ (read_u16-Reads _ _ (Nullability.to_u16-lt x.nullability)) (
                      lifted _ (Nullability.from_u16-to_u16 x.nullability) (
                        step _ (read_u16-Reads x.reserved0 _ t.reserved0_u16) (
                          step _ (read_u32-Reads x.fixed_binary_width _ t.fixed_binary_width_u32)
                            (pure-Reads _ _)))))))))))))
