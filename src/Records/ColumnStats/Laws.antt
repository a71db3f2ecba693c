-- ===== src/Records/ColumnStats/Laws.antt =====
-- `OcbColumnStatsV1`: its length, and the round trip.
use arcadia_tio_rs.Base.{ℕ, ◌≡◌, sym, arith, List, length, false}
use arcadia_tio_rs.Error.{ok, then-eq-ok, ok-injective}
use arcadia_tio_rs.Bytes.Reads.{
  Reads, step, passed, lifted, pure-Reads, read_u16-Reads, read_u32-Reads,
}
use arcadia_tio_rs.Kinds.PhysicalType
use arcadia_tio_rs.Records.StatScalar.Laws as StatScalar
use arcadia_tio_rs.Records.ColumnStats.{
  OcbColumnStatsV1, IsTyped, types_differ, check_writable, body, write_to,
}
use arcadia_tio_rs.Records.ColumnStats.Decode.{read_from}

pub length-body : (x : OcbColumnStatsV1) → length (body x) ≡ 48
unfolding body
length-body x =
    omega (arith, StatScalar.length-write_to x.min_value, StatScalar.length-write_to x.max_value)

pub write_to-eq-ok :
    (x : OcbColumnStatsV1) (bytes : List ℕ) → write_to x ≡ ok bytes → bytes ≡ body x
unfolding write_to
write_to-eq-ok x bytes h = sym (ok-injective ((then-eq-ok (check_writable x) _ h).1))

-- `read_from` reads back the record from the bytes that `write_to` writes, and leaves what follows.
pub read_from-Reads :
    (x : OcbColumnStatsV1) (rest : List ℕ)
    → IsTyped x
    → types_differ x ≡ false
    → Reads read_from (body x) rest x
unfolding read_from body types_differ
read_from-Reads x rest t same = step _ (read_u32-Reads x.row_group_id _ t.row_group_id_u32) (
    step _ (read_u32-Reads x.column_id _ t.column_id_u32) (
      step _ (read_u16-Reads _ _ (PhysicalType.to_u16-lt x.physical_type)) (
        lifted _ (PhysicalType.from_u16-to_u16 x.physical_type) (
          step _ (read_u16-Reads x.flags _ t.flags_u16) (
            step _ (read_u32-Reads x.null_count _ t.null_count_u32) (
              step _ (StatScalar.read_from-Reads x.min_value _ t.min_value_typed) (
                step _ (StatScalar.read_from-Reads x.max_value _ t.max_value_typed)
                  (passed _ same (pure-Reads _ _)))))))))
