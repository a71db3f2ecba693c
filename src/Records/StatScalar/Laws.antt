-- ===== src/Records/StatScalar/Laws.antt =====
-- `OcbStatScalarV1`: its length, and the round trip, the sign of an `i32` included.
use arcadia_tio_rs.Base.{ℕ, ◌%◌, ◌^◌, ◌≡◌, ap, refl, arith, List, length}
use arcadia_tio_rs.Error.{ok}
use arcadia_tio_rs.Bytes.{IsU64}
use arcadia_tio_rs.Bytes.Reads.{Reads, step, lifted, read_u16-Reads, read_u32-Reads, read_u64-Reads}
use arcadia_tio_rs.Object.Laws.{lift-Reads}
use arcadia_tio_rs.Kinds.PhysicalType
use arcadia_tio_rs.Records.StatScalar.{
  OcbStatScalarV1, i32, i64, f32, f64, IsTyped, physical_type_of, sign_extend, raw_of, write_to,
}
use arcadia_tio_rs.Records.StatScalar.Decode.{from_raw, read_from}

pub length-write_to : (x : OcbStatScalarV1) → length (write_to x) ≡ 16
unfolding write_to
length-write_to x = refl

raw_of-IsU64 : (x : OcbStatScalarV1) → IsTyped x → IsU64 (raw_of x)
unfolding raw_of
raw_of-IsU64 (i32 v) h = ground arith
raw_of-IsU64 (i64 v) h = h
raw_of-IsU64 (f32 v) h = omega arith
raw_of-IsU64 (f64 v) h = h

from_raw-raw_of :
    (x : OcbStatScalarV1) → IsTyped x → from_raw (physical_type_of x) (raw_of x) ≡ ok x
unfolding from_raw raw_of physical_type_of
from_raw-raw_of (i32 v) h =
    let e : sign_extend v % 2 ^ 32 ≡ v = ground arith in ap (λ w. ok (i32 w)) e
from_raw-raw_of (i64 v) h = refl
from_raw-raw_of (f32 v) h = let e : v % 2 ^ 32 ≡ v = omega arith in ap (λ w. ok (f32 w)) e
from_raw-raw_of (f64 v) h = refl

-- `read_from` reads back any scalar that `write_to` wrote, and leaves what follows it.
pub read_from-Reads :
    (x : OcbStatScalarV1) (rest : List ℕ) → IsTyped x → Reads read_from (write_to x) rest x
unfolding read_from write_to
read_from-Reads x rest t =
    step _ (read_u16-Reads _ _ (PhysicalType.to_u16-lt (physical_type_of x))) (
      lifted _ (PhysicalType.from_u16-to_u16 (physical_type_of x)) (
        step _ (read_u16-Reads 0 _ (omega arith)) (
          step _ (read_u64-Reads (raw_of x) _ (raw_of-IsU64 x t))
            (step _ (read_u32-Reads 0 _ (omega arith)) (lift-Reads rest (from_raw-raw_of x t))))))
