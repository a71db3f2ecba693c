-- ===== src/Records/StatScalar/Decode.antt =====
-- `OcbStatScalarV1::read_from`.
use arcadia_tio_rs.Base.{ℕ, ◌%◌, ◌^◌}
use arcadia_tio_rs.Error.{Result, ok, err, ocb_corrupt_file}
use arcadia_tio_rs.Bytes.{Reader, ◌>>=◌, lift, read_u16, read_u32, read_u64}
use arcadia_tio_rs.Kinds.{OcbPhysicalTypeV1}
use arcadia_tio_rs.Kinds.PhysicalType
use arcadia_tio_rs.Records.StatScalar.{OcbStatScalarV1, i32, i64, f32, f64}

-- The `match` on the type; `raw as i64 as i32` and `raw as u32` keep the low 32 bits.
unfoldable pub from_raw : OcbPhysicalTypeV1 → ℕ → Result OcbStatScalarV1
from_raw OcbPhysicalTypeV1.i32 raw = ok (i32 (raw % 2 ^ 32))
from_raw OcbPhysicalTypeV1.i64 raw = ok (i64 raw)
from_raw OcbPhysicalTypeV1.f32 raw = ok (f32 (raw % 2 ^ 32))
from_raw OcbPhysicalTypeV1.f64 raw = ok (f64 raw)
from_raw OcbPhysicalTypeV1.fixed_binary raw =
    err (ocb_corrupt_file "OCB fixed-binary columns do not support scalar stats")

unfoldable pub read_from : Reader OcbStatScalarV1
read_from = do
  physical_type_code ← read_u16
  physical_type ← lift (PhysicalType.from_u16 physical_type_code)
  reserved_0 ← read_u16
  raw ← read_u64
  reserved_1 ← read_u32
  lift (from_raw physical_type raw)
