-- ===== src/Records/StatScalar.antt =====
-- `OcbStatScalarV1` of crates/arcadia-tio-ocb-core/src/format.rs. Every number is its bit pattern:
-- 32 bits for an `i32` and an `f32`, 64 bits for the others.
pub mod Decode
pub mod Laws
use arcadia_tio_rs.Base.{ℕ, ◌+◌, ◌-◌, ◌^◌, List, [], ◌∷◌, ◌++◌, concat, leb, if◌then◌else◌}
use arcadia_tio_rs.Bytes.{write_u16, write_u32, write_u64, IsU32, IsU64}
use arcadia_tio_rs.Kinds.{OcbPhysicalTypeV1}
use arcadia_tio_rs.Kinds.PhysicalType

pub data OcbStatScalarV1 : Type 0 where
  i32 : ℕ → OcbStatScalarV1
  i64 : ℕ → OcbStatScalarV1
  f32 : ℕ → OcbStatScalarV1
  f64 : ℕ → OcbStatScalarV1

abbrev pub IsTyped : OcbStatScalarV1 → Type 0
IsTyped (i32 v) = IsU32 v
IsTyped (i64 v) = IsU64 v
IsTyped (f32 v) = IsU32 v
IsTyped (f64 v) = IsU64 v

-- `physical_type`.
unfoldable pub physical_type_of : OcbStatScalarV1 → OcbPhysicalTypeV1
physical_type_of (i32 v) = OcbPhysicalTypeV1.i32
physical_type_of (i64 v) = OcbPhysicalTypeV1.i64
physical_type_of (f32 v) = OcbPhysicalTypeV1.f32
physical_type_of (f64 v) = OcbPhysicalTypeV1.f64

-- `value as i64 as u64` of an `i32`: the sign fills the upper half.
unfoldable pub sign_extend : ℕ → ℕ
sign_extend v = if leb (2 ^ 31) v then v + (2 ^ 64 - 2 ^ 32) else v

unfoldable pub raw_of : OcbStatScalarV1 → ℕ
unfolding sign_extend
raw_of (i32 v) = sign_extend v
raw_of (i64 v) = v
raw_of (f32 v) = v
raw_of (f64 v) = v

unfoldable pub write_to : OcbStatScalarV1 → List ℕ
unfolding write_u16 write_u32 write_u64 raw_of
write_to x = concat (
    write_u16 (PhysicalType.to_u16 (physical_type_of x))
    ∷ write_u16 0
    ∷ write_u64 (raw_of x)
    ∷ write_u32 0
    ∷ [])
