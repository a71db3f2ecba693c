-- ===== src/BodyRef.antt =====
-- `OcbBodyRefV2` of crates/arcadia-tio-ocb-core/src/format.rs: where an object of the file stands.
pub mod Decode
pub mod Laws
pub mod Bounds
use arcadia_tio_rs.Base.{
  ℕ, ◌+◌, ◌^◌, List, [], ◌∷◌, ◌++◌, concat, Bool, true, false, ltb, leb, ◌==◌, ◌&&◌, ◌||◌, not,
  if◌then◌else◌, String,
}
use arcadia_tio_rs.Error.{Result, ok, err, ocb_corrupt_file, ocb_invalid_input, fail_if, ◌>>◌}
use arcadia_tio_rs.Bytes
use arcadia_tio_rs.Bytes.{
  Reader, write_u16, write_u32, write_u64, read_u16, read_u32, read_u64, lift, pure, IsU16, IsU32,
  IsU64,
}
use arcadia_tio_rs.Kinds.{OcbBodyKindV1, OcbChecksumKindV1}
use arcadia_tio_rs.Kinds.BodyKind
use arcadia_tio_rs.Kinds.ChecksumKind

pub record OcbBodyRefV2 : Type 0 where
  pub offset : ℕ
  pub size : ℕ
  pub kind : OcbBodyKindV1
  pub flags : ℕ
  pub checksum_kind : OcbChecksumKindV1
  pub reserved0 : ℕ
  pub checksum : ℕ
  pub reserved1 : ℕ

-- The ranges that the Rust types of the fields give.
pub record IsTyped (r : OcbBodyRefV2) : Type 0 where
  pub offset_u64 : IsU64 r.offset
  pub size_u64 : IsU64 r.size
  pub flags_u16 : IsU16 r.flags
  pub reserved0_u16 : IsU16 r.reserved0
  pub checksum_u32 : IsU32 r.checksum
  pub reserved1_u32 : IsU32 r.reserved1

-- `OcbBodyRefV2::NULL`.
abbrev pub null : OcbBodyRefV2
null = record {
  offset = 0;
  size = 0;
  kind = OcbBodyKindV1.unknown;
  flags = 0;
  checksum_kind = OcbChecksumKindV1.none;
  reserved0 = 0;
  checksum = 0;
  reserved1 = 0;
}

unfoldable pub new : ℕ → ℕ → OcbBodyKindV1 → ℕ → OcbBodyRefV2
new offset size kind checksum = record {
  offset = offset;
  size = size;
  kind = kind;
  flags = 0;
  checksum_kind = OcbChecksumKindV1.crc32c;
  reserved0 = 0;
  checksum = checksum;
  reserved1 = 0;
}

unfoldable pub is_null : OcbBodyRefV2 → Bool
unfolding BodyKind.eq
is_null r = r.offset == 0 && r.size == 0 && BodyKind.eq r.kind OcbBodyKindV1.unknown

-- The derived `==`, field by field.
unfoldable pub eq : OcbBodyRefV2 → OcbBodyRefV2 → Bool
unfolding BodyKind.eq ChecksumKind.eq
eq a b =
    a.offset == b.offset
    && a.size == b.size
    && BodyKind.eq a.kind b.kind
    && a.flags == b.flags
    && ChecksumKind.eq a.checksum_kind b.checksum_kind
    && a.reserved0 == b.reserved0
    && a.checksum == b.checksum
    && a.reserved1 == b.reserved1

-- `validate`; `checked_add` fails where the end is no `u64`.
unfoldable pub validate : OcbBodyRefV2 → OcbBodyKindV1 → ℕ → Result (Unit {0})
unfolding is_null BodyKind.eq
validate r expected_kind file_len = do
  fail_if (is_null r) (ocb_corrupt_file "OCB body reference is null")
  fail_if (not (BodyKind.eq r.kind expected_kind))
      (ocb_corrupt_file "OCB body reference kind mismatch")
  fail_if (leb (2 ^ 64) (r.offset + r.size)) (ocb_corrupt_file "OCB body reference range overflows")
  fail_if (ltb file_len (r.offset + r.size))
      (ocb_corrupt_file "OCB body reference extends beyond file length")
  ok tt

unfoldable pub write_to : OcbBodyRefV2 → List ℕ
unfolding write_u64 write_u16 write_u32 BodyKind.to_u16 ChecksumKind.to_u16
write_to r = concat (
    write_u64 r.offset
    ∷ write_u64 r.size
    ∷ write_u16 (BodyKind.to_u16 r.kind)
    ∷ write_u16 r.flags
    ∷ write_u16 (ChecksumKind.to_u16 r.checksum_kind)
    ∷ write_u16 r.reserved0
    ∷ write_u32 r.checksum
    ∷ write_u32 r.reserved1
    ∷ [])

-- `expected_kinds.contains(&reference.kind)`.
unfoldable pub contains : List OcbBodyKindV1 → OcbBodyKindV1 → Bool
unfolding BodyKind.eq
contains [] kind = false
contains (k ∷ kinds) kind = BodyKind.eq k kind || contains kinds kind

unfoldable pub validate_optional_ref_any_kind :
    OcbBodyRefV2 → List OcbBodyKindV1 → ℕ → Result (Unit {0})
unfolding is_null contains validate
validate_optional_ref_any_kind reference expected_kinds file_len =
    if is_null reference
    then ok tt
    else if contains expected_kinds reference.kind
    then validate reference reference.kind file_len
    else err (ocb_invalid_input "OCB body reference has unexpected kind")

unfoldable pub validate_optional_ref : OcbBodyRefV2 → OcbBodyKindV1 → ℕ → Result (Unit {0})
unfolding validate_optional_ref_any_kind
validate_optional_ref reference expected_kind file_len =
    validate_optional_ref_any_kind reference (expected_kind ∷ []) file_len

unfoldable pub validate_optional_ref_kinds :
    OcbBodyRefV2 → List OcbBodyKindV1 → String → Result (Unit {0})
unfolding is_null contains
validate_optional_ref_kinds reference expected_kinds message =
    fail_if (not (is_null reference) && not (contains expected_kinds reference.kind))
      (ocb_invalid_input message)

unfoldable pub validate_optional_ref_kind :
    OcbBodyRefV2 → OcbBodyKindV1 → String → Result (Unit {0})
unfolding validate_optional_ref_kinds
validate_optional_ref_kind reference expected_kind message =
    validate_optional_ref_kinds reference (expected_kind ∷ []) message
