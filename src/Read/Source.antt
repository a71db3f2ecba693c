-- ===== src/Read/Source.antt =====
-- The objects of a file, of crates/arcadia-tio-ocb-core/src/read.rs: one object is read whole, inside
-- the limits and the length that its reference gives.
pub mod Laws
use arcadia_tio_rs.Base.{ℕ, ◌-◌, ◌^◌, List, Bool, not, ◌==◌, ltb, drop, if◌then◌else◌}
use arcadia_tio_rs.Error.{Result, ok, ocb_corrupt_file, ocb_invalid_input, fail_if, ◌>>◌, ◌>>=◌}
use arcadia_tio_rs.Bytes.{read_exact_ocb, cursor}
use arcadia_tio_rs.Crc.{crc32c}
use arcadia_tio_rs.Kinds.{OcbBodyKindV1, OcbChecksumKindV1}
use arcadia_tio_rs.BodyRef.{OcbBodyRefV2, is_null, validate}
use arcadia_tio_rs.Limits.{OcbResourceLimits, policy_a}
use arcadia_tio_rs.Table.{Platform, reserve}

-- `seek(SeekFrom::Start(offset))` and `read_exact_ocb` of `len` bytes. A file is its bytes; a seek
-- beyond its end succeeds, and the read after it fails.
unfoldable pub read_at : List ℕ → ℕ → ℕ → Result (List ℕ)
unfolding cursor read_exact_ocb
read_at file offset len = cursor (read_exact_ocb len) (drop offset file)

-- `usize::MAX as u64`.
abbrev pub usize_max : ℕ
usize_max = 2 ^ 64 - 1

unfoldable pub allocate_object_bytes_fallibly : Platform → ℕ → Result (Unit {0})
unfolding reserve
allocate_object_bytes_fallibly p object_len =
    reserve p object_len "OCB object allocation failed within resource limit"

-- The `match` on `reference.checksum_kind`.
unfoldable pub check_reference_checksum : OcbBodyRefV2 → List ℕ → Result (Unit {0})
unfolding crc32c
check_reference_checksum reference bytes = elim reference.checksum_kind [
  | OcbChecksumKindV1.none ↦ ok tt
  | OcbChecksumKindV1.crc32c ↦
      fail_if (not (crc32c bytes == reference.checksum))
        (ocb_corrupt_file "OCB body reference checksum mismatch")
]

-- Without the attribution, which measures time.
unfoldable pub read_object_bytes_inner_with_limits :
    Platform → List ℕ → ℕ → OcbBodyRefV2 → OcbBodyKindV1 → ℕ → ℕ → Result (List ℕ)
unfolding validate allocate_object_bytes_fallibly read_at check_reference_checksum
read_object_bytes_inner_with_limits p file file_len reference expected_kind max_object_bytes
      addressable_bytes =
    do
      validate reference expected_kind file_len
      fail_if (ltb addressable_bytes reference.size)
          (ocb_corrupt_file "OCB body reference length exceeds addressable memory")
      fail_if (ltb max_object_bytes reference.size)
          (ocb_invalid_input "OCB encoded object exceeds resource limit")
      allocate_object_bytes_fallibly p reference.size
      bytes ← read_at file reference.offset reference.size
      check_reference_checksum reference bytes
      ok bytes

-- `read_object_bytes`, through `read_object_bytes_inner`.
unfoldable pub read_object_bytes :
    Platform → List ℕ → ℕ → OcbBodyRefV2 → OcbBodyKindV1 → Result (List ℕ)
unfolding read_object_bytes_inner_with_limits
read_object_bytes p file file_len reference expected_kind =
    read_object_bytes_inner_with_limits p file file_len reference expected_kind
      policy_a.max_encoded_object_bytes usize_max

unfoldable pub read_object_bytes_with_resource_limits :
    Platform → List ℕ → ℕ → OcbBodyRefV2 → OcbBodyKindV1 → OcbResourceLimits → Result (List ℕ)
unfolding read_object_bytes_inner_with_limits
read_object_bytes_with_resource_limits p file file_len reference expected_kind resource_limits =
    read_object_bytes_inner_with_limits p file file_len reference expected_kind
      resource_limits.max_encoded_object_bytes usize_max

unfoldable pub validate_optional_object :
    Platform → List ℕ → ℕ → OcbBodyRefV2 → OcbBodyKindV1 → OcbResourceLimits → Result (Unit {0})
unfolding is_null read_object_bytes_with_resource_limits
validate_optional_object p file file_len reference kind resource_limits =
    if is_null reference
    then ok tt
    else (read_object_bytes_with_resource_limits p file file_len reference kind resource_limits
        >>= λ _. ok tt)
