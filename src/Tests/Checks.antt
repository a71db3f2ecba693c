-- ===== src/Tests/Checks.antt =====
-- Examples of the checksum, the limits and the checks of counts and references.
use arcadia_tio_rs.Base.{
  ℕ, ◌+◌, ◌*◌, ◌^◌, ◌≤◌, ◌<◌, ◌≡◌, ◌≢◌, ◌↔◌, inl, inr, refl, arith, List, [], ◌∷◌, ◌++◌,
}
use arcadia_tio_rs.Error.{ok, err, ocb_corrupt_file}
use arcadia_tio_rs.Bytes.{write_u32}
use arcadia_tio_rs.Crc.{crc32c, seal, unseal}
use arcadia_tio_rs.Crc.Detects.{OneByteOff, crc32c-OneByteOff}
use arcadia_tio_rs.Crc.Damage.{unseal-damaged}
use arcadia_tio_rs.Kinds.{OcbBodyKindV1}
use arcadia_tio_rs.BodyRef
use arcadia_tio_rs.BodyRef.Bounds.{IsInFile, validate-IsInFile}
use arcadia_tio_rs.Limits
use arcadia_tio_rs.Limits.{policy_a, MetadataMaterializationBudget}
use arcadia_tio_rs.Limits.Laws.{IsWithin, IsAddressable, new-ok, charge-ok, charge-remaining}
use arcadia_tio_rs.Table.{checked_record_count}
use arcadia_tio_rs.Table.Counts.{checked_record_count-fits}
use arcadia_tio_rs.Tests.Samples.{charged}

-- The check value of CRC-32C.
check_value :
    crc32c (b'1' ∷ b'2' ∷ b'3' ∷ b'4' ∷ b'5' ∷ b'6' ∷ b'7' ∷ b'8' ∷ b'9' ∷ []) ≡ 0xe3069283
unfolding crc32c
check_value = refl

crc32c-OneByteOff_example : crc32c (1 ∷ 2 ∷ 3 ∷ []) ≢ crc32c (1 ∷ 7 ∷ 3 ∷ [])
crc32c-OneByteOff_example =
    crc32c-OneByteOff (1 ∷ 2 ∷ 3 ∷ []) (1 ∷ 7 ∷ 3 ∷ []) (omega arith) (omega arith)
      (inr (refl, inl (omega arith, refl)))

abbrev sealed_bytes : List ℕ
sealed_bytes = seal ((1 ∷ 2 ∷ []) ++ write_u32 0)

abbrev flipped : List ℕ
flipped = 1 ∷ 3 ∷ 203 ∷ 200 ∷ 56 ∷ 200 ∷ []

flipped-OneByteOff : OneByteOff sealed_bytes flipped
unfolding seal write_u32
flipped-OneByteOff = inr (refl, inl (omega arith, refl))

unseal-damaged_example : unseal "crc mismatch" flipped ≡ err (ocb_corrupt_file "crc mismatch")
unseal-damaged_example =
    unseal-damaged "crc mismatch" (1 ∷ 2 ∷ []) flipped (omega arith) (omega arith)
      flipped-OneByteOff

validate-IsInFile_example :
    (BodyRef.validate (BodyRef.new 4096 100 OcbBodyKindV1.schema 7) OcbBodyKindV1.schema 8192
      ≡ ok tt)
    ↔ IsInFile (BodyRef.new 4096 100 OcbBodyKindV1.schema 7) OcbBodyKindV1.schema 8192
validate-IsInFile_example =
    validate-IsInFile (BodyRef.new 4096 100 OcbBodyKindV1.schema 7) OcbBodyKindV1.schema 8192

checked_record_count-fits_example :
    (checked_record_count 120 52 2 32 "OCB schema column count" ≡ ok 2)
    ↔ ((2 * 32 < 2 ^ 64) × (52 + 2 * 32 + 4 ≤ 120))
checked_record_count-fits_example = checked_record_count-fits 120 52 2 32 "OCB schema column count"

budget-IsWithin : IsWithin (charged 1000)
unfolding IsWithin
budget-IsWithin = (omega arith, omega arith)

charge-ok_example :
    (24 ≤ Limits.remaining_bytes (charged 1000))
    ↔ (Limits.charge (charged 1000) 24 ≡ ok (charged 1024))
charge-ok_example = charge-ok (charged 1000) 24 budget-IsWithin

charged_more : Limits.charge (charged 1000) 24 ≡ ok (charged 1024)
unfolding Limits.charge
charged_more = refl

charge-remaining_example :
    IsWithin (charged 1024)
    × ((charged 1024).limit_bytes ≡ (charged 1000).limit_bytes)
    × (Limits.remaining_bytes (charged 1024) + 24 ≡ Limits.remaining_bytes (charged 1000))
charge-remaining_example =
    charge-remaining (charged 1000) (charged 1024) 24 budget-IsWithin charged_more

new-ok_example : IsAddressable policy_a ↔ (
    Limits.new 1_073_741_824 536_870_912 536_870_912 1_073_741_824 8_589_934_592 17_179_869_184
    ≡ ok policy_a)
new-ok_example = new-ok policy_a
