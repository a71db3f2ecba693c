-- ===== src/StringTable/Decode.antt =====
-- `OcbStringTableV1::read_from_bytes_with_budget` and `read_from_bytes`.
use arcadia_tio_rs.Base.{ℕ, zero, suc, ◌+◌, ◌*◌, ◌^◌, ◌==◌, leb, ◌∷◌, [], not, List, length}
use arcadia_tio_rs.Error.{Result, ok, ocb_corrupt_file, ocb_unsupported_format}
use arcadia_tio_rs.Error
use arcadia_tio_rs.Bytes.{
  Reader, ◌>>=◌, ◌>>◌, pure, lift, check, read_exact_ocb, read_u16, read_u32, cursor, bytes_eq,
}
use arcadia_tio_rs.Format.{string_table_magic_v1, string_table_v1_header_len}
use arcadia_tio_rs.Crc.{unseal}
use arcadia_tio_rs.Limits.{
  MetadataMaterializationBudget, charge, policy_a_metadata_materialization_budget,
}
use arcadia_tio_rs.Table.{
  Platform, checked_record_count, checked_materialized_vec_bytes, checked_materialized_sum,
  position, tell, set_position, reserve, read_records,
}
use arcadia_tio_rs.StringTable.Strings.{inspect_string_u32_bounded, read_string_u32_bounded}
use arcadia_tio_rs.StringTable.{OcbStringTableV1}

-- The loop that validates the strings and adds up their bytes.
unfoldable pub inspect_strings : Platform → ℕ → ℕ → ℕ → Reader ℕ
inspect_strings p total zero string_bytes = pure string_bytes
inspect_strings p total (suc count) string_bytes = do
  len ← inspect_string_u32_bounded p total
  check (leb (2 ^ 64) (string_bytes + len))
      (ocb_corrupt_file "OCB string table materialized byte count overflows")
  inspect_strings p total count (string_bytes + len)

-- What the cursor over the checked bytes reads; the budget comes back with the table.
unfoldable pub decode :
    Platform
    → ℕ
    → MetadataMaterializationBudget
    → ℕ
    → Reader (OcbStringTableV1 × MetadataMaterializationBudget)
decode p total budget actual_crc = do
  magic ← read_exact_ocb 8
  check (not (bytes_eq magic string_table_magic_v1))
      (ocb_corrupt_file "invalid OCB string table magic")
  version ← read_u16
  check (not (version == 1)) (ocb_unsupported_format "unsupported OCB string table version")
  header_bytes ← read_u16
  check (not (header_bytes == string_table_v1_header_len))
      (ocb_corrupt_file "invalid OCB string table header length")
  string_count ← read_u32
  reserved0 ← read_u32
  at ← position total
  string_count ← lift (checked_record_count total at string_count 4 "OCB string table string count")
  strings_start ← tell
  string_bytes ← inspect_strings p total string_count 0
  vec_bytes ← lift (checked_materialized_vec_bytes p.size_of_string string_count)
  retained_bytes ← lift (checked_materialized_sum (vec_bytes ∷ string_bytes ∷ []))
  charged ← lift (charge budget retained_bytes)
  set_position strings_start
  lift (
      reserve p (string_count * p.size_of_string)
        "OCB string-table allocation failed within resource limit")
  strings ← read_records string_count (read_string_u32_bounded p total)
  pure (record { version = version; strings = strings; crc32c = actual_crc }, charged)

unfoldable pub read_from_bytes_with_budget :
    Platform
    → List ℕ
    → MetadataMaterializationBudget
    → Result (OcbStringTableV1 × MetadataMaterializationBudget)
unfolding decode ◌>>=◌ ◌>>◌ pure lift check read_exact_ocb read_u16 read_u32 cursor bytes_eq unseal
    inspect_strings inspect_string_u32_bounded read_string_u32_bounded checked_record_count
    checked_materialized_vec_bytes checked_materialized_sum position tell set_position reserve
    read_records charge
read_from_bytes_with_budget p bytes budget =
    Error.◌>>=◌ (unseal "OCB string table crc mismatch" bytes)
      (λ (actual_crc, stable). cursor (decode p (length stable) budget actual_crc) stable)

unfoldable pub read_from_bytes : Platform → List ℕ → Result OcbStringTableV1
unfolding read_from_bytes_with_budget policy_a_metadata_materialization_budget
read_from_bytes p bytes =
    Error.◌>>=◌ (read_from_bytes_with_budget p bytes policy_a_metadata_materialization_budget)
      (λ (table, _). ok table)
