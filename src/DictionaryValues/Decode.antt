-- ===== src/DictionaryValues/Decode.antt =====
-- `OcbDictionaryValuesV1::read_from_bytes_with_budget` and `read_from_bytes`.
use arcadia_tio_rs.Base.{
  ℕ, zero, suc, ◌+◌, ◌-◌, ◌*◌, ◌^◌, ◌==◌, ◌||◌, ◌&&◌, leb, ltb, ◌∷◌, [], not, List, length, take,
  drop,
}
use arcadia_tio_rs.Error.{Result, ok, ocb_corrupt_file, ocb_unsupported_format}
use arcadia_tio_rs.Error
use arcadia_tio_rs.Bytes.{
  Reader, ◌>>=◌, ◌>>◌, pure, lift, check, read_exact_ocb, read_u16, read_u32, read_u64, cursor,
  bytes_eq,
}
use arcadia_tio_rs.Format.{dictionary_values_magic_v1, dictionary_values_v1_header_len}
use arcadia_tio_rs.Crc.{unseal}
use arcadia_tio_rs.Kinds.{OcbDictionaryValueKindV1}
use arcadia_tio_rs.Kinds.DictionaryValueKind
use arcadia_tio_rs.Limits.{
  MetadataMaterializationBudget, charge, policy_a_metadata_materialization_budget,
}
use arcadia_tio_rs.Table.{
  Platform, checked_record_count, checked_payload_len, checked_materialized_vec_bytes,
  checked_materialized_sum, position, tell, set_position, reserve,
}
use arcadia_tio_rs.DictionaryValues.{OcbDictionaryValuesV1, is_fixed}

-- The loop that validates the offsets; it returns the last one.
unfoldable pub check_offsets : OcbDictionaryValueKindV1 → ℕ → ℕ → ℕ → ℕ → Reader ℕ
unfolding is_fixed
check_offsets kind fixed_width data_bytes zero previous = pure previous
check_offsets kind fixed_width data_bytes (suc entries) previous = do
  next ← read_u64
  check (ltb next previous || ltb data_bytes next)
      (ocb_corrupt_file "OCB dictionary values offsets are invalid")
  check (is_fixed kind && not (next - previous == fixed_width))
      (ocb_corrupt_file "OCB fixed-byte dictionary value length does not match fixed width")
  check_offsets kind fixed_width data_bytes entries next

-- The loop that copies the values out of the run of bytes; the offsets were validated before.
unfoldable pub read_values : Platform → List ℕ → ℕ → ℕ → Reader (List (List ℕ))
unfolding reserve
read_values p run zero previous = pure []
read_values p run (suc entries) previous = do
  next ← read_u64
  lift (reserve p (next - previous) "OCB dictionary-entry allocation failed within resource limit")
  values ← read_values p run entries next
  pure (take (next - previous) (drop previous run) ∷ values)

-- What the cursor over the checked bytes reads; the budget comes back with the values.
unfoldable pub decode :
    Platform
    → ℕ
    → MetadataMaterializationBudget
    → ℕ
    → Reader (OcbDictionaryValuesV1 × MetadataMaterializationBudget)
unfolding check_offsets read_values
decode p total budget actual_crc = do
  magic ← read_exact_ocb 8
  check (not (bytes_eq magic dictionary_values_magic_v1))
      (ocb_corrupt_file "invalid OCB dictionary values magic")
  version ← read_u16
  check (not (version == 1)) (ocb_unsupported_format "unsupported OCB dictionary values version")
  header_bytes ← read_u16
  check (not (header_bytes == dictionary_values_v1_header_len))
      (ocb_corrupt_file "invalid OCB dictionary values header length")
  kind_code ← read_u16
  value_kind ← lift (DictionaryValueKind.from_u16 kind_code)
  reserved0 ← read_u16
  entry_count ← read_u32
  fixed_width ← read_u32
  data_bytes ← read_u64
  flags ← read_u32
  reserved1 ← read_u32
  check (leb (2 ^ 32) (entry_count + 1))
      (ocb_corrupt_file "OCB dictionary values offset count overflows")
  at ← position total
  offset_count ←
      lift (checked_record_count total at (entry_count + 1) 8 "OCB dictionary values offset count")
  offsets_start ← tell
  first ← read_u64
  check (not (first == 0))
      (ocb_corrupt_file "OCB dictionary values offsets do not cover data bytes")
  last ← check_offsets value_kind fixed_width data_bytes (offset_count - 1) first
  check (not (last == data_bytes))
      (ocb_corrupt_file "OCB dictionary values offsets do not cover data bytes")
  at ← position total
  data_len ← lift (checked_payload_len total at data_bytes "OCB dictionary values data length")
  data_start ← tell
  vec_bytes ← lift (checked_materialized_vec_bytes p.size_of_bytes (offset_count - 1))
  retained_bytes ← lift (checked_materialized_sum (vec_bytes ∷ data_len ∷ []))
  charged ← lift (charge budget retained_bytes)
  lift (
      reserve p ((offset_count - 1) * p.size_of_bytes)
        "OCB dictionary-value allocation failed within resource limit")
  set_position offsets_start
  first ← read_u64
  values ← read_values p (take data_len data_start) (offset_count - 1) first
  pure (
    record {
      version = version;
      value_kind = value_kind;
      fixed_width = fixed_width;
      values = values;
      crc32c = actual_crc;
    },
    charged,
  )

unfoldable pub read_from_bytes_with_budget :
    Platform
    → List ℕ
    → MetadataMaterializationBudget
    → Result (OcbDictionaryValuesV1 × MetadataMaterializationBudget)
unfolding decode cursor unseal
read_from_bytes_with_budget p bytes budget =
    Error.◌>>=◌ (unseal "OCB dictionary values crc mismatch" bytes)
      (λ (actual_crc, stable). cursor (decode p (length stable) budget actual_crc) stable)

unfoldable pub read_from_bytes : Platform → List ℕ → Result OcbDictionaryValuesV1
unfolding read_from_bytes_with_budget policy_a_metadata_materialization_budget
read_from_bytes p bytes =
    Error.◌>>=◌ (read_from_bytes_with_budget p bytes policy_a_metadata_materialization_budget)
      (λ (table, _). ok table)
