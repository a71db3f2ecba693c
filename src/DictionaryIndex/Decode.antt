-- ===== src/DictionaryIndex/Decode.antt =====
-- `OcbDictionaryIndexV1::read_from_bytes_with_budget` and `read_from_bytes`.
use arcadia_tio_rs.Base.{ℕ, ◌==◌, not, List, length}
use arcadia_tio_rs.Error.{Result, ok, ocb_corrupt_file, ocb_unsupported_format}
use arcadia_tio_rs.Error
use arcadia_tio_rs.Bytes.{
  Reader, ◌>>=◌, ◌>>◌, pure, lift, check, read_exact_ocb, read_u16, read_u32, cursor, bytes_eq,
}
use arcadia_tio_rs.Format.{dictionary_index_magic_v1, dictionary_index_v1_header_len}
use arcadia_tio_rs.Crc.{unseal}
use arcadia_tio_rs.Limits.{
  MetadataMaterializationBudget, charge, policy_a_metadata_materialization_budget,
}
use arcadia_tio_rs.Table.{
  Platform, checked_record_count, checked_materialized_vec_bytes, position, tell, set_position,
  validate_record_sequence, read_record_sequence,
}
use arcadia_tio_rs.Records.DictionaryDesc.Decode as DictionaryDesc
use arcadia_tio_rs.DictionaryIndex.{OcbDictionaryIndexV1}

-- What the cursor over the checked bytes reads; the budget comes back with the dictionary index.
unfoldable pub decode :
    Platform
    → ℕ
    → MetadataMaterializationBudget
    → ℕ
    → Reader (OcbDictionaryIndexV1 × MetadataMaterializationBudget)
decode p total budget actual_crc = do
  magic ← read_exact_ocb 8
  check (not (bytes_eq magic dictionary_index_magic_v1))
      (ocb_corrupt_file "invalid OCB dictionary index magic")
  version ← read_u16
  check (not (version == 1)) (ocb_unsupported_format "unsupported OCB dictionary index version")
  header_bytes ← read_u16
  check (not (header_bytes == dictionary_index_v1_header_len))
      (ocb_corrupt_file "invalid OCB dictionary index header length")
  dictionary_count ← read_u32
  reserved0 ← read_u32
  at ← position total
  dictionary_count ←
      lift (checked_record_count total at dictionary_count 56 "OCB dictionary index count")
  dictionaries_start ← tell
  validate_record_sequence dictionary_count DictionaryDesc.read_from
  bytes ← lift (checked_materialized_vec_bytes p.size_of_dictionary_desc dictionary_count)
  charged ← lift (charge budget bytes)
  set_position dictionaries_start
  dictionaries ←
      read_record_sequence p p.size_of_dictionary_desc dictionary_count
        "OCB dictionary-index allocation failed within resource limit" DictionaryDesc.read_from
  pure (record { version = version; dictionaries = dictionaries; crc32c = actual_crc }, charged)

unfoldable pub read_from_bytes_with_budget :
    Platform
    → List ℕ
    → MetadataMaterializationBudget
    → Result (OcbDictionaryIndexV1 × MetadataMaterializationBudget)
unfolding decode ◌>>=◌ ◌>>◌ pure lift check read_exact_ocb read_u16 read_u32 cursor bytes_eq unseal
    DictionaryDesc.read_from checked_record_count checked_materialized_vec_bytes position tell
    set_position validate_record_sequence read_record_sequence charge
read_from_bytes_with_budget p bytes budget =
    Error.◌>>=◌ (unseal "OCB dictionary index crc mismatch" bytes)
      (λ (actual_crc, stable). cursor (decode p (length stable) budget actual_crc) stable)

unfoldable pub read_from_bytes : Platform → List ℕ → Result OcbDictionaryIndexV1
unfolding read_from_bytes_with_budget policy_a_metadata_materialization_budget
read_from_bytes p bytes =
    Error.◌>>=◌ (read_from_bytes_with_budget p bytes policy_a_metadata_materialization_budget)
      (λ (index, _). ok index)
