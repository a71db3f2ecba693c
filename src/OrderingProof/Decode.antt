-- ===== src/OrderingProof/Decode.antt =====
-- `OcbOrderingProofV1::read_from_bytes_with_budget` and `read_from_bytes`.
use arcadia_tio_rs.Base.{ℕ, ◌==◌, ◌∷◌, [], not, List, length}
use arcadia_tio_rs.Error.{Result, ok, ocb_corrupt_file, ocb_unsupported_format}
use arcadia_tio_rs.Error
use arcadia_tio_rs.Bytes.{
  Reader, ◌>>=◌, ◌>>◌, pure, lift, check, read_exact_ocb, read_u16, read_u32, read_u64, cursor,
  bytes_eq,
}
use arcadia_tio_rs.Format.{
  ordering_proof_magic_v1, ordering_proof_v1_header_len, ordering_key_v1_len,
  row_group_ordering_proof_v1_len,
}
use arcadia_tio_rs.Crc.{unseal}
use arcadia_tio_rs.Limits.{
  MetadataMaterializationBudget, charge, policy_a_metadata_materialization_budget,
}
use arcadia_tio_rs.Table.{
  Platform, checked_record_count, checked_materialized_vec_bytes, checked_materialized_sum,
  position, tell, set_position, validate_record_sequence, read_record_sequence,
}
use arcadia_tio_rs.Records.OrderingKey.Decode as OrderingKey
use arcadia_tio_rs.Records.OrderingProof.Decode as OrderingProof
use arcadia_tio_rs.OrderingProof.{OcbOrderingProofV1}

-- What the cursor over the checked bytes reads; the budget comes back with the table.
unfoldable pub decode :
    Platform
    → ℕ
    → MetadataMaterializationBudget
    → ℕ
    → Reader (OcbOrderingProofV1 × MetadataMaterializationBudget)
decode p total budget actual_crc = do
  magic ← read_exact_ocb 8
  check (not (bytes_eq magic ordering_proof_magic_v1))
      (ocb_corrupt_file "invalid OCB ordering proof magic")
  version ← read_u16
  check (not (version == 1)) (ocb_unsupported_format "unsupported OCB ordering proof version")
  header_bytes ← read_u16
  check (not (header_bytes == ordering_proof_v1_header_len))
      (ocb_corrupt_file "invalid OCB ordering proof header length")
  key_count ← read_u16
  flags ← read_u16
  row_group_count ← read_u32
  reserved0 ← read_u64
  at ← position total
  key_count ←
      lift
        (checked_record_count total at key_count ordering_key_v1_len "OCB ordering proof key count")
  records_start ← tell
  validate_record_sequence key_count OrderingKey.read_from
  at ← position total
  row_group_count ← lift (
      checked_record_count total at row_group_count row_group_ordering_proof_v1_len
        "OCB ordering proof row-group count")
  validate_record_sequence row_group_count OrderingProof.read_from
  keys_bytes ← lift (checked_materialized_vec_bytes p.size_of_ordering_key key_count)
  row_group_proofs_bytes ←
      lift (checked_materialized_vec_bytes p.size_of_ordering_proof row_group_count)
  bytes ← lift (checked_materialized_sum (keys_bytes ∷ row_group_proofs_bytes ∷ []))
  charged ← lift (charge budget bytes)
  set_position records_start
  keys ←
      read_record_sequence p p.size_of_ordering_key key_count
        "OCB ordering-key allocation failed within resource limit" OrderingKey.read_from
  row_group_proofs ←
      read_record_sequence p p.size_of_ordering_proof row_group_count
        "OCB ordering-proof allocation failed within resource limit" OrderingProof.read_from
  pure (
    record {
      version = version;
      flags = flags;
      keys = keys;
      row_group_proofs = row_group_proofs;
      crc32c = actual_crc;
    },
    charged,
  )

unfoldable pub read_from_bytes_with_budget :
    Platform
    → List ℕ
    → MetadataMaterializationBudget
    → Result (OcbOrderingProofV1 × MetadataMaterializationBudget)
unfolding decode ◌>>=◌ ◌>>◌ pure lift check read_exact_ocb read_u16 read_u32 read_u64 cursor
    bytes_eq unseal OrderingKey.read_from OrderingProof.read_from checked_record_count
    checked_materialized_vec_bytes checked_materialized_sum position tell set_position
    validate_record_sequence read_record_sequence charge
read_from_bytes_with_budget p bytes budget =
    Error.◌>>=◌ (unseal "OCB ordering proof crc mismatch" bytes)
      (λ (actual_crc, stable). cursor (decode p (length stable) budget actual_crc) stable)

unfoldable pub read_from_bytes : Platform → List ℕ → Result OcbOrderingProofV1
unfolding read_from_bytes_with_budget policy_a_metadata_materialization_budget
read_from_bytes p bytes =
    Error.◌>>=◌ (read_from_bytes_with_budget p bytes policy_a_metadata_materialization_budget)
      (λ (table, _). ok table)
