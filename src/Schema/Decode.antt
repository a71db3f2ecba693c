-- ===== src/Schema/Decode.antt =====
-- `OcbSchemaV1::read_from_bytes_with_budget` and `read_from_bytes`.
use arcadia_tio_rs.Base.{ℕ, ◌==◌, not, List, length}
use arcadia_tio_rs.Error.{Result, ok, ocb_corrupt_file, ocb_unsupported_format}
use arcadia_tio_rs.Error
use arcadia_tio_rs.Bytes.{
  Reader, ◌>>=◌, ◌>>◌, pure, lift, check, read_exact_ocb, read_u16, read_u32, cursor, bytes_eq,
}
use arcadia_tio_rs.Format.{schema_magic_v1, schema_v1_header_len, column_desc_v1_len}
use arcadia_tio_rs.Crc.{unseal}
use arcadia_tio_rs.BodyRef.Decode as BodyRef
use arcadia_tio_rs.Limits.{
  MetadataMaterializationBudget, charge, policy_a_metadata_materialization_budget,
}
use arcadia_tio_rs.Table.{
  Platform, checked_record_count, checked_materialized_vec_bytes, position, tell, set_position,
  validate_record_sequence, read_record_sequence,
}
use arcadia_tio_rs.Records.ColumnDesc.Decode as ColumnDesc
use arcadia_tio_rs.Schema.{OcbSchemaV1}

-- What the cursor over the checked bytes reads; the budget comes back with the schema.
unfoldable pub decode :
    Platform
    → ℕ
    → MetadataMaterializationBudget
    → ℕ
    → Reader (OcbSchemaV1 × MetadataMaterializationBudget)
decode p total budget actual_crc = do
  magic ← read_exact_ocb 8
  check (not (bytes_eq magic schema_magic_v1)) (ocb_corrupt_file "invalid OCB schema magic")
  version ← read_u16
  check (not (version == 1)) (ocb_unsupported_format "unsupported OCB schema version")
  header_bytes ← read_u16
  check (not (header_bytes == schema_v1_header_len))
      (ocb_corrupt_file "invalid OCB schema header length")
  column_count ← read_u32
  string_table_ref ← BodyRef.read_from
  reserved0 ← read_u32
  at ← position total
  column_count ←
      lift (checked_record_count total at column_count column_desc_v1_len "OCB schema column count")
  columns_start ← tell
  validate_record_sequence column_count ColumnDesc.read_from
  bytes ← lift (checked_materialized_vec_bytes p.size_of_column_desc column_count)
  charged ← lift (charge budget bytes)
  set_position columns_start
  columns ←
      read_record_sequence p p.size_of_column_desc column_count
        "OCB schema allocation failed within resource limit" ColumnDesc.read_from
  pure (
    record {
      version = version;
      string_table_ref = string_table_ref;
      columns = columns;
      crc32c = actual_crc;
    },
    charged,
  )

unfoldable pub read_from_bytes_with_budget :
    Platform
    → List ℕ
    → MetadataMaterializationBudget
    → Result (OcbSchemaV1 × MetadataMaterializationBudget)
unfolding decode ◌>>=◌ ◌>>◌ pure lift check read_exact_ocb read_u16 read_u32 cursor bytes_eq unseal
    BodyRef.read_from ColumnDesc.read_from checked_record_count checked_materialized_vec_bytes
    position tell set_position validate_record_sequence read_record_sequence charge
read_from_bytes_with_budget p bytes budget =
    Error.◌>>=◌ (unseal "OCB schema crc mismatch" bytes)
      (λ (actual_crc, stable). cursor (decode p (length stable) budget actual_crc) stable)

unfoldable pub read_from_bytes : Platform → List ℕ → Result OcbSchemaV1
unfolding read_from_bytes_with_budget policy_a_metadata_materialization_budget
read_from_bytes p bytes =
    Error.◌>>=◌ (read_from_bytes_with_budget p bytes policy_a_metadata_materialization_budget)
      (λ (schema, _). ok schema)
