-- ===== src/Schema.antt =====
-- `OcbSchemaV1` of crates/arcadia-tio-ocb-core/src/format.rs: the columns of a file.
pub mod Decode
pub mod Laws
use arcadia_tio_rs.Base.{ℕ, ◌*◌, ◌^◌, ◌<◌, List, [], ◌∷◌, ◌++◌, Bool, not, All, length, concat, map}
use arcadia_tio_rs.Error.{Result, ok, ocb_invalid_input, fail_if, ◌>>◌, ◌>>=◌}
use arcadia_tio_rs.Bytes.{write_u16, write_u32, IsU16}
use arcadia_tio_rs.Format.{schema_magic_v1, schema_v1_header_len}
use arcadia_tio_rs.Kinds.{OcbBodyKindV1}
use arcadia_tio_rs.Kinds.BodyKind
use arcadia_tio_rs.BodyRef
use arcadia_tio_rs.BodyRef.{OcbBodyRefV2}
use arcadia_tio_rs.Object.{sealed}
use arcadia_tio_rs.Table.{write_records, count_u32}
use arcadia_tio_rs.Records.ColumnDesc
use arcadia_tio_rs.Records.ColumnDesc.{OcbColumnDescV1}

pub record OcbSchemaV1 : Type 0 where
  pub version : ℕ
  pub string_table_ref : OcbBodyRefV2
  pub columns : List OcbColumnDescV1
  pub crc32c : ℕ

-- The ranges that the Rust types of the fields give, for a table that a process can hold.
pub record IsTyped (x : OcbSchemaV1) : Type 0 where
  pub version_u16 : IsU16 x.version
  pub string_table_ref_typed : BodyRef.IsTyped x.string_table_ref
  pub columns_typed : All ColumnDesc.IsTyped x.columns

-- What is written before the column count.
unfoldable pub front : OcbSchemaV1 → ℕ → List (List ℕ)
unfolding write_u16 write_u32 BodyRef.write_to
front x column_count =
    (schema_magic_v1
      ∷ write_u16 x.version
      ∷ write_u16 schema_v1_header_len
      ∷ write_u32 column_count
      ∷ BodyRef.write_to x.string_table_ref
      ∷ write_u32 0
      ∷ [])

unfoldable pub encode_without_checksum : OcbSchemaV1 → Result (List ℕ)
unfolding BodyKind.eq count_u32 front write_records ColumnDesc.write_to write_u32
encode_without_checksum x = do
  fail_if (not (BodyKind.eq x.string_table_ref.kind OcbBodyKindV1.string_table))
      (ocb_invalid_input "OCB schema string_table_ref must reference string table")
  column_count ← count_u32 (length x.columns) (ocb_invalid_input "OCB schema has too many columns")
  columns ← write_records ColumnDesc.write_to x.columns
  ok ((concat (front x column_count) ++ columns) ++ write_u32 0)

unfoldable pub write_to : OcbSchemaV1 → Result (List ℕ)
unfolding sealed encode_without_checksum
write_to x = sealed (encode_without_checksum x)
