-- ===== src/Read/Graph/Columns.antt =====
-- `validate_schema_graph`, and what `validate_dictionary_graph` checks of columns.
use arcadia_tio_rs.Base.{
  ℕ, List, [], ◌∷◌, length, Bool, false, not, ◌==◌, ◌&&◌, ◌||◌, get_elem?, if◌then◌else◌,
}
use arcadia_tio_rs.Error.{Result, ok, ocb_corrupt_file, fail_if, ◌>>◌, ◌>>=◌}
use arcadia_tio_rs.Bytes.{bytes_eq}
use arcadia_tio_rs.Format.{null_u32}
use arcadia_tio_rs.Kinds.{OcbLogicalKindV1, OcbPhysicalTypeV1}
use arcadia_tio_rs.Kinds.LogicalKind
use arcadia_tio_rs.Kinds.PhysicalType
use arcadia_tio_rs.Table.{Platform}
use arcadia_tio_rs.Records.ColumnDesc.{OcbColumnDescV1, value_byte_width}
use arcadia_tio_rs.Records.DictionaryDesc.{OcbDictionaryDescV1}
use arcadia_tio_rs.Read.Metadata.{OcbMetadataV1, Map, get}
use arcadia_tio_rs.Read.Graph.{contains_key, reserve_entries, required}

unfoldable pub contains_name : List (List ℕ) → List ℕ → Bool
unfolding bytes_eq
contains_name [] name = false
contains_name (n ∷ names) name = bytes_eq n name || contains_name names name

abbrev pub is_coded : OcbColumnDescV1 → Bool
is_coded column = LogicalKind.eq column.logical_kind OcbLogicalKindV1.dictionary_code

-- The `for` loop of `validate_schema_graph`, with the columns and the names found before.
unfoldable pub validate_columns :
    List (List ℕ)
    → List OcbColumnDescV1
    → Map OcbColumnDescV1
    → List (List ℕ)
    → Result (Map OcbColumnDescV1)
unfolding contains_key contains_name required value_byte_width LogicalKind.eq PhysicalType.eq
validate_columns strings [] columns_by_id seen_names = ok columns_by_id
validate_columns strings (column ∷ columns) columns_by_id seen_names = do
  fail_if (contains_key columns_by_id column.column_id)
      (ocb_corrupt_file "OCB schema has duplicate column ids")
  name ←
      required (get_elem? strings column.name_string_id) "OCB column name string id is out of range"
  fail_if (contains_name seen_names name) (ocb_corrupt_file "OCB schema has duplicate column names")
  width ← value_byte_width column
  fail_if (is_coded column && column.dictionary_id == null_u32)
      (ocb_corrupt_file "OCB dictionary-coded column must reference a dictionary")
  fail_if (is_coded column && PhysicalType.eq column.physical_type OcbPhysicalTypeV1.fixed_binary)
      (ocb_corrupt_file "OCB dictionary-coded column cannot use fixed-binary physical type")
  validate_columns strings columns ((column.column_id, column) ∷ columns_by_id) (name ∷ seen_names)

unfoldable pub validate_schema_graph : Platform → OcbMetadataV1 → Result (Map OcbColumnDescV1)
unfolding reserve_entries validate_columns
validate_schema_graph p metadata = do
  reserve_entries p (length metadata.schema.columns)
  reserve_entries p (length metadata.schema.columns)
  validate_columns metadata.string_table.strings metadata.schema.columns [] []

-- The loop over the columns where there is no dictionary index.
unfoldable pub check_no_coded : List OcbColumnDescV1 → Result (Unit {0})
unfolding LogicalKind.eq
check_no_coded [] = ok tt
check_no_coded (column ∷ columns) = do
  fail_if (is_coded column)
      (ocb_corrupt_file "OCB dictionary-coded column references missing dictionary index")
  check_no_coded columns

-- One coded column against the dictionaries.
unfoldable pub check_coded_column : Map OcbDictionaryDescV1 → OcbColumnDescV1 → Result (Unit {0})
unfolding required get PhysicalType.eq
check_coded_column dictionaries_by_id column = do
  dictionary ←
      required (get dictionaries_by_id column.dictionary_id)
        "OCB column references unknown dictionary"
  fail_if (not (PhysicalType.eq dictionary.code_physical_type column.physical_type))
      (ocb_corrupt_file "OCB dictionary code physical type does not match column")

unfoldable pub check_coded_columns :
    Map OcbDictionaryDescV1 → List OcbColumnDescV1 → Result (Unit {0})
unfolding LogicalKind.eq check_coded_column
check_coded_columns dictionaries_by_id [] = ok tt
check_coded_columns dictionaries_by_id (column ∷ columns) = do
  (if is_coded column then check_coded_column dictionaries_by_id column else ok tt)
  check_coded_columns dictionaries_by_id columns
