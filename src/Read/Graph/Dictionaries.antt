-- ===== src/Read/Graph/Dictionaries.antt =====
-- `validate_dictionary_graph`: each dictionary against its values, and the columns against them.
use arcadia_tio_rs.Base.{ℕ, List, [], ◌∷◌, length, not, ◌==◌, ◌||◌, Option, some, none, get_elem?}
use arcadia_tio_rs.Error.{ok, ocb_corrupt_file, fail_if}
use arcadia_tio_rs.Kinds.DictionaryValueKind
use arcadia_tio_rs.Limits.{MetadataMaterializationBudget}
use arcadia_tio_rs.Table.{Platform}
use arcadia_tio_rs.Records.ColumnDesc.{OcbColumnDescV1}
use arcadia_tio_rs.Records.DictionaryDesc.{OcbDictionaryDescV1}
use arcadia_tio_rs.DictionaryIndex.{OcbDictionaryIndexV1}
use arcadia_tio_rs.Read.Metadata.{OcbMetadataV1, Map}
use arcadia_tio_rs.Read.Auxiliary.{Scoped, ◌>>=◌, ◌>>◌, lift}
use arcadia_tio_rs.Read.Auxiliary.Bodies.{dictionary_values_summary}
use arcadia_tio_rs.Read.Graph.{contains_key, value_list, reserve_entries, required}
use arcadia_tio_rs.Read.Graph.Columns.{contains_name, check_no_coded, check_coded_columns}

module _ (p : Platform) (file : List ℕ) (file_len : ℕ) where
  -- The `for` loop over the dictionaries, with those and the names found before.
  unfoldable pub validate_dictionaries :
      List (List ℕ)
      → List OcbDictionaryDescV1
      → Map OcbDictionaryDescV1
      → List (List ℕ)
      → MetadataMaterializationBudget
      → Scoped (Map OcbDictionaryDescV1 × MetadataMaterializationBudget)
  unfolding ◌>>=◌ ◌>>◌ lift contains_key contains_name required dictionary_values_summary
      DictionaryValueKind.eq
  validate_dictionaries strings [] dictionaries_by_id seen_names budget =
      lift (ok (dictionaries_by_id, budget))
  validate_dictionaries strings (dictionary ∷ dictionaries) dictionaries_by_id seen_names budget =
      do
        lift (
            fail_if (contains_key dictionaries_by_id dictionary.dictionary_id)
              (ocb_corrupt_file "OCB dictionary index has duplicate dictionary ids"))
        name ← lift (
            required (get_elem? strings dictionary.name_string_id)
              "OCB dictionary name string id is out of range")
        lift (
            fail_if (contains_name seen_names name)
              (ocb_corrupt_file "OCB dictionary index has duplicate dictionary names"))
        (values, charged) ← dictionary_values_summary p file file_len dictionary.values_ref budget
        lift (
            fail_if
              (not (DictionaryValueKind.eq values.value_kind dictionary.value_kind)
                || not (values.entry_count == dictionary.entry_count))
              (ocb_corrupt_file "OCB dictionary values do not match dictionary index"))
        validate_dictionaries strings dictionaries
            ((dictionary.dictionary_id, dictionary) ∷ dictionaries_by_id) (name ∷ seen_names)
            charged

  unfoldable pub validate_index :
      OcbMetadataV1
      → Map OcbColumnDescV1
      → Option OcbDictionaryIndexV1
      → MetadataMaterializationBudget
      → Scoped MetadataMaterializationBudget
  unfolding ◌>>=◌ ◌>>◌ lift reserve_entries check_no_coded validate_dictionaries check_coded_columns
      value_list
  validate_index metadata columns_by_id none budget = do
    lift (check_no_coded (value_list columns_by_id))
    lift (ok budget)
  validate_index metadata columns_by_id (some index) budget = do
    lift (reserve_entries p (length index.dictionaries))
    lift (reserve_entries p (length index.dictionaries))
    (dictionaries_by_id, charged) ←
        validate_dictionaries metadata.string_table.strings index.dictionaries [] [] budget
    lift (check_coded_columns dictionaries_by_id (value_list columns_by_id))
    lift (ok charged)

  unfoldable pub validate_dictionary_graph :
      OcbMetadataV1
      → Map OcbColumnDescV1
      → MetadataMaterializationBudget
      → Scoped MetadataMaterializationBudget
  unfolding validate_index
  validate_dictionary_graph metadata columns_by_id budget =
      validate_index metadata columns_by_id metadata.dictionary_index budget
