-- ===== src/Read/Graph/Roots.antt =====
-- `validate_v2_root_semantics` and `validate_root_counts`: a root against the tables that it refers to.
use arcadia_tio_rs.Base.{
  ℕ, ◌+◌, ◌^◌, List, [], ◌∷◌, length, not, ◌==◌, ◌&&◌, ◌||◌, leb, ltb, Option, some, none,
  if◌then◌else◌, String,
}
use arcadia_tio_rs.Error.{Result, ok, ocb_corrupt_file, fail_if, ◌>>◌, ◌>>=◌}
use arcadia_tio_rs.BodyRef.{is_null}
use arcadia_tio_rs.Records.RowGroupDesc.{OcbRowGroupDescV1}
use arcadia_tio_rs.RootV2.{OcbRootV2}
use arcadia_tio_rs.DictionaryIndex.{OcbDictionaryIndexV1}
use arcadia_tio_rs.Read.Metadata.{OcbMetadataV1}

-- `try_fold` of `checked_add` over the row counts.
unfoldable pub add_row_counts : String → ℕ → List OcbRowGroupDescV1 → Result ℕ
add_row_counts message total [] = ok total
add_row_counts message total (g ∷ row_groups) = do
  fail_if (leb (2 ^ 64) (total + g.row_count)) (ocb_corrupt_file message)
  add_row_counts message (total + g.row_count) row_groups

-- The `filter` on the row groups that the last append added.
unfoldable pub appended : ℕ → ℕ → List OcbRowGroupDescV1 → List OcbRowGroupDescV1
appended begin end [] = []
appended begin end (g ∷ row_groups) =
    if leb begin g.row_group_id && ltb g.row_group_id end
    then g ∷ appended begin end row_groups
    else appended begin end row_groups

unfoldable pub check_previous_generation : OcbRootV2 → Result (Unit {0})
unfolding is_null
check_previous_generation root =
    if is_null root.previous_root_ref
    then fail_if (not (root.previous_generation == 0))
        (ocb_corrupt_file "OCB first root must not reference a previous generation")
    else fail_if
        (leb (2 ^ 64) (root.previous_generation + 1)
          || not (root.previous_generation + 1 == root.generation))
        (ocb_corrupt_file "OCB root previous generation metadata is invalid")

unfoldable pub validate_v2_root_semantics : OcbRootV2 → OcbMetadataV1 → Result (Unit {0})
unfolding is_null check_previous_generation add_row_counts appended
validate_v2_root_semantics root metadata = do
  check_previous_generation root
  fail_if (leb (2 ^ 64) (root.append_base_row + root.append_row_count))
      (ocb_corrupt_file "OCB root append row range overflows")
  fail_if (ltb root.row_count (root.append_base_row + root.append_row_count))
      (ocb_corrupt_file "OCB root append row range exceeds total rows")
  fail_if (leb (2 ^ 32) (root.append_base_row_group + root.append_row_group_count))
      (ocb_corrupt_file "OCB root append row-group range overflows")
  fail_if (ltb root.row_group_count (root.append_base_row_group + root.append_row_group_count))
      (ocb_corrupt_file "OCB root append row-group range exceeds total row groups")
  fail_if
      ((root.append_row_count == 0 || root.append_row_group_count == 0)
        && not (is_null root.previous_root_ref && root.row_count == 0 && root.row_group_count == 0))
      (ocb_corrupt_file "OCB root append range must be non-empty")
  appended_rows ← add_row_counts "OCB root append row count overflows" 0 (
      appended root.append_base_row_group (root.append_base_row_group + root.append_row_group_count)
        metadata.row_group_index.row_groups)
  fail_if (not (appended_rows == root.append_row_count))
      (ocb_corrupt_file "OCB root append row count does not match appended row groups")
  ok tt

-- The `if` and the `match` on the dictionary index.
unfoldable pub check_dictionary_count : Option OcbDictionaryIndexV1 → ℕ → Result (Unit {0})
check_dictionary_count none count =
    fail_if (ltb 0 count) (ocb_corrupt_file "OCB root dictionary_count requires dictionary index")
check_dictionary_count (some index) count =
    fail_if (not (length index.dictionaries == count))
      (ocb_corrupt_file "OCB root dictionary_count does not match dictionary index")

unfoldable pub validate_root_counts : OcbMetadataV1 → ℕ → Result (Unit {0})
unfolding check_dictionary_count add_row_counts
validate_root_counts metadata root_column_chunk_count = do
  fail_if (not (metadata.root.column_count == length metadata.schema.columns))
      (ocb_corrupt_file "OCB root column_count does not match schema")
  fail_if (not (metadata.root.row_group_count == length metadata.row_group_index.row_groups))
      (ocb_corrupt_file "OCB root row_group_count does not match row-group index")
  fail_if (not (root_column_chunk_count == length metadata.row_group_index.column_chunks))
      (ocb_corrupt_file "OCB root column_chunk_count does not match row-group index")
  check_dictionary_count metadata.dictionary_index metadata.root.dictionary_count
  total_rows ← add_row_counts "OCB row_count overflows" 0 metadata.row_group_index.row_groups
  fail_if (not (total_rows == metadata.root.row_count))
      (ocb_corrupt_file "OCB root row_count does not match row groups")
  ok tt
