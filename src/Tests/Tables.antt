-- ===== src/Tests/Tables.antt =====
-- Examples of the tables.
use arcadia_tio_rs.Base.{ℕ, arith, List, [], ◌∷◌, ◌++◌, refl, ◌≡◌}
use arcadia_tio_rs.Error.{ok}
use arcadia_tio_rs.Bytes.{write_u32}
use arcadia_tio_rs.Crc.{crc32c, seal}
use arcadia_tio_rs.Kinds.{OcbBodyKindV1}
use arcadia_tio_rs.BodyRef
use arcadia_tio_rs.Limits.{charge}
use arcadia_tio_rs.Tests.Samples.{
  new-IsTyped, platform, budget, charged, column, column-IsTyped, dictionary, dictionary-IsTyped,
  row_group, row_group-IsTyped, column_chunk, column_chunk-IsTyped, column_stats,
  column_stats-IsTyped, ordering_key, ordering_key-IsTyped, row_group_proof,
  row_group_proof-IsTyped,
}
use arcadia_tio_rs.StringTable
use arcadia_tio_rs.StringTable.Strings
use arcadia_tio_rs.StringTable.{OcbStringTableV1}
use arcadia_tio_rs.StringTable.Decode as StringTableDecode
use arcadia_tio_rs.StringTable.Laws as StringTableLaws
use arcadia_tio_rs.Schema
use arcadia_tio_rs.Schema.{OcbSchemaV1}
use arcadia_tio_rs.Schema.Decode as SchemaDecode
use arcadia_tio_rs.Schema.Laws as SchemaLaws
use arcadia_tio_rs.DictionaryIndex
use arcadia_tio_rs.DictionaryIndex.{OcbDictionaryIndexV1}
use arcadia_tio_rs.DictionaryIndex.Decode as DictionaryIndexDecode
use arcadia_tio_rs.DictionaryIndex.Laws as DictionaryIndexLaws
use arcadia_tio_rs.OrderingProof
use arcadia_tio_rs.OrderingProof.{OcbOrderingProofV1}
use arcadia_tio_rs.OrderingProof.Decode as OrderingProofDecode
use arcadia_tio_rs.OrderingProof.Laws as OrderingProofLaws
use arcadia_tio_rs.RowGroupIndex
use arcadia_tio_rs.RowGroupIndex.{OcbRowGroupIndexV1}
use arcadia_tio_rs.RowGroupIndex.Decode as RowGroupIndexDecode
use arcadia_tio_rs.RowGroupIndex.Laws as RowGroupIndexLaws
use arcadia_tio_rs.RowGroupIndexDelta
use arcadia_tio_rs.RowGroupIndexDelta.{OcbRowGroupIndexDeltaV1}
use arcadia_tio_rs.RowGroupIndexDelta.Decode as RowGroupIndexDeltaDecode
use arcadia_tio_rs.RowGroupIndexDelta.Laws as RowGroupIndexDeltaLaws
use arcadia_tio_rs.Kinds.{OcbDictionaryValueKindV1}
use arcadia_tio_rs.DictionaryValues
use arcadia_tio_rs.DictionaryValues.{OcbDictionaryValuesV1}
use arcadia_tio_rs.DictionaryValues.Decode as DictionaryValuesDecode
use arcadia_tio_rs.DictionaryValues.Layout as DictionaryValuesLayout
use arcadia_tio_rs.DictionaryValues.Laws as DictionaryValuesLaws
use arcadia_tio_rs.DictionaryValues.Offsets.{ends_from}

abbrev schema : OcbSchemaV1
schema = record {
  version = 1;
  string_table_ref = BodyRef.new 4608 280 OcbBodyKindV1.string_table 78;
  columns = column ∷ [];
  crc32c = 4;
}

schema-IsTyped : Schema.IsTyped schema
schema-IsTyped = record {
  version_u16 = omega arith;
  string_table_ref_typed = new-IsTyped _ _ _ _ (omega arith) (omega arith) (omega arith);
  columns_typed = (column-IsTyped, tt);
}

abbrev schema_bytes : List ℕ
schema_bytes = seal (SchemaLaws.body schema ++ write_u32 0)

schema_written : Schema.write_to schema ≡ ok schema_bytes
unfolding Schema.write_to SchemaLaws.body BodyRef.new
schema_written = refl

schema_paid : charge budget 28 ≡ ok (charged 28)
unfolding charge
schema_paid = refl

schema_read_from-write_to_example :
    SchemaDecode.read_from_bytes_with_budget platform schema_bytes budget
    ≡ ok (record schema { crc32c = crc32c (SchemaLaws.body schema ++ write_u32 0) }, charged 28)
schema_read_from-write_to_example =
    SchemaLaws.schema_read_from-write_to platform schema budget (charged 28) schema_bytes
      schema-IsTyped refl schema_written (omega arith) schema_paid refl

abbrev dictionary_index : OcbDictionaryIndexV1
dictionary_index = record { version = 1; dictionaries = dictionary ∷ []; crc32c = 3 }

dictionary_index-IsTyped : DictionaryIndex.IsTyped dictionary_index
dictionary_index-IsTyped = record {
  version_u16 = omega arith;
  dictionaries_typed = (dictionary-IsTyped, tt);
}

abbrev dictionary_index_bytes : List ℕ
dictionary_index_bytes = seal (DictionaryIndexLaws.body dictionary_index ++ write_u32 0)

dictionary_index_written : DictionaryIndex.write_to dictionary_index ≡ ok dictionary_index_bytes
unfolding DictionaryIndex.write_to DictionaryIndexLaws.body BodyRef.new
dictionary_index_written = refl

dictionary_index_paid : charge budget 56 ≡ ok (charged 56)
unfolding charge
dictionary_index_paid = refl

dictionary_index_read_from-write_to_example :
    DictionaryIndexDecode.read_from_bytes_with_budget platform dictionary_index_bytes budget
    ≡ ok (
      record dictionary_index {
        crc32c = crc32c (DictionaryIndexLaws.body dictionary_index ++ write_u32 0);
      },
      charged 56,
    )
dictionary_index_read_from-write_to_example =
    DictionaryIndexLaws.dictionary_index_read_from-write_to platform dictionary_index budget
      (charged 56) dictionary_index_bytes dictionary_index-IsTyped refl dictionary_index_written
      (omega arith) dictionary_index_paid refl

abbrev ordering_proof : OcbOrderingProofV1
ordering_proof = record {
  version = 1;
  flags = 2;
  keys = ordering_key ∷ [];
  row_group_proofs = row_group_proof ∷ [];
  crc32c = 5;
}

ordering_proof-IsTyped : OrderingProof.IsTyped ordering_proof
ordering_proof-IsTyped = record {
  version_u16 = omega arith;
  flags_u16 = omega arith;
  keys_typed = (ordering_key-IsTyped, tt);
  row_group_proofs_typed = (row_group_proof-IsTyped, tt);
}

abbrev ordering_proof_bytes : List ℕ
ordering_proof_bytes = seal (OrderingProofLaws.body ordering_proof ++ write_u32 0)

ordering_proof_written : OrderingProof.write_to ordering_proof ≡ ok ordering_proof_bytes
unfolding OrderingProof.write_to OrderingProofLaws.body BodyRef.new
ordering_proof_written = refl

ordering_proof-HasRoom : OrderingProofLaws.HasRoom platform ordering_proof budget (charged 80)
unfolding OrderingProofLaws.materialized charge
ordering_proof-HasRoom = record {
  small = omega arith;
  paid = refl;
  keys_granted = refl;
  row_group_proofs_granted = refl;
}

ordering_proof_read_from-write_to_example :
    OrderingProofDecode.read_from_bytes_with_budget platform ordering_proof_bytes budget
    ≡ ok (
      record ordering_proof {
        crc32c = crc32c (OrderingProofLaws.body ordering_proof ++ write_u32 0);
      },
      charged 80,
    )
ordering_proof_read_from-write_to_example =
    OrderingProofLaws.ordering_proof_read_from-write_to platform ordering_proof budget (charged 80)
      ordering_proof_bytes ordering_proof-IsTyped refl ordering_proof_written ordering_proof-HasRoom

abbrev row_group_index : OcbRowGroupIndexV1
row_group_index = record {
  version = 1;
  flags = 2;
  row_groups = row_group ∷ [];
  column_chunks = column_chunk ∷ [];
  stats = column_stats ∷ [];
  crc32c = 6;
}

row_group_index-IsTyped : RowGroupIndex.IsTyped row_group_index
row_group_index-IsTyped = record {
  version_u16 = omega arith;
  flags_u32 = omega arith;
  row_groups_typed = (row_group-IsTyped, tt);
  column_chunks_typed = (column_chunk-IsTyped, tt);
  stats_typed = (column_stats-IsTyped, tt);
}

abbrev row_group_index_bytes : List ℕ
row_group_index_bytes = seal (RowGroupIndexLaws.body row_group_index ++ write_u32 0)

row_group_index_written : RowGroupIndex.write_to row_group_index ≡ ok row_group_index_bytes
unfolding RowGroupIndex.write_to RowGroupIndexLaws.body BodyRef.new
row_group_index_written = refl

row_group_index-HasRoom : RowGroupIndexLaws.HasRoom platform row_group_index budget (charged 256)
unfolding RowGroupIndexLaws.materialized charge
row_group_index-HasRoom = record {
  small = omega arith;
  paid = refl;
  row_groups_granted = refl;
  column_chunks_granted = refl;
  stats_granted = refl;
}

row_group_index_read_from-write_to_example :
    RowGroupIndexDecode.read_from_bytes_with_budget platform row_group_index_bytes budget
    ≡ ok (
      record row_group_index {
        crc32c = crc32c (RowGroupIndexLaws.body row_group_index ++ write_u32 0);
      },
      charged 256,
    )
row_group_index_read_from-write_to_example =
    RowGroupIndexLaws.row_group_index_read_from-write_to platform row_group_index budget
      (charged 256) row_group_index_bytes row_group_index-IsTyped refl row_group_index_written
      row_group_index-HasRoom

abbrev row_group_index_delta : OcbRowGroupIndexDeltaV1
row_group_index_delta = record {
  version = 1;
  base_row_group_count = 2;
  base_column_chunk_count = 3;
  base_stat_count = 4;
  base_ordering_proof_count = 5;
  flags = 6;
  row_groups = row_group ∷ [];
  column_chunks = column_chunk ∷ [];
  stats = column_stats ∷ [];
  ordering_keys = ordering_key ∷ [];
  row_group_ordering_proofs = row_group_proof ∷ [];
  crc32c = 12;
}

row_group_index_delta-IsTyped : RowGroupIndexDelta.IsTyped row_group_index_delta
row_group_index_delta-IsTyped = record {
  version_u16 = omega arith;
  base_row_group_count_u32 = omega arith;
  base_column_chunk_count_u32 = omega arith;
  base_stat_count_u32 = omega arith;
  base_ordering_proof_count_u32 = omega arith;
  flags_u32 = omega arith;
  row_groups_typed = (row_group-IsTyped, tt);
  column_chunks_typed = (column_chunk-IsTyped, tt);
  stats_typed = (column_stats-IsTyped, tt);
  ordering_keys_typed = (ordering_key-IsTyped, tt);
  row_group_ordering_proofs_typed = (row_group_proof-IsTyped, tt);
}

abbrev row_group_index_delta_bytes : List ℕ
row_group_index_delta_bytes =
    seal (RowGroupIndexDeltaLaws.body row_group_index_delta ++ write_u32 0)

row_group_index_delta_written :
    RowGroupIndexDelta.write_to row_group_index_delta ≡ ok row_group_index_delta_bytes
unfolding RowGroupIndexDelta.write_to RowGroupIndexDeltaLaws.body BodyRef.new
row_group_index_delta_written = refl

row_group_index_delta-HasRoom :
    RowGroupIndexDeltaLaws.HasRoom platform row_group_index_delta budget (charged 336)
unfolding RowGroupIndexDeltaLaws.materialized charge
row_group_index_delta-HasRoom = record {
  small = omega arith;
  paid = refl;
  row_groups_granted = refl;
  column_chunks_granted = refl;
  stats_granted = refl;
  ordering_keys_granted = refl;
  row_group_ordering_proofs_granted = refl;
}

row_group_index_delta_read_from-write_to_example :
    RowGroupIndexDeltaDecode.read_from_bytes_with_budget platform row_group_index_delta_bytes budget
    ≡ ok (
      record row_group_index_delta {
        crc32c = crc32c (RowGroupIndexDeltaLaws.body row_group_index_delta ++ write_u32 0);
      },
      charged 336,
    )
row_group_index_delta_read_from-write_to_example =
    RowGroupIndexDeltaLaws.row_group_index_delta_read_from-write_to platform row_group_index_delta
      budget (charged 336) row_group_index_delta_bytes row_group_index_delta-IsTyped refl
      row_group_index_delta_written row_group_index_delta-HasRoom

abbrev string_table : OcbStringTableV1
string_table = record {
  version = 1;
  strings = (b'p' ∷ b'x' ∷ []) ∷ [] ∷ (b'q' ∷ b't' ∷ b'y' ∷ []) ∷ [];
  crc32c = 0;
}

string_table-IsTyped : StringTable.IsTyped platform string_table
string_table-IsTyped = record {
  version_u16 = omega arith;
  strings_utf8 = (refl, (refl, (refl, tt)));
}

abbrev string_table_bytes : List ℕ
string_table_bytes = seal (StringTableLaws.body string_table ++ write_u32 0)

string_table_written : StringTable.write_to string_table ≡ ok string_table_bytes
unfolding StringTable.write_to StringTableLaws.body StringTableLaws.written Strings.prefixed
string_table_written = refl

string_table-HasRoom : StringTableLaws.HasRoom platform string_table budget (charged 77)
unfolding StringTableLaws.materialized charge
string_table-HasRoom = record {
  small = omega arith;
  paid = refl;
  vector_granted = refl;
  strings_granted = (refl, (refl, (refl, tt)));
}

string_table_read_from-write_to_example :
    StringTableDecode.read_from_bytes_with_budget platform string_table_bytes budget
    ≡ ok (
      record string_table { crc32c = crc32c (StringTableLaws.body string_table ++ write_u32 0) },
      charged 77,
    )
string_table_read_from-write_to_example =
    StringTableLaws.string_table_read_from-write_to platform string_table budget (charged 77)
      string_table_bytes string_table-IsTyped refl string_table_written string_table-HasRoom

-- Two values of two bytes.
abbrev dictionary_values : OcbDictionaryValuesV1
dictionary_values = record {
  version = 1;
  value_kind = OcbDictionaryValueKindV1.fixed_bytes;
  fixed_width = 2;
  values = (1 ∷ 2 ∷ []) ∷ (3 ∷ 4 ∷ []) ∷ [];
  crc32c = 0;
}

dictionary_values-IsTyped : DictionaryValues.IsTyped dictionary_values
dictionary_values-IsTyped = record {
  version_u16 = omega arith;
  fixed_width_u32 = omega arith;
  values_bytes = omega arith;
}

abbrev dictionary_values_bytes : List ℕ
dictionary_values_bytes = seal (DictionaryValuesLayout.body dictionary_values ++ write_u32 0)

dictionary_values_written : DictionaryValues.write_to dictionary_values ≡ ok dictionary_values_bytes
unfolding DictionaryValues.write_to DictionaryValuesLayout.body DictionaryValuesLayout.taken
    ends_from
dictionary_values_written = refl

dictionary_values_room : DictionaryValuesLaws.HasRoom platform dictionary_values budget (charged 52)
unfolding charge DictionaryValuesLaws.materialized
dictionary_values_room = record {
  few = omega arith;
  small = omega arith;
  paid = refl;
  vector_granted = refl;
  values_granted = (refl, (refl, tt));
}

dictionary_values_read_from-write_to_example :
    DictionaryValuesDecode.read_from_bytes_with_budget platform dictionary_values_bytes budget
    ≡ ok (
      record dictionary_values {
        crc32c = crc32c (DictionaryValuesLayout.body dictionary_values ++ write_u32 0);
      },
      charged 52,
    )
dictionary_values_read_from-write_to_example =
    DictionaryValuesLaws.dictionary_values_read_from-write_to platform dictionary_values budget
      (charged 52) dictionary_values_bytes dictionary_values-IsTyped refl
      (omega arith, (omega arith, tt)) dictionary_values_written dictionary_values_room
