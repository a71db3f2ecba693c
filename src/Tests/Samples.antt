-- ===== src/Tests/Samples.antt =====
-- Small records for the examples.
use arcadia_tio_rs.Base.{ℕ, arith, List, [], ◌∷◌, Bool, true, some, ltb, ◌^◌, ◌&&◌}
use arcadia_tio_rs.Bytes.{IsU32, IsU64}
use arcadia_tio_rs.Kinds.{
  OcbBodyKindV1, OcbPhysicalTypeV1, OcbLogicalKindV1, OcbNullabilityV1, OcbChunkCodecV1,
  OcbDictionaryValueKindV1, OcbOrderingDirectionV1, OcbNullOrderV1,
}
use arcadia_tio_rs.BodyRef
use arcadia_tio_rs.BodyRef.{OcbBodyRefV2}
use arcadia_tio_rs.Limits.{MetadataMaterializationBudget}
use arcadia_tio_rs.Table.{Platform}
use arcadia_tio_rs.Records.StatScalar.{OcbStatScalarV1}
use arcadia_tio_rs.Records.ColumnDesc
use arcadia_tio_rs.Records.ColumnDesc.{OcbColumnDescV1}
use arcadia_tio_rs.Records.DictionaryDesc
use arcadia_tio_rs.Records.DictionaryDesc.{OcbDictionaryDescV1}
use arcadia_tio_rs.Records.RowGroupDesc
use arcadia_tio_rs.Records.RowGroupDesc.{OcbRowGroupDescV1}
use arcadia_tio_rs.Records.ColumnChunkDesc
use arcadia_tio_rs.Records.ColumnChunkDesc.{OcbColumnChunkDescV1}
use arcadia_tio_rs.Records.ColumnStats
use arcadia_tio_rs.Records.ColumnStats.{OcbColumnStatsV1}
use arcadia_tio_rs.Records.OrderingKey
use arcadia_tio_rs.Records.OrderingKey.{OcbOrderingKeyV1}
use arcadia_tio_rs.Records.OrderingProof
use arcadia_tio_rs.Records.OrderingProof.{OcbRowGroupOrderingProofV1}

pub new-IsTyped :
    (offset size : ℕ) (kind : OcbBodyKindV1) (checksum : ℕ)
    → IsU64 offset
    → IsU64 size
    → IsU32 checksum
    → BodyRef.IsTyped (BodyRef.new offset size kind checksum)
unfolding BodyRef.new
new-IsTyped offset size kind checksum ho hs hc = record {
  offset_u64 = ho;
  size_u64 = hs;
  flags_u16 = omega arith;
  reserved0_u16 = omega arith;
  checksum_u32 = hc;
  reserved1_u32 = omega arith;
}

abbrev ascii : List ℕ → Bool
ascii [] = true
ascii (b ∷ bs) = ltb b 128 && ascii bs

-- A platform that grants requests below 2 ^ 40 bytes and takes ASCII for UTF-8.
abbrev pub platform : Platform
platform = record {
  grants = λ bytes. ltb bytes (2 ^ 40);
  grants_entries = λ count. ltb count (2 ^ 30);
  is_utf8 = ascii;
  zstd_stream = λ _ encoded. some (encoded, true);
  size_of_string = 24;
  size_of_bytes = 24;
  size_of_column_desc = 28;
  size_of_dictionary_desc = 56;
  size_of_row_group_desc = 112;
  size_of_column_chunk_desc = 96;
  size_of_column_stats = 48;
  size_of_ordering_key = 8;
  size_of_ordering_proof = 72;
}

abbrev pub budget : MetadataMaterializationBudget
budget = record { limit_bytes = 17_179_869_184; charged_bytes = 0 }

abbrev pub charged : ℕ → MetadataMaterializationBudget
charged bytes = record { limit_bytes = 17_179_869_184; charged_bytes = bytes }

abbrev pub column : OcbColumnDescV1
column = record {
  column_id = 1;
  name_string_id = 2;
  physical_type = OcbPhysicalTypeV1.i64;
  logical_kind = OcbLogicalKindV1.plain;
  flags = 5;
  dictionary_id = 6;
  scale = 7;
  nullability = OcbNullabilityV1.non_null;
  reserved0 = 9;
  fixed_binary_width = 0;
}

pub column-IsTyped : ColumnDesc.IsTyped column
column-IsTyped = record {
  column_id_u32 = omega arith;
  name_string_id_u32 = omega arith;
  flags_u32 = omega arith;
  dictionary_id_u32 = omega arith;
  scale_i32 = omega arith;
  reserved0_u16 = omega arith;
  fixed_binary_width_u32 = omega arith;
}

abbrev pub dictionary : OcbDictionaryDescV1
dictionary = record {
  dictionary_id = 1;
  name_string_id = 2;
  code_physical_type = OcbPhysicalTypeV1.i64;
  value_kind = OcbDictionaryValueKindV1.utf8;
  flags = 5;
  values_ref = BodyRef.new 6656 280 OcbBodyKindV1.dictionary_values 82;
  entry_count = 7;
  reserved0 = 8;
}

pub dictionary-IsTyped : DictionaryDesc.IsTyped dictionary
dictionary-IsTyped = record {
  dictionary_id_u32 = omega arith;
  name_string_id_u32 = omega arith;
  flags_u32 = omega arith;
  values_ref_typed = new-IsTyped _ _ _ _ (omega arith) (omega arith) (omega arith);
  entry_count_u32 = omega arith;
  reserved0_u32 = omega arith;
}

abbrev pub row_group : OcbRowGroupDescV1
row_group = record {
  row_group_id = 1;
  flags = 2;
  base_row = 3;
  row_count = 4;
  chunk_desc_begin = 5;
  chunk_desc_count = 6;
  stat_begin = 7;
  stat_count = 8;
  first_key_tuple_ref = BodyRef.new 8192 280 OcbBodyKindV1.key_tuple 85;
  last_key_tuple_ref = BodyRef.new 8704 280 OcbBodyKindV1.key_tuple 86;
}

pub row_group-IsTyped : RowGroupDesc.IsTyped row_group
row_group-IsTyped = record {
  row_group_id_u32 = omega arith;
  flags_u32 = omega arith;
  base_row_u64 = omega arith;
  row_count_u64 = omega arith;
  chunk_desc_begin_u64 = omega arith;
  chunk_desc_count_u32 = omega arith;
  stat_begin_u64 = omega arith;
  stat_count_u32 = omega arith;
  first_key_tuple_ref_typed = new-IsTyped _ _ _ _ (omega arith) (omega arith) (omega arith);
  last_key_tuple_ref_typed = new-IsTyped _ _ _ _ (omega arith) (omega arith) (omega arith);
}

abbrev pub column_chunk : OcbColumnChunkDescV1
column_chunk = record {
  row_group_id = 1;
  column_id = 2;
  physical_type = OcbPhysicalTypeV1.i64;
  codec = OcbChunkCodecV1.none;
  flags = 5;
  value_ref = BodyRef.new 6656 280 OcbBodyKindV1.column_chunk 82;
  validity_ref = BodyRef.new 7168 280 OcbBodyKindV1.validity_bitmap 83;
  row_count = 8;
  uncompressed_bytes = 9;
}

pub column_chunk-IsTyped : ColumnChunkDesc.IsTyped column_chunk
column_chunk-IsTyped = record {
  row_group_id_u32 = omega arith;
  column_id_u32 = omega arith;
  flags_u32 = omega arith;
  value_ref_typed = new-IsTyped _ _ _ _ (omega arith) (omega arith) (omega arith);
  validity_ref_typed = new-IsTyped _ _ _ _ (omega arith) (omega arith) (omega arith);
  row_count_u64 = omega arith;
  uncompressed_bytes_u64 = omega arith;
}

abbrev pub column_stats : OcbColumnStatsV1
column_stats = record {
  row_group_id = 1;
  column_id = 2;
  physical_type = OcbPhysicalTypeV1.i64;
  flags = 4;
  null_count = 5;
  min_value = OcbStatScalarV1.i64 5;
  max_value = OcbStatScalarV1.i64 5;
}

pub column_stats-IsTyped : ColumnStats.IsTyped column_stats
column_stats-IsTyped = record {
  row_group_id_u32 = omega arith;
  column_id_u32 = omega arith;
  flags_u16 = omega arith;
  null_count_u32 = omega arith;
  min_value_typed = omega arith;
  max_value_typed = omega arith;
}

abbrev pub ordering_key : OcbOrderingKeyV1
ordering_key = record {
  column_id = 1;
  direction = OcbOrderingDirectionV1.ascending;
  null_order = OcbNullOrderV1.nulls_first;
  reserved0 = 4;
}

pub ordering_key-IsTyped : OrderingKey.IsTyped ordering_key
ordering_key-IsTyped = record { column_id_u32 = omega arith; reserved0_u16 = omega arith }

abbrev pub row_group_proof : OcbRowGroupOrderingProofV1
row_group_proof = record {
  row_group_id = 1;
  flags = 2;
  first_tuple_ref = BodyRef.new 5120 280 OcbBodyKindV1.key_tuple 79;
  last_tuple_ref = BodyRef.new 5632 280 OcbBodyKindV1.key_tuple 80;
}

pub row_group_proof-IsTyped : OrderingProof.IsTyped row_group_proof
row_group_proof-IsTyped = record {
  row_group_id_u32 = omega arith;
  flags_u32 = omega arith;
  first_tuple_ref_typed = new-IsTyped _ _ _ _ (omega arith) (omega arith) (omega arith);
  last_tuple_ref_typed = new-IsTyped _ _ _ _ (omega arith) (omega arith) (omega arith);
}
