-- ===== src/Read/Graph/Chunks.antt =====
-- The column chunks of a row group: `validate_chunk_desc`, `validate_stat_desc`, and the two validations
-- of a chunk's object, by its header and by all its bytes.
use arcadia_tio_rs.Base.{
  ℕ, ◌+◌, ◌-◌, ◌/◌, ◌^◌, List, length, take, drop, replicate, not, ◌==◌, ◌&&◌, ◌||◌, leb, ltb,
  if◌then◌else◌,
}
use arcadia_tio_rs.Error.{
  Result, ok, ocb_corrupt_file, ocb_invalid_input, ocb_unsupported_format, fail_if, ◌>>◌, ◌>>=◌,
}
use arcadia_tio_rs.Bytes.{from_le_bytes, bytes_eq}
use arcadia_tio_rs.Crc.{crc32c_init, crc32c_update, crc32c_finish}
use arcadia_tio_rs.Format.{column_chunk_magic_v1, column_chunk_v1_header_len}
use arcadia_tio_rs.Kinds.{
  OcbBodyKindV1, OcbChecksumKindV1, OcbPhysicalTypeV1, OcbChunkCodecV1, OcbNullabilityV1,
}
use arcadia_tio_rs.Kinds.PhysicalType
use arcadia_tio_rs.Kinds.ChunkCodec
use arcadia_tio_rs.Kinds.ChecksumKind
use arcadia_tio_rs.Kinds.Nullability
use arcadia_tio_rs.BodyRef.{OcbBodyRefV2, is_null, validate}
use arcadia_tio_rs.Limits.{OcbResourceLimits}
use arcadia_tio_rs.Table.{Platform, reserve}
use arcadia_tio_rs.ColumnChunk.{OcbColumnChunkObjectV1}
use arcadia_tio_rs.ColumnChunk.Payload.{decode_payload_with_limits}
use arcadia_tio_rs.Records.ColumnDesc.{OcbColumnDescV1, expected_value_bytes}
use arcadia_tio_rs.Records.RowGroupDesc.{OcbRowGroupDescV1}
use arcadia_tio_rs.Records.ColumnChunkDesc.{OcbColumnChunkDescV1}
use arcadia_tio_rs.Records.ColumnStats.{OcbColumnStatsV1}
use arcadia_tio_rs.Read.Metadata.{Map, get}
use arcadia_tio_rs.Read.Source.{read_at, read_object_bytes_with_resource_limits, usize_max}
use arcadia_tio_rs.Read.Graph.{required}

pub data OcbOpenValidationMode : Type 0 where
  metadata_graph full_payload : OcbOpenValidationMode

-- `from_le_bytes` of a range of the header.
unfoldable pub field : List ℕ → ℕ → ℕ → ℕ
unfolding from_le_bytes
field header at len = from_le_bytes (take len (drop at header))

-- What the header says, against the descriptor.
unfoldable pub check_header : OcbColumnChunkDescV1 → List ℕ → Result (Unit {0})
unfolding field bytes_eq PhysicalType.to_u16 ChunkCodec.to_u16
check_header chunk header = do
  fail_if (not (bytes_eq (take 8 header) column_chunk_magic_v1))
      (ocb_corrupt_file "invalid OCB column chunk magic")
  fail_if (not (field header 8 2 == 1))
      (ocb_unsupported_format "unsupported OCB column chunk object version")
  fail_if
      (not (field header 10 2 == column_chunk_v1_header_len)
        || not (field header 12 2 == PhysicalType.to_u16 chunk.physical_type)
        || not (field header 14 2 == ChunkCodec.to_u16 chunk.codec)
        || not (field header 20 4 == chunk.row_group_id)
        || not (field header 24 4 == chunk.column_id)
        || not (field header 28 8 == chunk.row_count)
        || not (field header 36 8 == chunk.uncompressed_bytes))
      (ocb_corrupt_file "OCB column chunk object does not match descriptor")
  ok tt

abbrev pub min_object_len : ℕ
min_object_len = column_chunk_v1_header_len + 4

-- The lengths of the object, against the descriptor and the limits. A second test of
-- `min_object_len` and the `checked_sub` after it cannot fail after the first.
unfoldable pub check_lengths : OcbColumnChunkDescV1 → List ℕ → OcbResourceLimits → Result (Unit {0})
unfolding ChunkCodec.eq field
check_lengths chunk header resource_limits = do
  fail_if
      (ChunkCodec.eq chunk.codec OcbChunkCodecV1.none
        && (leb (2 ^ 64) (column_chunk_v1_header_len + field header 36 8 + 4)
            || not (column_chunk_v1_header_len + field header 36 8 + 4 == chunk.value_ref.size)))
      (ocb_corrupt_file "OCB uncompressed column chunk object length does not match descriptor")
  fail_if (ChunkCodec.eq chunk.codec OcbChunkCodecV1.zstd && chunk.value_ref.size == min_object_len)
      (ocb_corrupt_file "OCB zstd column chunk object has empty payload")
  fail_if (ltb usize_max chunk.value_ref.size)
      (ocb_corrupt_file "OCB column chunk object exceeds addressable memory")
  fail_if (ltb resource_limits.max_encoded_object_bytes chunk.value_ref.size)
      (ocb_invalid_input "OCB encoded object exceeds resource limit")
  fail_if (ltb resource_limits.max_compressed_chunk_bytes (chunk.value_ref.size - min_object_len))
      (ocb_invalid_input "OCB encoded column chunk payload exceeds resource limit")
  fail_if (ltb resource_limits.max_decompressed_chunk_bytes chunk.uncompressed_bytes)
      (ocb_invalid_input "OCB decoded column chunk payload exceeds resource limit")
  ok tt

unfoldable pub validate_column_chunk_object_header :
    List ℕ → ℕ → OcbColumnChunkDescV1 → OcbResourceLimits → Result (List ℕ)
unfolding validate read_at check_header check_lengths
validate_column_chunk_object_header file file_len chunk resource_limits = do
  validate chunk.value_ref OcbBodyKindV1.column_chunk file_len
  fail_if (ltb chunk.value_ref.size min_object_len)
      (ocb_corrupt_file "OCB column chunk object is too short")
  header ← read_at file chunk.value_ref.offset column_chunk_v1_header_len
  check_header chunk header
  check_lengths chunk header resource_limits
  ok header

-- The two checksums over the header and the payload; the loop reads the payload in pieces of 8192
-- bytes and updates both with each, which is one update with the whole.
unfoldable pub check_checksums : OcbBodyRefV2 → List ℕ → List ℕ → List ℕ → Result (Unit {0})
unfolding crc32c_update crc32c_finish ChecksumKind.eq from_le_bytes
check_checksums reference header payload trailing_crc = do
  let both = crc32c_update (crc32c_update crc32c_init header) payload
  fail_if
      (ChecksumKind.eq reference.checksum_kind OcbChecksumKindV1.crc32c
        && not (crc32c_finish (crc32c_update both trailing_crc) == reference.checksum))
      (ocb_corrupt_file "OCB body reference checksum mismatch")
  fail_if (not (crc32c_finish (crc32c_update both (replicate 4 0)) == from_le_bytes trailing_crc))
      (ocb_corrupt_file "OCB column chunk crc mismatch")
  ok tt

-- The object of a compressed payload, decoded.
unfoldable pub check_decoded :
    Platform → OcbColumnChunkDescV1 → List ℕ → List ℕ → OcbResourceLimits → Result (Unit {0})
unfolding decode_payload_with_limits from_le_bytes
check_decoded p chunk payload trailing_crc resource_limits = do
  let object : OcbColumnChunkObjectV1 = record {
    version = 1;
    physical_type = chunk.physical_type;
    codec = chunk.codec;
    flags = 0;
    row_group_id = chunk.row_group_id;
    column_id = chunk.column_id;
    row_count = chunk.row_count;
    uncompressed_bytes = chunk.uncompressed_bytes;
    payload = payload;
    crc32c = from_le_bytes trailing_crc;
  }
  decoded ←
      decode_payload_with_limits p object resource_limits.max_compressed_chunk_bytes
        resource_limits.max_decompressed_chunk_bytes
  fail_if (not (length decoded == chunk.uncompressed_bytes))
      (ocb_corrupt_file "OCB zstd column chunk decoded byte length does not match descriptor")

-- The `if` on the codec that reserves room for the compressed payload.
unfoldable pub reserve_compressed : Platform → OcbColumnChunkDescV1 → Result (Unit {0})
unfolding reserve ChunkCodec.eq
reserve_compressed p chunk =
    if ChunkCodec.eq chunk.codec OcbChunkCodecV1.zstd
    then reserve p (chunk.value_ref.size - min_object_len)
        "OCB compressed payload allocation failed within resource limit"
    else ok tt

unfoldable pub validate_column_chunk_object_streaming :
    Platform → List ℕ → ℕ → OcbColumnChunkDescV1 → OcbResourceLimits → Result (Unit {0})
unfolding validate_column_chunk_object_header reserve_compressed read_at check_checksums
    ChunkCodec.eq check_decoded
validate_column_chunk_object_streaming p file file_len chunk resource_limits = do
  header ← validate_column_chunk_object_header file file_len chunk resource_limits
  reserve_compressed p chunk
  let encoded_bytes = chunk.value_ref.size - min_object_len
  let start = chunk.value_ref.offset + column_chunk_v1_header_len
  payload ← read_at file start encoded_bytes
  trailing_crc ← read_at file (start + encoded_bytes) 4
  check_checksums chunk.value_ref header payload trailing_crc
  (if ChunkCodec.eq chunk.codec OcbChunkCodecV1.zstd
      then check_decoded p chunk payload trailing_crc resource_limits
      else ok tt)

-- `div_ceil(8)`.
unfoldable pub bitmap_bytes : ℕ → ℕ
bitmap_bytes row_count = (row_count + 7) / 8

-- The descriptor against its column, before the object is looked at.
unfoldable pub check_chunk_column :
    OcbRowGroupDescV1 → OcbColumnChunkDescV1 → OcbColumnDescV1 → ℕ → Result (Unit {0})
unfolding PhysicalType.eq expected_value_bytes is_null Nullability.eq validate bitmap_bytes
check_chunk_column row_group chunk column file_len = do
  fail_if (not (PhysicalType.eq chunk.physical_type column.physical_type))
      (ocb_corrupt_file "OCB chunk descriptor does not match schema")
  fail_if (not (chunk.row_count == row_group.row_count))
      (ocb_corrupt_file "OCB chunk row_count does not match row group")
  expected_bytes ← expected_value_bytes column chunk.row_count
  fail_if (not (chunk.uncompressed_bytes == expected_bytes))
      (ocb_corrupt_file "OCB chunk byte length does not match row count and physical type")
  (if is_null chunk.validity_ref then ok tt else (do
    fail_if (not (Nullability.eq column.nullability OcbNullabilityV1.nullable))
        (ocb_corrupt_file "OCB non-null column chunk cannot have a validity bitmap")
    validate chunk.validity_ref OcbBodyKindV1.validity_bitmap file_len
    fail_if (not (chunk.validity_ref.size == bitmap_bytes chunk.row_count))
        (ocb_corrupt_file "OCB validity bitmap length does not match row count")))

module _ (p : Platform) (file : List ℕ) (file_len : ℕ) where
  unfoldable pub check_chunk_object :
      OcbOpenValidationMode → OcbColumnChunkDescV1 → OcbResourceLimits → Result (Unit {0})
  unfolding validate_column_chunk_object_header validate_column_chunk_object_streaming is_null
      read_object_bytes_with_resource_limits bitmap_bytes
  check_chunk_object OcbOpenValidationMode.metadata_graph chunk resource_limits = do
    header ← validate_column_chunk_object_header file file_len chunk resource_limits
    ok tt
  check_chunk_object OcbOpenValidationMode.full_payload chunk resource_limits = do
    validate_column_chunk_object_streaming p file file_len chunk resource_limits
    (if is_null chunk.validity_ref then ok tt else (do
      validity ←
          read_object_bytes_with_resource_limits p file file_len chunk.validity_ref
            OcbBodyKindV1.validity_bitmap resource_limits
      fail_if (not (length validity == bitmap_bytes chunk.row_count))
          (ocb_corrupt_file "OCB validity bitmap length does not match row count")))

  unfoldable pub validate_chunk_desc :
      OcbRowGroupDescV1
      → OcbColumnChunkDescV1
      → Map OcbColumnDescV1
      → OcbOpenValidationMode
      → OcbResourceLimits
      → Result (Unit {0})
  unfolding required get check_chunk_column check_chunk_object
  validate_chunk_desc row_group chunk columns_by_id validation resource_limits = do
    fail_if (not (chunk.row_group_id == row_group.row_group_id))
        (ocb_corrupt_file "OCB row-group chunk descriptor references a different row group")
    column ←
        required (get columns_by_id chunk.column_id)
          "OCB chunk descriptor references unknown column"
    check_chunk_column row_group chunk column file_len
    check_chunk_object validation chunk resource_limits

unfoldable pub validate_stat_desc :
    OcbRowGroupDescV1 → OcbColumnStatsV1 → Map OcbColumnDescV1 → Result (Unit {0})
unfolding required get PhysicalType.eq
validate_stat_desc row_group stat columns_by_id = do
  fail_if (not (stat.row_group_id == row_group.row_group_id))
      (ocb_corrupt_file "OCB row-group stat references a different row group")
  column ←
      required (get columns_by_id stat.column_id) "OCB stats descriptor references unknown column"
  fail_if (not (PhysicalType.eq stat.physical_type column.physical_type))
      (ocb_corrupt_file "OCB stat dtype does not match schema column dtype")
  fail_if (PhysicalType.eq stat.physical_type OcbPhysicalTypeV1.fixed_binary)
      (ocb_corrupt_file "OCB fixed-binary columns do not support scalar stats")
