-- ===== src/ColumnChunk/Decode.antt =====
-- `OcbColumnChunkObjectV1::read_from_bytes`.
use arcadia_tio_rs.Base.{ℕ, ◌==◌, ◌&&◌, not, List, length, take}
use arcadia_tio_rs.Error.{Result, ok, ocb_corrupt_file, ocb_unsupported_format}
use arcadia_tio_rs.Error
use arcadia_tio_rs.Bytes.{
  Reader, ◌>>=◌, ◌>>◌, pure, lift, check, read_exact_ocb, read_u16, read_u32, read_u64, cursor,
  bytes_eq,
}
use arcadia_tio_rs.Format.{column_chunk_magic_v1, column_chunk_v1_header_len}
use arcadia_tio_rs.Crc.{unseal}
use arcadia_tio_rs.Kinds.{OcbChunkCodecV1}
use arcadia_tio_rs.Kinds.PhysicalType
use arcadia_tio_rs.Kinds.ChunkCodec
use arcadia_tio_rs.Table.{remaining_before_crc, position, tell}
use arcadia_tio_rs.ColumnChunk.{OcbColumnChunkObjectV1, check_value_bytes}

-- What the cursor over the checked bytes reads; `copy_within` and `truncate` leave the payload.
unfoldable pub decode : ℕ → ℕ → Reader OcbColumnChunkObjectV1
unfolding check_value_bytes ChunkCodec.eq
decode total actual_crc = do
  magic ← read_exact_ocb 8
  check (not (bytes_eq magic column_chunk_magic_v1))
      (ocb_corrupt_file "invalid OCB column chunk magic")
  version ← read_u16
  check (not (version == 1)) (ocb_unsupported_format "unsupported OCB column chunk version")
  header_bytes ← read_u16
  check (not (header_bytes == column_chunk_v1_header_len))
      (ocb_corrupt_file "invalid OCB column chunk header length")
  physical_type_code ← read_u16
  physical_type ← lift (PhysicalType.from_u16 physical_type_code)
  codec_code ← read_u16
  codec ← lift (ChunkCodec.from_u16 codec_code)
  flags ← read_u32
  row_group_id ← read_u32
  column_id ← read_u32
  row_count ← read_u64
  value_bytes ← read_u64
  lift (check_value_bytes ocb_corrupt_file physical_type row_count value_bytes)
  at ← position total
  payload_len ← lift (remaining_before_crc total at)
  check (ChunkCodec.eq codec OcbChunkCodecV1.none && not (payload_len == value_bytes))
      (ocb_corrupt_file "OCB uncompressed column chunk value byte length does not match header")
  payload_start ← tell
  pure (record {
    version = version;
    physical_type = physical_type;
    codec = codec;
    flags = flags;
    row_group_id = row_group_id;
    column_id = column_id;
    row_count = row_count;
    uncompressed_bytes = value_bytes;
    payload = take payload_len payload_start;
    crc32c = actual_crc;
  })

unfoldable pub read_from_bytes : List ℕ → Result OcbColumnChunkObjectV1
unfolding decode cursor unseal
read_from_bytes bytes =
    Error.◌>>=◌ (unseal "OCB column chunk crc mismatch" bytes)
      (λ (actual_crc, stable). cursor (decode (length stable) actual_crc) stable)
