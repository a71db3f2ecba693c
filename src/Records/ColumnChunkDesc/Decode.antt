-- ===== src/Records/ColumnChunkDesc/Decode.antt =====
-- `OcbColumnChunkDescV1::read_from`.
use arcadia_tio_rs.Bytes.{Reader, ◌>>=◌, pure, lift, read_u16, read_u32, read_u64}
use arcadia_tio_rs.Kinds.PhysicalType
use arcadia_tio_rs.Kinds.ChunkCodec
use arcadia_tio_rs.BodyRef.Decode as BodyRef
use arcadia_tio_rs.Records.ColumnChunkDesc.{OcbColumnChunkDescV1}

unfoldable pub read_from : Reader OcbColumnChunkDescV1
read_from = do
  row_group_id ← read_u32
  column_id ← read_u32
  physical_type_code ← read_u16
  physical_type ← lift (PhysicalType.from_u16 physical_type_code)
  codec_code ← read_u16
  codec ← lift (ChunkCodec.from_u16 codec_code)
  flags ← read_u32
  value_ref ← BodyRef.read_from
  validity_ref ← BodyRef.read_from
  row_count ← read_u64
  uncompressed_bytes ← read_u64
  pure (record {
    row_group_id = row_group_id;
    column_id = column_id;
    physical_type = physical_type;
    codec = codec;
    flags = flags;
    value_ref = value_ref;
    validity_ref = validity_ref;
    row_count = row_count;
    uncompressed_bytes = uncompressed_bytes;
  })
