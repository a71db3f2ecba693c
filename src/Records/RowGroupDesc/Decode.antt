-- ===== src/Records/RowGroupDesc/Decode.antt =====
-- `OcbRowGroupDescV1::read_from`.
use arcadia_tio_rs.Bytes.{Reader, ◌>>=◌, pure, read_u32, read_u64}
use arcadia_tio_rs.BodyRef.Decode as BodyRef
use arcadia_tio_rs.Records.RowGroupDesc.{OcbRowGroupDescV1}

unfoldable pub read_from : Reader OcbRowGroupDescV1
read_from = do
  row_group_id ← read_u32
  flags ← read_u32
  base_row ← read_u64
  row_count ← read_u64
  chunk_desc_begin ← read_u64
  chunk_desc_count ← read_u32
  reserved_0 ← read_u32
  stat_begin ← read_u64
  stat_count ← read_u32
  reserved_1 ← read_u32
  first_key_tuple_ref ← BodyRef.read_from
  last_key_tuple_ref ← BodyRef.read_from
  pure (record {
    row_group_id = row_group_id;
    flags = flags;
    base_row = base_row;
    row_count = row_count;
    chunk_desc_begin = chunk_desc_begin;
    chunk_desc_count = chunk_desc_count;
    stat_begin = stat_begin;
    stat_count = stat_count;
    first_key_tuple_ref = first_key_tuple_ref;
    last_key_tuple_ref = last_key_tuple_ref;
  })
