-- ===== src/Records/OrderingProof/Decode.antt =====
-- `OcbRowGroupOrderingProofV1::read_from`.
use arcadia_tio_rs.Bytes.{Reader, ◌>>=◌, pure, read_u32}
use arcadia_tio_rs.BodyRef.Decode as BodyRef
use arcadia_tio_rs.Records.OrderingProof.{OcbRowGroupOrderingProofV1}

unfoldable pub read_from : Reader OcbRowGroupOrderingProofV1
read_from = do
  row_group_id ← read_u32
  flags ← read_u32
  first_tuple_ref ← BodyRef.read_from
  last_tuple_ref ← BodyRef.read_from
  pure (record {
    row_group_id = row_group_id;
    flags = flags;
    first_tuple_ref = first_tuple_ref;
    last_tuple_ref = last_tuple_ref;
  })
