-- ===== src/Records/OrderingKey/Decode.antt =====
-- `OcbOrderingKeyV1::read_from`.
use arcadia_tio_rs.Base.{get_or}
use arcadia_tio_rs.Bytes.{Reader, ◌>>=◌, pure, lift, read_exact_ocb, read_u16, read_u32}
use arcadia_tio_rs.Kinds.OrderingDirection
use arcadia_tio_rs.Kinds.NullOrder
use arcadia_tio_rs.Records.OrderingKey.{OcbOrderingKeyV1}

unfoldable pub read_from : Reader OcbOrderingKeyV1
read_from = do
  column_id ← read_u32
  pair ← read_exact_ocb 2
  direction ← lift (OrderingDirection.from_u8 (get_or pair 0 0))
  null_order ← lift (NullOrder.from_u8 (get_or pair 1 0))
  reserved0 ← read_u16
  pure (record {
    column_id = column_id;
    direction = direction;
    null_order = null_order;
    reserved0 = reserved0;
  })
