-- ===== src/BodyRef/Decode.antt =====
-- `OcbBodyRefV2::read_from`.
use arcadia_tio_rs.Bytes.{Reader, ◌>>=◌, pure, lift, read_u16, read_u32, read_u64}
use arcadia_tio_rs.Kinds.BodyKind
use arcadia_tio_rs.Kinds.ChecksumKind
use arcadia_tio_rs.BodyRef.{OcbBodyRefV2}

unfoldable pub read_from : Reader OcbBodyRefV2
unfolding ◌>>=◌ pure lift read_u64 read_u16 read_u32 BodyKind.from_u16 ChecksumKind.from_u16
read_from = do
  offset ← read_u64
  size ← read_u64
  kind_code ← read_u16
  kind ← lift (BodyKind.from_u16 kind_code)
  flags ← read_u16
  checksum_code ← read_u16
  checksum_kind ← lift (ChecksumKind.from_u16 checksum_code)
  reserved0 ← read_u16
  checksum ← read_u32
  reserved1 ← read_u32
  pure (record {
    offset = offset;
    size = size;
    kind = kind;
    flags = flags;
    checksum_kind = checksum_kind;
    reserved0 = reserved0;
    checksum = checksum;
    reserved1 = reserved1;
  })
