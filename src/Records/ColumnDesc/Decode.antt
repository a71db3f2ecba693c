-- ===== src/Records/ColumnDesc/Decode.antt =====
-- `OcbColumnDescV1::read_from`.
use arcadia_tio_rs.Bytes.{Reader, ◌>>=◌, pure, lift, read_u16, read_u32, read_i32}
use arcadia_tio_rs.Kinds.PhysicalType
use arcadia_tio_rs.Kinds.LogicalKind
use arcadia_tio_rs.Kinds.Nullability
use arcadia_tio_rs.Records.ColumnDesc.{OcbColumnDescV1}

unfoldable pub read_from : Reader OcbColumnDescV1
read_from = do
  column_id ← read_u32
  name_string_id ← read_u32
  physical_type_code ← read_u16
  physical_type ← lift (PhysicalType.from_u16 physical_type_code)
  logical_kind_code ← read_u16
  logical_kind ← lift (LogicalKind.from_u16 logical_kind_code)
  flags ← read_u32
  dictionary_id ← read_u32
  scale ← read_i32
  nullability_code ← read_u16
  nullability ← lift (Nullability.from_u16 nullability_code)
  reserved0 ← read_u16
  fixed_binary_width ← read_u32
  pure (record {
    column_id = column_id;
    name_string_id = name_string_id;
    physical_type = physical_type;
    logical_kind = logical_kind;
    flags = flags;
    dictionary_id = dictionary_id;
    scale = scale;
    nullability = nullability;
    reserved0 = reserved0;
    fixed_binary_width = fixed_binary_width;
  })
