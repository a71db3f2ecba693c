-- ===== src/Records/ColumnStats/Decode.antt =====
-- `OcbColumnStatsV1::read_from`.
use arcadia_tio_rs.Base.{not, ◌||◌}
use arcadia_tio_rs.Error.{ocb_corrupt_file}
use arcadia_tio_rs.Bytes.{Reader, ◌>>=◌, ◌>>◌, pure, lift, check, read_u16, read_u32}
use arcadia_tio_rs.Kinds.PhysicalType
use arcadia_tio_rs.Records.StatScalar.{physical_type_of}
use arcadia_tio_rs.Records.StatScalar.Decode as StatScalar
use arcadia_tio_rs.Records.ColumnStats.{OcbColumnStatsV1}

unfoldable pub read_from : Reader OcbColumnStatsV1
read_from = do
  row_group_id ← read_u32
  column_id ← read_u32
  physical_type_code ← read_u16
  physical_type ← lift (PhysicalType.from_u16 physical_type_code)
  flags ← read_u16
  null_count ← read_u32
  min_value ← StatScalar.read_from
  max_value ← StatScalar.read_from
  check
      (not (PhysicalType.eq (physical_type_of min_value) physical_type)
        || not (PhysicalType.eq (physical_type_of max_value) physical_type))
      (ocb_corrupt_file "OCB stats scalar type does not match stats physical type")
  pure (record {
    row_group_id = row_group_id;
    column_id = column_id;
    physical_type = physical_type;
    flags = flags;
    null_count = null_count;
    min_value = min_value;
    max_value = max_value;
  })
