-- ===== src/Records/DictionaryDesc/Decode.antt =====
-- `OcbDictionaryDescV1::read_from`.
use arcadia_tio_rs.Bytes.{Reader, ◌>>=◌, pure, lift, read_u16, read_u32}
use arcadia_tio_rs.Kinds.PhysicalType
use arcadia_tio_rs.Kinds.DictionaryValueKind
use arcadia_tio_rs.BodyRef.Decode as BodyRef
use arcadia_tio_rs.Records.DictionaryDesc.{OcbDictionaryDescV1}

unfoldable pub read_from : Reader OcbDictionaryDescV1
read_from = do
  dictionary_id ← read_u32
  name_string_id ← read_u32
  code_physical_type_code ← read_u16
  code_physical_type ← lift (PhysicalType.from_u16 code_physical_type_code)
  value_kind_code ← read_u16
  value_kind ← lift (DictionaryValueKind.from_u16 value_kind_code)
  flags ← read_u32
  values_ref ← BodyRef.read_from
  entry_count ← read_u32
  reserved0 ← read_u32
  pure (record {
    dictionary_id = dictionary_id;
    name_string_id = name_string_id;
    code_physical_type = code_physical_type;
    value_kind = value_kind;
    flags = flags;
    values_ref = values_ref;
    entry_count = entry_count;
    reserved0 = reserved0;
  })
