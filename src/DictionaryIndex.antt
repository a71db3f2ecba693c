-- ===== src/DictionaryIndex.antt =====
-- `OcbDictionaryIndexV1` of crates/arcadia-tio-ocb-core/src/format.rs: the dictionaries of a file.
pub mod Decode
pub mod Laws
use arcadia_tio_rs.Base.{ℕ, ◌*◌, ◌^◌, ◌<◌, List, [], ◌∷◌, ◌++◌, Bool, not, All, length, concat, map}
use arcadia_tio_rs.Error.{Result, ok, ocb_invalid_input, fail_if, ◌>>◌, ◌>>=◌}
use arcadia_tio_rs.Bytes.{write_u16, write_u32, IsU16}
use arcadia_tio_rs.Format.{dictionary_index_magic_v1, dictionary_index_v1_header_len}
use arcadia_tio_rs.Object.{sealed}
use arcadia_tio_rs.Table.{write_records, count_u32}
use arcadia_tio_rs.Records.DictionaryDesc
use arcadia_tio_rs.Records.DictionaryDesc.{OcbDictionaryDescV1}

pub record OcbDictionaryIndexV1 : Type 0 where
  pub version : ℕ
  pub dictionaries : List OcbDictionaryDescV1
  pub crc32c : ℕ

-- The ranges that the Rust types of the fields give, for a table that a process can hold.
pub record IsTyped (x : OcbDictionaryIndexV1) : Type 0 where
  pub version_u16 : IsU16 x.version
  pub dictionaries_typed : All DictionaryDesc.IsTyped x.dictionaries

-- What is written before the dictionaries.
unfoldable pub front : OcbDictionaryIndexV1 → ℕ → List (List ℕ)
unfolding write_u16 write_u32
front x dictionary_count =
    (dictionary_index_magic_v1
      ∷ write_u16 x.version
      ∷ write_u16 dictionary_index_v1_header_len
      ∷ write_u32 dictionary_count
      ∷ write_u32 0
      ∷ [])

unfoldable pub encode_without_checksum : OcbDictionaryIndexV1 → Result (List ℕ)
unfolding count_u32 front write_records DictionaryDesc.write_to write_u32
encode_without_checksum x = do
  dictionary_count ←
      count_u32 (length x.dictionaries)
        (ocb_invalid_input "OCB dictionary index has too many dictionaries")
  dictionaries ← write_records DictionaryDesc.write_to x.dictionaries
  ok ((concat (front x dictionary_count) ++ dictionaries) ++ write_u32 0)

unfoldable pub write_to : OcbDictionaryIndexV1 → Result (List ℕ)
unfolding sealed encode_without_checksum
write_to x = sealed (encode_without_checksum x)
