-- ===== src/StringTable.antt =====
-- `OcbStringTableV1` of crates/arcadia-tio-ocb-core/src/format.rs: the names that descriptors refer
-- to. A string is the list of its bytes.
pub mod Strings
pub mod Decode
pub mod Laws
use arcadia_tio_rs.Base.{
  ℕ, ◌%◌, ◌^◌, ◌<◌, List, [], ◌∷◌, ◌++◌, All, Bool, true, length, concat, map, ◌≡◌,
}
use arcadia_tio_rs.Error.{Result, ok, ocb_invalid_input, ◌>>=◌}
use arcadia_tio_rs.Bytes.{write_u16, write_u32, IsU16}
use arcadia_tio_rs.Format.{string_table_magic_v1, string_table_v1_header_len}
use arcadia_tio_rs.Object.{sealed}
use arcadia_tio_rs.Table.{Platform, write_records, count_u32}
use arcadia_tio_rs.StringTable.Strings.{write_string_u32}

pub record OcbStringTableV1 : Type 0 where
  pub version : ℕ
  pub strings : List (List ℕ)
  pub crc32c : ℕ

-- The Rust types: a `u16`, and strings of valid UTF-8.
pub record IsTyped (p : Platform) (x : OcbStringTableV1) : Type 0 where
  pub version_u16 : IsU16 x.version
  pub strings_utf8 : All (λ s. p.is_utf8 s ≡ true) x.strings

-- What is written before the strings.
unfoldable pub front : OcbStringTableV1 → ℕ → List (List ℕ)
unfolding write_u16 write_u32
front x string_count =
    (string_table_magic_v1
      ∷ write_u16 x.version
      ∷ write_u16 string_table_v1_header_len
      ∷ write_u32 string_count
      ∷ write_u32 0
      ∷ [])

unfoldable pub encode_without_checksum : OcbStringTableV1 → Result (List ℕ)
unfolding count_u32 front write_records write_string_u32 write_u32
encode_without_checksum x = do
  string_count ←
      count_u32 (length x.strings) (ocb_invalid_input "OCB string table has too many strings")
  strings ← write_records write_string_u32 x.strings
  ok ((concat (front x string_count) ++ strings) ++ write_u32 0)

unfoldable pub write_to : OcbStringTableV1 → Result (List ℕ)
unfolding sealed encode_without_checksum
write_to x = sealed (encode_without_checksum x)
