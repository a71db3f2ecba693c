-- ===== src/DictionaryValues.antt =====
-- `OcbDictionaryValuesV1` of crates/arcadia-tio-ocb-core/src/format.rs: the values of one dictionary, as
-- offsets into one run of bytes.
pub mod Decode
pub mod Offsets
pub mod Layout
pub mod Laws
use arcadia_tio_rs.Base.{
  ℕ, ◌+◌, ◌%◌, ◌^◌, List, [], ◌∷◌, ◌++◌, ◌≡◌, Bool, not, ◌==◌, ◌&&◌, All, length, concat, true,
}
use arcadia_tio_rs.Error.{Result, ok, ocb_invalid_input, fail_if, ◌>>◌, ◌>>=◌}
use arcadia_tio_rs.Bytes.{write_u16, write_u32, write_u64, IsU16, IsU32, IsByte}
use arcadia_tio_rs.Format.{dictionary_values_magic_v1, dictionary_values_v1_header_len}
use arcadia_tio_rs.Object.{sealed}
use arcadia_tio_rs.Table.{count_u32}
use arcadia_tio_rs.Kinds.{OcbDictionaryValueKindV1}
use arcadia_tio_rs.Kinds.DictionaryValueKind

pub record OcbDictionaryValuesV1 : Type 0 where
  pub version : ℕ
  pub value_kind : OcbDictionaryValueKindV1
  pub fixed_width : ℕ
  pub values : List (List ℕ)
  pub crc32c : ℕ

-- The ranges that the Rust types of the fields give.
pub record IsTyped (x : OcbDictionaryValuesV1) : Type 0 where
  pub version_u16 : IsU16 x.version
  pub fixed_width_u32 : IsU32 x.fixed_width
  pub values_bytes : All (All IsByte) x.values

unfoldable pub is_fixed : OcbDictionaryValueKindV1 → Bool
unfolding DictionaryValueKind.eq
is_fixed kind = DictionaryValueKind.eq kind OcbDictionaryValueKindV1.fixed_bytes

-- The `for` loop over the values; `value.len() as u32` wraps around.
unfoldable pub check_widths : Bool → ℕ → List (List ℕ) → Result (Unit {0})
check_widths fixed fixed_width [] = ok tt
check_widths fixed fixed_width (value ∷ values) = do
  fail_if (fixed && not (length value % 2 ^ 32 == fixed_width))
      (ocb_invalid_input "OCB fixed-byte dictionary value length does not match fixed width")
  check_widths fixed fixed_width values

-- `offsets` and `data` after the loop.
unfoldable pub offsets_from : ℕ → List (List ℕ) → List ℕ
offsets_from at [] = at ∷ []
offsets_from at (value ∷ values) = at ∷ offsets_from (at + length value) values

unfoldable pub write_offsets : List ℕ → List ℕ
unfolding write_u64
write_offsets [] = []
write_offsets (offset ∷ offsets) = write_u64 offset ++ write_offsets offsets

-- What is written before the offsets.
unfoldable pub front : OcbDictionaryValuesV1 → ℕ → List (List ℕ)
unfolding write_u16 write_u32 write_u64 DictionaryValueKind.to_u16
front x entry_count =
    (dictionary_values_magic_v1
      ∷ write_u16 x.version
      ∷ write_u16 dictionary_values_v1_header_len
      ∷ write_u16 (DictionaryValueKind.to_u16 x.value_kind)
      ∷ write_u16 0
      ∷ write_u32 entry_count
      ∷ write_u32 x.fixed_width
      ∷ write_u64 (length (concat x.values))
      ∷ write_u32 0
      ∷ write_u32 0
      ∷ [])

unfoldable pub encode_without_checksum : OcbDictionaryValuesV1 → Result (List ℕ)
unfolding count_u32 is_fixed check_widths front write_offsets offsets_from write_u32
encode_without_checksum x = do
  entry_count ←
      count_u32 (length x.values) (ocb_invalid_input "OCB dictionary values have too many entries")
  fail_if (is_fixed x.value_kind && x.fixed_width == 0)
      (ocb_invalid_input "OCB fixed-byte dictionary values require fixed_width > 0")
  fail_if (not (is_fixed x.value_kind) && not (x.fixed_width == 0))
      (ocb_invalid_input "OCB non-fixed dictionary values must use fixed_width 0")
  check_widths (is_fixed x.value_kind) x.fixed_width x.values
  ok (
      (concat (front x entry_count) ++ (write_offsets (offsets_from 0 x.values) ++ concat x.values))
      ++ write_u32 0)

unfoldable pub write_to : OcbDictionaryValuesV1 → Result (List ℕ)
unfolding sealed encode_without_checksum
write_to x = sealed (encode_without_checksum x)
