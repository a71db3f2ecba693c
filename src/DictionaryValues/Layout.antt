-- ===== src/DictionaryValues/Layout.antt =====
-- Where the parts of the dictionary values stand in the bytes of the object.
use arcadia_tio_rs.Base.{
  ℕ, ◌+◌, ◌-◌, ◌*◌, ◌≤◌, ◌≡◌, arith, List, ◌++◌, length, length-append, append_assoc, concat, total,
  length-concat,
}
use arcadia_tio_rs.Bytes.{write_u32, write_u64}
use arcadia_tio_rs.Bytes.Laws.{length-write_u16, length-write_u32, length-write_u64}
use arcadia_tio_rs.Format.{dictionary_values_v1_header_len}
use arcadia_tio_rs.Kinds.DictionaryValueKind
use arcadia_tio_rs.DictionaryValues.{OcbDictionaryValuesV1, front}
use arcadia_tio_rs.DictionaryValues.Offsets.{ends_from, length-ends_from}

-- The bytes of the object, all but the trailer, and those of them that a decoder takes.
unfoldable pub taken : OcbDictionaryValuesV1 → List ℕ
taken x = concat (front x (length x.values)) ++ (write_u64 0 ++ ends_from 0 x.values)

unfoldable pub body : OcbDictionaryValuesV1 → List ℕ
body x = taken x ++ concat x.values

pub length-front : (x : OcbDictionaryValuesV1) (n : ℕ) → length (concat (front x n)) ≡ 40
unfolding front
length-front x n = omega (
  arith,
  length-concat (front x n),
  length-write_u16 x.version,
  length-write_u16 dictionary_values_v1_header_len,
  length-write_u16 (DictionaryValueKind.to_u16 x.value_kind),
  length-write_u16 0,
  length-write_u32 n,
  length-write_u32 x.fixed_width,
  length-write_u64 (length (concat x.values)),
  length-write_u32 0,
)

pub body-taken :
    (x : OcbDictionaryValuesV1)
    → body x ++ write_u32 0 ≡ taken x ++ (concat x.values ++ write_u32 0)
unfolding body
body-taken x = append_assoc (taken x) (concat x.values) (write_u32 0)

pub length-body :
    (x : OcbDictionaryValuesV1)
    → length (body x ++ write_u32 0) ≡ 48 + 8 * length x.values + (total x.values + 4)
unfolding body taken
length-body x = omega (
  arith,
  length-append (body x) (write_u32 0),
  length-append (taken x) (concat x.values),
  length-append (concat (front x (length x.values))) (write_u64 0 ++ ends_from 0 x.values),
  length-append (write_u64 0) (ends_from 0 x.values),
  length-front x (length x.values),
  length-write_u64 0,
  length-ends_from 0 x.values,
  length-concat x.values,
  length-write_u32 0,
)

-- The offsets and the values fit in what is left of the object.
pub offsets_fit :
    (x : OcbDictionaryValuesV1)
    → length (body x ++ write_u32 0)
        - length ((write_u64 0 ++ ends_from 0 x.values) ++ (concat x.values ++ write_u32 0))
        + (length x.values + 1) * 8
        + 4
      ≤ length (body x ++ write_u32 0)
offsets_fit x = omega (
  arith,
  length-body x,
  length-append (write_u64 0 ++ ends_from 0 x.values) (concat x.values ++ write_u32 0),
  length-append (write_u64 0) (ends_from 0 x.values),
  length-append (concat x.values) (write_u32 0),
  length-write_u64 0,
  length-ends_from 0 x.values,
  length-concat x.values,
  length-write_u32 0,
)

pub values_fit :
    (x : OcbDictionaryValuesV1)
    → length (body x ++ write_u32 0) - length (concat x.values ++ write_u32 0) + total x.values + 4
      ≤ length (body x ++ write_u32 0)
values_fit x = omega (
  arith,
  length-body x,
  length-append (concat x.values) (write_u32 0),
  length-concat x.values,
  length-write_u32 0,
)
