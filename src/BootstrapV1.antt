-- ===== src/BootstrapV1.antt =====
-- `OcbBootstrapPageV1` of crates/arcadia-tio-ocb-core/src/format.rs: the first page of a version 1 file.
pub mod Decode
pub mod Laws
use arcadia_tio_rs.Base.{
  ℕ, ◌+◌, ◌^◌, List, [], ◌∷◌, ◌++◌, ◌≡◌, Bool, not, ◌==◌, ◌&&◌, leb, ltb, if◌then◌else◌, concat,
  length, All, String, replicate, ◌-◌,
}
use arcadia_tio_rs.Error.{
  Result, ok, err, ocb_corrupt_file, ocb_invalid_input, fail_if, ◌>>◌, ◌>>=◌,
}
use arcadia_tio_rs.Bytes.{write_u16, write_u32, write_u64, IsU16, IsU32, IsU64, IsByte}
use arcadia_tio_rs.Format.{
  format_major_v1, format_minor_v1, bootstrap_page_v1_len, bootstrap_magic_v1,
}
use arcadia_tio_rs.Kinds.{OcbBodyKindV1}
use arcadia_tio_rs.Kinds.BodyKind
use arcadia_tio_rs.BodyRef
use arcadia_tio_rs.BodyRef.{
  OcbBodyRefV2, is_null, validate, validate_optional_ref, validate_optional_ref_kind,
  validate_optional_ref_kinds, validate_optional_ref_any_kind,
}
use arcadia_tio_rs.Object.{sealed}

pub record OcbBootstrapPageV1 : Type 0 where
  pub format_major : ℕ
  pub format_minor : ℕ
  pub flags : ℕ
  pub page_size : ℕ
  pub file_uuid : List ℕ
  pub root_ref : OcbBodyRefV2
  pub crc32c : ℕ

-- The ranges that the Rust types of the fields give.
pub record IsTyped (x : OcbBootstrapPageV1) : Type 0 where
  pub format_major_u16 : IsU16 x.format_major
  pub format_minor_u16 : IsU16 x.format_minor
  pub flags_u32 : IsU32 x.flags
  pub page_size_u32 : IsU32 x.page_size
  pub file_uuid_size : length x.file_uuid ≡ 16
  pub file_uuid_bytes : All IsByte x.file_uuid
  pub root_ref_typed : BodyRef.IsTyped x.root_ref
  pub crc32c_u32 : IsU32 x.crc32c

-- `OcbBootstrapPageV1::new`.
unfoldable pub new : List ℕ → OcbBodyRefV2 → OcbBootstrapPageV1
new file_uuid root_ref = record {
  format_major = format_major_v1;
  format_minor = format_minor_v1;
  flags = 0;
  page_size = bootstrap_page_v1_len;
  file_uuid = file_uuid;
  root_ref = root_ref;
  crc32c = 0;
}

-- The checks of `encode_without_checksum`; the version is not among them.
unfoldable pub check_encodable : OcbBootstrapPageV1 → Result (Unit {0})
unfolding is_null BodyKind.eq
check_encodable page = do
  fail_if (not (page.page_size == bootstrap_page_v1_len))
      (ocb_invalid_input "OCB bootstrap page_size must match reserved bootstrap page length")
  fail_if (not (is_null page.root_ref) && not (BodyKind.eq page.root_ref.kind OcbBodyKindV1.root))
      (ocb_invalid_input "OCB bootstrap root_ref must reference root object")
  ok tt

-- `buf.resize(len, 0)` of a shorter buffer: what is added.
abbrev pub padding : ℕ → List ℕ → List ℕ
padding len buf = replicate (len - length buf) 0

-- The fields in the order in which they are written, all but the trailer.
unfoldable pub pieces : OcbBootstrapPageV1 → List (List ℕ)
unfolding write_u16 write_u32 write_u64 BodyRef.write_to
pieces x =
    (bootstrap_magic_v1
      ∷ write_u16 x.format_major
      ∷ write_u16 x.format_minor
      ∷ write_u32 x.flags
      ∷ write_u32 x.page_size
      ∷ x.file_uuid
      ∷ BodyRef.write_to x.root_ref
      ∷ [])

unfoldable pub body : OcbBootstrapPageV1 → List ℕ
unfolding pieces
body x = concat (pieces x)

unfoldable pub encode_without_checksum : OcbBootstrapPageV1 → Result (List ℕ)
unfolding check_encodable body write_u32
encode_without_checksum x = do
  check_encodable x
  ok ((body x ++ padding (bootstrap_page_v1_len - 4) (body x)) ++ write_u32 0)

unfoldable pub write_to : OcbBootstrapPageV1 → Result (List ℕ)
unfolding sealed encode_without_checksum
write_to x = sealed (encode_without_checksum x)
