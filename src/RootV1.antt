-- ===== src/RootV1.antt =====
-- `OcbRootV1` of crates/arcadia-tio-ocb-core/src/format.rs: the root of a version 1 file.
pub mod Decode
pub mod Laws
use arcadia_tio_rs.Base.{
  ℕ, ◌+◌, ◌^◌, List, [], ◌∷◌, ◌++◌, ◌≡◌, Bool, not, ◌==◌, ◌&&◌, leb, ltb, if◌then◌else◌, concat,
  length, All, String, replicate,
}
use arcadia_tio_rs.Error.{
  Result, ok, err, ocb_corrupt_file, ocb_invalid_input, fail_if, ◌>>◌, ◌>>=◌,
}
use arcadia_tio_rs.Bytes.{write_u16, write_u32, write_u64, IsU16, IsU32, IsU64, IsByte}
use arcadia_tio_rs.Format.{root_v1_len, root_magic_v1}
use arcadia_tio_rs.Kinds.{OcbBodyKindV1}
use arcadia_tio_rs.Kinds.BodyKind
use arcadia_tio_rs.BodyRef
use arcadia_tio_rs.BodyRef.{
  OcbBodyRefV2, is_null, validate, validate_optional_ref, validate_optional_ref_kind,
  validate_optional_ref_kinds, validate_optional_ref_any_kind,
}
use arcadia_tio_rs.Object.{sealed}

pub record OcbRootV1 : Type 0 where
  pub version : ℕ
  pub flags : ℕ
  pub row_count : ℕ
  pub column_count : ℕ
  pub row_group_count : ℕ
  pub dictionary_count : ℕ
  pub schema_ref : OcbBodyRefV2
  pub dictionary_index_ref : OcbBodyRefV2
  pub row_group_index_ref : OcbBodyRefV2
  pub ordering_proof_ref : OcbBodyRefV2
  pub debug_json_ref : OcbBodyRefV2
  pub created_unix_nanos : ℕ
  pub content_flags : ℕ
  pub crc32c : ℕ

-- The ranges that the Rust types of the fields give.
pub record IsTyped (x : OcbRootV1) : Type 0 where
  pub version_u16 : IsU16 x.version
  pub flags_u32 : IsU32 x.flags
  pub row_count_u64 : IsU64 x.row_count
  pub column_count_u32 : IsU32 x.column_count
  pub row_group_count_u32 : IsU32 x.row_group_count
  pub dictionary_count_u32 : IsU32 x.dictionary_count
  pub schema_ref_typed : BodyRef.IsTyped x.schema_ref
  pub dictionary_index_ref_typed : BodyRef.IsTyped x.dictionary_index_ref
  pub row_group_index_ref_typed : BodyRef.IsTyped x.row_group_index_ref
  pub ordering_proof_ref_typed : BodyRef.IsTyped x.ordering_proof_ref
  pub debug_json_ref_typed : BodyRef.IsTyped x.debug_json_ref
  pub created_unix_nanos_u64 : IsU64 x.created_unix_nanos
  pub content_flags_u64 : IsU64 x.content_flags
  pub crc32c_u32 : IsU32 x.crc32c

-- The checks of `encode_without_checksum`; the version is not among them.
unfoldable pub check_encodable : OcbRootV1 → Result (Unit {0})
unfolding is_null BodyKind.eq
check_encodable root = do
  fail_if (not (BodyKind.eq root.schema_ref.kind OcbBodyKindV1.schema))
      (ocb_invalid_input "OCB root schema_ref must reference schema")
  fail_if (not (BodyKind.eq root.row_group_index_ref.kind OcbBodyKindV1.row_group_index))
      (ocb_invalid_input "OCB root row_group_index_ref must reference row-group index")
  fail_if
      (not (is_null root.dictionary_index_ref)
        && not (BodyKind.eq root.dictionary_index_ref.kind OcbBodyKindV1.dictionary_index))
      (ocb_invalid_input "OCB root dictionary_index_ref must reference dictionary index")
  fail_if
      (not (is_null root.ordering_proof_ref)
        && not (BodyKind.eq root.ordering_proof_ref.kind OcbBodyKindV1.ordering_proof))
      (ocb_invalid_input "OCB root ordering_proof_ref must reference ordering proof")
  fail_if
      (not (is_null root.debug_json_ref)
        && not (BodyKind.eq root.debug_json_ref.kind OcbBodyKindV1.debug_json_metadata))
      (ocb_invalid_input "OCB root debug_json_ref must reference debug JSON metadata")
  ok tt

-- The fields in the order in which they are written, all but the trailer.
unfoldable pub pieces : OcbRootV1 → List (List ℕ)
unfolding write_u16 write_u32 write_u64 BodyRef.write_to
pieces x =
    (root_magic_v1
      ∷ write_u16 x.version
      ∷ write_u16 root_v1_len
      ∷ write_u32 x.flags
      ∷ write_u64 x.row_count
      ∷ write_u32 x.column_count
      ∷ write_u32 x.row_group_count
      ∷ write_u32 x.dictionary_count
      ∷ write_u32 0
      ∷ BodyRef.write_to x.schema_ref
      ∷ BodyRef.write_to x.dictionary_index_ref
      ∷ BodyRef.write_to x.row_group_index_ref
      ∷ BodyRef.write_to x.ordering_proof_ref
      ∷ BodyRef.write_to x.debug_json_ref
      ∷ write_u64 x.created_unix_nanos
      ∷ write_u64 x.content_flags
      ∷ [])

unfoldable pub body : OcbRootV1 → List ℕ
unfolding pieces
body x = concat (pieces x)

unfoldable pub encode_without_checksum : OcbRootV1 → Result (List ℕ)
unfolding check_encodable body write_u32
encode_without_checksum x = do check_encodable x; ok (body x ++ write_u32 0)

unfoldable pub write_to : OcbRootV1 → Result (List ℕ)
unfolding sealed encode_without_checksum
write_to x = sealed (encode_without_checksum x)
