-- ===== src/RootV2.antt =====
-- `OcbRootV2` of crates/arcadia-tio-ocb-core/src/format.rs: the root of one generation of a version 2 file.
pub mod Decode
pub mod Laws
pub mod References
use arcadia_tio_rs.Base.{
  ℕ, ◌+◌, ◌^◌, List, [], ◌∷◌, ◌++◌, ◌≡◌, Bool, not, ◌==◌, ◌&&◌, leb, ltb, if◌then◌else◌, concat,
  length, All, String, replicate,
}
use arcadia_tio_rs.Error.{
  Result, ok, err, ocb_corrupt_file, ocb_invalid_input, fail_if, ◌>>◌, ◌>>=◌,
}
use arcadia_tio_rs.Bytes.{write_u16, write_u32, write_u64, IsU16, IsU32, IsU64, IsByte}
use arcadia_tio_rs.Format.{format_major_v2, root_v2_len, root_magic_v2}
use arcadia_tio_rs.Kinds.{OcbBodyKindV1}
use arcadia_tio_rs.Kinds.BodyKind
use arcadia_tio_rs.BodyRef
use arcadia_tio_rs.BodyRef.{
  OcbBodyRefV2, is_null, validate, validate_optional_ref, validate_optional_ref_kind,
  validate_optional_ref_kinds, validate_optional_ref_any_kind,
}
use arcadia_tio_rs.Object.{sealed}
use arcadia_tio_rs.RootV1.{OcbRootV1}

pub record OcbRootV2 : Type 0 where
  pub version : ℕ
  pub flags : ℕ
  pub generation : ℕ
  pub previous_generation : ℕ
  pub previous_root_ref : OcbBodyRefV2
  pub append_base_row : ℕ
  pub append_row_count : ℕ
  pub append_base_row_group : ℕ
  pub append_row_group_count : ℕ
  pub row_count : ℕ
  pub column_count : ℕ
  pub row_group_count : ℕ
  pub dictionary_count : ℕ
  pub column_chunk_count : ℕ
  pub schema_ref : OcbBodyRefV2
  pub dictionary_index_ref : OcbBodyRefV2
  pub row_group_index_ref : OcbBodyRefV2
  pub ordering_proof_ref : OcbBodyRefV2
  pub debug_json_ref : OcbBodyRefV2
  pub first_key_tuple_ref : OcbBodyRefV2
  pub last_key_tuple_ref : OcbBodyRefV2
  pub append_first_key_tuple_ref : OcbBodyRefV2
  pub append_last_key_tuple_ref : OcbBodyRefV2
  pub commit_diagnostics_ref : OcbBodyRefV2
  pub created_unix_nanos : ℕ
  pub content_flags : ℕ
  pub crc32c : ℕ

-- The ranges that the Rust types of the fields give.
pub record IsTyped (x : OcbRootV2) : Type 0 where
  pub version_u16 : IsU16 x.version
  pub flags_u32 : IsU32 x.flags
  pub generation_u64 : IsU64 x.generation
  pub previous_generation_u64 : IsU64 x.previous_generation
  pub previous_root_ref_typed : BodyRef.IsTyped x.previous_root_ref
  pub append_base_row_u64 : IsU64 x.append_base_row
  pub append_row_count_u64 : IsU64 x.append_row_count
  pub append_base_row_group_u32 : IsU32 x.append_base_row_group
  pub append_row_group_count_u32 : IsU32 x.append_row_group_count
  pub row_count_u64 : IsU64 x.row_count
  pub column_count_u32 : IsU32 x.column_count
  pub row_group_count_u32 : IsU32 x.row_group_count
  pub dictionary_count_u32 : IsU32 x.dictionary_count
  pub column_chunk_count_u32 : IsU32 x.column_chunk_count
  pub schema_ref_typed : BodyRef.IsTyped x.schema_ref
  pub dictionary_index_ref_typed : BodyRef.IsTyped x.dictionary_index_ref
  pub row_group_index_ref_typed : BodyRef.IsTyped x.row_group_index_ref
  pub ordering_proof_ref_typed : BodyRef.IsTyped x.ordering_proof_ref
  pub debug_json_ref_typed : BodyRef.IsTyped x.debug_json_ref
  pub first_key_tuple_ref_typed : BodyRef.IsTyped x.first_key_tuple_ref
  pub last_key_tuple_ref_typed : BodyRef.IsTyped x.last_key_tuple_ref
  pub append_first_key_tuple_ref_typed : BodyRef.IsTyped x.append_first_key_tuple_ref
  pub append_last_key_tuple_ref_typed : BodyRef.IsTyped x.append_last_key_tuple_ref
  pub commit_diagnostics_ref_typed : BodyRef.IsTyped x.commit_diagnostics_ref
  pub created_unix_nanos_u64 : IsU64 x.created_unix_nanos
  pub content_flags_u64 : IsU64 x.content_flags
  pub crc32c_u32 : IsU32 x.crc32c

-- The kinds that `commit_diagnostics_ref` may have.
abbrev pub diagnostics_kinds : List OcbBodyKindV1
diagnostics_kinds = OcbBodyKindV1.debug_json_metadata ∷ OcbBodyKindV1.row_group_index_delta ∷ []

unfoldable pub validate_ref_kinds : OcbRootV2 → Result (Unit {0})
unfolding validate_optional_ref_kind BodyKind.eq
validate_ref_kinds root = do
  fail_if (not (BodyKind.eq root.schema_ref.kind OcbBodyKindV1.schema))
      (ocb_invalid_input "OCB root schema_ref must reference schema")
  fail_if (not (BodyKind.eq root.row_group_index_ref.kind OcbBodyKindV1.row_group_index))
      (ocb_invalid_input "OCB root row_group_index_ref must reference row-group index")
  validate_optional_ref_kind root.dictionary_index_ref OcbBodyKindV1.dictionary_index
      "OCB root dictionary_index_ref must reference dictionary index"
  validate_optional_ref_kind root.ordering_proof_ref OcbBodyKindV1.ordering_proof
      "OCB root ordering_proof_ref must reference ordering proof"
  validate_optional_ref_kind root.debug_json_ref OcbBodyKindV1.debug_json_metadata
      "OCB root debug_json_ref must reference debug JSON metadata"
  validate_optional_ref_kind root.first_key_tuple_ref OcbBodyKindV1.key_tuple
      "OCB root first_key_tuple_ref must reference key tuple"
  validate_optional_ref_kind root.last_key_tuple_ref OcbBodyKindV1.key_tuple
      "OCB root last_key_tuple_ref must reference key tuple"
  validate_optional_ref_kind root.append_first_key_tuple_ref OcbBodyKindV1.key_tuple
      "OCB root append_first_key_tuple_ref must reference key tuple"
  validate_optional_ref_kind root.append_last_key_tuple_ref OcbBodyKindV1.key_tuple
      "OCB root append_last_key_tuple_ref must reference key tuple"
  validate_optional_ref_kinds root.commit_diagnostics_ref diagnostics_kinds
      "OCB root commit_diagnostics_ref must reference debug JSON metadata or row-group index delta"
  validate_optional_ref_kind root.previous_root_ref OcbBodyKindV1.root
      "OCB root previous_root_ref must reference root object"
  ok tt

unfoldable pub validate_references : OcbRootV2 → ℕ → Result (Unit {0})
unfolding validate_ref_kinds validate validate_optional_ref
validate_references root file_len = do
  validate_ref_kinds root
  validate root.schema_ref OcbBodyKindV1.schema file_len
  validate root.row_group_index_ref OcbBodyKindV1.row_group_index file_len
  validate_optional_ref root.dictionary_index_ref OcbBodyKindV1.dictionary_index file_len
  validate_optional_ref root.ordering_proof_ref OcbBodyKindV1.ordering_proof file_len
  validate_optional_ref root.debug_json_ref OcbBodyKindV1.debug_json_metadata file_len
  validate_optional_ref root.first_key_tuple_ref OcbBodyKindV1.key_tuple file_len
  validate_optional_ref root.last_key_tuple_ref OcbBodyKindV1.key_tuple file_len
  validate_optional_ref root.append_first_key_tuple_ref OcbBodyKindV1.key_tuple file_len
  validate_optional_ref root.append_last_key_tuple_ref OcbBodyKindV1.key_tuple file_len
  validate_optional_ref_any_kind root.commit_diagnostics_ref diagnostics_kinds file_len
  validate_optional_ref root.previous_root_ref OcbBodyKindV1.root file_len
  ok tt

unfoldable pub to_v1_root : OcbRootV2 → OcbRootV1
to_v1_root root = record {
  version = 1;
  flags = root.flags;
  row_count = root.row_count;
  column_count = root.column_count;
  row_group_count = root.row_group_count;
  dictionary_count = root.dictionary_count;
  schema_ref = root.schema_ref;
  dictionary_index_ref = root.dictionary_index_ref;
  row_group_index_ref = root.row_group_index_ref;
  ordering_proof_ref = root.ordering_proof_ref;
  debug_json_ref = root.debug_json_ref;
  created_unix_nanos = root.created_unix_nanos;
  content_flags = root.content_flags;
  crc32c = root.crc32c;
}

-- The checks of `encode_without_checksum`; `checked_add` fails where the sum is no `u64`, or no
-- `u32`.
unfoldable pub check_encodable : OcbRootV2 → Result (Unit {0})
unfolding validate_ref_kinds
check_encodable root = do
  fail_if (not (root.version == format_major_v2)) (ocb_invalid_input "OCB root version must be 2")
  validate_ref_kinds root
  let append_row_end = root.append_base_row + root.append_row_count
  fail_if (leb (2 ^ 64) append_row_end) (ocb_invalid_input "OCB root append row range overflows")
  fail_if (ltb root.row_count append_row_end)
      (ocb_invalid_input "OCB root append row range exceeds total rows")
  let append_group_end = root.append_base_row_group + root.append_row_group_count
  fail_if (leb (2 ^ 32) append_group_end)
      (ocb_invalid_input "OCB root append row-group range overflows")
  fail_if (ltb root.row_group_count append_group_end)
      (ocb_invalid_input "OCB root append row-group range exceeds total row groups")
  ok tt

-- The fields in the order in which they are written, all but the trailer.
unfoldable pub pieces : OcbRootV2 → List (List ℕ)
unfolding write_u16 write_u32 write_u64 BodyRef.write_to
pieces x =
    (root_magic_v2
      ∷ write_u16 x.version
      ∷ write_u16 root_v2_len
      ∷ write_u32 x.flags
      ∷ write_u64 x.generation
      ∷ write_u64 x.previous_generation
      ∷ BodyRef.write_to x.previous_root_ref
      ∷ write_u64 x.append_base_row
      ∷ write_u64 x.append_row_count
      ∷ write_u32 x.append_base_row_group
      ∷ write_u32 x.append_row_group_count
      ∷ write_u64 x.row_count
      ∷ write_u32 x.column_count
      ∷ write_u32 x.row_group_count
      ∷ write_u32 x.dictionary_count
      ∷ write_u32 x.column_chunk_count
      ∷ BodyRef.write_to x.schema_ref
      ∷ BodyRef.write_to x.dictionary_index_ref
      ∷ BodyRef.write_to x.row_group_index_ref
      ∷ BodyRef.write_to x.ordering_proof_ref
      ∷ BodyRef.write_to x.debug_json_ref
      ∷ BodyRef.write_to x.first_key_tuple_ref
      ∷ BodyRef.write_to x.last_key_tuple_ref
      ∷ BodyRef.write_to x.append_first_key_tuple_ref
      ∷ BodyRef.write_to x.append_last_key_tuple_ref
      ∷ BodyRef.write_to x.commit_diagnostics_ref
      ∷ write_u64 x.created_unix_nanos
      ∷ write_u64 x.content_flags
      ∷ write_u32 0
      ∷ [])

unfoldable pub body : OcbRootV2 → List ℕ
unfolding pieces
body x = concat (pieces x)

unfoldable pub encode_without_checksum : OcbRootV2 → Result (List ℕ)
unfolding check_encodable body write_u32
encode_without_checksum x = do check_encodable x; ok (body x ++ write_u32 0)

unfoldable pub write_to : OcbRootV2 → Result (List ℕ)
unfolding sealed encode_without_checksum
write_to x = sealed (encode_without_checksum x)
