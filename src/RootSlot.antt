-- ===== src/RootSlot.antt =====
-- `OcbRootSlotV2` of crates/arcadia-tio-ocb-core/src/format.rs: one of the two commit slots.
pub mod Decode
pub mod Laws
pub mod Candidate
pub mod Damage
pub mod Root
use arcadia_tio_rs.Base.{
  ℕ, List, [], ◌∷◌, ◌++◌, ◌≡◌, Bool, not, ◌==◌, ◌&&◌, leb, if◌then◌else◌, concat, length, All,
  String, replicate,
}
use arcadia_tio_rs.Error.{
  Result, ok, err, ocb_corrupt_file, ocb_invalid_input, fail_if, ◌>>◌, ◌>>=◌,
}
use arcadia_tio_rs.Bytes.{write_u16, write_u32, write_u64, IsU16, IsU32, IsU64, IsByte}
use arcadia_tio_rs.Format.{
  format_major_v2, root_slot_v2_len, root_slot_v2_count, root_slot_magic_v2, root_v2_len,
}
use arcadia_tio_rs.Kinds.{OcbBodyKindV1}
use arcadia_tio_rs.Kinds.BodyKind
use arcadia_tio_rs.BodyRef
use arcadia_tio_rs.BodyRef.{OcbBodyRefV2, is_null, validate, validate_optional_ref_any_kind}
use arcadia_tio_rs.Object.{sealed}

pub record OcbRootSlotV2 : Type 0 where
  pub version : ℕ
  pub slot_id : ℕ
  pub flags : ℕ
  pub generation : ℕ
  pub root_ref : OcbBodyRefV2
  pub previous_generation : ℕ
  pub previous_root_ref : OcbBodyRefV2
  pub commit_diagnostics_ref : OcbBodyRefV2
  pub committed_unix_nanos : ℕ
  pub writer_version : List ℕ
  pub crc32c : ℕ

-- The ranges that the Rust types of the fields give.
pub record IsTyped (x : OcbRootSlotV2) : Type 0 where
  pub version_u16 : IsU16 x.version
  pub slot_id_u16 : IsU16 x.slot_id
  pub flags_u16 : IsU16 x.flags
  pub generation_u64 : IsU64 x.generation
  pub root_ref_typed : BodyRef.IsTyped x.root_ref
  pub previous_generation_u64 : IsU64 x.previous_generation
  pub previous_root_ref_typed : BodyRef.IsTyped x.previous_root_ref
  pub commit_diagnostics_ref_typed : BodyRef.IsTyped x.commit_diagnostics_ref
  pub committed_unix_nanos_u64 : IsU64 x.committed_unix_nanos
  pub writer_version_size : length x.writer_version ≡ 16
  pub writer_version_bytes : All IsByte x.writer_version
  pub crc32c_u32 : IsU32 x.crc32c

-- `OcbRootSlotV2::new`.
unfoldable pub new : ℕ → ℕ → OcbBodyRefV2 → ℕ → OcbBodyRefV2 → OcbBodyRefV2 → OcbRootSlotV2
new slot_id generation root_ref previous_generation previous_root_ref commit_diagnostics_ref =
    record {
      version = format_major_v2;
      slot_id = slot_id;
      flags = 0;
      generation = generation;
      root_ref = root_ref;
      previous_generation = previous_generation;
      previous_root_ref = previous_root_ref;
      commit_diagnostics_ref = commit_diagnostics_ref;
      committed_unix_nanos = 0;
      writer_version = replicate 16 0;
      crc32c = 0;
    }

-- `OcbRootSlotV2::empty`.
unfoldable pub empty : ℕ → OcbRootSlotV2
unfolding new
empty slot_id = new slot_id 0 BodyRef.null 0 BodyRef.null BodyRef.null

unfoldable pub is_empty : OcbRootSlotV2 → Bool
unfolding is_null
is_empty slot = is_null slot.root_ref

abbrev pub diagnostics_kinds : List OcbBodyKindV1
diagnostics_kinds = OcbBodyKindV1.debug_json_metadata ∷ OcbBodyKindV1.row_group_index_delta ∷ []

unfoldable pub validate_candidate : OcbRootSlotV2 → ℕ → ℕ → Result (Unit {0})
unfolding is_empty is_null validate validate_optional_ref_any_kind
validate_candidate slot expected_slot_id file_len = do
  fail_if (not (slot.slot_id == expected_slot_id))
      (ocb_corrupt_file "OCB root slot id does not match table position")
  fail_if (is_empty slot) (ocb_corrupt_file "OCB root slot is empty")
  validate slot.root_ref OcbBodyKindV1.root file_len
  fail_if (not (slot.root_ref.size == root_v2_len))
      (ocb_corrupt_file "OCB root slot root_ref length is invalid")
  (if is_null slot.previous_root_ref
      then ok tt
      else validate slot.previous_root_ref OcbBodyKindV1.root file_len)
  validate_optional_ref_any_kind slot.commit_diagnostics_ref diagnostics_kinds file_len
  ok tt

-- The checks of `encode_without_checksum`.
unfoldable pub check_encodable : OcbRootSlotV2 → Result (Unit {0})
unfolding is_null BodyKind.eq
check_encodable slot = do
  fail_if (not (slot.version == format_major_v2))
      (ocb_invalid_input "OCB root slot version must be 2")
  fail_if (leb root_slot_v2_count slot.slot_id)
      (ocb_invalid_input "OCB root slot id is out of range")
  fail_if (not (is_null slot.root_ref) && not (BodyKind.eq slot.root_ref.kind OcbBodyKindV1.root))
      (ocb_invalid_input "OCB root slot root_ref must reference root object")
  fail_if (not (is_null slot.root_ref) && not (slot.root_ref.size == root_v2_len))
      (ocb_invalid_input "OCB root slot root_ref length must match v2 root length")
  fail_if
      (not (is_null slot.previous_root_ref)
        && not (BodyKind.eq slot.previous_root_ref.kind OcbBodyKindV1.root))
      (ocb_invalid_input "OCB root slot previous_root_ref must reference root object")
  fail_if
      (not (is_null slot.commit_diagnostics_ref)
        && not (BodyKind.eq slot.commit_diagnostics_ref.kind OcbBodyKindV1.debug_json_metadata)
        && not (BodyKind.eq slot.commit_diagnostics_ref.kind OcbBodyKindV1.row_group_index_delta))
      (ocb_invalid_input
        "OCB root slot commit_diagnostics_ref must reference debug JSON metadata or row-group index delta")
  ok tt

-- The fields in the order in which they are written, all but the trailer.
unfoldable pub pieces : OcbRootSlotV2 → List (List ℕ)
unfolding write_u16 write_u32 write_u64 BodyRef.write_to
pieces x =
    (root_slot_magic_v2
      ∷ write_u16 x.version
      ∷ write_u16 root_slot_v2_len
      ∷ write_u16 x.slot_id
      ∷ write_u16 x.flags
      ∷ write_u64 x.generation
      ∷ BodyRef.write_to x.root_ref
      ∷ write_u64 x.previous_generation
      ∷ BodyRef.write_to x.previous_root_ref
      ∷ BodyRef.write_to x.commit_diagnostics_ref
      ∷ write_u64 x.committed_unix_nanos
      ∷ x.writer_version
      ∷ write_u32 0
      ∷ [])

unfoldable pub body : OcbRootSlotV2 → List ℕ
unfolding pieces
body slot = concat (pieces slot)

unfoldable pub encode_without_checksum : OcbRootSlotV2 → Result (List ℕ)
unfolding check_encodable body write_u32
encode_without_checksum slot = do check_encodable slot; ok (body slot ++ write_u32 0)

unfoldable pub write_to : OcbRootSlotV2 → Result (List ℕ)
unfolding sealed encode_without_checksum
write_to slot = sealed (encode_without_checksum slot)
