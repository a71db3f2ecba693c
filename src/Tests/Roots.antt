-- ===== src/Tests/Roots.antt =====
-- Examples of the bootstrap pages, the root slots and the roots.
use arcadia_tio_rs.Base.{
  ℕ, arith, List, [], ◌∷◌, ◌++◌, refl, ◌≡◌, ◌+◌, ◌≤◌, inl, take, drop, replicate, All, false,
}
use arcadia_tio_rs.Error.{ok, err, ocb_corrupt_file}
use arcadia_tio_rs.Bytes.{IsByte, write_u32, cursor}
use arcadia_tio_rs.Crc.{crc32c, seal}
use arcadia_tio_rs.Crc.Detects.{OneByteOff}
use arcadia_tio_rs.Kinds.{OcbBodyKindV1}
use arcadia_tio_rs.Format.{root_v2_len}
use arcadia_tio_rs.BodyRef
use arcadia_tio_rs.BodyRef.Bounds.{IsInFile}
use arcadia_tio_rs.Tests.Samples.{new-IsTyped}
use arcadia_tio_rs.RootSlot
use arcadia_tio_rs.RootSlot.{OcbRootSlotV2}
use arcadia_tio_rs.RootSlot.Decode as RootSlotDecode
use arcadia_tio_rs.RootSlot.Laws as RootSlotLaws
use arcadia_tio_rs.RootV1
use arcadia_tio_rs.RootV1.{OcbRootV1}
use arcadia_tio_rs.RootV1.Decode as RootV1Decode
use arcadia_tio_rs.RootV1.Laws as RootV1Laws
use arcadia_tio_rs.RootV2
use arcadia_tio_rs.RootV2.{OcbRootV2}
use arcadia_tio_rs.RootV2.Decode as RootV2Decode
use arcadia_tio_rs.RootV2.Laws as RootV2Laws
use arcadia_tio_rs.BootstrapV1
use arcadia_tio_rs.BootstrapV1.{OcbBootstrapPageV1}
use arcadia_tio_rs.BootstrapV1.Decode as BootstrapV1Decode
use arcadia_tio_rs.BootstrapV1.Laws as BootstrapV1Laws
use arcadia_tio_rs.BootstrapV2
use arcadia_tio_rs.BootstrapV2.{OcbBootstrapPageV2}
use arcadia_tio_rs.BootstrapV2.Decode as BootstrapV2Decode
use arcadia_tio_rs.BootstrapV2.Laws as BootstrapV2Laws
use arcadia_tio_rs.RootSlot.Candidate.{candidate-IsInFile}
use arcadia_tio_rs.RootSlot.Damage.{root_slot_damaged}
use arcadia_tio_rs.RootV2.References.{references-IsInFile, IsNullOrInFile}
use arcadia_tio_rs.BootstrapV2.Recovery.{torn_slot0, torn_slot1, stored}

abbrev pub sixteen : List ℕ
sixteen = 1 ∷ 2 ∷ 3 ∷ 4 ∷ 5 ∷ 6 ∷ 7 ∷ 8 ∷ 9 ∷ 10 ∷ 11 ∷ 12 ∷ 13 ∷ 14 ∷ 15 ∷ 16 ∷ []

pub null-IsTyped : BodyRef.IsTyped BodyRef.null
null-IsTyped = record {
  offset_u64 = omega arith;
  size_u64 = omega arith;
  flags_u16 = omega arith;
  reserved0_u16 = omega arith;
  checksum_u32 = omega arith;
  reserved1_u32 = omega arith;
}

abbrev pub root_slot : OcbRootSlotV2
root_slot = record {
  version = 2;
  slot_id = 1;
  flags = 3;
  generation = 4;
  root_ref = BodyRef.new 8192 456 OcbBodyKindV1.root 77;
  previous_generation = 6;
  previous_root_ref = BodyRef.null;
  commit_diagnostics_ref = BodyRef.null;
  committed_unix_nanos = 9;
  writer_version = sixteen;
  crc32c = 0;
}

root_slot-IsTyped : RootSlot.IsTyped root_slot
root_slot-IsTyped = record {
  version_u16 = omega arith;
  slot_id_u16 = omega arith;
  flags_u16 = omega arith;
  generation_u64 = omega arith;
  root_ref_typed = new-IsTyped _ _ _ _ (omega arith) (omega arith) (omega arith);
  previous_generation_u64 = omega arith;
  previous_root_ref_typed = null-IsTyped;
  commit_diagnostics_ref_typed = null-IsTyped;
  committed_unix_nanos_u64 = omega arith;
  writer_version_size = refl;
  writer_version_bytes = omega arith;
  crc32c_u32 = omega arith;
}

abbrev root_slot_bytes : List ℕ
root_slot_bytes = seal (RootSlot.body root_slot ++ write_u32 0)

root_slot_written : RootSlot.write_to root_slot ≡ ok root_slot_bytes
unfolding RootSlot.write_to RootSlot.body BodyRef.new
root_slot_written = refl

root_slot_read_from-write_to_example :
    RootSlotDecode.read_from (root_slot_bytes ++ 1 ∷ 2 ∷ [])
    ≡ ok (record root_slot { crc32c = crc32c (RootSlot.body root_slot ++ write_u32 0) }, 1 ∷ 2 ∷ [])
root_slot_read_from-write_to_example =
    RootSlotLaws.root_slot_read_from-write_to root_slot root_slot_bytes (1 ∷ 2 ∷ [])
      root_slot-IsTyped root_slot_written

abbrev root_v1 : OcbRootV1
root_v1 = record {
  version = 1;
  flags = 2;
  row_count = 3;
  column_count = 4;
  row_group_count = 5;
  dictionary_count = 6;
  schema_ref = BodyRef.new 7168 280 OcbBodyKindV1.schema 83;
  dictionary_index_ref = BodyRef.new 7680 280 OcbBodyKindV1.dictionary_index 84;
  row_group_index_ref = BodyRef.new 8192 280 OcbBodyKindV1.row_group_index 85;
  ordering_proof_ref = BodyRef.new 8704 280 OcbBodyKindV1.ordering_proof 86;
  debug_json_ref = BodyRef.new 9216 280 OcbBodyKindV1.debug_json_metadata 87;
  created_unix_nanos = 12;
  content_flags = 13;
  crc32c = 0;
}

root_v1-IsTyped : RootV1.IsTyped root_v1
root_v1-IsTyped = record {
  version_u16 = omega arith;
  flags_u32 = omega arith;
  row_count_u64 = omega arith;
  column_count_u32 = omega arith;
  row_group_count_u32 = omega arith;
  dictionary_count_u32 = omega arith;
  schema_ref_typed = new-IsTyped _ _ _ _ (omega arith) (omega arith) (omega arith);
  dictionary_index_ref_typed = new-IsTyped _ _ _ _ (omega arith) (omega arith) (omega arith);
  row_group_index_ref_typed = new-IsTyped _ _ _ _ (omega arith) (omega arith) (omega arith);
  ordering_proof_ref_typed = new-IsTyped _ _ _ _ (omega arith) (omega arith) (omega arith);
  debug_json_ref_typed = new-IsTyped _ _ _ _ (omega arith) (omega arith) (omega arith);
  created_unix_nanos_u64 = omega arith;
  content_flags_u64 = omega arith;
  crc32c_u32 = omega arith;
}

abbrev root_v1_bytes : List ℕ
root_v1_bytes = seal (RootV1.body root_v1 ++ write_u32 0)

root_v1_written : RootV1.write_to root_v1 ≡ ok root_v1_bytes
unfolding RootV1.write_to RootV1.body BodyRef.new
root_v1_written = refl

root_v1_read_from-write_to_example :
    RootV1Decode.read_from (root_v1_bytes ++ 1 ∷ 2 ∷ [])
    ≡ ok (record root_v1 { crc32c = crc32c (RootV1.body root_v1 ++ write_u32 0) }, 1 ∷ 2 ∷ [])
root_v1_read_from-write_to_example =
    RootV1Laws.root_v1_read_from-write_to root_v1 root_v1_bytes (1 ∷ 2 ∷ []) root_v1-IsTyped refl
      root_v1_written

abbrev pub root_v2 : OcbRootV2
root_v2 = record {
  version = 2;
  flags = 2;
  generation = 3;
  previous_generation = 4;
  previous_root_ref = BodyRef.new 6144 280 OcbBodyKindV1.root 81;
  append_base_row = 900;
  append_row_count = 100;
  append_base_row_group = 9;
  append_row_group_count = 1;
  row_count = 1000;
  column_count = 11;
  row_group_count = 10;
  dictionary_count = 13;
  column_chunk_count = 14;
  schema_ref = BodyRef.new 11264 280 OcbBodyKindV1.schema 91;
  dictionary_index_ref = BodyRef.new 11776 280 OcbBodyKindV1.dictionary_index 92;
  row_group_index_ref = BodyRef.new 12288 280 OcbBodyKindV1.row_group_index 93;
  ordering_proof_ref = BodyRef.new 12800 280 OcbBodyKindV1.ordering_proof 94;
  debug_json_ref = BodyRef.new 13312 280 OcbBodyKindV1.debug_json_metadata 95;
  first_key_tuple_ref = BodyRef.new 13824 280 OcbBodyKindV1.key_tuple 96;
  last_key_tuple_ref = BodyRef.new 14336 280 OcbBodyKindV1.key_tuple 97;
  append_first_key_tuple_ref = BodyRef.new 14848 280 OcbBodyKindV1.key_tuple 98;
  append_last_key_tuple_ref = BodyRef.new 15360 280 OcbBodyKindV1.key_tuple 99;
  commit_diagnostics_ref = BodyRef.new 15872 280 OcbBodyKindV1.row_group_index_delta 100;
  created_unix_nanos = 25;
  content_flags = 26;
  crc32c = 0;
}

root_v2-IsTyped : RootV2.IsTyped root_v2
root_v2-IsTyped = record {
  version_u16 = omega arith;
  flags_u32 = omega arith;
  generation_u64 = omega arith;
  previous_generation_u64 = omega arith;
  previous_root_ref_typed = new-IsTyped _ _ _ _ (omega arith) (omega arith) (omega arith);
  append_base_row_u64 = omega arith;
  append_row_count_u64 = omega arith;
  append_base_row_group_u32 = omega arith;
  append_row_group_count_u32 = omega arith;
  row_count_u64 = omega arith;
  column_count_u32 = omega arith;
  row_group_count_u32 = omega arith;
  dictionary_count_u32 = omega arith;
  column_chunk_count_u32 = omega arith;
  schema_ref_typed = new-IsTyped _ _ _ _ (omega arith) (omega arith) (omega arith);
  dictionary_index_ref_typed = new-IsTyped _ _ _ _ (omega arith) (omega arith) (omega arith);
  row_group_index_ref_typed = new-IsTyped _ _ _ _ (omega arith) (omega arith) (omega arith);
  ordering_proof_ref_typed = new-IsTyped _ _ _ _ (omega arith) (omega arith) (omega arith);
  debug_json_ref_typed = new-IsTyped _ _ _ _ (omega arith) (omega arith) (omega arith);
  first_key_tuple_ref_typed = new-IsTyped _ _ _ _ (omega arith) (omega arith) (omega arith);
  last_key_tuple_ref_typed = new-IsTyped _ _ _ _ (omega arith) (omega arith) (omega arith);
  append_first_key_tuple_ref_typed = new-IsTyped _ _ _ _ (omega arith) (omega arith) (omega arith);
  append_last_key_tuple_ref_typed = new-IsTyped _ _ _ _ (omega arith) (omega arith) (omega arith);
  commit_diagnostics_ref_typed = new-IsTyped _ _ _ _ (omega arith) (omega arith) (omega arith);
  created_unix_nanos_u64 = omega arith;
  content_flags_u64 = omega arith;
  crc32c_u32 = omega arith;
}

abbrev root_v2_bytes : List ℕ
root_v2_bytes = seal (RootV2.body root_v2 ++ write_u32 0)

root_v2_written : RootV2.write_to root_v2 ≡ ok root_v2_bytes
unfolding RootV2.write_to RootV2.body BodyRef.new
root_v2_written = refl

root_v2_read_from-write_to_example :
    RootV2Decode.read_from (root_v2_bytes ++ 1 ∷ 2 ∷ [])
    ≡ ok (record root_v2 { crc32c = crc32c (RootV2.body root_v2 ++ write_u32 0) }, 1 ∷ 2 ∷ [])
root_v2_read_from-write_to_example =
    RootV2Laws.root_v2_read_from-write_to root_v2 root_v2_bytes (1 ∷ 2 ∷ []) root_v2-IsTyped
      root_v2_written

abbrev bootstrap_v1 : OcbBootstrapPageV1
bootstrap_v1 = record {
  format_major = 1;
  format_minor = 0;
  flags = 3;
  page_size = 4096;
  file_uuid = sixteen;
  root_ref = BodyRef.new 6656 280 OcbBodyKindV1.root 82;
  crc32c = 7;
}

bootstrap_v1-IsTyped : BootstrapV1.IsTyped bootstrap_v1
bootstrap_v1-IsTyped = record {
  format_major_u16 = omega arith;
  format_minor_u16 = omega arith;
  flags_u32 = omega arith;
  page_size_u32 = omega arith;
  file_uuid_size = refl;
  file_uuid_bytes = omega arith;
  root_ref_typed = new-IsTyped _ _ _ _ (omega arith) (omega arith) (omega arith);
  crc32c_u32 = omega arith;
}

abbrev bootstrap_v1_bytes : List ℕ
bootstrap_v1_bytes = seal (
    (BootstrapV1.body bootstrap_v1 ++ BootstrapV1.padding 4092 (BootstrapV1.body bootstrap_v1))
    ++ write_u32 0)

bootstrap_v1_written : BootstrapV1.write_to bootstrap_v1 ≡ ok bootstrap_v1_bytes
unfolding BootstrapV1.write_to BodyRef.new
bootstrap_v1_written = refl

bootstrap_v1_read_from-write_to_example :
    BootstrapV1Decode.read_from (bootstrap_v1_bytes ++ [])
    ≡ ok (
      record bootstrap_v1 {
        crc32c = crc32c (
            (BootstrapV1.body bootstrap_v1
              ++ BootstrapV1.padding 4092 (BootstrapV1.body bootstrap_v1))
            ++ write_u32 0);
      },
      [],
    )
bootstrap_v1_read_from-write_to_example =
    BootstrapV1Laws.bootstrap_v1_read_from-write_to bootstrap_v1 bootstrap_v1_bytes []
      bootstrap_v1-IsTyped refl refl bootstrap_v1_written

root_v2_write_to-ranges_example :
    (root_v2.version ≡ 2)
    × (root_v2.append_base_row + root_v2.append_row_count ≤ root_v2.row_count)
    × (root_v2.append_base_row_group + root_v2.append_row_group_count ≤ root_v2.row_group_count)
root_v2_write_to-ranges_example =
    RootV2Laws.root_v2_write_to-ranges root_v2 root_v2_bytes root_v2_written

references_accepted : RootV2.validate_references root_v2 20000 ≡ ok tt
unfolding RootV2.validate_references BodyRef.new
references_accepted = refl

references-IsInFile_example :
    IsInFile root_v2.schema_ref OcbBodyKindV1.schema 20000
    × IsInFile root_v2.row_group_index_ref OcbBodyKindV1.row_group_index 20000
    × IsNullOrInFile root_v2.dictionary_index_ref OcbBodyKindV1.dictionary_index 20000
    × IsNullOrInFile root_v2.ordering_proof_ref OcbBodyKindV1.ordering_proof 20000
    × IsNullOrInFile root_v2.debug_json_ref OcbBodyKindV1.debug_json_metadata 20000
    × IsNullOrInFile root_v2.first_key_tuple_ref OcbBodyKindV1.key_tuple 20000
    × IsNullOrInFile root_v2.last_key_tuple_ref OcbBodyKindV1.key_tuple 20000
    × IsNullOrInFile root_v2.append_first_key_tuple_ref OcbBodyKindV1.key_tuple 20000
    × IsNullOrInFile root_v2.append_last_key_tuple_ref OcbBodyKindV1.key_tuple 20000
    × IsNullOrInFile root_v2.previous_root_ref OcbBodyKindV1.root 20000
references-IsInFile_example = references-IsInFile root_v2 20000 references_accepted

candidate_accepted : RootSlot.validate_candidate root_slot 1 10000 ≡ ok tt
unfolding RootSlot.validate_candidate BodyRef.new
candidate_accepted = refl

candidate-IsInFile_example :
    (root_slot.slot_id ≡ 1)
    × (RootSlot.is_empty root_slot ≡ false)
    × IsInFile root_slot.root_ref OcbBodyKindV1.root 10000
    × (root_slot.root_ref.size ≡ root_v2_len)
candidate-IsInFile_example = candidate-IsInFile root_slot 1 10000 candidate_accepted

-- The slot with its first byte changed.
abbrev damaged : List ℕ
damaged = 80 ∷ drop 1 root_slot_bytes

damaged-OneByteOff : OneByteOff root_slot_bytes damaged
unfolding RootSlot.body BodyRef.new seal
damaged-OneByteOff = inl (omega arith, refl)

damaged-IsByte : All IsByte damaged
unfolding RootSlot.body BodyRef.new seal
damaged-IsByte = omega arith

root_slot_damaged_example :
    RootSlotDecode.read_from (damaged ++ []) ≡ err (ocb_corrupt_file "OCB root slot crc mismatch")
root_slot_damaged_example =
    root_slot_damaged root_slot root_slot_bytes damaged [] root_slot-IsTyped root_slot_written
      damaged-IsByte damaged-OneByteOff

abbrev pub page : OcbBootstrapPageV2
page = record {
  format_major = 2;
  format_minor = 0;
  flags = 0;
  page_size = 4096;
  file_uuid = sixteen;
  slot0 = replicate 160 0;
  slot1 = replicate 160 0;
  crc32c_field = 0;
}

pub page-IsTyped : BootstrapV2.IsTyped page
page-IsTyped = record {
  format_major_u16 = omega arith;
  format_minor_u16 = omega arith;
  flags_u32 = omega arith;
  page_size_u32 = omega arith;
  file_uuid_size = refl;
  slot0_size = refl;
  slot1_size = refl;
}

abbrev pub page_bytes : List ℕ
page_bytes = BootstrapV2Laws.page_of page (replicate 160 0) (replicate 160 0)

page_accepted : BootstrapV2.check_encodable page ≡ ok tt
unfolding BootstrapV2.check_encodable
page_accepted = refl

pub page_written : BootstrapV2.write_to page ≡ ok page_bytes
page_written = BootstrapV2Laws.write_to-page_of page page-IsTyped page_accepted

bootstrap_v2_read_from-write_to_example :
    BootstrapV2Decode.read_from (page_bytes ++ [])
    ≡ ok (record page { crc32c_field = BootstrapV2Laws.page_crc page }, [])
bootstrap_v2_read_from-write_to_example =
    BootstrapV2Laws.bootstrap_v2_read_from-write_to page page_bytes [] page-IsTyped page_written

-- A slot that was being overwritten with ones.
abbrev pub torn : List ℕ
torn = replicate 160 255

torn_slot0_example :
    (read : OcbBootstrapPageV2) × (BootstrapV2Decode.read_from
        ((take 64 page_bytes ++ ((torn ++ root_slot_bytes) ++ drop 384 page_bytes)) ++ [])
      ≡ ok (read, []))
    × (read.file_uuid ≡ sixteen)
    × (BootstrapV2Decode.decoded_root_slots read
        ≡ cursor RootSlotDecode.read_from torn ∷ ok (stored root_slot) ∷ [])
torn_slot0_example =
    torn_slot0 page root_slot page_bytes torn root_slot_bytes [] page-IsTyped root_slot-IsTyped
      page_written root_slot_written refl

torn_slot1_example :
    (read : OcbBootstrapPageV2) × (BootstrapV2Decode.read_from
        ((take 64 page_bytes ++ ((root_slot_bytes ++ torn) ++ drop 384 page_bytes)) ++ [])
      ≡ ok (read, []))
    × (read.file_uuid ≡ sixteen)
    × (BootstrapV2Decode.decoded_root_slots read
        ≡ ok (stored root_slot) ∷ cursor RootSlotDecode.read_from torn ∷ [])
torn_slot1_example =
    torn_slot1 page root_slot page_bytes torn root_slot_bytes [] page-IsTyped root_slot-IsTyped
      page_written root_slot_written refl
