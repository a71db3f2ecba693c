-- ===== src/Tests/Reading.antt =====
-- Examples of reading a file: its objects, its deltas, its snapshots and its metadata.
use arcadia_tio_rs.Base.{ℕ, suc, arith, ltb, ◌≡◌, refl, List, [], ◌∷◌, ◌++◌, some, true, false}
use arcadia_tio_rs.Error.{Result, ok, err, ocb_corrupt_file}
use arcadia_tio_rs.Bytes.{write_u32}
use arcadia_tio_rs.Crc.{crc32c, seal}
use arcadia_tio_rs.Kinds.{OcbBodyKindV1, OcbPhysicalTypeV1, OcbChunkCodecV1}
use arcadia_tio_rs.BodyRef
use arcadia_tio_rs.BodyRef.{OcbBodyRefV2}
use arcadia_tio_rs.Limits.{policy_a}
use arcadia_tio_rs.RootV2.{OcbRootV2}
use arcadia_tio_rs.RowGroupIndexDelta.{OcbRowGroupIndexDeltaV1}
use arcadia_tio_rs.ColumnChunk
use arcadia_tio_rs.ColumnChunk.{OcbColumnChunkObjectV1}
use arcadia_tio_rs.ColumnChunk.Decode as ColumnChunkDecode
use arcadia_tio_rs.ColumnChunk.Laws.{body, column_chunk_read_from-write_to}
use arcadia_tio_rs.ColumnChunk.Payload.{
  decode_payload_with_limits, into_decoded_payload_with_limits,
}
use arcadia_tio_rs.ColumnChunk.Payload.Bounds.{
  IsDecoded, decode_payload_with_limits-IsDecoded, into_decoded_payload-decode_payload,
}
use arcadia_tio_rs.Read.Metadata.{OcbMetadataV1, row_group_by_id}
use arcadia_tio_rs.Read.Source.{read_object_bytes_inner_with_limits}
use arcadia_tio_rs.Read.Source.Laws.{IsObject, read_object_bytes_inner_with_limits-IsObject}
use arcadia_tio_rs.Read.Delta.{apply_row_group_index_delta}
use arcadia_tio_rs.Read.Delta.Laws.{IsApplied, apply_delta-IsApplied}
use arcadia_tio_rs.Read.Select.{OcbRootCandidateV2, choose_from, choose_v2_metadata}
use arcadia_tio_rs.Read.Select.Laws.{Selects, choose_v2_metadata-Selects}
use arcadia_tio_rs.Read.Select.Fuel.{choose_v2_metadata-fuel}
use arcadia_tio_rs.Read.Graph.Chunks.{OcbOpenValidationMode}
use arcadia_tio_rs.Read.Graph.RowGroups.Laws.{IsCovered, row_group_graph-IsCovered}
use arcadia_tio_rs.Read.Open.Laws.{IsSound, read_metadata-IsSound}
use arcadia_tio_rs.Read.Open.Lookup.{row_group_by_id-finds}
use arcadia_tio_rs.Read.Auxiliary.{
  OcbAuxiliaryObjectState, OcbOpenAuxiliaryObjectCache, new_cache, preflight,
}
use arcadia_tio_rs.Read.Auxiliary.Bodies.{dictionary_values_summary, validate_key_tuple}
use arcadia_tio_rs.Read.Auxiliary.Accounts.{Distinct, IsAccounted}
use arcadia_tio_rs.Read.Auxiliary.Laws.{auxiliary_object_cache-IsAccounted}
use arcadia_tio_rs.Read.Graph.RowGroups.{validate_row_group_graph}
use arcadia_tio_rs.Read.End.{selected_snapshot_referenced_end}
use arcadia_tio_rs.Read.End.Laws.{IsSnapshotEnd, selected_snapshot_referenced_end-IsSnapshotEnd}
use arcadia_tio_rs.Tests.Samples.{
  platform, budget, charged, column_chunk, column_stats, ordering_key, row_group_proof,
}
use arcadia_tio_rs.OrderingProof.{OcbOrderingProofV1}
use arcadia_tio_rs.Records.OrderingProof.{OcbRowGroupOrderingProofV1}
use arcadia_tio_rs.Tests.Roots.{root_slot, root_v2}
use arcadia_tio_rs.Tests.Files.{
  small_file, small_metadata, small_file-opens, row_group, unchecked, string_bytes, schema_bytes,
  index_bytes, root_bytes, page_bytes,
}

read_metadata-IsSound_example : IsSound small_metadata
read_metadata-IsSound_example =
    read_metadata-IsSound platform small_file OcbOpenValidationMode.metadata_graph policy_a
      small_metadata small_file-opens

row_group_by_id-finds_example : row_group_by_id small_metadata 5 ≡ some (row_group 5 3 2)
row_group_by_id-finds_example =
    row_group_by_id-finds platform small_file OcbOpenValidationMode.metadata_graph policy_a
      small_metadata 1 (row_group 5 3 2) small_file-opens refl

index_read :
    read_object_bytes_inner_with_limits platform small_file 4672
      (unchecked 4396 276 OcbBodyKindV1.row_group_index)
      OcbBodyKindV1.row_group_index
      1000
      4000
    ≡ ok index_bytes
unfolding read_object_bytes_inner_with_limits string_bytes schema_bytes index_bytes root_bytes
    page_bytes
index_read = refl

read_object_bytes_inner_with_limits-IsObject_example :
    IsObject small_file 4672
      (unchecked 4396 276 OcbBodyKindV1.row_group_index)
      OcbBodyKindV1.row_group_index
      1000
      index_bytes
read_object_bytes_inner_with_limits-IsObject_example =
    read_object_bytes_inner_with_limits-IsObject platform small_file 4672
      (unchecked 4396 276 OcbBodyKindV1.row_group_index) OcbBodyKindV1.row_group_index 1000 4000
      index_read

-- Proofs of the order of the two row groups, and of as many as are given.
abbrev proofs : List OcbRowGroupOrderingProofV1 → OcbOrderingProofV1
proofs row_group_proofs = record {
  version = 1;
  flags = 0;
  keys = ordering_key ∷ [];
  row_group_proofs = row_group_proofs;
  crc32c = 0;
}

abbrev ordered_metadata : OcbMetadataV1
ordered_metadata = record small_metadata {
  ordering_proof = some (proofs (row_group_proof ∷ row_group_proof ∷ []));
}

-- A delta that appends a row group of four rows, with statistics and a proof of its order.
abbrev delta : OcbRowGroupIndexDeltaV1
delta = record {
  version = 1;
  flags = 0;
  base_row_group_count = 2;
  base_column_chunk_count = 0;
  base_stat_count = 0;
  base_ordering_proof_count = 2;
  row_groups = row_group 9 5 4 ∷ [];
  column_chunks = column_chunk ∷ [];
  stats = column_stats ∷ [];
  ordering_keys = ordering_key ∷ [];
  row_group_ordering_proofs = row_group_proof ∷ [];
  crc32c = 0;
}

abbrev extended_metadata : OcbMetadataV1
extended_metadata = record small_metadata {
  row_group_index = record small_metadata.row_group_index {
    row_groups = row_group 7 0 3 ∷ row_group 5 3 2 ∷ row_group 9 5 4 ∷ [];
    column_chunks = column_chunk ∷ [];
    stats = column_stats ∷ [];
  };
  ordering_proof = some (proofs (row_group_proof ∷ row_group_proof ∷ row_group_proof ∷ []));
}

delta_applied :
    apply_row_group_index_delta platform ordered_metadata delta budget
    ≡ ok (extended_metadata, charged 328)
unfolding apply_row_group_index_delta
delta_applied = refl

apply_delta-IsApplied_example :
    IsApplied platform ordered_metadata extended_metadata delta budget (charged 328)
apply_delta-IsApplied_example =
    apply_delta-IsApplied platform ordered_metadata extended_metadata delta budget (charged 328)
      delta_applied

-- A candidate of a generation, whose root says which of its objects are damaged.
abbrev candidate : ℕ → ℕ → OcbRootCandidateV2
candidate generation flags = record {
  slot = record root_slot { generation = generation };
  root = record root_v2 { flags = flags };
}

-- Another candidate of generation 6, for another root.
abbrev conflicting_candidate : OcbRootCandidateV2
conflicting_candidate = record {
  slot = record root_slot { generation = 6; root_ref = BodyRef.new 4096 456 OcbBodyKindV1.root 78 };
  root = root_v2;
}

abbrev candidates : List OcbRootCandidateV2
candidates = candidate 6 0 ∷ candidate 4 0 ∷ candidate 5 1 ∷ conflicting_candidate ∷ []

-- A root with a flag is found corrupt; the number of roots looked at is counted.
abbrev flagged_corrupt : OcbRootV2 → ℕ → Result OcbMetadataV1 × ℕ
flagged_corrupt root looked_at = elim (ltb 0 root.flags) [
  | true ↦ (err (ocb_corrupt_file "damaged"), suc looked_at)
  | false ↦ (ok small_metadata, suc looked_at)
]

choose_v2_metadata-Selects_example : Selects flagged_corrupt candidates (ok small_metadata)
unfolding choose_v2_metadata BodyRef.new
choose_v2_metadata-Selects_example = choose_v2_metadata-Selects flagged_corrupt candidates 0

choose_v2_metadata-fuel_example :
    choose_from flagged_corrupt 5 candidates 0
    ≡ some (choose_v2_metadata flagged_corrupt candidates 0)
choose_v2_metadata-fuel_example =
    choose_v2_metadata-fuel flagged_corrupt 5 candidates 0 (omega arith)

-- A cache that holds a key tuple of the root, and what opening does next with it.
abbrev tuple_cache : OcbOpenAuxiliaryObjectCache
tuple_cache = record {
  objects = (root_v2.first_key_tuple_ref, OcbAuxiliaryObjectState.pending) ∷ [];
  total_unique_bytes = root_v2.first_key_tuple_ref.size;
  resource_limits = policy_a;
}

tuple_cache-IsAccounted : IsAccounted policy_a tuple_cache
unfolding Distinct BodyRef.new
tuple_cache-IsAccounted = record {
  same_limits = refl;
  once = (tt, tt);
  exact = refl;
  bounded = omega arith;
}

auxiliary_object_cache-IsAccounted_example :
    IsAccounted policy_a (new_cache policy_a)
    × IsAccounted policy_a ((preflight platform small_metadata (some root_v2) tuple_cache).1)
    × IsAccounted policy_a (
        (dictionary_values_summary platform small_file 4672 root_v2.first_key_tuple_ref budget
          tuple_cache).1)
    × IsAccounted policy_a
        ((validate_key_tuple platform small_file 4672 root_v2.first_key_tuple_ref tuple_cache).1)
auxiliary_object_cache-IsAccounted_example =
    auxiliary_object_cache-IsAccounted policy_a platform small_file 4672 small_metadata
      (some root_v2) root_v2.first_key_tuple_ref budget tuple_cache tuple_cache-IsAccounted

row_groups_covered :
    validate_row_group_graph platform small_file 4672 [] OcbOpenValidationMode.metadata_graph
      policy_a small_metadata.row_group_index
      (new_cache policy_a)
    ≡ (ok ((5, 1) ∷ (7, 0) ∷ []), new_cache policy_a)
unfolding validate_row_group_graph
row_groups_covered = refl

row_group_graph-IsCovered_example : IsCovered small_metadata.row_group_index ((5, 1) ∷ (7, 0) ∷ [])
row_group_graph-IsCovered_example =
    row_group_graph-IsCovered platform small_file 4672 [] OcbOpenValidationMode.metadata_graph
      policy_a small_metadata.row_group_index (new_cache policy_a) (new_cache policy_a)
      ((5, 1) ∷ (7, 0) ∷ []) row_groups_covered

snapshot_end : selected_snapshot_referenced_end root_slot root_v2 small_metadata ≡ ok 16152
unfolding selected_snapshot_referenced_end BodyRef.new
snapshot_end = refl

selected_snapshot_referenced_end-IsSnapshotEnd_example :
    IsSnapshotEnd root_slot root_v2 small_metadata 16152
selected_snapshot_referenced_end-IsSnapshotEnd_example =
    selected_snapshot_referenced_end-IsSnapshotEnd root_slot root_v2 small_metadata 16152
      snapshot_end

-- Two values of eight bytes.
abbrev chunk : OcbColumnChunkObjectV1
chunk = record {
  version = 1;
  physical_type = OcbPhysicalTypeV1.i64;
  codec = OcbChunkCodecV1.none;
  flags = 0;
  row_group_id = 7;
  column_id = 1;
  row_count = 2;
  uncompressed_bytes = 16;
  payload = 1 ∷ 0 ∷ 0 ∷ 0 ∷ 0 ∷ 0 ∷ 0 ∷ 0 ∷ 2 ∷ 0 ∷ 0 ∷ 0 ∷ 0 ∷ 0 ∷ 0 ∷ 0 ∷ [];
  crc32c = 0;
}

chunk-IsTyped : ColumnChunk.IsTyped chunk
chunk-IsTyped = record {
  version_u16 = omega arith;
  flags_u32 = omega arith;
  row_group_id_u32 = omega arith;
  column_id_u32 = omega arith;
  row_count_u64 = omega arith;
  uncompressed_bytes_u64 = omega arith;
  payload_bytes = omega arith;
}

abbrev chunk_bytes : List ℕ
chunk_bytes = seal (body chunk ++ write_u32 0)

chunk_written : ColumnChunk.write_to chunk ≡ ok chunk_bytes
unfolding ColumnChunk.write_to body
chunk_written = refl

column_chunk_read_from-write_to_example :
    ColumnChunkDecode.read_from_bytes chunk_bytes
    ≡ ok (record chunk { crc32c = crc32c (body chunk ++ write_u32 0) })
column_chunk_read_from-write_to_example =
    column_chunk_read_from-write_to chunk chunk_bytes chunk-IsTyped refl chunk_written

-- The same values through a decoder that copies its input.
abbrev packed : OcbColumnChunkObjectV1
packed = record chunk { codec = OcbChunkCodecV1.zstd }

packed_decoded : decode_payload_with_limits platform packed 20 16 ≡ ok packed.payload
unfolding decode_payload_with_limits
packed_decoded = refl

decode_payload_with_limits-IsDecoded_example : IsDecoded packed 20 16 packed.payload
decode_payload_with_limits-IsDecoded_example =
    decode_payload_with_limits-IsDecoded platform packed 20 16 packed_decoded

into_decoded_payload-decode_payload_example :
    into_decoded_payload_with_limits platform chunk 20 16
    ≡ decode_payload_with_limits platform chunk 20 16
into_decoded_payload-decode_payload_example =
    into_decoded_payload-decode_payload platform chunk 20 16 refl
