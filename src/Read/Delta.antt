-- ===== src/Read/Delta.antt =====
-- The row-group index delta of the last commit, applied to the tables it extends: the functions
-- `apply_row_group_index_delta` and below of crates/arcadia-tio-ocb-core/src/read.rs.
pub mod Target
pub mod Laws
use arcadia_tio_rs.Base.{
  ℕ, zero, suc, ◌+◌, ◌*◌, ◌^◌, List, [], ◌∷◌, ◌++◌, length, Bool, true, false, not, ◌==◌, ◌&&◌,
  ◌||◌, leb, Option, some, none, if◌then◌else◌,
}
use arcadia_tio_rs.Error.{
  ArcadiaTioError, Result, ok, err, ocb_corrupt_file, io_error, fail_if, ◌>>◌, ◌>>=◌,
}
use arcadia_tio_rs.Kinds.OrderingDirection
use arcadia_tio_rs.Kinds.NullOrder
use arcadia_tio_rs.Records.OrderingKey.{OcbOrderingKeyV1}
use arcadia_tio_rs.RowGroupIndex.{OcbRowGroupIndexV1}
use arcadia_tio_rs.RowGroupIndexDelta.{OcbRowGroupIndexDeltaV1}
use arcadia_tio_rs.OrderingProof.{OcbOrderingProofV1}
use arcadia_tio_rs.Limits.{MetadataMaterializationBudget, charge}
use arcadia_tio_rs.Table.{Platform}
use arcadia_tio_rs.Read.Metadata.{OcbMetadataV1}

unfoldable pub checked_retained_vec_bytes : ℕ → ℕ → Result ℕ
checked_retained_vec_bytes item_bytes count = do
  fail_if (leb (2 ^ 64) (count * item_bytes))
      (ocb_corrupt_file "OCB row-group index delta destination size overflows")
  ok (count * item_bytes)

-- The `for` loop over the four sizes.
unfoldable pub add_parts : ℕ → List ℕ → Result ℕ
add_parts bytes [] = ok bytes
add_parts bytes (part ∷ parts) = do
  fail_if (leb (2 ^ 64) (bytes + part))
      (ocb_corrupt_file "OCB row-group index delta destination size overflows")
  add_parts (bytes + part) parts

unfoldable pub row_group_index_delta_destination_extension_bytes :
    Platform → OcbRowGroupIndexDeltaV1 → Result ℕ
unfolding checked_retained_vec_bytes add_parts
row_group_index_delta_destination_extension_bytes p delta = do
  row_groups ← checked_retained_vec_bytes p.size_of_row_group_desc (length delta.row_groups)
  column_chunks ←
      checked_retained_vec_bytes p.size_of_column_chunk_desc (length delta.column_chunks)
  stats ← checked_retained_vec_bytes p.size_of_column_stats (length delta.stats)
  proofs ←
      checked_retained_vec_bytes p.size_of_ordering_proof (length delta.row_group_ordering_proofs)
  add_parts 0 (row_groups ∷ column_chunks ∷ stats ∷ proofs ∷ [])

unfoldable pub checked_delta_destination_len : ℕ → ℕ → Result (Unit {0})
checked_delta_destination_len base additional =
    fail_if (leb (2 ^ 64) (base + additional))
      (ocb_corrupt_file "OCB row-group index delta destination length overflows")

abbrev pub row_group_index_delta_allocation_error : ArcadiaTioError
row_group_index_delta_allocation_error =
    io_error "OCB row-group index delta allocation failed within resource limit"

-- `try_reserve_exact` of so many more items, for a vector that holds `base` of them.
unfoldable pub reserve_more : Platform → ℕ → ℕ → ℕ → Result (Unit {0})
reserve_more p item_bytes base additional =
    fail_if (not (p.grants ((base + additional) * item_bytes)))
      row_group_index_delta_allocation_error

-- `==` of ordering keys and of vectors of them.
unfoldable pub key_eq : OcbOrderingKeyV1 → OcbOrderingKeyV1 → Bool
unfolding OrderingDirection.eq NullOrder.eq
key_eq a b =
    a.column_id == b.column_id
    && OrderingDirection.eq a.direction b.direction
    && NullOrder.eq a.null_order b.null_order
    && a.reserved0 == b.reserved0

unfoldable pub keys_eq : List OcbOrderingKeyV1 → List OcbOrderingKeyV1 → Bool
unfolding key_eq
keys_eq [] [] = true
keys_eq [] (_ ∷ _) = false
keys_eq (_ ∷ _) [] = false
keys_eq (a ∷ others) (b ∷ keys) = key_eq a b && keys_eq others keys

unfoldable pub is_empty {ℓ} : {A : Type ℓ} → List A → Bool
is_empty [] = true
is_empty (_ ∷ _) = false

-- The three sizes of the base tables, and the flags.
unfoldable pub check_base : OcbRowGroupIndexV1 → OcbRowGroupIndexDeltaV1 → Result (Unit {0})
check_base index delta = do
  fail_if
      (not (length index.row_groups == delta.base_row_group_count)
        || not (length index.column_chunks == delta.base_column_chunk_count)
        || not (length index.stats == delta.base_stat_count))
      (ocb_corrupt_file "OCB row-group index delta base counts do not match base index")
  fail_if (not (delta.flags == index.flags))
      (ocb_corrupt_file "OCB row-group index delta flags do not match base index")
  ok tt

-- The two branches of `target_ordering_proof`: a delta without ordering proofs, and one with them.
unfoldable pub check_no_ordering : OcbRowGroupIndexDeltaV1 → Result (Option OcbOrderingProofV1)
unfolding is_empty
check_no_ordering delta = do
  fail_if (not (delta.base_ordering_proof_count == 0) || not (is_empty delta.ordering_keys))
      (ocb_corrupt_file "OCB row-group index delta ordering metadata is inconsistent")
  ok none

unfoldable pub required_proof : Option OcbOrderingProofV1 → Result OcbOrderingProofV1
required_proof none = err (ocb_corrupt_file "OCB row-group index delta requires ordering proof")
required_proof (some proof) = ok proof

unfoldable pub matching_proof :
    Option OcbOrderingProofV1 → OcbRowGroupIndexDeltaV1 → Result (Option OcbOrderingProofV1)
unfolding required_proof keys_eq
matching_proof ordering_proof delta = do
  fail_if
      (not (delta.base_ordering_proof_count == delta.base_row_group_count)
        || not (length delta.row_group_ordering_proofs == length delta.row_groups))
      (ocb_corrupt_file
        "OCB row-group index delta ordering partition does not match row-group delta")
  proof ← required_proof ordering_proof
  fail_if (not (length proof.row_group_proofs == delta.base_ordering_proof_count))
      (ocb_corrupt_file "OCB row-group index delta ordering base count does not match base proof")
  fail_if (not (keys_eq proof.keys delta.ordering_keys))
      (ocb_corrupt_file "OCB row-group index delta ordering keys do not match base proof")
  ok (some proof)

-- `target_ordering_proof`: the proof that the delta extends, if it extends one.
unfoldable pub target_ordering_proof :
    Option OcbOrderingProofV1 → OcbRowGroupIndexDeltaV1 → Result (Option OcbOrderingProofV1)
unfolding is_empty check_no_ordering matching_proof
target_ordering_proof ordering_proof delta =
    if is_empty delta.row_group_ordering_proofs
    then check_no_ordering delta
    else matching_proof ordering_proof delta

-- The calls of `checked_delta_destination_len`.
unfoldable pub check_destination_lens :
    OcbRowGroupIndexV1 → Option OcbOrderingProofV1 → OcbRowGroupIndexDeltaV1 → Result (Unit {0})
unfolding checked_delta_destination_len
check_destination_lens index target delta = do
  checked_delta_destination_len (length index.row_groups) (length delta.row_groups)
  checked_delta_destination_len (length index.column_chunks) (length delta.column_chunks)
  checked_delta_destination_len (length index.stats) (length delta.stats)
  elim target [
    | none ↦ ok tt
    | some proof ↦
        checked_delta_destination_len (length proof.row_group_proofs)
          (length delta.row_group_ordering_proofs)
  ]

-- The calls of `try_reserve_exact`.
unfoldable pub reserve_destination :
    Platform
    → OcbRowGroupIndexV1
    → Option OcbOrderingProofV1
    → OcbRowGroupIndexDeltaV1
    → Result (Unit {0})
unfolding reserve_more
reserve_destination p index target delta = do
  reserve_more p p.size_of_row_group_desc (length index.row_groups) (length delta.row_groups)
  reserve_more p p.size_of_column_chunk_desc (length index.column_chunks)
      (length delta.column_chunks)
  reserve_more p p.size_of_column_stats (length index.stats) (length delta.stats)
  elim target [
    | none ↦ ok tt
    | some proof ↦
        reserve_more p p.size_of_ordering_proof (length proof.row_group_proofs)
          (length delta.row_group_ordering_proofs)
  ]

unfoldable pub extend_proof :
    Option OcbOrderingProofV1
    → Option OcbOrderingProofV1
    → OcbRowGroupIndexDeltaV1
    → Option OcbOrderingProofV1
extend_proof ordering_proof none delta = ordering_proof
extend_proof ordering_proof (some proof) delta =
    some (record proof {
      row_group_proofs = proof.row_group_proofs ++ delta.row_group_ordering_proofs;
    })

-- What the four calls of `extend` leave.
unfoldable pub extend_tables :
    OcbMetadataV1 → Option OcbOrderingProofV1 → OcbRowGroupIndexDeltaV1 → OcbMetadataV1
unfolding extend_proof
extend_tables metadata target delta =
    let index = metadata.row_group_index in
    record metadata {
      row_group_index = record index {
        row_groups = index.row_groups ++ delta.row_groups;
        column_chunks = index.column_chunks ++ delta.column_chunks;
        stats = index.stats ++ delta.stats;
      };
      ordering_proof = extend_proof metadata.ordering_proof target delta;
    }

-- The metadata and the budget that the source changes in place are returned.
unfoldable pub apply_row_group_index_delta :
    Platform
    → OcbMetadataV1
    → OcbRowGroupIndexDeltaV1
    → MetadataMaterializationBudget
    → Result (OcbMetadataV1 × MetadataMaterializationBudget)
unfolding check_base target_ordering_proof check_destination_lens charge
    row_group_index_delta_destination_extension_bytes reserve_destination extend_tables
apply_row_group_index_delta p metadata delta budget = do
  check_base metadata.row_group_index delta
  target ← target_ordering_proof metadata.ordering_proof delta
  check_destination_lens metadata.row_group_index target delta
  bytes ← row_group_index_delta_destination_extension_bytes p delta
  charged ← charge budget bytes
  reserve_destination p metadata.row_group_index target delta
  ok (extend_tables metadata target delta, charged)
