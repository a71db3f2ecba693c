-- ===== src/Read/Delta/Laws.antt =====
-- What an applied delta leaves: tables that begin with the base, and a budget charged for the rest.
use arcadia_tio_rs.Base.{
  ℕ, ◌+◌, ◌*◌, ◌≡◌, ◌⊎◌, inl, inr, refl, ◌∙◌, ap, arith, List, [], ◌∷◌, ◌++◌, length, Option, none,
  some, sum,
}
use arcadia_tio_rs.Error.{ok, fail_if-eq-ok, then-eq-ok, >>=-eq-ok, ok-injective}
use arcadia_tio_rs.RowGroupIndexDelta.{OcbRowGroupIndexDeltaV1}
use arcadia_tio_rs.OrderingProof.{OcbOrderingProofV1}
use arcadia_tio_rs.Limits.{MetadataMaterializationBudget, charge}
use arcadia_tio_rs.Table.{Platform}
use arcadia_tio_rs.Read.Metadata.{OcbMetadataV1}
use arcadia_tio_rs.Read.Delta.{
  apply_row_group_index_delta, check_base, target_ordering_proof,
  row_group_index_delta_destination_extension_bytes, checked_retained_vec_bytes, add_parts,
  extend_proof, extend_tables, check_destination_lens, reserve_destination,
}
use arcadia_tio_rs.Read.Delta.Target.{
  IsBase, check_base-IsBase, IsTarget, target_ordering_proof-IsTarget,
}

-- The bytes of the four tables that a delta extends.
unfoldable pub extension_bytes : Platform → OcbRowGroupIndexDeltaV1 → ℕ
extension_bytes p delta =
    length delta.row_groups * p.size_of_row_group_desc
    + length delta.column_chunks * p.size_of_column_chunk_desc
    + length delta.stats * p.size_of_column_stats
    + length delta.row_group_ordering_proofs * p.size_of_ordering_proof

retained-eq :
    (item_bytes count : ℕ) {bytes : ℕ}
    → checked_retained_vec_bytes item_bytes count ≡ ok bytes
    → count * item_bytes ≡ bytes
unfolding checked_retained_vec_bytes
retained-eq item_bytes count h = let (_, h1) = fail_if-eq-ok _ _ _ h in ok-injective h1

add_parts-sum :
    (bytes : ℕ) (parts : List ℕ) {result : ℕ}
    → add_parts bytes parts ≡ ok result
    → bytes + sum parts ≡ result
unfolding add_parts
add_parts-sum bytes [] h = omega (arith, ok-injective h)
add_parts-sum bytes (part ∷ parts) h =
    let (_, h1) = fail_if-eq-ok _ _ _ h in omega (arith, add_parts-sum (bytes + part) parts h1)

extension_bytes_exact :
    (p : Platform) (delta : OcbRowGroupIndexDeltaV1) {bytes : ℕ}
    → row_group_index_delta_destination_extension_bytes p delta ≡ ok bytes
    → bytes ≡ extension_bytes p delta
unfolding row_group_index_delta_destination_extension_bytes extension_bytes
extension_bytes_exact p delta h =
    let (row_groups, e1, h1) =
      >>=-eq-ok (checked_retained_vec_bytes p.size_of_row_group_desc (length delta.row_groups)) _
        h in
    let (column_chunks, e2, h2) =
      >>=-eq-ok
        (checked_retained_vec_bytes p.size_of_column_chunk_desc (length delta.column_chunks)) _
        h1 in
    let (stats, e3, h3) =
      >>=-eq-ok (checked_retained_vec_bytes p.size_of_column_stats (length delta.stats)) _ h2 in
    let (proofs, e4, h4) =
      >>=-eq-ok
        (checked_retained_vec_bytes p.size_of_ordering_proof
          (length delta.row_group_ordering_proofs))
        _ h3 in
    omega (
      arith,
      add_parts-sum 0 (row_groups ∷ column_chunks ∷ stats ∷ proofs ∷ []) h4,
      retained-eq p.size_of_row_group_desc _ e1,
      retained-eq p.size_of_column_chunk_desc _ e2,
      retained-eq p.size_of_column_stats _ e3,
      retained-eq p.size_of_ordering_proof _ e4,
    )

-- The ordering proof after a delta: the one before it, where the delta has none, or else the one before
-- it, of the same keys, followed by a proof for each row group of the delta.
unfoldable pub IsExtended :
    Option OcbOrderingProofV1 → OcbRowGroupIndexDeltaV1 → Option OcbOrderingProofV1 → Type 0
IsExtended before delta after =
    ((delta.row_group_ordering_proofs ≡ []) × (delta.ordering_keys ≡ []) × (after ≡ before))
    ⊎ ((proof : OcbOrderingProofV1) × (before ≡ some proof)
        × (proof.keys ≡ delta.ordering_keys)
        × (length proof.row_group_proofs ≡ delta.base_row_group_count)
        × (length delta.row_group_ordering_proofs ≡ length delta.row_groups)
        × (after
            ≡ some (record proof {
              row_group_proofs = proof.row_group_proofs ++ delta.row_group_ordering_proofs;
            })))

-- Metadata after a delta: the tables of the delta stand behind those before it, and the rest is as it
-- was.
pub record IsAppended (before : OcbMetadataV1) (delta : OcbRowGroupIndexDeltaV1)
    (after : OcbMetadataV1) : Type 0 where
  pub row_groups :
      after.row_group_index.row_groups ≡ before.row_group_index.row_groups ++ delta.row_groups
  pub column_chunks :
      after.row_group_index.column_chunks
      ≡ before.row_group_index.column_chunks ++ delta.column_chunks
  pub stats : after.row_group_index.stats ≡ before.row_group_index.stats ++ delta.stats
  pub ordering_proof : IsExtended before.ordering_proof delta after.ordering_proof
  pub others : after ≡ record before {
    row_group_index = record before.row_group_index {
      row_groups = after.row_group_index.row_groups;
      column_chunks = after.row_group_index.column_chunks;
      stats = after.row_group_index.stats;
    };
    ordering_proof = after.ordering_proof;
  }

extend_proof-IsExtended :
    (before target : Option OcbOrderingProofV1) (delta : OcbRowGroupIndexDeltaV1)
    → IsTarget before delta target
    → IsExtended before delta (extend_proof before target delta)
unfolding IsTarget IsExtended extend_proof
extend_proof-IsExtended before none delta (proofs, keys) = inl (proofs, keys, refl)
extend_proof-IsExtended before (some proof) delta (found, keys, size, added) =
    inr (proof, found, keys, size, added, refl)

extend_tables-IsAppended :
    (before : OcbMetadataV1) (target : Option OcbOrderingProofV1) (delta : OcbRowGroupIndexDeltaV1)
    → IsTarget before.ordering_proof delta target
    → IsAppended before delta (extend_tables before target delta)
unfolding extend_tables
extend_tables-IsAppended before target delta t = record {
  row_groups = refl;
  column_chunks = refl;
  stats = refl;
  ordering_proof = extend_proof-IsExtended before.ordering_proof target delta t;
  others = refl;
}

-- An applied delta: the base it was made for, the metadata after it, and the charge.
pub record IsApplied (p : Platform) (before after : OcbMetadataV1) (delta : OcbRowGroupIndexDeltaV1)
    (budget charged : MetadataMaterializationBudget) : Type 0 where
  pub base : IsBase before.row_group_index delta
  pub appended : IsAppended before delta after
  pub charge_exact : charge budget (extension_bytes p delta) ≡ ok charged

-- A delta that `apply_row_group_index_delta` accepts was made for tables of the sizes at hand and
-- for their flags. After it the row groups, the column chunks and the statistics are those before
-- it followed by those of the delta. The ordering proof is as before, where the delta has no
-- proofs and no keys; or else there was one, of the keys of the delta, with one proof for each row
-- group before it, and it is now followed by the proofs of the delta, one for each row group it
-- adds. All other fields of the metadata, of the index and of that proof are as before, and the
-- budget was charged exactly the bytes of the records appended.
pub apply_delta-IsApplied :
    (p : Platform) (before after : OcbMetadataV1) (delta : OcbRowGroupIndexDeltaV1)
    (budget charged : MetadataMaterializationBudget)
    → apply_row_group_index_delta p before delta budget ≡ ok (after, charged)
    → IsApplied p before after delta budget charged
unfolding apply_row_group_index_delta
apply_delta-IsApplied p before after delta budget charged h =
    let (base, h1) = then-eq-ok (check_base before.row_group_index delta) _ h in
    let (target, found, h2) = >>=-eq-ok (target_ordering_proof before.ordering_proof delta) _ h1 in
    let (_, h3) = then-eq-ok (check_destination_lens before.row_group_index target delta) _ h2 in
    let (bytes, sized, h4) =
      >>=-eq-ok (row_group_index_delta_destination_extension_bytes p delta) _ h3 in
    let (paid, accepted, h5) = >>=-eq-ok (charge budget bytes) _ h4 in
    let (_, h6) = then-eq-ok (reserve_destination p before.row_group_index target delta) _ h5 in
    let pair = ok-injective h6 in
    record {
      base = check_base-IsBase _ _ base;
      appended =
          rw (← ap (λ r. r.0) pair) (
            extend_tables-IsAppended before target delta
              (target_ordering_proof-IsTarget _ _ found));
      charge_exact =
          rw (← extension_bytes_exact p delta sized) (accepted ∙ ap (λ r. ok (r.1)) pair);
    }
