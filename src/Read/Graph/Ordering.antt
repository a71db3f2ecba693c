-- ===== src/Read/Graph/Ordering.antt =====
-- `validate_ordering_graph`: the ordering proof against the columns and the row groups.
use arcadia_tio_rs.Base.{ℕ, List, [], ◌∷◌, length, not, ◌==◌, Option, some, none}
use arcadia_tio_rs.Error.{ok, ocb_corrupt_file, fail_if}
use arcadia_tio_rs.Kinds.{OcbPhysicalTypeV1}
use arcadia_tio_rs.Kinds.PhysicalType
use arcadia_tio_rs.Table.{Platform}
use arcadia_tio_rs.Records.ColumnDesc.{OcbColumnDescV1}
use arcadia_tio_rs.Records.OrderingKey.{OcbOrderingKeyV1}
use arcadia_tio_rs.Records.OrderingProof.{OcbRowGroupOrderingProofV1}
use arcadia_tio_rs.OrderingProof.{OcbOrderingProofV1}
use arcadia_tio_rs.Read.Metadata.{OcbMetadataV1, Map, get}
use arcadia_tio_rs.Read.Auxiliary.{Scoped, ◌>>=◌, ◌>>◌, lift}
use arcadia_tio_rs.Read.Auxiliary.Bodies.{validate_key_tuple}
use arcadia_tio_rs.Read.Graph.{contains, contains_key, key_list, set_eq, reserve_entries, required}

-- The loop over the keys, with the columns seen before.
unfoldable pub validate_keys :
    Map OcbColumnDescV1 → List OcbOrderingKeyV1 → List ℕ → Scoped (Unit {0})
unfolding ◌>>=◌ ◌>>◌ lift required get PhysicalType.eq contains
validate_keys columns_by_id [] seen_key_columns = lift (ok tt)
validate_keys columns_by_id (key ∷ keys) seen_key_columns = do
  column ← lift (
      required (get columns_by_id key.column_id) "OCB ordering proof key references unknown column")
  lift (
      fail_if (PhysicalType.eq column.physical_type OcbPhysicalTypeV1.fixed_binary)
        (ocb_corrupt_file "OCB fixed-binary column cannot be an ordering key"))
  lift (
      fail_if (contains seen_key_columns key.column_id)
        (ocb_corrupt_file "OCB ordering proof has duplicate key columns"))
  validate_keys columns_by_id keys (key.column_id ∷ seen_key_columns)

module _ (p : Platform) (file : List ℕ) (file_len : ℕ) (columns_by_id : Map OcbColumnDescV1)
    (row_group_positions_by_id : Map ℕ) where
  -- The loop over the proofs; it returns `seen_proof_row_groups`.
  unfoldable pub validate_proofs : List OcbRowGroupOrderingProofV1 → List ℕ → Scoped (List ℕ)
  unfolding ◌>>◌ lift contains_key contains validate_key_tuple
  validate_proofs [] seen_proof_row_groups = lift (ok seen_proof_row_groups)
  validate_proofs (proof ∷ proofs) seen_proof_row_groups = do
    lift (
        fail_if (not (contains_key row_group_positions_by_id proof.row_group_id))
          (ocb_corrupt_file "OCB ordering proof references unknown row group"))
    lift (
        fail_if (contains seen_proof_row_groups proof.row_group_id)
          (ocb_corrupt_file "OCB ordering proof has duplicate row-group proofs"))
    validate_key_tuple p file file_len proof.first_tuple_ref
    validate_key_tuple p file file_len proof.last_tuple_ref
    validate_proofs proofs (proof.row_group_id ∷ seen_proof_row_groups)

  unfoldable pub validate_proof : ℕ → Option OcbOrderingProofV1 → Scoped (Unit {0})
  unfolding ◌>>=◌ ◌>>◌ lift reserve_entries validate_keys validate_proofs set_eq key_list
  validate_proof row_group_count none = lift (ok tt)
  validate_proof row_group_count (some ordering_proof) = do
    lift (
        fail_if (not (length ordering_proof.row_group_proofs == row_group_count))
          (ocb_corrupt_file "OCB ordering proof row-group count does not match row-group index"))
    lift (reserve_entries p (length ordering_proof.keys))
    validate_keys columns_by_id ordering_proof.keys []
    lift (reserve_entries p (length ordering_proof.row_group_proofs))
    seen_proof_row_groups ← validate_proofs ordering_proof.row_group_proofs []
    lift (reserve_entries p (length row_group_positions_by_id))
    lift (
        fail_if (not (set_eq seen_proof_row_groups (key_list row_group_positions_by_id)))
          (ocb_corrupt_file "OCB ordering proof row groups do not cover row-group index"))

  unfoldable pub validate_ordering_graph : OcbMetadataV1 → Scoped (Unit {0})
  unfolding validate_proof
  validate_ordering_graph metadata =
      validate_proof (length metadata.row_group_index.row_groups) metadata.ordering_proof
