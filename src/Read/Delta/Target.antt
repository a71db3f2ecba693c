-- ===== src/Read/Delta/Target.antt =====
-- The tables that a delta was made for, and the ordering proof that it extends.
use arcadia_tio_rs.Base.{
  ◌≡◌, ◌∙◌, refl, ap₂, List, [], ◌∷◌, length, true, not, ◌==◌, ◌&&◌, Option, some, none, if-cases,
  or-eq_false, ne_false, not-false, inl, inr, and-eq_true, ==→eq,
}
use arcadia_tio_rs.Error.{ok, fail_if-eq-ok, >>=-eq-ok, ok-injective}
use arcadia_tio_rs.Kinds.OrderingDirection
use arcadia_tio_rs.Kinds.NullOrder
use arcadia_tio_rs.Records.OrderingKey.{OcbOrderingKeyV1}
use arcadia_tio_rs.RowGroupIndex.{OcbRowGroupIndexV1}
use arcadia_tio_rs.RowGroupIndexDelta.{OcbRowGroupIndexDeltaV1}
use arcadia_tio_rs.OrderingProof.{OcbOrderingProofV1}
use arcadia_tio_rs.Read.Delta.{
  check_base, target_ordering_proof, keys_eq, key_eq, is_empty, check_no_ordering, matching_proof,
  required_proof,
}

pub key_eq→path : (x y : OcbOrderingKeyV1) → key_eq x y ≡ true → x ≡ y
unfolding key_eq
key_eq→path x y h =
    let (h1, reserved) =
      and-eq_true
        (x.column_id == y.column_id
          && OrderingDirection.eq x.direction y.direction
          && NullOrder.eq x.null_order y.null_order)
        _ h in
    let (h2, orders) =
      and-eq_true (x.column_id == y.column_id && OrderingDirection.eq x.direction y.direction) _
        h1 in
    let (ids, directions) = and-eq_true (x.column_id == y.column_id) _ h2 in
    cc (
      ==→eq _ _ ids,
      OrderingDirection.eq→path _ _ directions,
      NullOrder.eq→path _ _ orders,
      ==→eq _ _ reserved,
    )

pub keys_eq→path : (xs ys : List OcbOrderingKeyV1) → keys_eq xs ys ≡ true → xs ≡ ys
unfolding keys_eq key_eq
keys_eq→path [] [] h = refl
keys_eq→path [] (y ∷ ys) h = cc
keys_eq→path (x ∷ xs) [] h = cc
keys_eq→path (x ∷ xs) (y ∷ ys) h =
    let (same, rest) = and-eq_true (key_eq x y) _ h in
    ap₂ (λ key keys. key ∷ keys) (key_eq→path x y same) (keys_eq→path xs ys rest)

-- What the base has to be.
pub record IsBase (index : OcbRowGroupIndexV1) (delta : OcbRowGroupIndexDeltaV1) : Type 0 where
  pub row_groups : length index.row_groups ≡ delta.base_row_group_count
  pub column_chunks : length index.column_chunks ≡ delta.base_column_chunk_count
  pub stats : length index.stats ≡ delta.base_stat_count
  pub flags : delta.flags ≡ index.flags

pub check_base-IsBase :
    (index : OcbRowGroupIndexV1) (delta : OcbRowGroupIndexDeltaV1)
    → check_base index delta ≡ ok tt
    → IsBase index delta
unfolding check_base
check_base-IsBase index delta h =
    let (counts, h1) = fail_if-eq-ok _ _ _ h in
    let (flags, _) = fail_if-eq-ok _ _ _ h1 in
    let (first, last) = or-eq_false _ _ counts in
    let (row_groups, column_chunks) = or-eq_false _ _ first in
    record {
      row_groups = ne_false _ _ row_groups;
      column_chunks = ne_false _ _ column_chunks;
      stats = ne_false _ _ last;
      flags = ne_false _ _ flags;
    }

-- Which ordering proof a delta extends: none, or the one of the base, with the same keys and a proof
-- for each row group of the base.
unfoldable pub IsTarget :
    Option OcbOrderingProofV1 → OcbRowGroupIndexDeltaV1 → Option OcbOrderingProofV1 → Type 0
IsTarget found delta none = (delta.row_group_ordering_proofs ≡ []) × (delta.ordering_keys ≡ [])
IsTarget found delta (some proof) =
    (found ≡ some proof)
    × (proof.keys ≡ delta.ordering_keys)
    × (length proof.row_group_proofs ≡ delta.base_row_group_count)
    × (length delta.row_group_ordering_proofs ≡ length delta.row_groups)

pub is_empty-nil : {A : Type 0} (xs : List A) → is_empty xs ≡ true → xs ≡ []
unfolding is_empty
is_empty-nil [] h = refl
is_empty-nil (x ∷ xs) h = cc

pub no_ordering-IsTarget :
    (found : Option OcbOrderingProofV1) (delta : OcbRowGroupIndexDeltaV1)
    {target : Option OcbOrderingProofV1}
    → is_empty delta.row_group_ordering_proofs ≡ true
    → check_no_ordering delta ≡ ok target
    → IsTarget found delta target
unfolding check_no_ordering IsTarget
no_ordering-IsTarget found delta {target = target} empty h =
    let (bad, h1) = fail_if-eq-ok _ _ _ h in
    let (_, keys) = or-eq_false (not (delta.base_ordering_proof_count == 0)) _ bad in
    let facts : IsTarget found delta none =
      (is_empty-nil _ empty, is_empty-nil _ (not-false _ keys)) in
    rw (← ok-injective h1) facts

pub required_proof-eq :
    (found : Option OcbOrderingProofV1) {proof : OcbOrderingProofV1}
    → required_proof found ≡ ok proof
    → found ≡ some proof
unfolding required_proof
required_proof-eq none h = cc
required_proof-eq (some proof) h = cc

pub matching-IsTarget :
    (found : Option OcbOrderingProofV1) (delta : OcbRowGroupIndexDeltaV1)
    {target : Option OcbOrderingProofV1}
    → matching_proof found delta ≡ ok target
    → IsTarget found delta target
unfolding matching_proof IsTarget
matching-IsTarget found delta {target = target} h =
    let (bad, h1) = fail_if-eq-ok _ _ _ h in
    let (bases, added) =
      or-eq_false (not (delta.base_ordering_proof_count == delta.base_row_group_count)) _ bad in
    let (proof, present, h2) = >>=-eq-ok (required_proof found) _ h1 in
    let (size, h3) = fail_if-eq-ok _ _ _ h2 in
    let (keys, h4) = fail_if-eq-ok _ _ _ h3 in
    let facts : IsTarget found delta (some proof) = (
      required_proof-eq found present,
      keys_eq→path _ _ (not-false _ keys),
      ne_false _ _ size ∙ ne_false _ _ bases,
      ne_false _ _ added,
    ) in
    rw (← ok-injective h4) facts

pub target_ordering_proof-IsTarget :
    (found : Option OcbOrderingProofV1) (delta : OcbRowGroupIndexDeltaV1)
    {target : Option OcbOrderingProofV1}
    → target_ordering_proof found delta ≡ ok target
    → IsTarget found delta target
unfolding target_ordering_proof
target_ordering_proof-IsTarget found delta h =
    elim (if-cases (is_empty delta.row_group_ordering_proofs) (check_no_ordering delta) _ h) [
      | inl (empty, taken) ↦ no_ordering-IsTarget found delta empty taken
      | inr (_, taken) ↦ matching-IsTarget found delta taken
    ]
