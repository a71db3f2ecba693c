-- ===== src/Read/Select.antt =====
-- The choice among the root slots of a version 2 file, `select_v2_metadata` and `choose_v2_metadata` of
-- crates/arcadia-tio-ocb-core/src/read.rs.
pub mod Candidates
pub mod Turns
pub mod Laws
pub mod Fuel
use arcadia_tio_rs.Base.{
  ℕ, zero, suc, List, [], ◌∷◌, length, Bool, true, false, not, ◌==◌, ◌||◌, ◌&&◌, max, Option, some,
  none, if◌then◌else◌,
}
use arcadia_tio_rs.Error.{
  ArcadiaTioError, Result, ok, err, ocb_corrupt_file, ocb_failure_cause, OcbFailureCause,
}
use arcadia_tio_rs.BodyRef
use arcadia_tio_rs.BodyRef.{OcbBodyRefV2}
use arcadia_tio_rs.RootSlot.{OcbRootSlotV2}
use arcadia_tio_rs.RootV2.{OcbRootV2}
use arcadia_tio_rs.Read.Metadata.{OcbMetadataV1}

pub record OcbRootCandidateV2 : Type 0 where
  pub slot : OcbRootSlotV2
  pub root : OcbRootV2

abbrev pub is_corrupt_file : Option OcbFailureCause → Bool
is_corrupt_file (some OcbFailureCause.corrupt_file) = true
is_corrupt_file _ = false

unfoldable pub is_discardable_candidate_error : ArcadiaTioError → Bool
unfolding ocb_failure_cause
is_discardable_candidate_error error = is_corrupt_file (ocb_failure_cause error)

-- `candidates.iter().map(generation).max()`.
unfoldable pub max_generation : List OcbRootCandidateV2 → Option ℕ
max_generation [] = none
max_generation (c ∷ candidates) = elim (max_generation candidates) [
  | none ↦ some c.slot.generation
  | some g ↦ some (max c.slot.generation g)
]

-- `candidates.iter().find(..)`, and the candidate that `position` and `remove` take out.
unfoldable pub find_generation : ℕ → List OcbRootCandidateV2 → Option OcbRootCandidateV2
find_generation generation [] = none
find_generation generation (c ∷ candidates) =
    if c.slot.generation == generation then some c else find_generation generation candidates

-- What `remove` leaves.
unfoldable pub remove_first : ℕ → List OcbRootCandidateV2 → List OcbRootCandidateV2
remove_first generation [] = []
remove_first generation (c ∷ candidates) =
    if c.slot.generation == generation then candidates else c ∷ remove_first generation candidates

-- `candidates.retain(|c| c.slot.generation != generation)`.
unfoldable pub retain_other : ℕ → List OcbRootCandidateV2 → List OcbRootCandidateV2
retain_other generation [] = []
retain_other generation (c ∷ candidates) =
    if c.slot.generation == generation
    then retain_other generation candidates
    else c ∷ retain_other generation candidates

-- `conflicting_same_generation`.
unfoldable pub conflicting : ℕ → OcbBodyRefV2 → List OcbRootCandidateV2 → Bool
unfolding BodyRef.eq
conflicting generation first_ref [] = false
conflicting generation first_ref (c ∷ candidates) =
    (c.slot.generation == generation && not (BodyRef.eq c.slot.root_ref first_ref))
    || conflicting generation first_ref candidates

abbrev pub no_valid_root : ArcadiaTioError
no_valid_root = ocb_corrupt_file "OCB root selection found no valid root slot"

-- What the loop returns, or `none` where the turns that it was given have run out before it ended.
abbrev pub Outcome : Type 0
Outcome = Option (Result OcbMetadataV1)

-- The `match` on the outcome of the validation.
unfoldable pub accept_or_discard :
    {Cache : Type 0} → (Result OcbMetadataV1 × Cache) → (Cache → Outcome) → Outcome
unfolding is_discardable_candidate_error
accept_or_discard (ok metadata, cache) next = some (ok metadata)
accept_or_discard (err e, cache) next = elim (is_discardable_candidate_error e) [
  | true ↦ next cache
  | false ↦ some (err e)
]

-- What `choose_v2_metadata` makes of the outcome of its loop, which is never `none`
-- (`Read.Select.Fuel`).
unfoldable pub returned : Outcome → Result OcbMetadataV1
returned (some result) = result
returned none = err no_valid_root

-- `validate` stands for `validate_v2_root_referenced_objects_with_scope`, which changes the cache
-- of auxiliary objects also where it fails.
module _ {Cache : Type 0} (validate : OcbRootV2 → Cache → Result OcbMetadataV1 × Cache) where
  -- The `while let` loop, for so many turns; it ends where no candidate is left. The `none` of
  -- `find_generation` is the `expect` of the source.
  unfoldable pub choose_from : ℕ → List OcbRootCandidateV2 → Cache → Outcome
  unfolding max_generation find_generation conflicting retain_other remove_first accept_or_discard
  choose_from zero [] cache = some (err no_valid_root)
  choose_from zero (_ ∷ _) cache = none
  choose_from (suc fuel) candidates cache = elim (max_generation candidates) [
    | none ↦ some (err no_valid_root)
    | some generation ↦ elim (find_generation generation candidates) [
      | none ↦ some (err no_valid_root)
      | some first ↦ elim (conflicting generation first.slot.root_ref candidates) [
        | true ↦ choose_from fuel (retain_other generation candidates) cache
        | false ↦ accept_or_discard (validate first.root cache) (λ touched.
            choose_from fuel (retain_other generation (remove_first generation candidates)) touched)
      ]
    ]
  ]

  -- A turn for each candidate.
  unfoldable pub choose_v2_metadata : List OcbRootCandidateV2 → Cache → Result OcbMetadataV1
  unfolding choose_from returned
  choose_v2_metadata candidates cache = returned (choose_from (length candidates) candidates cache)
