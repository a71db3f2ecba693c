-- ===== src/Read/Select/Turns.antt =====
-- The turns of the loop of `choose_v2_metadata`, each by the case that it takes.
use arcadia_tio_rs.Base.{ℕ, suc, ◌≡◌, refl, List, true, false, some, none}
use arcadia_tio_rs.Error.{ArcadiaTioError, Result, ok, err}
use arcadia_tio_rs.RootV2.{OcbRootV2}
use arcadia_tio_rs.Read.Metadata.{OcbMetadataV1}
use arcadia_tio_rs.Read.Select.{
  OcbRootCandidateV2, max_generation, find_generation, retain_other, conflicting,
  is_discardable_candidate_error, no_valid_root, accept_or_discard, choose_from, Outcome,
}
use arcadia_tio_rs.Read.Select.Candidates.{retain_other-remove_first}

module _ {Cache : Type 0} (validate : OcbRootV2 → Cache → Result OcbMetadataV1 × Cache) where
  -- The turns of the loop.
  module _ (fuel g : ℕ) (candidates : List OcbRootCandidateV2) (first : OcbRootCandidateV2)
      (cache : Cache) (newest : max_generation candidates ≡ some g)
      (found : find_generation g candidates ≡ some first) where
    pub turn_conflict :
        conflicting g first.slot.root_ref candidates ≡ true
        → choose_from validate (suc fuel) candidates cache
          ≡ choose_from validate fuel (retain_other g candidates) cache
    unfolding choose_from
    turn_conflict conflict = simp (choose_from, newest, found, conflict)

    pub turn_validate :
        conflicting g first.slot.root_ref candidates ≡ false
        → choose_from validate (suc fuel) candidates cache
          ≡ accept_or_discard
              (validate first.root cache)
              (λ touched. choose_from validate fuel (retain_other g candidates) touched)
    unfolding choose_from
    turn_validate agreed =
        simp (choose_from, newest, found, agreed, retain_other-remove_first g candidates)

  pub turn_empty :
      (fuel : ℕ) (candidates : List OcbRootCandidateV2) (cache : Cache)
      → max_generation candidates ≡ none
      → choose_from validate (suc fuel) candidates cache ≡ some (err no_valid_root)
  unfolding choose_from
  turn_empty fuel candidates cache empty = simp (choose_from, empty)

  pub accept-ok :
      (metadata : OcbMetadataV1) (touched : Cache) (next : Cache → Outcome)
      → accept_or_discard (ok metadata, touched) next ≡ some (ok metadata)
  unfolding accept_or_discard
  accept-ok metadata touched next = refl

  pub accept-next :
      (failure : ArcadiaTioError) (touched : Cache) (next : Cache → Outcome)
      → is_discardable_candidate_error failure ≡ true
      → accept_or_discard (err failure, touched) next ≡ next touched
  unfolding accept_or_discard
  accept-next failure touched next h = simp (accept_or_discard, h)

  pub accept-err :
      (failure : ArcadiaTioError) (touched : Cache) (next : Cache → Outcome)
      → is_discardable_candidate_error failure ≡ false
      → accept_or_discard (err failure, touched) next ≡ some (err failure)
  unfolding accept_or_discard
  accept-err failure touched next h = simp (accept_or_discard, h)
