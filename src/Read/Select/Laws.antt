-- ===== src/Read/Select/Laws.antt =====
-- The choice among the candidates, described without the loop, and how long the loop runs.
use arcadia_tio_rs.Base.{
  ℕ, zero, suc, ◌≤◌, ◌<◌, ◌≡◌, ◌⊎◌, inl, inr, refl, sym, ◌∙◌, ap, arith, List, [], ◌∷◌, length,
  true, false, Option, some, none, Bool-cases, eq→==,
}
use mathlib.Core.List.Memᴰ
use mathlib.Core.List.{Memᴰ}
use arcadia_tio_rs.Error.{ArcadiaTioError, Result, ok, err}
use arcadia_tio_rs.BodyRef
use arcadia_tio_rs.RootV2.{OcbRootV2}
use arcadia_tio_rs.Read.Metadata.{OcbMetadataV1}
use arcadia_tio_rs.Read.Select.{
  OcbRootCandidateV2, max_generation, find_generation, retain_other, conflicting,
  is_discardable_candidate_error, no_valid_root, accept_or_discard, choose_from, choose_v2_metadata,
  Outcome, returned,
}
use arcadia_tio_rs.Read.Select.Candidates.{
  IsNewest, max_generation-IsNewest, newest_found, find_generation-Memᴰ, retain_other-Memᴰ,
  Memᴰ-retain_other, retain_other-lt, Conflicted, conflicting-Memᴰ, conflicting_none,
}
use arcadia_tio_rs.Read.Select.Turns.{
  turn_conflict, turn_validate, turn_empty, accept-ok, accept-next, accept-err,
}

module _ {Cache : Type 0} (validate : OcbRootV2 → Cache → Result OcbMetadataV1 × Cache) where
  abbrev outcome_of : OcbRootCandidateV2 → Cache → Result OcbMetadataV1
  outcome_of c cache = (validate c.root cache).0

  -- Why a generation was passed over: its candidates disagree, or it was found corrupt.
  unfoldable pub Refused : List OcbRootCandidateV2 → ℕ → Type 0
  Refused candidates g =
      (c : OcbRootCandidateV2) × (cache : Cache) × (e : ArcadiaTioError) × Memᴰ c candidates
      × (c.slot.generation ≡ g)
      × (outcome_of c cache ≡ err e)
      × (is_discardable_candidate_error e ≡ true)

  abbrev pub Discarded : List OcbRootCandidateV2 → ℕ → Type 0
  Discarded candidates g = Conflicted candidates g ⊎ Refused candidates g

  -- The candidate that decides: what its validation gave is the outcome, no other of its generation
  -- disagrees with it, and every newer one was passed over.
  pub record IsDecided (candidates : List OcbRootCandidateV2) (outcome : Result OcbMetadataV1)
      : Type 0 where
    pub chosen : OcbRootCandidateV2
    pub cache : Cache
    pub member : Memᴰ chosen candidates
    pub validated : outcome_of chosen cache ≡ outcome
    pub agreed :
        (d : OcbRootCandidateV2)
        → Memᴰ d candidates
        → d.slot.generation ≡ chosen.slot.generation
        → BodyRef.eq d.slot.root_ref chosen.slot.root_ref ≡ true
    pub newer_discarded :
        (d : OcbRootCandidateV2)
        → Memᴰ d candidates
        → chosen.slot.generation < d.slot.generation
        → Discarded candidates d.slot.generation

  unfoldable pub AllDiscarded : List OcbRootCandidateV2 → Type 0
  AllDiscarded candidates =
      (d : OcbRootCandidateV2) → Memᴰ d candidates → Discarded candidates d.slot.generation

  -- The specification of the choice.
  unfoldable pub Selects : List OcbRootCandidateV2 → Result OcbMetadataV1 → Type 0
  Selects candidates (ok metadata) = IsDecided candidates (ok metadata)
  Selects candidates (err e) =
      (IsDecided candidates (err e) × (is_discardable_candidate_error e ≡ false))
      ⊎ ((e ≡ no_valid_root) × AllDiscarded candidates)

  -- What holds of the candidates of other generations holds of all, where this one is discarded.
  module _ (g : ℕ) (candidates : List OcbRootCandidateV2) where
    Discarded-lift : (h : ℕ) → Discarded (retain_other g candidates) h → Discarded candidates h
    unfolding Conflicted Refused
    Discarded-lift h (inl (a, b, member_a, member_b, at_a, at_b, differ)) =
        let (in_a, _) = retain_other-Memᴰ g candidates a member_a in
        let (in_b, _) = retain_other-Memᴰ g candidates b member_b in
        inl (a, b, in_a, in_b, at_a, at_b, differ)
    Discarded-lift h (inr (c, cache, e, member, at_c, validated, discarded)) =
        let (inside, _) = retain_other-Memᴰ g candidates c member in
        inr (c, cache, e, inside, at_c, validated, discarded)

    IsDecided-lift :
        Discarded candidates g
        → (outcome : Result OcbMetadataV1) → IsDecided (retain_other g candidates) outcome
        → IsDecided candidates outcome
    IsDecided-lift gone outcome i =
        let (inside, other) = retain_other-Memᴰ g candidates i.chosen i.member in
        record {
          chosen = i.chosen;
          cache = i.cache;
          member = inside;
          validated = i.validated;
          agreed = λ d m same. elim (Memᴰ-retain_other g candidates d m) [
            | inl equal ↦ absurd (cc (other, eq→== i.chosen.slot.generation g (sym same ∙ equal)))
            | inr kept ↦ i.agreed d kept same
          ];
          newer_discarded = λ d m newer. elim (Memᴰ-retain_other g candidates d m) [
            | inl equal ↦ rw equal gone
            | inr kept ↦ Discarded-lift _ (i.newer_discarded d kept newer)
          ];
        }

    Selects-lift :
        Discarded candidates g
        → (outcome : Result OcbMetadataV1) → Selects (retain_other g candidates) outcome
        → Selects candidates outcome
    unfolding Selects AllDiscarded
    Selects-lift gone (ok metadata) i = IsDecided-lift gone (ok metadata) i
    Selects-lift gone (err e) (inl (i, kept)) = inl (IsDecided-lift gone (err e) i, kept)
    Selects-lift gone (err e) (inr (same, all)) = inr (
      same,
      λ d m. elim (Memᴰ-retain_other g candidates d m) [
        | inl equal ↦ rw equal gone
        | inr kept ↦ Discarded-lift _ (all d kept)
      ],
    )

  -- The loop ended, as the specification has it.
  unfoldable pub Settles : List OcbRootCandidateV2 → Outcome → Type 0
  Settles candidates none = ⊥
  Settles candidates (some outcome) = Selects candidates outcome

  Settles-lift :
      (g : ℕ) (candidates : List OcbRootCandidateV2)
      → Discarded candidates g
      → (outcome : Outcome) → Settles (retain_other g candidates) outcome
      → Settles candidates outcome
  unfolding Settles
  Settles-lift g candidates gone none i = i
  Settles-lift g candidates gone (some outcome) i = Selects-lift g candidates gone outcome i

  -- The decision where the newest generation agrees, and what a discarded candidate leaves to the rest.
  module _ (g : ℕ) (candidates : List OcbRootCandidateV2) (first : OcbRootCandidateV2)
      (cache : Cache) (newest : max_generation candidates ≡ some g)
      (found : find_generation g candidates ≡ some first)
      (agreed : conflicting g first.slot.root_ref candidates ≡ false) where
    decided :
        (outcome : Result OcbMetadataV1)
        → outcome_of first cache ≡ outcome
        → IsDecided candidates outcome
    unfolding IsNewest
    decided outcome validated =
        let (member, generation) = find_generation-Memᴰ g candidates found in
        let bound : IsNewest candidates (some g) =
          rw newest at (max_generation-IsNewest candidates) in
        record {
          chosen = first;
          cache = cache;
          member = member;
          validated = validated;
          agreed = λ d m same. conflicting_none g _ candidates agreed d m (same ∙ generation);
          newer_discarded = λ d m newer. absurd (omega (arith, bound d m, generation));
        }

    accept-Settles :
        (validated : Result OcbMetadataV1 × Cache) (next : Cache → Outcome)
        → validate first.root cache ≡ validated
        → ((touched : Cache) → Settles (retain_other g candidates) (next touched))
        → Settles candidates (accept_or_discard validated next)
    unfolding Settles Selects Refused
    accept-Settles (ok metadata, touched) next e rest =
        rw (accept-ok validate metadata touched next) (decided (ok metadata) (ap (λ r. r.0) e))
    accept-Settles (err failure, touched) next e rest =
        elim (Bool-cases (is_discardable_candidate_error failure)) [
          | inl discarded ↦
              let (member, generation) = find_generation-Memᴰ g candidates found in
              rw (accept-next validate failure touched next discarded) (
                Settles-lift g candidates
                  (inr (first, cache, failure, member, generation, ap (λ r. r.0) e, discarded)) _
                  (rest touched))
          | inr kept ↦
              rw (accept-err validate failure touched next kept)
                (inl (decided (err failure) (ap (λ r. r.0) e), kept))
        ]

  -- A conflict in the newest generation.
  conflict-Discarded :
      (g : ℕ) (candidates : List OcbRootCandidateV2) (first : OcbRootCandidateV2)
      → find_generation g candidates ≡ some first
      → conflicting g first.slot.root_ref candidates ≡ true
      → Discarded candidates g
  unfolding Conflicted
  conflict-Discarded g candidates first found conflict =
      let (member, generation) = find_generation-Memᴰ g candidates found in
      let (a, in_a, at_a, differs) = conflicting-Memᴰ g _ candidates conflict in
      inl (a, first, in_a, member, at_a, generation, differs)

  empty-AllDiscarded :
      (candidates : List OcbRootCandidateV2)
      → max_generation candidates ≡ none
      → AllDiscarded candidates
  unfolding IsNewest AllDiscarded
  empty-AllDiscarded candidates empty =
      let nothing : IsNewest candidates none = rw empty at (max_generation-IsNewest candidates) in
      λ d m. absurd (Memᴰ.not-nil (rw nothing at m))

  module _ (fuel : ℕ)
      (rest : (candidates : List OcbRootCandidateV2) (cache : Cache)
        → length candidates ≤ fuel
        → Settles candidates (choose_from validate fuel candidates cache))
      (candidates : List OcbRootCandidateV2) (cache : Cache)
      (enough : length candidates ≤ suc fuel) where
    turn_found :
        (g : ℕ) (first : OcbRootCandidateV2)
        → max_generation candidates ≡ some g
        → find_generation g candidates ≡ some first
        → Settles candidates (choose_from validate (suc fuel) candidates cache)
    turn_found g first newest found =
        let (member, generation) = find_generation-Memᴰ g candidates found in
        let shorter : length (retain_other g candidates) ≤ fuel =
          omega (arith, enough, retain_other-lt g candidates first member generation) in
        elim (Bool-cases (conflicting g first.slot.root_ref candidates)) [
          | inl conflict ↦
              rw (turn_conflict validate fuel g candidates first cache newest found conflict) (
                Settles-lift g candidates (conflict-Discarded g candidates first found conflict) _
                  (rest (retain_other g candidates) cache shorter))
          | inr agreed ↦
              rw (turn_validate validate fuel g candidates first cache newest found agreed) (
                accept-Settles g candidates first cache newest found agreed
                  (validate first.root cache) _ refl
                  (λ touched. rest (retain_other g candidates) touched shorter))
        ]

    turn :
        (newest : Option ℕ)
        → max_generation candidates ≡ newest
        → Settles candidates (choose_from validate (suc fuel) candidates cache)
    unfolding Settles Selects
    turn none empty =
        rw (turn_empty validate fuel candidates cache empty)
          (inr (refl, empty-AllDiscarded candidates empty))
    turn (some g) newest =
        let (first, found) = newest_found candidates g newest in turn_found g first newest found

  pub choose_from-Settles :
      (fuel : ℕ) (candidates : List OcbRootCandidateV2) (cache : Cache)
      → length candidates ≤ fuel
      → Settles candidates (choose_from validate fuel candidates cache)
  unfolding Settles Selects AllDiscarded choose_from
  choose_from-Settles zero [] cache enough = inr (refl, λ d m. absurd (Memᴰ.not-nil m))
  choose_from-Settles zero (c ∷ candidates) cache enough = absurd (omega (arith, enough))
  choose_from-Settles (suc fuel) candidates cache enough =
      turn fuel (choose_from-Settles fuel) candidates cache enough (max_generation candidates) refl

  returned-Selects :
      (candidates : List OcbRootCandidateV2) (outcome : Outcome)
      → Settles candidates outcome
      → Selects candidates (returned outcome)
  unfolding returned Settles
  returned-Selects candidates none i = absurd i
  returned-Selects candidates (some outcome) i = i

  -- `choose_v2_metadata`, whatever validates a root, implements the choice of the newest good
  -- snapshot. If it returns metadata, these are what the validation of a candidate gave, with
  -- which no candidate of its generation disagrees in the root reference, and every newer
  -- generation was passed over, because two of its candidates disagree or because one failed with
  -- an error that says that the file is corrupt. If it returns an error, then either that
  -- candidate gave it and it does not say that the file is corrupt, or it says that there is no
  -- valid root and every generation was passed over for those reasons.
  pub choose_v2_metadata-Selects :
      (candidates : List OcbRootCandidateV2) (cache : Cache)
      → Selects candidates (choose_v2_metadata validate candidates cache)
  unfolding choose_v2_metadata
  choose_v2_metadata-Selects candidates cache =
      returned-Selects candidates _
        (choose_from-Settles (length candidates) candidates cache (omega arith))
