-- ===== src/Read/Select/Fuel.antt =====
-- The loop of `choose_v2_metadata` ends: a turn for each candidate is enough.
use arcadia_tio_rs.Base.{
  ℕ, zero, suc, ◌≤◌, ◌≡◌, refl, sym, ◌∙◌, arith, List, [], ◌∷◌, length, Option, some, none,
  Bool-cases, inl, inr,
}
use arcadia_tio_rs.Error.{Result, ok, err}
use arcadia_tio_rs.RootV2.{OcbRootV2}
use arcadia_tio_rs.Read.Metadata.{OcbMetadataV1}
use arcadia_tio_rs.Read.Select.{
  OcbRootCandidateV2, max_generation, find_generation, retain_other, conflicting, accept_or_discard,
  is_discardable_candidate_error, choose_from, choose_v2_metadata, Outcome, returned,
}
use arcadia_tio_rs.Read.Select.Laws.{Settles, choose_from-Settles}
use arcadia_tio_rs.Read.Select.Candidates.{newest_found, find_generation-Memᴰ, retain_other-lt}
use arcadia_tio_rs.Read.Select.Turns.{
  turn_conflict, turn_validate, turn_empty, accept-next, accept-err,
}

module _ {Cache : Type 0} (validate : OcbRootV2 → Cache → Result OcbMetadataV1 × Cache) where
  -- The outcome depends on the rest of the loop alone.
  accept-same :
      (validated : Result OcbMetadataV1 × Cache) (next other : Cache → Outcome)
      → ((touched : Cache) → next touched ≡ other touched)
      → accept_or_discard validated next ≡ accept_or_discard validated other
  unfolding accept_or_discard
  accept-same (ok metadata, touched) next other same = refl
  accept-same (err e, touched) next other same =
      elim (Bool-cases (is_discardable_candidate_error e)) [
        | inl discarded ↦
            accept-next validate e touched next discarded
            ∙ (same touched ∙ sym (accept-next validate e touched other discarded))
        | inr kept ↦
            accept-err validate e touched next kept ∙ sym (accept-err validate e touched other kept)
      ]

  module _ (n m : ℕ)
      (rest : (candidates : List OcbRootCandidateV2) (cache : Cache)
        → length candidates ≤ n
        → length candidates ≤ m
        → choose_from validate n candidates cache ≡ choose_from validate m candidates cache)
      (candidates : List OcbRootCandidateV2) (cache : Cache) (hn : length candidates ≤ suc n)
      (hm : length candidates ≤ suc m) where
    turn_same_found :
        (g : ℕ) (first : OcbRootCandidateV2)
        → max_generation candidates ≡ some g
        → find_generation g candidates ≡ some first
        → choose_from validate (suc n) candidates cache
          ≡ choose_from validate (suc m) candidates cache
    turn_same_found g first newest found =
        let (member, generation) = find_generation-Memᴰ g candidates found in
        let shorter = retain_other-lt g candidates first member generation in
        let others : (touched : Cache)
            → choose_from validate n (retain_other g candidates) touched
              ≡ choose_from validate m (retain_other g candidates) touched =
          λ touched.
            rest (retain_other g candidates) touched (omega (arith, hn, shorter))
              (omega (arith, hm, shorter)) in
        elim (Bool-cases (conflicting g first.slot.root_ref candidates)) [
          | inl conflict ↦
              turn_conflict validate n g candidates first cache newest found conflict
              ∙ (others cache
                  ∙ sym (turn_conflict validate m g candidates first cache newest found conflict))
          | inr agreed ↦
              turn_validate validate n g candidates first cache newest found agreed
              ∙ (accept-same (validate first.root cache) _ _ others
                  ∙ sym (turn_validate validate m g candidates first cache newest found agreed))
        ]

    turn_same :
        (newest : Option ℕ)
        → max_generation candidates ≡ newest
        → choose_from validate (suc n) candidates cache
          ≡ choose_from validate (suc m) candidates cache
    turn_same none empty =
        turn_empty validate n candidates cache empty
        ∙ sym (turn_empty validate m candidates cache empty)
    turn_same (some g) newest =
        let (first, found) = newest_found candidates g newest in
        turn_same_found g first newest found

  choose_from-any :
      (n m : ℕ) (candidates : List OcbRootCandidateV2) (cache : Cache)
      → length candidates ≤ n
      → length candidates ≤ m
      → choose_from validate n candidates cache ≡ choose_from validate m candidates cache
  unfolding choose_from max_generation
  choose_from-any zero zero candidates cache hn hm = refl
  choose_from-any zero (suc m) [] cache hn hm = refl
  choose_from-any (suc n) zero [] cache hn hm = refl
  choose_from-any zero (suc m) (c ∷ candidates) cache hn hm = absurd (omega (arith, hn))
  choose_from-any (suc n) zero (c ∷ candidates) cache hn hm = absurd (omega (arith, hm))
  choose_from-any (suc n) (suc m) candidates cache hn hm =
      turn_same n m (choose_from-any n m) candidates cache hn hm (max_generation candidates) refl

  returned-some :
      (candidates : List OcbRootCandidateV2) (outcome : Outcome)
      → Settles validate candidates outcome
      → outcome ≡ some (returned outcome)
  unfolding returned Settles
  returned-some candidates none i = absurd i
  returned-some candidates (some outcome) i = refl

  -- The loop of `choose_v2_metadata` ends within as many turns as there are candidates: with any
  -- number of turns that is at least theirs, `choose_from` does not use them up, and its outcome
  -- is what `choose_v2_metadata` returns.
  pub choose_v2_metadata-fuel :
      (fuel : ℕ) (candidates : List OcbRootCandidateV2) (cache : Cache)
      → length candidates ≤ fuel
      → choose_from validate fuel candidates cache
        ≡ some (choose_v2_metadata validate candidates cache)
  unfolding choose_v2_metadata
  choose_v2_metadata-fuel fuel candidates cache enough =
      choose_from-any fuel (length candidates) candidates cache enough (omega arith)
      ∙ returned-some candidates _
          (choose_from-Settles validate (length candidates) candidates cache (omega arith))
