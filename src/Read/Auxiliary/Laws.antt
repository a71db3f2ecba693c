-- ===== src/Read/Auxiliary/Laws.antt =====
-- The accounts of the cache: each reference stands once, the bytes charged are those of the references,
-- and they stay within the limit.
use arcadia_tio_rs.Base.{
  ℕ, ◌+◌, ◌≤◌, ◌≡◌, refl, sym, ◌∙◌, ap, arith, List, [], ◌∷◌, sum, map, Option, some, none,
  Bool-cases, inl, inr,
}
use arcadia_tio_rs.Error.{Result, ok, err}
use arcadia_tio_rs.BodyRef.{OcbBodyRefV2, is_null}
use arcadia_tio_rs.Limits.{OcbResourceLimits, MetadataMaterializationBudget}
use arcadia_tio_rs.Table.{Platform}
use arcadia_tio_rs.Read.Auxiliary
use arcadia_tio_rs.Read.Auxiliary.{
  Scoped, continue, lift, OcbAuxiliaryObjectState, OcbDictionaryValuesSummary, Objects,
  OcbOpenAuxiliaryObjectCache, Visits, state_of, set_state, check_total, insert_pending,
  charge_unique, charge_all, preflight_with, validate_all, new_cache, preflight,
  visit_auxiliary_object_references,
}
use arcadia_tio_rs.RootV2.{OcbRootV2}
use arcadia_tio_rs.Read.Metadata.{OcbMetadataV1}
use arcadia_tio_rs.Read.Auxiliary.Bodies.{
  with_state, keep_summary, keep_key_tuple, dictionary_values_from, dictionary_values_summary,
  key_tuple_from, validate_key_tuple, read_dictionary_values,
}
use arcadia_tio_rs.Read.Auxiliary.Accounts.{
  Distinct, size_of, IsAccounted, new_cache-IsAccounted, absent-All, keys-set_state, check_total-le,
}

module _ (limits : OcbResourceLimits) where
  with_state-IsAccounted :
      (cache : OcbOpenAuxiliaryObjectCache) (reference : OcbBodyRefV2)
      (state : OcbAuxiliaryObjectState)
      → IsAccounted limits cache
      → IsAccounted limits (with_state cache reference state)
  unfolding with_state
  with_state-IsAccounted cache reference state i =
      let same = keys-set_state cache.objects reference state in
      record {
        same_limits = i.same_limits;
        once = rw same i.once;
        exact = i.exact ∙ ap (λ ks. sum (map size_of ks)) (sym same);
        bounded = i.bounded;
      }

  insert_pending-IsAccounted :
      (p : Platform) (cache : OcbOpenAuxiliaryObjectCache) (reference : OcbBodyRefV2)
      (checked : Result (Unit {0}))
      → check_total p cache (cache.total_unique_bytes + reference.size) ≡ checked
      → state_of cache.objects reference ≡ none
      → IsAccounted limits cache
      → IsAccounted limits ((insert_pending checked reference cache).1)
  unfolding insert_pending Distinct
  insert_pending-IsAccounted p cache reference (err e) h absent i = i
  insert_pending-IsAccounted p cache reference (ok checked) h absent i =
      let bound : cache.total_unique_bytes + reference.size
          ≤ cache.resource_limits.max_owned_selected_compressed_bytes =
        check_total-le p cache _ h in
      record {
        same_limits = i.same_limits;
        once = (absent-All cache.objects reference absent, i.once);
        exact = omega (arith, i.exact);
        bounded = omega (
          arith,
          bound,
          ap (λ (l : OcbResourceLimits). l.max_owned_selected_compressed_bytes) i.same_limits,
        );
      }

  charged_from :
      (p : Platform) (cache : OcbOpenAuxiliaryObjectCache) (reference : OcbBodyRefV2)
      (found : Option OcbAuxiliaryObjectState)
      → state_of cache.objects reference ≡ found
      → IsAccounted limits cache
      → IsAccounted limits ((charge_unique p reference cache).1)
  unfolding charge_unique
  charged_from p cache reference (some state) h i = rw (h, charge_unique) i
  charged_from p cache reference none h i =
      rw (h, charge_unique) (insert_pending-IsAccounted p cache reference _ refl h i)

  charge_unique-IsAccounted :
      (p : Platform) (cache : OcbOpenAuxiliaryObjectCache) (reference : OcbBodyRefV2)
      → IsAccounted limits cache
      → IsAccounted limits ((charge_unique p reference cache).1)
  charge_unique-IsAccounted p cache reference i =
      charged_from p cache reference (state_of cache.objects reference) refl i

  -- A step that keeps the accounts, whatever its outcome.
  unfoldable pub Keeps {ℓ} : {A : Type ℓ} → Scoped A → Type 0
  Keeps step =
      (cache : OcbOpenAuxiliaryObjectCache)
      → IsAccounted limits cache
      → IsAccounted limits ((step cache).1)

  continue-IsAccounted {ℓ κ} :
      {A : Type ℓ} {B : Type κ} (outcome : Result A × OcbOpenAuxiliaryObjectCache)
      (next : A → Scoped B)
      → ((a : A) → Keeps (next a))
      → IsAccounted limits (outcome.1)
      → IsAccounted limits ((continue outcome next).1)
  unfolding Keeps
  continue-IsAccounted (ok a, cache) next keeps i = keeps a cache i
  continue-IsAccounted (err e, cache) next keeps i = i

  charge_all-Keeps : (p : Platform) (visits : Visits) → Keeps (charge_all p visits)
  unfolding charge_all Keeps
  charge_all-Keeps p [] cache i = i
  charge_all-Keeps p ((reference, kind) ∷ visits) cache i =
      continue-IsAccounted (charge_unique p reference cache) _ (λ _. charge_all-Keeps p visits)
        (charge_unique-IsAccounted p cache reference i)

  pub preflight_with-Keeps :
      (p : Platform) (file_len : ℕ) (visits : Visits) → Keeps (preflight_with p file_len visits)
  unfolding preflight_with Keeps Auxiliary.◌>>◌ lift
  preflight_with-Keeps p file_len visits cache i =
      continue-IsAccounted (validate_all file_len visits, cache) _ (λ _. charge_all-Keeps p visits)
        i

  module _ (p : Platform) (file : List ℕ) (file_len : ℕ) (reference : OcbBodyRefV2) where
    keep_summary-IsAccounted :
        (outcome : Result (OcbDictionaryValuesSummary × MetadataMaterializationBudget))
        → Keeps (keep_summary p file file_len reference outcome)
    unfolding keep_summary Keeps
    keep_summary-IsAccounted (ok (summary, budget)) cache i =
        with_state-IsAccounted cache reference _ i
    keep_summary-IsAccounted (err e) cache i = i

    dictionary_from-Keeps :
        (found : Option OcbAuxiliaryObjectState) (budget : MetadataMaterializationBudget)
        → Keeps (dictionary_values_from p file file_len reference found budget)
    unfolding dictionary_values_from Keeps
    dictionary_from-Keeps (some (OcbAuxiliaryObjectState.dictionary_values summary)) budget cache
          i =
        i
    dictionary_from-Keeps (some OcbAuxiliaryObjectState.pending) budget cache i =
        keep_summary-IsAccounted (read_dictionary_values p file file_len reference cache budget)
          cache i
    dictionary_from-Keeps (some OcbAuxiliaryObjectState.key_tuple_validated) budget cache i = i
    dictionary_from-Keeps none budget cache i = i

    pub dictionary_values_summary-Keeps :
        (budget : MetadataMaterializationBudget)
        → Keeps (dictionary_values_summary p file file_len reference budget)
    unfolding dictionary_values_summary Keeps
    dictionary_values_summary-Keeps budget cache i =
        dictionary_from-Keeps (state_of cache.objects reference) budget cache i

    keep_key_tuple-IsAccounted :
        (outcome : Result (List ℕ)) → Keeps (keep_key_tuple p file file_len reference outcome)
    unfolding keep_key_tuple Keeps
    keep_key_tuple-IsAccounted (ok bytes) cache i = with_state-IsAccounted cache reference _ i
    keep_key_tuple-IsAccounted (err e) cache i = i

    key_tuple_from-Keeps :
        (found : Option OcbAuxiliaryObjectState)
        → Keeps (key_tuple_from p file file_len reference found)
    unfolding key_tuple_from Keeps
    key_tuple_from-Keeps (some OcbAuxiliaryObjectState.key_tuple_validated) cache i = i
    key_tuple_from-Keeps (some OcbAuxiliaryObjectState.pending) cache i =
        keep_key_tuple-IsAccounted _ cache i
    key_tuple_from-Keeps (some (OcbAuxiliaryObjectState.dictionary_values summary)) cache i = i
    key_tuple_from-Keeps none cache i = i

    pub validate_key_tuple-Keeps : Keeps (validate_key_tuple p file file_len reference)
    unfolding validate_key_tuple Keeps
    validate_key_tuple-Keeps cache i = elim (Bool-cases (is_null reference)) [
      | inl absent ↦ rw absent i
      | inr present ↦ rw present (key_tuple_from-Keeps (state_of cache.objects reference) cache i)
    ]

-- A new cache of auxiliary objects is accounted, and where a cache is, it still is after
-- `preflight`, `dictionary_values_summary` and `validate_key_tuple`, also where they fail: each
-- reference stands in it once, its total is the sum of their sizes, and the total is within the
-- limit on owned compressed bytes of the limits it was made with.
pub auxiliary_object_cache-IsAccounted :
    (limits : OcbResourceLimits) (p : Platform) (file : List ℕ) (file_len : ℕ)
    (metadata : OcbMetadataV1) (v2_root : Option OcbRootV2) (reference : OcbBodyRefV2)
    (budget : MetadataMaterializationBudget) (cache : OcbOpenAuxiliaryObjectCache)
    → IsAccounted limits cache
    → IsAccounted limits (new_cache limits)
      × IsAccounted limits ((preflight p metadata v2_root cache).1)
      × IsAccounted limits ((dictionary_values_summary p file file_len reference budget cache).1)
      × IsAccounted limits ((validate_key_tuple p file file_len reference cache).1)
unfolding preflight Keeps
auxiliary_object_cache-IsAccounted limits p file file_len metadata v2_root reference budget cache
      i =
    (
      new_cache-IsAccounted limits,
      preflight_with-Keeps limits p metadata.file_len
          (visit_auxiliary_object_references metadata v2_root) cache i,
      dictionary_values_summary-Keeps limits p file file_len reference budget cache i,
      validate_key_tuple-Keeps limits p file file_len reference cache i,
    )
