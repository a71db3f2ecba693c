-- ===== src/Read/Auxiliary/Bodies.antt =====
-- `dictionary_values_summary` and `validate_key_tuple` of `OcbOpenAuxiliaryObjectCache`: an auxiliary
-- object is read at its first use, and its summary kept.
use arcadia_tio_rs.Base.{ℕ, List, length, Option, some, none, if◌then◌else◌}
use arcadia_tio_rs.Error.{Result, ok, err, ocb_corrupt_file}
use arcadia_tio_rs.Error
use arcadia_tio_rs.Kinds.{OcbBodyKindV1}
use arcadia_tio_rs.BodyRef.{OcbBodyRefV2, is_null}
use arcadia_tio_rs.Limits.{MetadataMaterializationBudget}
use arcadia_tio_rs.Table.{Platform}
use arcadia_tio_rs.DictionaryValues.Decode as DictionaryValues
use arcadia_tio_rs.Read.Source.{read_object_bytes_inner_with_limits, usize_max}
use arcadia_tio_rs.Read.Auxiliary.{
  OcbDictionaryValuesSummary, OcbAuxiliaryObjectState, OcbOpenAuxiliaryObjectCache, Scoped,
  state_of, set_state,
}

-- The cache after `*state = ..`.
unfoldable pub with_state :
    OcbOpenAuxiliaryObjectCache
    → OcbBodyRefV2
    → OcbAuxiliaryObjectState
    → OcbOpenAuxiliaryObjectCache
unfolding set_state
with_state cache reference state = record cache {
  objects = set_state cache.objects reference state;
}

module _ (p : Platform) (file : List ℕ) (file_len : ℕ) (reference : OcbBodyRefV2) where
  unfoldable pub read_dictionary_values :
      OcbOpenAuxiliaryObjectCache
      → MetadataMaterializationBudget
      → Result (OcbDictionaryValuesSummary × MetadataMaterializationBudget)
  unfolding read_object_bytes_inner_with_limits DictionaryValues.read_from_bytes_with_budget
  read_dictionary_values cache budget =
      Error.◌>>=◌
        (read_object_bytes_inner_with_limits p file file_len reference
          OcbBodyKindV1.dictionary_values cache.resource_limits.max_encoded_object_bytes usize_max)
        (λ values_bytes.
          Error.◌>>=◌ (DictionaryValues.read_from_bytes_with_budget p values_bytes budget)
            (λ (values, charged). ok (
              record {
                value_kind = values.value_kind;
                entry_count = length values.values;
                fixed_width = values.fixed_width;
              },
              charged,
            )))

  unfoldable pub keep_summary :
      Result (OcbDictionaryValuesSummary × MetadataMaterializationBudget)
      → Scoped (OcbDictionaryValuesSummary × MetadataMaterializationBudget)
  unfolding with_state
  keep_summary (err e) cache = (err e, cache)
  keep_summary (ok (summary, budget)) cache = (
    ok (summary, budget),
    with_state cache reference (OcbAuxiliaryObjectState.dictionary_values summary),
  )

  -- The `match` on the state that was found.
  unfoldable pub dictionary_values_from :
      Option OcbAuxiliaryObjectState
      → MetadataMaterializationBudget
      → Scoped (OcbDictionaryValuesSummary × MetadataMaterializationBudget)
  unfolding read_dictionary_values keep_summary
  dictionary_values_from (some (OcbAuxiliaryObjectState.dictionary_values summary)) budget cache =
      (ok (summary, budget), cache)
  dictionary_values_from (some OcbAuxiliaryObjectState.pending) budget cache =
      keep_summary (read_dictionary_values cache budget) cache
  dictionary_values_from (some OcbAuxiliaryObjectState.key_tuple_validated) budget cache =
      (err (ocb_corrupt_file "OCB dictionary values reference was not preflighted"), cache)
  dictionary_values_from none budget cache =
      (err (ocb_corrupt_file "OCB dictionary values reference was not preflighted"), cache)

  unfoldable pub dictionary_values_summary :
      MetadataMaterializationBudget
      → Scoped (OcbDictionaryValuesSummary × MetadataMaterializationBudget)
  unfolding dictionary_values_from state_of
  dictionary_values_summary budget cache =
      dictionary_values_from (state_of cache.objects reference) budget cache

  unfoldable pub keep_key_tuple : Result (List ℕ) → Scoped (Unit {0})
  unfolding with_state
  keep_key_tuple (err e) cache = (err e, cache)
  keep_key_tuple (ok bytes) cache =
      (ok tt, with_state cache reference OcbAuxiliaryObjectState.key_tuple_validated)

  unfoldable pub key_tuple_from : Option OcbAuxiliaryObjectState → Scoped (Unit {0})
  unfolding keep_key_tuple read_object_bytes_inner_with_limits
  key_tuple_from (some OcbAuxiliaryObjectState.key_tuple_validated) cache = (ok tt, cache)
  key_tuple_from (some OcbAuxiliaryObjectState.pending) cache =
      keep_key_tuple
        (read_object_bytes_inner_with_limits p file file_len reference OcbBodyKindV1.key_tuple
          cache.resource_limits.max_encoded_object_bytes usize_max)
        cache
  key_tuple_from (some (OcbAuxiliaryObjectState.dictionary_values summary)) cache =
      (err (ocb_corrupt_file "OCB key-tuple reference was not preflighted"), cache)
  key_tuple_from none cache =
      (err (ocb_corrupt_file "OCB key-tuple reference was not preflighted"), cache)

  unfoldable pub validate_key_tuple : Scoped (Unit {0})
  unfolding is_null key_tuple_from state_of
  validate_key_tuple cache =
      if is_null reference
      then (ok tt, cache)
      else key_tuple_from (state_of cache.objects reference) cache
