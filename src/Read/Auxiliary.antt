-- ===== src/Read/Auxiliary.antt =====
-- `OcbOpenAuxiliaryObjectCache` of crates/arcadia-tio-ocb-core/src/read.rs: the dictionary values and key
-- tuples that opening a file reads, each charged and read once.
pub mod Bodies
pub mod Outcomes
pub mod Accounts
pub mod Laws
use arcadia_tio_rs.Base.{
  ℕ, ◌+◌, ◌^◌, List, [], ◌∷◌, ◌++◌, Bool, true, false, not, length, ltb, leb, Option, some, none,
  if◌then◌else◌,
}
use arcadia_tio_rs.Error.{
  ArcadiaTioError, Result, ok, err, ocb_corrupt_file, ocb_invalid_input, io_error, fail_if,
}
use arcadia_tio_rs.Error
use arcadia_tio_rs.Kinds.{OcbBodyKindV1, OcbDictionaryValueKindV1}
use arcadia_tio_rs.BodyRef
use arcadia_tio_rs.BodyRef.{OcbBodyRefV2, is_null, validate}
use arcadia_tio_rs.Limits.{OcbResourceLimits, MetadataMaterializationBudget}
use arcadia_tio_rs.Table.{Platform}
use arcadia_tio_rs.DictionaryValues.Decode as DictionaryValues
use arcadia_tio_rs.Records.DictionaryDesc.{OcbDictionaryDescV1}
use arcadia_tio_rs.Records.RowGroupDesc.{OcbRowGroupDescV1}
use arcadia_tio_rs.Records.OrderingProof.{OcbRowGroupOrderingProofV1}
use arcadia_tio_rs.RootV2.{OcbRootV2}
use arcadia_tio_rs.DictionaryIndex.{OcbDictionaryIndexV1}
use arcadia_tio_rs.OrderingProof.{OcbOrderingProofV1}
use arcadia_tio_rs.Read.Metadata.{OcbMetadataV1}
use arcadia_tio_rs.Read.Source.{read_object_bytes_inner_with_limits, usize_max}

pub record OcbDictionaryValuesSummary : Type 0 where
  pub value_kind : OcbDictionaryValueKindV1
  pub entry_count : ℕ
  pub fixed_width : ℕ

pub data OcbAuxiliaryObjectState : Type 0 where
  pending key_tuple_validated : OcbAuxiliaryObjectState
  dictionary_values : OcbDictionaryValuesSummary → OcbAuxiliaryObjectState

-- A key `OcbAuxiliaryBodyRefKey` has the fields of its reference, with the codes of the
-- enumerations, so that keys are equal where references are.
abbrev pub Objects : Type 0
Objects = List (OcbBodyRefV2 × OcbAuxiliaryObjectState)

pub record OcbOpenAuxiliaryObjectCache : Type 0 where
  pub objects : Objects
  pub total_unique_bytes : ℕ
  pub resource_limits : OcbResourceLimits

unfoldable pub new_cache : OcbResourceLimits → OcbOpenAuxiliaryObjectCache
new_cache resource_limits = record {
  objects = [];
  total_unique_bytes = 0;
  resource_limits = resource_limits;
}

unfoldable pub state_of : Objects → OcbBodyRefV2 → Option OcbAuxiliaryObjectState
unfolding BodyRef.eq
state_of [] reference = none
state_of ((key, state) ∷ objects) reference =
    if BodyRef.eq key reference then some state else state_of objects reference

-- `*get_mut(&key) = state`, for a key that is there.
unfoldable pub set_state : Objects → OcbBodyRefV2 → OcbAuxiliaryObjectState → Objects
unfolding BodyRef.eq
set_state [] reference state = []
set_state ((key, old) ∷ objects) reference state =
    if BodyRef.eq key reference
    then (key, state) ∷ objects
    else (key, old) ∷ set_state objects reference state

-- A step that works on the cache: a failed one keeps what it changed before it failed.
abbrev pub Scoped {ℓ} : Type ℓ → Type ℓ
Scoped A = OcbOpenAuxiliaryObjectCache → Result A × OcbOpenAuxiliaryObjectCache

abbrev pub continue {ℓ κ} :
    {A : Type ℓ} {B : Type κ}
    → (Result A × OcbOpenAuxiliaryObjectCache)
    → (A → Scoped B)
    → Result B × OcbOpenAuxiliaryObjectCache
continue (ok a, cache) next = next a cache
continue (err e, cache) next = (err e, cache)

infixl 5 ◌>>=◌
unfoldable pub ◌>>=◌ {ℓ κ} : {A : Type ℓ} {B : Type κ} → Scoped A → (A → Scoped B) → Scoped B
◌>>=◌ first next cache = continue (first cache) next

infixl 5 ◌>>◌
unfoldable pub ◌>>◌ {ℓ} : {B : Type ℓ} → Scoped (Unit {0}) → Scoped B → Scoped B
◌>>◌ first next cache = continue (first cache) (λ _. next)

unfoldable pub lift {ℓ} : {A : Type ℓ} → Result A → Scoped A
lift result cache = (result, cache)

abbrev pub metadata_graph_allocation_error : ArcadiaTioError
metadata_graph_allocation_error =
    io_error "OCB metadata-graph allocation failed within resource limit"

-- The checks of `charge_unique` on the new total.
unfoldable pub check_total : Platform → OcbOpenAuxiliaryObjectCache → ℕ → Result (Unit {0})
check_total p cache total_unique_bytes =
    Error.◌>>◌
      (fail_if (leb (2 ^ 64) total_unique_bytes)
        (ocb_invalid_input "OCB open auxiliary-object byte total overflows"))
      (Error.◌>>◌
        (fail_if (ltb cache.resource_limits.max_owned_selected_compressed_bytes total_unique_bytes)
          (ocb_invalid_input "OCB open auxiliary-object bytes exceed resource limit"))
        (fail_if (not (p.grants_entries 1)) metadata_graph_allocation_error))

unfoldable pub insert_pending : Result (Unit {0}) → OcbBodyRefV2 → Scoped (Unit {0})
insert_pending (err e) reference cache = (err e, cache)
insert_pending (ok checked) reference cache = (
  ok tt,
  record cache {
    objects = (reference, OcbAuxiliaryObjectState.pending) ∷ cache.objects;
    total_unique_bytes = cache.total_unique_bytes + reference.size;
  },
)

unfoldable pub charge_unique : Platform → OcbBodyRefV2 → Scoped (Unit {0})
unfolding state_of check_total insert_pending
charge_unique p reference cache = elim (state_of cache.objects reference) [
  | some state ↦ (ok tt, cache)
  | none ↦
      insert_pending (check_total p cache (cache.total_unique_bytes + reference.size)) reference
        cache
]

-- The references that `visit_auxiliary_object_references` visits, in order.
abbrev pub Visits : Type 0
Visits = List (OcbBodyRefV2 × OcbBodyKindV1)

unfoldable pub visit_optional_key_tuple : OcbBodyRefV2 → Visits
unfolding is_null
visit_optional_key_tuple reference =
    if is_null reference then [] else (reference, OcbBodyKindV1.key_tuple) ∷ []

unfoldable pub visit_dictionaries : List OcbDictionaryDescV1 → Visits
visit_dictionaries [] = []
visit_dictionaries (d ∷ dictionaries) =
    (d.values_ref, OcbBodyKindV1.dictionary_values) ∷ visit_dictionaries dictionaries

unfoldable pub visit_dictionary_index : Option OcbDictionaryIndexV1 → Visits
unfolding visit_dictionaries
visit_dictionary_index none = []
visit_dictionary_index (some index) = visit_dictionaries index.dictionaries

unfoldable pub visit_row_groups : List OcbRowGroupDescV1 → Visits
unfolding visit_optional_key_tuple
visit_row_groups [] = []
visit_row_groups (g ∷ row_groups) =
    visit_optional_key_tuple g.first_key_tuple_ref
    ++ (visit_optional_key_tuple g.last_key_tuple_ref ++ visit_row_groups row_groups)

unfoldable pub visit_proofs : List OcbRowGroupOrderingProofV1 → Visits
unfolding visit_optional_key_tuple
visit_proofs [] = []
visit_proofs (proof ∷ proofs) =
    visit_optional_key_tuple proof.first_tuple_ref
    ++ (visit_optional_key_tuple proof.last_tuple_ref ++ visit_proofs proofs)

unfoldable pub visit_ordering_proof : Option OcbOrderingProofV1 → Visits
unfolding visit_proofs
visit_ordering_proof none = []
visit_ordering_proof (some proof) = visit_proofs proof.row_group_proofs

unfoldable pub visit_root : Option OcbRootV2 → Visits
unfolding visit_optional_key_tuple
visit_root none = []
visit_root (some root) =
    visit_optional_key_tuple root.first_key_tuple_ref
    ++ (visit_optional_key_tuple root.last_key_tuple_ref
        ++ (visit_optional_key_tuple root.append_first_key_tuple_ref
            ++ visit_optional_key_tuple root.append_last_key_tuple_ref))

unfoldable pub visit_auxiliary_object_references : OcbMetadataV1 → Option OcbRootV2 → Visits
unfolding visit_dictionary_index visit_row_groups visit_ordering_proof visit_root
visit_auxiliary_object_references metadata v2_root =
    visit_dictionary_index metadata.dictionary_index
    ++ (visit_row_groups metadata.row_group_index.row_groups
        ++ (visit_ordering_proof metadata.ordering_proof ++ visit_root v2_root))

unfoldable pub validate_all : ℕ → Visits → Result (Unit {0})
unfolding validate
validate_all file_len [] = ok tt
validate_all file_len ((reference, kind) ∷ visits) =
    Error.◌>>◌ (validate reference kind file_len) (validate_all file_len visits)

unfoldable pub charge_all : Platform → Visits → Scoped (Unit {0})
unfolding charge_unique
charge_all p [] cache = (ok tt, cache)
charge_all p ((reference, kind) ∷ visits) cache =
    continue (charge_unique p reference cache) (λ _. charge_all p visits)

-- `preflight_with`: every reference is validated before any is charged.
unfoldable pub preflight_with : Platform → ℕ → Visits → Scoped (Unit {0})
unfolding ◌>>◌ lift validate_all charge_all
preflight_with p file_len visits = do lift (validate_all file_len visits); charge_all p visits

unfoldable pub preflight : Platform → OcbMetadataV1 → Option OcbRootV2 → Scoped (Unit {0})
unfolding preflight_with visit_auxiliary_object_references
preflight p metadata v2_root =
    preflight_with p metadata.file_len (visit_auxiliary_object_references metadata v2_root)
