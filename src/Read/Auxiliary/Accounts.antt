-- ===== src/Read/Auxiliary/Accounts.antt =====
-- What it is for the cache of auxiliary objects to be accounted, and what its parts do to that.
use arcadia_tio_rs.Base.{
  ℕ, ◌^◌, ◌≤◌, ◌≡◌, refl, ◌∙◌, ap, arith, List, [], ◌∷◌, false, ltb, leb, All, sum, map, some, none,
  if-cases, if_true, if_false, Bool-cases, inl, inr, ltb-false,
}
use arcadia_tio_rs.Error.{ok, fail_if-eq-ok}
use arcadia_tio_rs.BodyRef
use arcadia_tio_rs.BodyRef.{OcbBodyRefV2, is_null}
use arcadia_tio_rs.Limits.{OcbResourceLimits}
use arcadia_tio_rs.Table.{Platform}
use arcadia_tio_rs.Read.Auxiliary.{
  OcbAuxiliaryObjectState, Objects, OcbOpenAuxiliaryObjectCache, state_of, set_state, check_total,
  new_cache,
}

abbrev pub keys : Objects → List OcbBodyRefV2
keys [] = []
keys ((key, state) ∷ objects) = key ∷ keys objects

-- No two keys are equal.
unfoldable pub Distinct : List OcbBodyRefV2 → Type 0
Distinct [] = Unit {0}
Distinct (key ∷ others) = All (λ other. BodyRef.eq other key ≡ false) others × Distinct others

abbrev pub size_of : OcbBodyRefV2 → ℕ
size_of reference = reference.size

-- The accounts of a cache that was made for some limits.
pub record IsAccounted (limits : OcbResourceLimits) (cache : OcbOpenAuxiliaryObjectCache)
    : Type 0 where
  pub same_limits : cache.resource_limits ≡ limits
  pub once : Distinct (keys cache.objects)
  pub exact : cache.total_unique_bytes ≡ sum (map size_of (keys cache.objects))
  pub bounded : cache.total_unique_bytes ≤ limits.max_owned_selected_compressed_bytes

pub new_cache-IsAccounted : (limits : OcbResourceLimits) → IsAccounted limits (new_cache limits)
unfolding new_cache Distinct
new_cache-IsAccounted limits = record {
  same_limits = refl;
  once = tt;
  exact = refl;
  bounded = omega arith;
}

pub absent-All :
    (objects : Objects) (reference : OcbBodyRefV2)
    → state_of objects reference ≡ none
    → All (λ other. BodyRef.eq other reference ≡ false) (keys objects)
unfolding state_of
absent-All [] reference h = tt
absent-All ((key, state) ∷ objects) reference h =
    elim (if-cases (BodyRef.eq key reference) (some state) (state_of objects reference) h) [
      | inl (_, found) ↦ absurd (cc found)
      | inr (other, rest) ↦ (other, absent-All objects reference rest)
    ]

-- A change of state keeps the keys.
pub keys-set_state :
    (objects : Objects) (reference : OcbBodyRefV2) (state : OcbAuxiliaryObjectState)
    → keys (set_state objects reference state) ≡ keys objects
unfolding set_state
keys-set_state [] reference state = refl
keys-set_state ((key, old) ∷ objects) reference state =
    elim (Bool-cases (BodyRef.eq key reference)) [
      | inl same ↦ ap keys (if_true (BodyRef.eq key reference) _ _ same)
      | inr other ↦
          ap keys (if_false (BodyRef.eq key reference) _ _ other)
          ∙ ap (λ rest. key ∷ rest) (keys-set_state objects reference state)
    ]

pub check_total-le :
    (p : Platform) (cache : OcbOpenAuxiliaryObjectCache) (total : ℕ) {u : Unit {0}}
    → check_total p cache total ≡ ok u
    → total ≤ cache.resource_limits.max_owned_selected_compressed_bytes
unfolding check_total
check_total-le p cache total h =
    let (_, h1) = fail_if-eq-ok (leb (2 ^ 64) total) _ _ h in
    let (within, _) =
      fail_if-eq-ok (ltb cache.resource_limits.max_owned_selected_compressed_bytes total) _ _ h1 in
    ltb-false _ _ within
