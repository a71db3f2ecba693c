-- ===== src/Read/Auxiliary/Outcomes.antt =====
-- What a successful chain of steps on the cache says of its first step and of the rest.
use arcadia_tio_rs.Base.{◌≡◌, refl, ap}
use arcadia_tio_rs.Error.{Result, ok, err}
use arcadia_tio_rs.Read.Auxiliary
use arcadia_tio_rs.Read.Auxiliary.{OcbOpenAuxiliaryObjectCache, Scoped, lift, continue}

module _ {ℓ κ} {A : Type ℓ} {B : Type κ} where
  continued :
      (outcome : Result A × OcbOpenAuxiliaryObjectCache) (next : A → Scoped B) {b : B}
      {after : OcbOpenAuxiliaryObjectCache}
      → continue outcome next ≡ (ok b, after)
      → (a : A) × (between : OcbOpenAuxiliaryObjectCache) × (outcome ≡ (ok a, between))
        × (next a between ≡ (ok b, after))
  continued (ok a, between) next h = (a, between, refl, h)
  continued (err e, between) next h = absurd (cc (ap (λ outcome. outcome.0) h))

  pub bound :
      (first : Scoped A) (next : A → Scoped B) (before : OcbOpenAuxiliaryObjectCache) {b : B}
      {after : OcbOpenAuxiliaryObjectCache}
      → Auxiliary.◌>>=◌ first next before ≡ (ok b, after)
      → (a : A) × (between : OcbOpenAuxiliaryObjectCache) × (first before ≡ (ok a, between))
        × (next a between ≡ (ok b, after))
  unfolding Auxiliary.◌>>=◌
  bound first next before h = continued (first before) next h

  -- A computation that does not touch the cache, first.
  pub lifted :
      (result : Result A) (next : A → Scoped B) (before : OcbOpenAuxiliaryObjectCache) {b : B}
      {after : OcbOpenAuxiliaryObjectCache}
      → Auxiliary.◌>>=◌ (lift result) next before ≡ (ok b, after)
      → (a : A) × (result ≡ ok a) × (next a before ≡ (ok b, after))
  unfolding Auxiliary.◌>>=◌ lift
  lifted (ok a) next before h = (a, refl, h)
  lifted (err e) next before h = absurd (cc (ap (λ outcome. outcome.0) h))

module _ {ℓ} {B : Type ℓ} where
  pub followed :
      (first : Scoped (Unit {0})) (next : Scoped B) (before : OcbOpenAuxiliaryObjectCache) {b : B}
      {after : OcbOpenAuxiliaryObjectCache}
      → Auxiliary.◌>>◌ first next before ≡ (ok b, after)
      → (between : OcbOpenAuxiliaryObjectCache) × (first before ≡ (ok tt, between))
        × (next between ≡ (ok b, after))
  unfolding Auxiliary.◌>>◌
  followed first next before h =
      let (_, between, ran, rest) = continued (first before) (λ _. next) h in (between, ran, rest)

  pub checked :
      (result : Result (Unit {0})) (next : Scoped B) (before : OcbOpenAuxiliaryObjectCache) {b : B}
      {after : OcbOpenAuxiliaryObjectCache}
      → Auxiliary.◌>>◌ (lift result) next before ≡ (ok b, after)
      → (result ≡ ok tt) × (next before ≡ (ok b, after))
  unfolding Auxiliary.◌>>◌ lift
  checked (ok done) next before h = (refl, h)
  checked (err e) next before h = absurd (cc (ap (λ outcome. outcome.0) h))
