-- ===== src/Error.antt =====
-- The errors and the result type of crates/arcadia-tio-ocb-core/src/error.rs.
use arcadia_tio_rs.Base.{◌≡◌, refl, String, Bool, true, false, Option, some, none}

-- `ArcadiaTioErrorCode`.
pub data ArcadiaTioErrorCode : Type 0 where
  success invalid_argument unimplemented io flatbuffers : ArcadiaTioErrorCode

-- `OcbFailureCause`.
pub data OcbFailureCause : Type 0 where
  invalid_input unsupported_format corrupt_file lock_unavailable io : OcbFailureCause

-- `ArcadiaTioError`, with an I/O error known by its message alone and the kind of a diagnostic
-- by its name.
pub data ArcadiaTioError : Type 0 where
  not_implemented : String → ArcadiaTioError
  bad_argument : String → ArcadiaTioError
  ocb : ArcadiaTioErrorCode → OcbFailureCause → String → ArcadiaTioError
  ocb_diagnostic : ArcadiaTioErrorCode → OcbFailureCause → String → String → ArcadiaTioError
  io_error : String → ArcadiaTioError

abbrev pub ocb_invalid_input : String → ArcadiaTioError
ocb_invalid_input message =
    ocb ArcadiaTioErrorCode.invalid_argument OcbFailureCause.invalid_input message

abbrev pub ocb_unsupported_format : String → ArcadiaTioError
ocb_unsupported_format message =
    ocb ArcadiaTioErrorCode.invalid_argument OcbFailureCause.unsupported_format message

abbrev pub ocb_corrupt_file : String → ArcadiaTioError
ocb_corrupt_file message =
    ocb ArcadiaTioErrorCode.invalid_argument OcbFailureCause.corrupt_file message

unfoldable pub ocb_failure_cause : ArcadiaTioError → Option OcbFailureCause
ocb_failure_cause (ocb code cause message) = some cause
ocb_failure_cause (ocb_diagnostic code cause kind message) = some cause
ocb_failure_cause _ = none

-- `Result<T>`.
pub data Result {ℓ} (A : Type ℓ) : Type ℓ where
  ok : A → Result A
  err : ArcadiaTioError → Result A

-- The operator `?`, with a value and without one.
infixl 5 ◌>>=◌
abbrev pub ◌>>=◌ {ℓ κ} : {A : Type ℓ} {B : Type κ} → Result A → (A → Result B) → Result B
ok value >>= next = next value
err failure >>= next = err failure

infixl 5 ◌>>◌
abbrev pub ◌>>◌ {ℓ} : {B : Type ℓ} → Result (Unit {0}) → Result B → Result B
checked >> next = checked >>= λ _. next

-- `if test { return Err(e) }`.
abbrev pub fail_if : Bool → ArcadiaTioError → Result (Unit {0})
fail_if true e = err e
fail_if false e = ok tt

abbrev pub is_ok {ℓ} : {A : Type ℓ} → Result A → Bool
is_ok (ok a) = true
is_ok (err e) = false

-- What a successful chain says of its first part and of the rest.
module _ {ℓ κ} {A : Type ℓ} {B : Type κ} where
  pub >>=-eq-ok :
      (first : Result A) (next : A → Result B) {result : B}
      → (first >>= next) ≡ ok result
      → (value : A) × (first ≡ ok value) × (next value ≡ ok result)
  >>=-eq-ok (err failure) next h = cc
  >>=-eq-ok (ok value) next h = (value, refl, h)

pub fail_if-eq-ok {ℓ} :
    {B : Type ℓ} (t : Bool) (e : ArcadiaTioError) (k : Result B) {b : B}
    → (fail_if t e >> k) ≡ ok b
    → (t ≡ false) × (k ≡ ok b)
fail_if-eq-ok true e k h = cc
fail_if-eq-ok false e k h = (refl, h)

pub then-eq-ok {ℓ} :
    {B : Type ℓ} (m : Result (Unit {0})) (k : Result B) {b : B}
    → (m >> k) ≡ ok b
    → (m ≡ ok tt) × (k ≡ ok b)
then-eq-ok (ok tt) k h = (refl, h)
then-eq-ok (err e) k h = cc

pub ok-injective {ℓ} : {A : Type ℓ} {a b : A} → ok a ≡ ok b → a ≡ b
ok-injective h = cc
