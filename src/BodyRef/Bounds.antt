-- ===== src/BodyRef/Bounds.antt =====
-- What `OcbBodyRefV2::validate` and the optional form of it accept.
use arcadia_tio_rs.Base.{
  ℕ, ◌+◌, ◌^◌, ◌≤◌, ◌<◌, ◌≡◌, ◌↔◌, ◌∙◌, sym, arith, [], ◌∷◌, if_true, if_false, leb-false,
  ltb-false, not-false, true, false, Bool-cases, ◌⊎◌, inl, inr,
}
use arcadia_tio_rs.Error.{ok, fail_if-eq-ok}
use arcadia_tio_rs.Kinds.{OcbBodyKindV1}
use arcadia_tio_rs.Kinds.BodyKind
use arcadia_tio_rs.BodyRef.{
  OcbBodyRefV2, is_null, validate, validate_optional_ref, validate_optional_ref_any_kind, contains,
}

-- A reference that can be followed: of the kind expected, and inside the file.
pub record IsInFile (r : OcbBodyRefV2) (kind : OcbBodyKindV1) (file_len : ℕ) : Type 0 where
  pub not_null : is_null r ≡ false
  pub same_kind : r.kind ≡ kind
  pub no_overflow : r.offset + r.size < 2 ^ 64
  pub inside : r.offset + r.size ≤ file_len

validate_sound :
    (r : OcbBodyRefV2) (kind : OcbBodyKindV1) (file_len : ℕ)
    → validate r kind file_len ≡ ok tt
    → IsInFile r kind file_len
unfolding validate
validate_sound r kind file_len h =
    let (present, h1) = fail_if-eq-ok _ _ _ h in
    let (same, h2) = fail_if-eq-ok _ _ _ h1 in
    let (small, h3) = fail_if-eq-ok _ _ _ h2 in
    let (inside, h4) = fail_if-eq-ok _ _ _ h3 in
    record {
      not_null = present;
      same_kind = BodyKind.eq→path r.kind kind (not-false (BodyKind.eq r.kind kind) same);
      no_overflow = leb-false _ _ small;
      inside = ltb-false _ _ inside;
    }

validate_complete :
    (r : OcbBodyRefV2) (kind : OcbBodyKindV1) (file_len : ℕ)
    → IsInFile r kind file_len
    → validate r kind file_len ≡ ok tt
unfolding validate
validate_complete r kind file_len i =
    rw i.not_null
      (rw i.same_kind (rw (BodyKind.eq_refl kind) (ground (arith, i.no_overflow, i.inside))))

-- `validate` accepts exactly the references that are not null, have the kind expected, and whose
-- range neither overflows 64 bits nor leaves the file.
pub validate-IsInFile :
    (r : OcbBodyRefV2) (kind : OcbBodyKindV1) (file_len : ℕ)
    → (validate r kind file_len ≡ ok tt) ↔ IsInFile r kind file_len
validate-IsInFile r kind file_len =
    (validate_sound r kind file_len, validate_complete r kind file_len)

one_kind :
    (kind found : OcbBodyKindV1) → contains (kind ∷ []) found ≡ true → BodyKind.eq kind found ≡ true
unfolding contains
one_kind kind found h = ground arith

-- An optional reference that is accepted is null, or can be followed.
pub validate_optional_ref_sound :
    (r : OcbBodyRefV2) (kind : OcbBodyKindV1) (file_len : ℕ)
    → validate_optional_ref r kind file_len ≡ ok tt
    → (is_null r ≡ true) ⊎ IsInFile r kind file_len
unfolding validate_optional_ref validate_optional_ref_any_kind
validate_optional_ref_sound r kind file_len h = elim (Bool-cases (is_null r)) [
  | inl absent ↦ inl absent
  | inr present ↦ elim (Bool-cases (contains (kind ∷ []) r.kind)) [
    | inl same ↦ inr (
        rw (BodyKind.eq→path kind r.kind (one_kind kind r.kind same)) (
          validate_sound r r.kind file_len (
            sym (if_true (contains (kind ∷ []) r.kind) _ _ same)
            ∙ (sym (if_false (is_null r) _ _ present) ∙ h))))
    | inr other ↦ absurd (
        cc (
          sym (if_false (contains (kind ∷ []) r.kind) _ _ other)
          ∙ (sym (if_false (is_null r) _ _ present) ∙ h)))
  ]
]
