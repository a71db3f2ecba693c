-- ===== src/Read/Source/Laws.antt =====
-- What a successful read of an object returns.
use arcadia_tio_rs.Base.{
  ℕ, ◌≤◌, ◌≡◌, ◌∙◌, sym, arith, List, ltb, Bool, not, ◌==◌, ◌⊎◌, inl, inr, true, false, take, drop,
  length, length-take, [], refl, if◌then◌else◌, ltb-false, ap,
}
use arcadia_tio_rs.Error.{
  ArcadiaTioError, ok, err, fail_if, fail_if-eq-ok, then-eq-ok, >>=-eq-ok, ok-injective,
}
use arcadia_tio_rs.Bytes.{read_exact_ocb, cursor}
use arcadia_tio_rs.Kinds.{OcbBodyKindV1, OcbChecksumKindV1}
use arcadia_tio_rs.Crc.{crc32c}
use arcadia_tio_rs.BodyRef.{OcbBodyRefV2}
use arcadia_tio_rs.BodyRef.Bounds.{IsInFile, validate-IsInFile}
use arcadia_tio_rs.Table.{Platform}
use arcadia_tio_rs.Read.Source.{
  read_at, check_reference_checksum, read_object_bytes_inner_with_limits,
}

-- The bytes of a file from an offset on, so many of them, all inside the file.
pub record IsSlice (file : List ℕ) (offset len : ℕ) (bytes : List ℕ) : Type 0 where
  pub complete : length bytes ≡ len
  pub exact : bytes ≡ take len (drop offset file)

-- A read that is given its bytes, or none.
read_outcome :
    (short : Bool) (e : ArcadiaTioError) (found rest : List ℕ) {bytes : List ℕ}
    → cursor (λ _. if short then err e else ok (found, rest)) [] ≡ ok bytes
    → (short ≡ false) × (found ≡ bytes)
unfolding cursor
read_outcome true e found rest h = cc
read_outcome false e found rest h = (refl, ok-injective h)

pub read_at-IsSlice :
    (file : List ℕ) (offset len : ℕ) {bytes : List ℕ}
    → read_at file offset len ≡ ok bytes
    → IsSlice file offset len bytes
unfolding read_at cursor read_exact_ocb
read_at-IsSlice file offset len h =
    let (enough, same) = read_outcome (ltb (length (drop offset file)) len) _ _ _ h in
    record {
      complete =
          ap length (sym same)
          ∙ omega (arith, length-take len (drop offset file), ltb-false _ _ enough);
      exact = sym same;
    }

passed_eq : (a b : ℕ) (e : ArcadiaTioError) → fail_if (not (a == b)) e ≡ ok tt → a ≡ b
passed_eq a b e h = ground arith

-- What the check of a checksum tells, for the kind that the reference has.
checked_kind :
    (kind : OcbChecksumKindV1) (reference : OcbBodyRefV2) (bytes : List ℕ)
    → reference.checksum_kind ≡ kind
    → check_reference_checksum reference bytes ≡ ok tt
    → (reference.checksum_kind ≡ OcbChecksumKindV1.none)
      ⊎ ((reference.checksum_kind ≡ OcbChecksumKindV1.crc32c) × (crc32c bytes ≡ reference.checksum))
unfolding check_reference_checksum
checked_kind OcbChecksumKindV1.none reference bytes e h = inl e
checked_kind OcbChecksumKindV1.crc32c reference bytes e h =
    inr (e, passed_eq (crc32c bytes) reference.checksum _ (rw e at h))

-- An object that was read: what it was referred to as, its place, and its checksum.
pub record IsObject (file : List ℕ) (file_len : ℕ) (reference : OcbBodyRefV2) (kind : OcbBodyKindV1)
    (limit : ℕ) (bytes : List ℕ) : Type 0 where
  pub in_file : IsInFile reference kind file_len
  pub within_limit : reference.size ≤ limit
  pub slice : IsSlice file reference.offset reference.size bytes
  pub checksum :
      (reference.checksum_kind ≡ OcbChecksumKindV1.none)
      ⊎ ((reference.checksum_kind ≡ OcbChecksumKindV1.crc32c) × (crc32c bytes ≡ reference.checksum))

-- The bytes that `read_object_bytes_inner_with_limits` returns are exactly those that the file has
-- at the reference, all of them inside it; the reference lies inside the file length without
-- overflow and has the kind expected, its size is within the limit, and it has no checksum or its
-- checksum is the CRC-32C of the bytes.
pub read_object_bytes_inner_with_limits-IsObject :
    (p : Platform) (file : List ℕ) (file_len : ℕ) (reference : OcbBodyRefV2) (kind : OcbBodyKindV1)
    (limit addressable : ℕ) {bytes : List ℕ}
    → read_object_bytes_inner_with_limits p file file_len reference kind limit addressable
      ≡ ok bytes
    → IsObject file file_len reference kind limit bytes
unfolding read_object_bytes_inner_with_limits
read_object_bytes_inner_with_limits-IsObject p file file_len reference kind limit addressable
      {bytes = bytes} h =
    let (valid, h1) = then-eq-ok _ _ h in
    let (_, h2) = fail_if-eq-ok _ _ _ h1 in
    let (small, h3) = fail_if-eq-ok _ _ _ h2 in
    let (_, h4) = then-eq-ok _ _ h3 in
    let (found, read, h5) = >>=-eq-ok _ _ h4 in
    let (checked, h6) = then-eq-ok _ _ h5 in
    let same = ok-injective h6 in
    record {
      in_file = let (to, _) = validate-IsInFile reference kind file_len in to valid;
      within_limit = ltb-false _ _ small;
      slice = rw (← same) (read_at-IsSlice file reference.offset reference.size read);
      checksum = checked_kind reference.checksum_kind reference bytes refl (rw (← same) checked);
    }
