-- ===== src/Read/Open/Recovery.antt =====
-- A commit that was interrupted while it overwrote a root slot: the snapshot of the other slot is opened.
use arcadia_tio_rs.Base.{
  ℕ, ◌≡◌, refl, ◌∙◌, ap, arith, List, [], ◌∷◌, ◌++◌, length, take, drop, true, false, some, none,
  if_true, if_false, eq→==,
}
use arcadia_tio_rs.Error.{ArcadiaTioError, Result, ok, err, ◌>>=◌}
use arcadia_tio_rs.Bytes.{cursor}
use arcadia_tio_rs.Format.{root_slot_v2_len}
use arcadia_tio_rs.Kinds.BodyKind
use arcadia_tio_rs.Kinds.ChecksumKind
use arcadia_tio_rs.BodyRef
use arcadia_tio_rs.BodyRef.{OcbBodyRefV2}
use arcadia_tio_rs.Limits.{OcbResourceLimits}
use arcadia_tio_rs.Table.{Platform}
use arcadia_tio_rs.RootSlot
use arcadia_tio_rs.RootSlot.{OcbRootSlotV2, is_empty}
use arcadia_tio_rs.RootSlot.Decode as SlotDecode
use arcadia_tio_rs.RootV2.{OcbRootV2}
use arcadia_tio_rs.BootstrapV2
use arcadia_tio_rs.BootstrapV2.{OcbBootstrapPageV2}
use arcadia_tio_rs.BootstrapV2.Decode.{read_from, decoded_root_slots}
use arcadia_tio_rs.BootstrapV2.Recovery.{stored, torn_slot0}
use arcadia_tio_rs.Read.Metadata.{OcbMetadataV1}
use arcadia_tio_rs.Read.Auxiliary.{new_cache}
use arcadia_tio_rs.Read.Graph.Chunks.{OcbOpenValidationMode}
use arcadia_tio_rs.Read.Select.{
  OcbRootCandidateV2, is_discardable_candidate_error, choose_v2_metadata, accept_or_discard,
  max_generation, find_generation, conflicting, Outcome, returned,
}
use arcadia_tio_rs.Read.Select.Turns.{turn_validate}
use arcadia_tio_rs.Read.Open.{
  or_skip, read_candidate, examine_slot, collect_candidates, select_v2_metadata, read_metadata_v2,
}
use arcadia_tio_rs.Read.Open.Validate.{validate_v2_root_referenced_objects_with_scope}

bind_ok :
    {A B : Type 0} (first : Result A) (next : A → Result B) (a : A)
    → first ≡ ok a
    → (first >>= next) ≡ next a
bind_ok first next a h = rw h refl

cursor_ok :
    {A : Type 0} (reader : List ℕ → Result (A × List ℕ)) (bytes : List ℕ) (a : A) (rest : List ℕ)
    → reader bytes ≡ ok (a, rest)
    → cursor reader bytes ≡ ok a
unfolding cursor
cursor_ok reader bytes a rest h = rw (h, cursor) refl

ref_eq_refl : (r : OcbBodyRefV2) → BodyRef.eq r r ≡ true
unfolding BodyRef.eq
ref_eq_refl r =
    rw (BodyKind.eq_refl r.kind) (rw (ChecksumKind.eq_refl r.checksum_kind) (ground arith))

-- A single candidate is the one that is validated.
accept-eq :
    {Cache : Type 0} (outcome : Result OcbMetadataV1 × Cache) (next : Cache → Outcome)
    {metadata : OcbMetadataV1}
    → outcome.0 ≡ ok metadata
    → accept_or_discard outcome next ≡ some (ok metadata)
unfolding accept_or_discard
accept-eq (ok metadata, cache) next h = ap some h
accept-eq (err e, cache) next h = absurd (cc h)

choose_single :
    {Cache : Type 0} (validate : OcbRootV2 → Cache → Result OcbMetadataV1 × Cache)
    (c : OcbRootCandidateV2) (cache : Cache) {metadata : OcbMetadataV1}
    → (validate c.root cache).0 ≡ ok metadata
    → choose_v2_metadata validate (c ∷ []) cache ≡ ok metadata
unfolding choose_v2_metadata returned max_generation find_generation conflicting
choose_single validate c cache h = ap returned (
    turn_validate validate 0 c.slot.generation (c ∷ []) c cache refl
      (if_true _ _ _ (eq→== c.slot.generation _ refl))
      (rw (ref_eq_refl c.slot.root_ref) (ground arith))
    ∙ accept-eq (validate c.root cache) _ h)

module _ (p : Platform) (file : List ℕ) (file_len : ℕ) (validation : OcbOpenValidationMode)
    (resource_limits : OcbResourceLimits) where
  skipped :
      (e : ArcadiaTioError)
      → is_discardable_candidate_error e ≡ true
      → or_skip (examine_slot p file file_len validation resource_limits 0 (err e)) ≡ ok none
  unfolding or_skip examine_slot
  skipped e h = if_true _ _ _ h

  examined :
      (slot : OcbRootSlotV2) (c : OcbRootCandidateV2)
      → is_empty slot ≡ false
      → read_candidate p file file_len validation resource_limits 1 slot ≡ ok c
      → or_skip (examine_slot p file file_len validation resource_limits 1 (ok slot)) ≡ ok (some c)
  unfolding or_skip examine_slot
  examined slot c present read = rw (if_false (is_empty slot) _ _ present) (rw read refl)

  collect_second :
      (e : ArcadiaTioError) (slot : OcbRootSlotV2) (c : OcbRootCandidateV2)
      → is_discardable_candidate_error e ≡ true
      → is_empty slot ≡ false
      → read_candidate p file file_len validation resource_limits 1 slot ≡ ok c
      → collect_candidates p file file_len validation resource_limits 0 (err e ∷ ok slot ∷ [])
        ≡ ok (c ∷ [])
  unfolding collect_candidates
  collect_second e slot c corrupt present read =
      rw (skipped e corrupt) (rw (examined slot c present read) refl)

  select_second :
      (page : OcbBootstrapPageV2) (e : ArcadiaTioError) (slot : OcbRootSlotV2)
      (c : OcbRootCandidateV2) (metadata : OcbMetadataV1)
      → decoded_root_slots page ≡ err e ∷ ok slot ∷ []
      → is_discardable_candidate_error e ≡ true
      → is_empty slot ≡ false
      → read_candidate p file file_len validation resource_limits 1 slot ≡ ok c
      → (validate_v2_root_referenced_objects_with_scope p file validation resource_limits file_len
          c.root
          (new_cache resource_limits)).0
        ≡ ok metadata
      → select_v2_metadata p file file_len validation resource_limits page ≡ ok metadata
  unfolding select_v2_metadata
  select_second page e slot c metadata slots corrupt present read valid =
      let collected =
        ap (collect_candidates p file file_len validation resource_limits 0) slots
        ∙ collect_second e slot c corrupt present read in
      bind_ok
        (collect_candidates p file file_len validation resource_limits 0 (decoded_root_slots page))
        _ _ collected
      ∙ choose_single
          (validate_v2_root_referenced_objects_with_scope p file validation resource_limits
            file_len)
          c (new_cache resource_limits) valid

  opened_page :
      (page : OcbBootstrapPageV2) (rest : List ℕ) (metadata : OcbMetadataV1)
      → read_from file ≡ ok (page, rest)
      → select_v2_metadata p file file_len validation resource_limits page ≡ ok metadata
      → read_metadata_v2 p file file_len validation resource_limits ≡ ok metadata
  unfolding read_metadata_v2
  opened_page page rest metadata read selected =
      bind_ok (cursor read_from file) _ _ (cursor_ok read_from file page rest read) ∙ selected

-- The file whose first slot was being overwritten.
abbrev pub torn_file : List ℕ → List ℕ → List ℕ → List ℕ → List ℕ
torn_file bytes torn kept rest = (take 64 bytes ++ ((torn ++ kept) ++ drop 384 bytes)) ++ rest

-- A commit that dies while it overwrites root slot 0 does not hide the snapshot of slot 1. Let
-- `write_to` have written a page and, for its slot 1, a root slot, both with fields of their Rust
-- types; let any 160 bytes stand in slot 0 that do not decode, with an error that says that the
-- file is corrupt; let slot 1 not be empty, its candidate be readable, and the objects of its root
-- be valid. Then `read_metadata_v2` returns the metadata of slot 1.
pub torn_commit_slot0 :
    (p : Platform) (validation : OcbOpenValidationMode) (resource_limits : OcbResourceLimits)
    (file_len : ℕ) (x : OcbBootstrapPageV2) (slot : OcbRootSlotV2) (bytes torn kept rest : List ℕ)
    (e : ArcadiaTioError) (c : OcbRootCandidateV2) (metadata : OcbMetadataV1)
    → BootstrapV2.IsTyped x
    → RootSlot.IsTyped slot
    → BootstrapV2.write_to x ≡ ok bytes
    → RootSlot.write_to slot ≡ ok kept
    → length torn ≡ root_slot_v2_len
    → cursor SlotDecode.read_from torn ≡ err e
    → is_discardable_candidate_error e ≡ true
    → is_empty (stored slot) ≡ false
    → read_candidate p
        (torn_file bytes torn kept rest)
        file_len
        validation
        resource_limits
        1
        (stored slot)
      ≡ ok c
    → (validate_v2_root_referenced_objects_with_scope p
        (torn_file bytes torn kept rest)
        validation
        resource_limits
        file_len
        c.root
        (new_cache resource_limits)).0
      ≡ ok metadata
    → read_metadata_v2 p (torn_file bytes torn kept rest) file_len validation resource_limits
      ≡ ok metadata
torn_commit_slot0 p validation resource_limits file_len x slot bytes torn kept rest e c metadata t
      ts h hs size broken corrupt present read valid =
    let (page, opened, _, slots) = torn_slot0 x slot bytes torn kept rest t ts h hs size in
    let file = torn_file bytes torn kept rest in
    opened_page p file file_len validation resource_limits page rest metadata opened (
      select_second p file file_len validation resource_limits page e (stored slot) c metadata
        (slots ∙ ap (λ first. first ∷ ok (stored slot) ∷ []) broken) corrupt present read valid)
