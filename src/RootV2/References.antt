-- ===== src/RootV2/References.antt =====
-- What `OcbRootV2::validate_references` accepts.
use arcadia_tio_rs.Base.{ℕ, ◌≡◌, ◌⊎◌, true}
use arcadia_tio_rs.Error.{ok, then-eq-ok}
use arcadia_tio_rs.Kinds.{OcbBodyKindV1}
use arcadia_tio_rs.BodyRef.{
  OcbBodyRefV2, validate, validate_optional_ref, validate_optional_ref_any_kind, is_null,
}
use arcadia_tio_rs.BodyRef.Bounds.{IsInFile, validate-IsInFile, validate_optional_ref_sound}
use arcadia_tio_rs.RootV2.{OcbRootV2, diagnostics_kinds, validate_references, validate_ref_kinds}

abbrev pub IsNullOrInFile : OcbBodyRefV2 → OcbBodyKindV1 → ℕ → Type 0
IsNullOrInFile r kind file_len = (is_null r ≡ true) ⊎ IsInFile r kind file_len

-- If `validate_references` accepts a root, its schema and its row-group index lie inside the file
-- without overflow and have the kind of their field, and each of its dictionary index, ordering
-- proof, debug metadata, four key tuples and previous root is null or does so too.
pub references-IsInFile :
    (root : OcbRootV2) (file_len : ℕ)
    → validate_references root file_len ≡ ok tt
    → IsInFile root.schema_ref OcbBodyKindV1.schema file_len
      × IsInFile root.row_group_index_ref OcbBodyKindV1.row_group_index file_len
      × IsNullOrInFile root.dictionary_index_ref OcbBodyKindV1.dictionary_index file_len
      × IsNullOrInFile root.ordering_proof_ref OcbBodyKindV1.ordering_proof file_len
      × IsNullOrInFile root.debug_json_ref OcbBodyKindV1.debug_json_metadata file_len
      × IsNullOrInFile root.first_key_tuple_ref OcbBodyKindV1.key_tuple file_len
      × IsNullOrInFile root.last_key_tuple_ref OcbBodyKindV1.key_tuple file_len
      × IsNullOrInFile root.append_first_key_tuple_ref OcbBodyKindV1.key_tuple file_len
      × IsNullOrInFile root.append_last_key_tuple_ref OcbBodyKindV1.key_tuple file_len
      × IsNullOrInFile root.previous_root_ref OcbBodyKindV1.root file_len
unfolding validate_references
references-IsInFile root file_len h =
    let (_, h0) = then-eq-ok (validate_ref_kinds root) _ h in
    let (schema, h1) = then-eq-ok (validate root.schema_ref OcbBodyKindV1.schema file_len) _ h0 in
    let (groups, g0) =
      then-eq-ok (validate root.row_group_index_ref OcbBodyKindV1.row_group_index file_len) _ h1 in
    let (o0, g1) =
      then-eq-ok
        (validate_optional_ref root.dictionary_index_ref OcbBodyKindV1.dictionary_index file_len) _
        g0 in
    let (o1, g2) =
      then-eq-ok
        (validate_optional_ref root.ordering_proof_ref OcbBodyKindV1.ordering_proof file_len) _
        g1 in
    let (o2, g3) =
      then-eq-ok
        (validate_optional_ref root.debug_json_ref OcbBodyKindV1.debug_json_metadata file_len) _
        g2 in
    let (o3, g4) =
      then-eq-ok (validate_optional_ref root.first_key_tuple_ref OcbBodyKindV1.key_tuple file_len) _
        g3 in
    let (o4, g5) =
      then-eq-ok (validate_optional_ref root.last_key_tuple_ref OcbBodyKindV1.key_tuple file_len) _
        g4 in
    let (o5, g6) =
      then-eq-ok
        (validate_optional_ref root.append_first_key_tuple_ref OcbBodyKindV1.key_tuple file_len) _
        g5 in
    let (o6, g7) =
      then-eq-ok
        (validate_optional_ref root.append_last_key_tuple_ref OcbBodyKindV1.key_tuple file_len) _
        g6 in
    let (_, g8) =
      then-eq-ok
        (validate_optional_ref_any_kind root.commit_diagnostics_ref diagnostics_kinds file_len) _
        g7 in
    let (previous, _) =
      then-eq-ok (validate_optional_ref root.previous_root_ref OcbBodyKindV1.root file_len) (ok tt)
        g8 in
    (
      (validate-IsInFile root.schema_ref OcbBodyKindV1.schema file_len).0 schema,
      (validate-IsInFile root.row_group_index_ref OcbBodyKindV1.row_group_index file_len).0 groups,
      validate_optional_ref_sound root.dictionary_index_ref OcbBodyKindV1.dictionary_index file_len
          o0,
      validate_optional_ref_sound root.ordering_proof_ref OcbBodyKindV1.ordering_proof file_len o1,
      validate_optional_ref_sound root.debug_json_ref OcbBodyKindV1.debug_json_metadata file_len o2,
      validate_optional_ref_sound root.first_key_tuple_ref OcbBodyKindV1.key_tuple file_len o3,
      validate_optional_ref_sound root.last_key_tuple_ref OcbBodyKindV1.key_tuple file_len o4,
      validate_optional_ref_sound root.append_first_key_tuple_ref OcbBodyKindV1.key_tuple file_len
          o5,
      validate_optional_ref_sound root.append_last_key_tuple_ref OcbBodyKindV1.key_tuple file_len
          o6,
      validate_optional_ref_sound root.previous_root_ref OcbBodyKindV1.root file_len previous,
    )
