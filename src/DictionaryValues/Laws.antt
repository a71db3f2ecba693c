-- ===== src/DictionaryValues/Laws.antt =====
-- The dictionary values: the round trip through `write_to` and `read_from_bytes_with_budget`.
use arcadia_tio_rs.Base.{
  ℕ, ◌+◌, ◌-◌, ◌*◌, ◌%◌, ◌^◌, ◌<◌, ◌≡◌, ◌∙◌, refl, sym, ap, arith, List, [], ◌∷◌, ◌++◌, length,
  append_assoc, concat, total, length-concat, take, take_at, All, sum, Bool, true, not, ◌==◌, ◌&&◌,
}
use arcadia_tio_rs.Error.{ok, >>=-eq-ok, then-eq-ok, fail_if-eq-ok, ok-injective}
use arcadia_tio_rs.Bytes.{write_u32, write_u64, bytes_eq, cursor}
use arcadia_tio_rs.Bytes.Reads.{
  Reads, step, at_end, passed, lifted, pure-Reads, read_exact-Reads, read_u16-Reads, read_u32-Reads,
  read_u64-Reads, cursor-Reads,
}
use arcadia_tio_rs.Crc.{crc32c, seal}
use arcadia_tio_rs.Crc.Range.{unseal-seal}
use arcadia_tio_rs.Format.{dictionary_values_magic_v1, dictionary_values_v1_header_len}
use arcadia_tio_rs.Kinds.DictionaryValueKind
use arcadia_tio_rs.Limits.{MetadataMaterializationBudget, charge}
use arcadia_tio_rs.Object.Laws.{sealed-eq-ok}
use arcadia_tio_rs.Table.{Platform, count_u32}
use arcadia_tio_rs.Table.Reads.{
  positioned, told, sought, granted, checked_record_count-ok, checked_payload_len-ok,
  checked_materialized_vec_bytes-ok, checked_materialized_sum-ok, count_u32-eq-ok,
}
use arcadia_tio_rs.DictionaryValues.{
  OcbDictionaryValuesV1, IsTyped, is_fixed, check_widths, offsets_from, write_offsets, front,
  encode_without_checksum, write_to,
}
use arcadia_tio_rs.DictionaryValues.Decode.{decode, read_from_bytes_with_budget}
use arcadia_tio_rs.DictionaryValues.Offsets.{
  ends_from, write_offsets-ends_from, HasWidth, check_offsets-Reads, read_values-Reads,
}
use arcadia_tio_rs.DictionaryValues.Layout.{taken, body, body-taken, offsets_fit, values_fit}

unfoldable pub materialized : Platform → OcbDictionaryValuesV1 → ℕ
materialized p x = sum (length x.values * p.size_of_bytes ∷ total x.values ∷ [])

-- The reader has room for the values: no size overflows, the budget covers them, the allocator
-- grants them.
pub record HasRoom (p : Platform) (x : OcbDictionaryValuesV1)
    (budget charged : MetadataMaterializationBudget) : Type 0 where
  pub few : length x.values + 1 < 2 ^ 32
  pub small : materialized p x < 2 ^ 64
  pub paid : charge budget (materialized p x) ≡ ok charged
  pub vector_granted : p.grants (length x.values * p.size_of_bytes) ≡ true
  pub values_granted : All (λ value. p.grants (length value) ≡ true) x.values

decode-Reads :
    (p : Platform) (x : OcbDictionaryValuesV1) (budget charged : MetadataMaterializationBudget)
    (crc : ℕ)
    → IsTyped x
    → x.version ≡ 1
    → All (HasWidth (is_fixed x.value_kind) x.fixed_width) x.values
    → HasRoom p x budget charged
    → Reads
        (decode p (length (body x ++ write_u32 0)) budget crc)
        (taken x)
        (concat x.values ++ write_u32 0)
        (record x { crc32c = crc }, charged)
unfolding decode body taken front bytes_eq materialized
decode-Reads p x budget charged crc t version_one widths room =
    let count : (length x.values + 1) - 1 ≡ length x.values = omega arith in
    let run : length (concat x.values) ≡ total x.values = length-concat x.values in
    let small : total x.values < 2 ^ 64 = omega (arith, room.small) in
    let cut : take (total x.values) (concat x.values ++ write_u32 0) ≡ concat x.values =
      take_at (total x.values) (concat x.values) (write_u32 0) run in
    step _ (read_exact-Reads dictionary_values_magic_v1 _ 8 refl) (
      passed _ refl (
        step _ (read_u16-Reads x.version _ t.version_u16) (
          passed _ (ap (λ v. not (v == 1)) version_one) (
            step _ (read_u16-Reads dictionary_values_v1_header_len _ (omega arith)) (
              passed _ refl (
                step _
                  (read_u16-Reads (DictionaryValueKind.to_u16 x.value_kind) _
                    (DictionaryValueKind.to_u16-lt x.value_kind))
                  (lifted _ (DictionaryValueKind.from_u16-to_u16 x.value_kind) (
                    step _ (read_u16-Reads 0 _ (omega arith)) (
                      step _ (read_u32-Reads (length x.values) _ (omega (arith, room.few))) (
                        step _ (read_u32-Reads x.fixed_width _ t.fixed_width_u32) (
                          step _ (read_u64-Reads (length (concat x.values)) _ (omega arith)) (
                            step _ (read_u32-Reads 0 _ (omega arith)) (
                              step _ (read_u32-Reads 0 _ (omega arith)) (
                                rw run (
                                  passed _ (ground (arith, room.few)) (
                                    positioned _ _ (
                                      lifted _
                                        (checked_record_count-ok _ _ (length x.values + 1) 8 _
                                          (omega (arith, room.few)) (offsets_fit x))
                                        (rw count (
                                          told _ (
                                            step _ (read_u64-Reads 0 _ (omega arith)) (
                                              passed _ refl (
                                                at_end (
                                                  step _
                                                    (check_offsets-Reads x.value_kind x.fixed_width
                                                      (total x.values) 0 x.values _ widths
                                                      (omega arith) small)
                                                    (passed _ (ground arith) (
                                                      positioned _ _ (
                                                        lifted _
                                                          (checked_payload_len-ok _ _ _ _
                                                            (values_fit x))
                                                          (told _ (
                                                            lifted _
                                                            (checked_materialized_vec_bytes-ok
                                                            p.size_of_bytes (length x.values)
                                                            (omega (arith, room.small)))
                                                            (lifted _
                                                            (checked_materialized_sum-ok _
                                                            room.small)
                                                            (lifted _ room.paid (
                                                            granted p _ _ room.vector_granted (
                                                            sought (
                                                            step _
                                                            (read_u64-Reads 0 _ (omega arith))
                                                            (rw cut (
                                                            at_end (
                                                            step _
                                                            (read_values-Reads p (concat x.values) 0
                                                            x.values _ refl room.values_granted
                                                            (omega arith))
                                                            (pure-Reads _
                                                            _)))))))))))))))))))))))))))))))))))))

-- The widths that the writer checks, of values of fewer than 2 ^ 32 bytes.
widths_checked :
    (fixed : Bool) (fixed_width : ℕ) (values : List (List ℕ))
    → All (λ value. length value < 2 ^ 32) values
    → check_widths fixed fixed_width values ≡ ok tt
    → All (HasWidth fixed fixed_width) values
unfolding check_widths
widths_checked fixed fixed_width [] short h = tt
widths_checked fixed fixed_width (value ∷ values) (s, ss) h =
    let (width, h1) = fail_if-eq-ok (fixed && not (length value % 2 ^ 32 == fixed_width)) _ _ h in
    let whole : length value % 2 ^ 32 ≡ length value = omega arith in
    (rw whole at width, widths_checked fixed fixed_width values ss h1)

-- What `encode_without_checksum` accepts, and what it returns then.
encoded :
    (x : OcbDictionaryValuesV1) {buf : List ℕ}
    → encode_without_checksum x ≡ ok buf
    → (check_widths (is_fixed x.value_kind) x.fixed_width x.values ≡ ok tt)
      × (buf ≡ body x ++ write_u32 0)
unfolding encode_without_checksum body taken
encoded x h =
    let (count, counts, h1) = >>=-eq-ok (count_u32 (length x.values) _) _ h in
    let (_, h2) = fail_if-eq-ok (is_fixed x.value_kind && x.fixed_width == 0) _ _ h1 in
    let (_, h3) = fail_if-eq-ok (not (is_fixed x.value_kind) && not (x.fixed_width == 0)) _ _ h2 in
    let (widths, done) =
      then-eq-ok (check_widths (is_fixed x.value_kind) x.fixed_width x.values) _ h3 in
    let (same, _) = count_u32-eq-ok (length x.values) _ counts in
    (
      widths,
      sym (ok-injective done)
          ∙ ap
              (λ n.
                (concat (front x n) ++ (write_offsets (offsets_from 0 x.values) ++ concat x.values))
                ++ write_u32 0)
              same
          ∙ ap
              (λ offsets.
                (concat (front x (length x.values)) ++ (offsets ++ concat x.values)) ++ write_u32 0)
              (write_offsets-ends_from 0 x.values)
          ∙ ap (λ bytes. bytes ++ write_u32 0)
              (sym (
                append_assoc (concat (front x (length x.values)))
                  (write_u64 0 ++ ends_from 0 x.values) (concat x.values))),
    )

-- Dictionary values whose fields have their Rust types, of version 1, each of fewer than 2 ^ 32
-- bytes, that `write_to` wrote, are read back through their offsets by
-- `read_from_bytes_with_budget` with the checksum that was stored, and the budget returned is the
-- one that a charge for the values and their bytes leaves; this where there are fewer than 2 ^ 32
-- - 1 values, that charge is accepted, the byte count is below 2 ^ 64 and the allocator grants the
-- requests.
pub dictionary_values_read_from-write_to :
    (p : Platform) (x : OcbDictionaryValuesV1) (budget charged : MetadataMaterializationBudget)
    (bytes : List ℕ)
    → IsTyped x
    → x.version ≡ 1
    → All (λ value. length value < 2 ^ 32) x.values
    → write_to x ≡ ok bytes
    → HasRoom p x budget charged
    → read_from_bytes_with_budget p bytes budget
      ≡ ok (record x { crc32c = crc32c (body x ++ write_u32 0) }, charged)
unfolding write_to read_from_bytes_with_budget
dictionary_values_read_from-write_to p x budget charged bytes t version_one short h room =
    let (buf, e, whole) = sealed-eq-ok (encode_without_checksum x) h in
    let (checked, same) = encoded x e in
    let widths = widths_checked (is_fixed x.value_kind) x.fixed_width x.values short checked in
    let parts : body x ++ write_u32 0 ≡ taken x ++ (concat x.values ++ write_u32 0) =
      body-taken x in
    rw (whole ∙ ap seal same) (
      rw (unseal-seal "OCB dictionary values crc mismatch" (body x)) (
        ap
          (cursor
            (decode p (length (body x ++ write_u32 0)) budget (crc32c (body x ++ write_u32 0))))
          parts
        ∙ cursor-Reads (decode-Reads p x budget charged _ t version_one widths room)))
