-- ===== src/Records/DictionaryDesc/Laws.antt =====
-- `OcbDictionaryDescV1`: its length, and the round trip.
use arcadia_tio_rs.Base.{ℕ, ◌≡◌, sym, refl, List, length}
use arcadia_tio_rs.Error.{ok, then-eq-ok, ok-injective}
use arcadia_tio_rs.Bytes.Reads.{Reads, step, lifted, pure-Reads, read_u16-Reads, read_u32-Reads}
use arcadia_tio_rs.Kinds.PhysicalType
use arcadia_tio_rs.Kinds.DictionaryValueKind
use arcadia_tio_rs.BodyRef.Laws as BodyRef
use arcadia_tio_rs.Records.DictionaryDesc.{
  OcbDictionaryDescV1, IsTyped, check_writable, body, write_to,
}
use arcadia_tio_rs.Records.DictionaryDesc.Decode.{read_from}

pub length-body : (x : OcbDictionaryDescV1) → length (body x) ≡ 56
unfolding body
length-body x = refl

pub write_to-eq-ok :
    (x : OcbDictionaryDescV1) (bytes : List ℕ) → write_to x ≡ ok bytes → bytes ≡ body x
unfolding write_to
write_to-eq-ok x bytes h = sym (ok-injective ((then-eq-ok (check_writable x) _ h).1))

-- `read_from` reads back the record from the bytes that `write_to` writes, and leaves what follows.
pub read_from-Reads :
    (x : OcbDictionaryDescV1) (rest : List ℕ) → IsTyped x → Reads read_from (body x) rest x
unfolding read_from body
read_from-Reads x rest t = step _ (read_u32-Reads x.dictionary_id _ t.dictionary_id_u32) (
    step _ (read_u32-Reads x.name_string_id _ t.name_string_id_u32) (
      step _ (read_u16-Reads _ _ (PhysicalType.to_u16-lt x.code_physical_type)) (
        lifted _ (PhysicalType.from_u16-to_u16 x.code_physical_type) (
          step _ (read_u16-Reads _ _ (DictionaryValueKind.to_u16-lt x.value_kind)) (
            lifted _ (DictionaryValueKind.from_u16-to_u16 x.value_kind) (
              step _ (read_u32-Reads x.flags _ t.flags_u32) (
                step _ (BodyRef.read_from-Reads x.values_ref _ t.values_ref_typed) (
                  step _ (read_u32-Reads x.entry_count _ t.entry_count_u32)
                    (step _ (read_u32-Reads x.reserved0 _ t.reserved0_u32) (pure-Reads _ _))))))))))
