-- ===== src/OrderingProof/Laws.antt =====
-- The ordering proof: the round trip through `write_to` and `read_from_bytes_with_budget`.
use arcadia_tio_rs.Base.{
  ℕ, ◌+◌, ◌*◌, ◌^◌, ◌<◌, ◌≡◌, ◌∙◌, refl, sym, ap, arith, List, [], ◌∷◌, ◌++◌, length, length-append,
  append-nil, concat, map, sum, total, length-concat, true, not, ◌==◌,
}
use arcadia_tio_rs.Error.{ok, >>=-eq-ok, ok-injective}
use arcadia_tio_rs.Bytes.{write_u32, bytes_eq}
use arcadia_tio_rs.Bytes.Laws.{length-write_u32}
use arcadia_tio_rs.Bytes.Reads.{
  Reads, step, passed, lifted, pure-Reads, read_exact-Reads, read_u16-Reads, read_u32-Reads,
  read_u64-Reads, cursor-Reads,
}
use arcadia_tio_rs.Crc.{crc32c, seal}
use arcadia_tio_rs.Crc.Range.{unseal-seal}
use arcadia_tio_rs.Format.{
  ordering_proof_magic_v1, ordering_proof_v1_header_len, ordering_key_v1_len,
  row_group_ordering_proof_v1_len,
}
use arcadia_tio_rs.Limits.{MetadataMaterializationBudget, charge}
use arcadia_tio_rs.Object.Laws.{sealed-eq-ok}
use arcadia_tio_rs.Table.{Platform, write_records, count_u32, count_u16}
use arcadia_tio_rs.Table.Reads.{
  counted, told, stepped, sought, validate_record_sequence-Reads, read_record_sequence-Reads,
  checked_materialized_vec_bytes-ok, checked_materialized_sum-ok, write_records-eq-ok,
  count_u32-eq-ok, count_u16-eq-ok, length-concat-map,
}
use arcadia_tio_rs.Records.OrderingKey
use arcadia_tio_rs.Records.OrderingKey.Laws as OrderingKeyLaws
use arcadia_tio_rs.Records.OrderingKey.Decode as OrderingKeyDecode
use arcadia_tio_rs.Records.OrderingProof
use arcadia_tio_rs.Records.OrderingProof.Laws as OrderingProofLaws
use arcadia_tio_rs.Records.OrderingProof.Decode as OrderingProofDecode
use arcadia_tio_rs.OrderingProof.{
  OcbOrderingProofV1, IsTyped, front, encode_without_checksum, write_to,
}
use arcadia_tio_rs.OrderingProof.Decode.{decode, read_from_bytes_with_budget}

-- The bytes of the table, all but the trailer.
unfoldable pub body : OcbOrderingProofV1 → List ℕ
body x =
    concat (front x (length x.keys) (length x.row_group_proofs))
    ++ concat (
        concat (map OrderingKey.body x.keys)
        ∷ concat (map OrderingProof.body x.row_group_proofs)
        ∷ [])

-- The bytes that the budget is charged for.
unfoldable pub materialized : Platform → OcbOrderingProofV1 → ℕ
materialized p x = sum (
    length x.keys * p.size_of_ordering_key
    ∷ length x.row_group_proofs * p.size_of_ordering_proof
    ∷ [])

-- The reader has room for the table: no size overflows, the budget covers it, the allocator grants it.
pub record HasRoom (p : Platform) (x : OcbOrderingProofV1)
    (budget charged : MetadataMaterializationBudget) : Type 0 where
  pub small : materialized p x < 2 ^ 64
  pub paid : charge budget (materialized p x) ≡ ok charged
  pub keys_granted : p.grants (length x.keys * p.size_of_ordering_key) ≡ true
  pub row_group_proofs_granted :
      p.grants (length x.row_group_proofs * p.size_of_ordering_proof) ≡ true

decode-Reads :
    (p : Platform) (x : OcbOrderingProofV1) (budget charged : MetadataMaterializationBudget)
    (crc : ℕ)
    → IsTyped x
    → x.version ≡ 1
    → length x.keys < 2 ^ 16
    → length x.row_group_proofs < 2 ^ 32
    → HasRoom p x budget charged
    → Reads
        (decode p (length (body x ++ write_u32 0)) budget crc)
        (body x)
        (write_u32 0)
        (record x { crc32c = crc }, charged)
unfolding decode body front bytes_eq materialized
decode-Reads p x budget charged crc t version_one few_keys few_row_group_proofs room =
    let keys : List ℕ = concat (map OrderingKey.body x.keys) in
    let row_group_proofs : List ℕ = concat (map OrderingProof.body x.row_group_proofs) in
    let crc_size : length (write_u32 0) ≡ 4 = length-write_u32 0 in
    let whole_size : length (concat (keys ∷ row_group_proofs ∷ []) ++ write_u32 0)
        ≡ length (concat (keys ∷ row_group_proofs ∷ [])) + length (write_u32 0) =
      length-append (concat (keys ∷ row_group_proofs ∷ [])) (write_u32 0) in
    let tables_size : length (concat (keys ∷ row_group_proofs ∷ []))
        ≡ total (keys ∷ row_group_proofs ∷ []) =
      length-concat (keys ∷ row_group_proofs ∷ []) in
    let after_keys : length (keys ++ ((row_group_proofs ++ []) ++ write_u32 0))
        ≡ length keys + length ((row_group_proofs ++ []) ++ write_u32 0) =
      length-append keys ((row_group_proofs ++ []) ++ write_u32 0) in
    let left_keys : length ((row_group_proofs ++ []) ++ write_u32 0)
        ≡ length (row_group_proofs ++ []) + length (write_u32 0) =
      length-append (row_group_proofs ++ []) (write_u32 0) in
    let tail_keys : length (row_group_proofs ++ []) ≡ length row_group_proofs =
      ap length (append-nil row_group_proofs) in
    let after_row_group_proofs : length (row_group_proofs ++ ([] ++ write_u32 0))
        ≡ length row_group_proofs + length ([] ++ write_u32 0) =
      length-append row_group_proofs ([] ++ write_u32 0) in
    let size_keys : length keys ≡ length x.keys * ordering_key_v1_len =
      length-concat-map OrderingKey.body ordering_key_v1_len OrderingKeyLaws.length-body x.keys in
    let size_row_group_proofs : length row_group_proofs
        ≡ length x.row_group_proofs * row_group_ordering_proof_v1_len =
      length-concat-map OrderingProof.body row_group_ordering_proof_v1_len
        OrderingProofLaws.length-body x.row_group_proofs in
    step _ (read_exact-Reads ordering_proof_magic_v1 _ 8 refl) (
      passed _ refl (
        step _ (read_u16-Reads x.version _ t.version_u16) (
          passed _ (ap (λ v. not (v == 1)) version_one) (
            step _ (read_u16-Reads ordering_proof_v1_header_len _ (omega arith)) (
              passed _ refl (
                step _ (read_u16-Reads (length x.keys) _ few_keys) (
                  step _ (read_u16-Reads x.flags _ t.flags_u16) (
                    step _ (read_u32-Reads (length x.row_group_proofs) _ few_row_group_proofs) (
                      step _ (read_u64-Reads 0 _ (omega arith)) (
                        counted OrderingKey.body ordering_key_v1_len OrderingKeyLaws.length-body _ _
                          x.keys _ (row_group_proofs ++ []) (omega arith) (omega arith)
                          (omega arith)
                          (told _ (
                            stepped
                              (validate_record_sequence-Reads OrderingKeyDecode.read_from
                                OrderingKey.body OrderingKey.IsTyped OrderingKeyLaws.read_from-Reads
                                x.keys _ t.keys_typed)
                              (counted OrderingProof.body row_group_ordering_proof_v1_len
                                OrderingProofLaws.length-body _ _ x.row_group_proofs _ []
                                (omega arith) (omega arith) (omega arith)
                                (stepped
                                  (validate_record_sequence-Reads OrderingProofDecode.read_from
                                    OrderingProof.body OrderingProof.IsTyped
                                    OrderingProofLaws.read_from-Reads x.row_group_proofs _
                                    t.row_group_proofs_typed)
                                  (lifted _
                                    (checked_materialized_vec_bytes-ok p.size_of_ordering_key
                                      (length x.keys) (omega (arith, room.small)))
                                    (lifted _
                                      (checked_materialized_vec_bytes-ok p.size_of_ordering_proof
                                        (length x.row_group_proofs) (omega (arith, room.small)))
                                      (lifted _ (checked_materialized_sum-ok _ room.small) (
                                        lifted _ room.paid (
                                          sought (
                                            step _
                                              (read_record_sequence-Reads
                                                OrderingKeyDecode.read_from OrderingKey.body
                                                OrderingKey.IsTyped OrderingKeyLaws.read_from-Reads
                                                p _ _ x.keys _ t.keys_typed room.keys_granted)
                                              (step _
                                                (read_record_sequence-Reads
                                                  OrderingProofDecode.read_from OrderingProof.body
                                                  OrderingProof.IsTyped
                                                  OrderingProofLaws.read_from-Reads p _ _
                                                  x.row_group_proofs _ t.row_group_proofs_typed
                                                  room.row_group_proofs_granted)
                                                (pure-Reads _ _))))))))))))))))))))))

-- What `encode_without_checksum` accepts, and what it returns then.
encoded :
    (x : OcbOrderingProofV1) {buf : List ℕ}
    → encode_without_checksum x ≡ ok buf
    → (length x.keys < 2 ^ 16)
      × (length x.row_group_proofs < 2 ^ 32)
      × (buf ≡ body x ++ write_u32 0)
unfolding encode_without_checksum body
encoded x h =
    let (n0, counts0, more0) = >>=-eq-ok (count_u16 (length x.keys) _) _ h in
    let (n1, counts1, more1) = >>=-eq-ok (count_u32 (length x.row_group_proofs) _) _ more0 in
    let (bytes0, writes0, rest0) = >>=-eq-ok (write_records OrderingKey.write_to x.keys) _ more1 in
    let (bytes1, writes1, rest1) =
      >>=-eq-ok (write_records OrderingProof.write_to x.row_group_proofs) _ rest0 in
    let (same0, few0) = count_u16-eq-ok (length x.keys) _ counts0 in
    let wrote0 : bytes0 ≡ concat (map OrderingKey.body x.keys) =
      write_records-eq-ok OrderingKey.write_to OrderingKey.body OrderingKeyLaws.write_to-eq-ok
        x.keys bytes0 writes0 in
    let (same1, few1) = count_u32-eq-ok (length x.row_group_proofs) _ counts1 in
    let wrote1 : bytes1 ≡ concat (map OrderingProof.body x.row_group_proofs) =
      write_records-eq-ok OrderingProof.write_to OrderingProof.body OrderingProofLaws.write_to-eq-ok
        x.row_group_proofs bytes1 writes1 in
    (
      few0,
      few1,
      sym (ok-injective rest1)
          ∙ ap (λ v. (concat (front x v n1) ++ concat (bytes0 ∷ bytes1 ∷ [])) ++ write_u32 0) same0
          ∙ ap
              (λ v.
                (concat (front x (length x.keys) v) ++ concat (bytes0 ∷ bytes1 ∷ []))
                ++ write_u32 0)
              same1
          ∙ ap
              (λ v.
                (concat (front x (length x.keys) (length x.row_group_proofs))
                  ++ concat (v ∷ bytes1 ∷ []))
                ++ write_u32 0)
              wrote0
          ∙ ap
              (λ v.
                (concat (front x (length x.keys) (length x.row_group_proofs))
                  ++ concat (concat (map OrderingKey.body x.keys) ∷ v ∷ []))
                ++ write_u32 0)
              wrote1,
    )

-- An ordering proof whose fields have their Rust types, of version 1, that `write_to` wrote, is
-- read back by `read_from_bytes_with_budget` with the checksum that was stored, and the budget
-- returned is the one that a charge for its keys and row-group proofs leaves; this where that
-- charge is accepted, the byte count is below 2 ^ 64 and the allocator grants the requests.
pub ordering_proof_read_from-write_to :
    (p : Platform) (x : OcbOrderingProofV1) (budget charged : MetadataMaterializationBudget)
    (bytes : List ℕ)
    → IsTyped x
    → x.version ≡ 1
    → write_to x ≡ ok bytes
    → HasRoom p x budget charged
    → read_from_bytes_with_budget p bytes budget
      ≡ ok (record x { crc32c = crc32c (body x ++ write_u32 0) }, charged)
unfolding write_to read_from_bytes_with_budget
ordering_proof_read_from-write_to p x budget charged bytes t version_one h room =
    let (buf, e, whole) = sealed-eq-ok (encode_without_checksum x) h in
    let (few0, few1, same) = encoded x e in
    rw (whole ∙ ap seal same) (
      rw (unseal-seal "OCB ordering proof crc mismatch" (body x))
        (cursor-Reads (decode-Reads p x budget charged _ t version_one few0 few1 room)))
