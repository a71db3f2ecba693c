-- ===== src/RowGroupIndexDelta/Laws.antt =====
-- The row-group index delta: the round trip through `write_to` and `read_from_bytes_with_budget`.
use arcadia_tio_rs.Base.{
  ℕ, ◌+◌, ◌*◌, ◌^◌, ◌<◌, ◌≡◌, ◌∙◌, refl, sym, ap, arith, List, [], ◌∷◌, ◌++◌, length, length-append,
  append-nil, concat, map, All, All-and, sum, total, length-concat, true, false, not, ◌==◌,
}
use arcadia_tio_rs.Error.{ok, then-eq-ok, fail_if-eq-ok, >>=-eq-ok, ok-injective}
use arcadia_tio_rs.Bytes.{write_u32, bytes_eq}
use arcadia_tio_rs.Bytes.Laws.{length-write_u32}
use arcadia_tio_rs.Bytes.Reads.{
  Reads, step, passed, lifted, pure-Reads, read_exact-Reads, read_u16-Reads, read_u32-Reads,
  cursor-Reads,
}
use arcadia_tio_rs.Crc.{crc32c, seal}
use arcadia_tio_rs.Crc.Range.{unseal-seal}
use arcadia_tio_rs.Format.{
  row_group_index_delta_magic_v1, row_group_index_delta_v1_header_len, row_group_desc_v1_len,
  column_chunk_desc_v1_len, column_stats_v1_len, ordering_key_v1_len,
  row_group_ordering_proof_v1_len,
}
use arcadia_tio_rs.Limits.{MetadataMaterializationBudget, charge}
use arcadia_tio_rs.Object.Laws.{sealed-eq-ok}
use arcadia_tio_rs.Table.{Platform, write_records, count_u32, count_u16}
use arcadia_tio_rs.Table.Reads.{
  counted, told, stepped, sought, validate_record_sequence-Reads, read_record_sequence-Reads,
  checked_materialized_vec_bytes-ok, checked_materialized_sum-ok, write_records-eq-ok,
  write_records-All, count_u32-eq-ok, count_u16-eq-ok, length-concat-map,
}
use arcadia_tio_rs.Records.RowGroupDesc
use arcadia_tio_rs.Records.RowGroupDesc.Laws as RowGroupDescLaws
use arcadia_tio_rs.Records.RowGroupDesc.Decode as RowGroupDescDecode
use arcadia_tio_rs.Records.ColumnChunkDesc
use arcadia_tio_rs.Records.ColumnChunkDesc.Laws as ColumnChunkDescLaws
use arcadia_tio_rs.Records.ColumnChunkDesc.Decode as ColumnChunkDescDecode
use arcadia_tio_rs.Records.ColumnStats
use arcadia_tio_rs.Records.ColumnStats.Laws as ColumnStatsLaws
use arcadia_tio_rs.Records.ColumnStats.{OcbColumnStatsV1}
use arcadia_tio_rs.Records.ColumnStats.Decode as ColumnStatsDecode
use arcadia_tio_rs.Records.OrderingKey
use arcadia_tio_rs.Records.OrderingKey.Laws as OrderingKeyLaws
use arcadia_tio_rs.Records.OrderingKey.Decode as OrderingKeyDecode
use arcadia_tio_rs.Records.OrderingProof
use arcadia_tio_rs.Records.OrderingProof.Laws as OrderingProofLaws
use arcadia_tio_rs.Records.OrderingProof.Decode as OrderingProofDecode
use arcadia_tio_rs.RowGroupIndexDelta.{
  OcbRowGroupIndexDeltaV1, IsTyped, front, encode_without_checksum, write_to,
}
use arcadia_tio_rs.RowGroupIndexDelta.Decode.{decode, read_from_bytes_with_budget}

-- The bytes of the table, all but the trailer.
unfoldable pub body : OcbRowGroupIndexDeltaV1 → List ℕ
body x =
    concat (
      front x (length x.row_groups) (length x.column_chunks) (length x.stats)
        (length x.ordering_keys) (length x.row_group_ordering_proofs))
    ++ concat (
        concat (map RowGroupDesc.body x.row_groups)
        ∷ concat (map ColumnChunkDesc.body x.column_chunks)
        ∷ concat (map ColumnStats.body x.stats)
        ∷ concat (map OrderingKey.body x.ordering_keys)
        ∷ concat (map OrderingProof.body x.row_group_ordering_proofs)
        ∷ [])

-- The bytes that the budget is charged for.
unfoldable pub materialized : Platform → OcbRowGroupIndexDeltaV1 → ℕ
materialized p x = sum (
    length x.row_groups * p.size_of_row_group_desc
    ∷ length x.column_chunks * p.size_of_column_chunk_desc
    ∷ length x.stats * p.size_of_column_stats
    ∷ length x.ordering_keys * p.size_of_ordering_key
    ∷ length x.row_group_ordering_proofs * p.size_of_ordering_proof
    ∷ [])

-- The reader has room for the table: no size overflows, the budget covers it, the allocator grants it.
pub record HasRoom (p : Platform) (x : OcbRowGroupIndexDeltaV1)
    (budget charged : MetadataMaterializationBudget) : Type 0 where
  pub small : materialized p x < 2 ^ 64
  pub paid : charge budget (materialized p x) ≡ ok charged
  pub row_groups_granted : p.grants (length x.row_groups * p.size_of_row_group_desc) ≡ true
  pub column_chunks_granted : p.grants (length x.column_chunks * p.size_of_column_chunk_desc) ≡ true
  pub stats_granted : p.grants (length x.stats * p.size_of_column_stats) ≡ true
  pub ordering_keys_granted : p.grants (length x.ordering_keys * p.size_of_ordering_key) ≡ true
  pub row_group_ordering_proofs_granted :
      p.grants (length x.row_group_ordering_proofs * p.size_of_ordering_proof) ≡ true

IsReadable : OcbColumnStatsV1 → Type 0
IsReadable r = ColumnStats.IsTyped r × (ColumnStats.types_differ r ≡ false)

stat-Reads :
    (r : OcbColumnStatsV1) (rest : List ℕ)
    → IsReadable r
    → Reads ColumnStatsDecode.read_from (ColumnStats.body r) rest r
unfolding IsReadable
stat-Reads r rest (t, same) = ColumnStatsLaws.read_from-Reads r rest t same

decode-Reads :
    (p : Platform) (x : OcbRowGroupIndexDeltaV1) (budget charged : MetadataMaterializationBudget)
    (crc : ℕ)
    → IsTyped x
    → x.version ≡ 1
    → length x.row_groups < 2 ^ 32
    → length x.column_chunks < 2 ^ 32
    → length x.stats < 2 ^ 32
    → length x.ordering_keys < 2 ^ 16
    → length x.row_group_ordering_proofs < 2 ^ 32
    → All (λ r. ColumnStats.types_differ r ≡ false) x.stats
    → HasRoom p x budget charged
    → Reads
        (decode p (length (body x ++ write_u32 0)) budget crc)
        (body x)
        (write_u32 0)
        (record x { crc32c = crc }, charged)
unfolding decode body front bytes_eq materialized IsReadable
decode-Reads p x budget charged crc t version_one few_row_groups few_column_chunks few_stats
      few_ordering_keys few_row_group_ordering_proofs stats_agree room =
    let row_groups : List ℕ = concat (map RowGroupDesc.body x.row_groups) in
    let column_chunks : List ℕ = concat (map ColumnChunkDesc.body x.column_chunks) in
    let stats : List ℕ = concat (map ColumnStats.body x.stats) in
    let ordering_keys : List ℕ = concat (map OrderingKey.body x.ordering_keys) in
    let row_group_ordering_proofs : List ℕ =
      concat (map OrderingProof.body x.row_group_ordering_proofs) in
    let stats_fine : All IsReadable x.stats =
      All-and ColumnStats.IsTyped (λ r. ColumnStats.types_differ r ≡ false) x.stats t.stats_typed
        stats_agree in
    let crc_size : length (write_u32 0) ≡ 4 = length-write_u32 0 in
    let whole_size : length (
          concat
            (row_groups ∷ column_chunks ∷ stats ∷ ordering_keys ∷ row_group_ordering_proofs ∷ [])
          ++ write_u32 0)
        ≡ length (
            concat
              (row_groups ∷ column_chunks ∷ stats ∷ ordering_keys ∷ row_group_ordering_proofs ∷ []))
          + length (write_u32 0) =
      length-append
        (concat
          (row_groups ∷ column_chunks ∷ stats ∷ ordering_keys ∷ row_group_ordering_proofs ∷ []))
        (write_u32 0) in
    let tables_size : length (
          concat
            (row_groups ∷ column_chunks ∷ stats ∷ ordering_keys ∷ row_group_ordering_proofs ∷ []))
        ≡ total
            (row_groups ∷ column_chunks ∷ stats ∷ ordering_keys ∷ row_group_ordering_proofs ∷ []) =
      length-concat
        (row_groups ∷ column_chunks ∷ stats ∷ ordering_keys ∷ row_group_ordering_proofs ∷ []) in
    let after_row_groups : length (
          row_groups
          ++ ((column_chunks ++ (stats ++ (ordering_keys ++ (row_group_ordering_proofs ++ []))))
              ++ write_u32 0))
        ≡ length row_groups
          + length (
              (column_chunks ++ (stats ++ (ordering_keys ++ (row_group_ordering_proofs ++ []))))
              ++ write_u32 0) =
      length-append row_groups (
        (column_chunks ++ (stats ++ (ordering_keys ++ (row_group_ordering_proofs ++ []))))
        ++ write_u32 0) in
    let left_row_groups : length (
          (column_chunks ++ (stats ++ (ordering_keys ++ (row_group_ordering_proofs ++ []))))
          ++ write_u32 0)
        ≡ length (column_chunks ++ (stats ++ (ordering_keys ++ (row_group_ordering_proofs ++ []))))
          + length (write_u32 0) =
      length-append
        (column_chunks ++ (stats ++ (ordering_keys ++ (row_group_ordering_proofs ++ []))))
        (write_u32 0) in
    let tail_row_groups : length
          (column_chunks ++ (stats ++ (ordering_keys ++ (row_group_ordering_proofs ++ []))))
        ≡ length column_chunks
          + length (stats ++ (ordering_keys ++ (row_group_ordering_proofs ++ []))) =
      length-append column_chunks (stats ++ (ordering_keys ++ (row_group_ordering_proofs ++ []))) in
    let after_column_chunks : length (
          column_chunks
          ++ ((stats ++ (ordering_keys ++ (row_group_ordering_proofs ++ []))) ++ write_u32 0))
        ≡ length column_chunks
          + length
              ((stats ++ (ordering_keys ++ (row_group_ordering_proofs ++ []))) ++ write_u32 0) =
      length-append column_chunks
        ((stats ++ (ordering_keys ++ (row_group_ordering_proofs ++ []))) ++ write_u32 0) in
    let left_column_chunks : length
          ((stats ++ (ordering_keys ++ (row_group_ordering_proofs ++ []))) ++ write_u32 0)
        ≡ length (stats ++ (ordering_keys ++ (row_group_ordering_proofs ++ [])))
          + length (write_u32 0) =
      length-append (stats ++ (ordering_keys ++ (row_group_ordering_proofs ++ []))) (write_u32 0) in
    let tail_column_chunks : length (stats ++ (ordering_keys ++ (row_group_ordering_proofs ++ [])))
        ≡ length stats + length (ordering_keys ++ (row_group_ordering_proofs ++ [])) =
      length-append stats (ordering_keys ++ (row_group_ordering_proofs ++ [])) in
    let after_stats : length
          (stats ++ ((ordering_keys ++ (row_group_ordering_proofs ++ [])) ++ write_u32 0))
        ≡ length stats
          + length ((ordering_keys ++ (row_group_ordering_proofs ++ [])) ++ write_u32 0) =
      length-append stats ((ordering_keys ++ (row_group_ordering_proofs ++ [])) ++ write_u32 0) in
    let left_stats : length ((ordering_keys ++ (row_group_ordering_proofs ++ [])) ++ write_u32 0)
        ≡ length (ordering_keys ++ (row_group_ordering_proofs ++ [])) + length (write_u32 0) =
      length-append (ordering_keys ++ (row_group_ordering_proofs ++ [])) (write_u32 0) in
    let tail_stats : length (ordering_keys ++ (row_group_ordering_proofs ++ []))
        ≡ length ordering_keys + length (row_group_ordering_proofs ++ []) =
      length-append ordering_keys (row_group_ordering_proofs ++ []) in
    let after_ordering_keys : length
          (ordering_keys ++ ((row_group_ordering_proofs ++ []) ++ write_u32 0))
        ≡ length ordering_keys + length ((row_group_ordering_proofs ++ []) ++ write_u32 0) =
      length-append ordering_keys ((row_group_ordering_proofs ++ []) ++ write_u32 0) in
    let left_ordering_keys : length ((row_group_ordering_proofs ++ []) ++ write_u32 0)
        ≡ length (row_group_ordering_proofs ++ []) + length (write_u32 0) =
      length-append (row_group_ordering_proofs ++ []) (write_u32 0) in
    let tail_ordering_keys : length (row_group_ordering_proofs ++ [])
        ≡ length row_group_ordering_proofs =
      ap length (append-nil row_group_ordering_proofs) in
    let after_row_group_ordering_proofs : length (row_group_ordering_proofs ++ ([] ++ write_u32 0))
        ≡ length row_group_ordering_proofs + length ([] ++ write_u32 0) =
      length-append row_group_ordering_proofs ([] ++ write_u32 0) in
    let size_row_groups : length row_groups ≡ length x.row_groups * row_group_desc_v1_len =
      length-concat-map RowGroupDesc.body row_group_desc_v1_len RowGroupDescLaws.length-body
        x.row_groups in
    let size_column_chunks : length column_chunks
        ≡ length x.column_chunks * column_chunk_desc_v1_len =
      length-concat-map ColumnChunkDesc.body column_chunk_desc_v1_len
        ColumnChunkDescLaws.length-body x.column_chunks in
    let size_stats : length stats ≡ length x.stats * column_stats_v1_len =
      length-concat-map ColumnStats.body column_stats_v1_len ColumnStatsLaws.length-body x.stats in
    let size_ordering_keys : length ordering_keys ≡ length x.ordering_keys * ordering_key_v1_len =
      length-concat-map OrderingKey.body ordering_key_v1_len OrderingKeyLaws.length-body
        x.ordering_keys in
    let size_row_group_ordering_proofs : length row_group_ordering_proofs
        ≡ length x.row_group_ordering_proofs * row_group_ordering_proof_v1_len =
      length-concat-map OrderingProof.body row_group_ordering_proof_v1_len
        OrderingProofLaws.length-body x.row_group_ordering_proofs in
    step _ (read_exact-Reads row_group_index_delta_magic_v1 _ 8 refl) (
      passed _ refl (
        step _ (read_u16-Reads x.version _ t.version_u16) (
          passed _ (ap (λ v. not (v == 1)) version_one) (
            step _ (read_u16-Reads row_group_index_delta_v1_header_len _ (omega arith)) (
              passed _ refl (
                step _ (read_u32-Reads x.base_row_group_count _ t.base_row_group_count_u32) (
                  step _ (read_u32-Reads x.base_column_chunk_count _ t.base_column_chunk_count_u32)
                    (step _ (read_u32-Reads x.base_stat_count _ t.base_stat_count_u32) (
                      step _
                        (read_u32-Reads x.base_ordering_proof_count _
                          t.base_ordering_proof_count_u32)
                        (step _ (read_u32-Reads (length x.row_groups) _ few_row_groups) (
                          step _ (read_u32-Reads (length x.column_chunks) _ few_column_chunks) (
                            step _ (read_u32-Reads (length x.stats) _ few_stats) (
                              step _ (read_u16-Reads (length x.ordering_keys) _ few_ordering_keys) (
                                step _ (read_u16-Reads 0 _ (omega arith)) (
                                  step _
                                    (read_u32-Reads (length x.row_group_ordering_proofs) _
                                      few_row_group_ordering_proofs)
                                    (step _ (read_u32-Reads x.flags _ t.flags_u32) (
                                      step _ (read_u32-Reads 0 _ (omega arith)) (
                                        counted RowGroupDesc.body row_group_desc_v1_len
                                          RowGroupDescLaws.length-body _ _ x.row_groups _
                                          (column_chunks
                                            ++ (stats
                                                ++ (ordering_keys
                                                    ++ (row_group_ordering_proofs ++ []))))
                                          (omega arith) (omega arith) (omega arith)
                                          (told _ (
                                            stepped
                                              (validate_record_sequence-Reads
                                                RowGroupDescDecode.read_from RowGroupDesc.body
                                                RowGroupDesc.IsTyped
                                                RowGroupDescLaws.read_from-Reads x.row_groups _
                                                t.row_groups_typed)
                                              (counted ColumnChunkDesc.body column_chunk_desc_v1_len
                                                ColumnChunkDescLaws.length-body _ _ x.column_chunks
                                                _
                                                (stats
                                                  ++ (ordering_keys
                                                      ++ (row_group_ordering_proofs ++ [])))
                                                (omega arith) (omega arith) (omega arith)
                                                (stepped
                                                  (validate_record_sequence-Reads
                                                    ColumnChunkDescDecode.read_from
                                                    ColumnChunkDesc.body ColumnChunkDesc.IsTyped
                                                    ColumnChunkDescLaws.read_from-Reads
                                                    x.column_chunks _ t.column_chunks_typed)
                                                  (counted ColumnStats.body column_stats_v1_len
                                                    ColumnStatsLaws.length-body _ _ x.stats _
                                                    (ordering_keys
                                                      ++ (row_group_ordering_proofs ++ []))
                                                    (omega arith) (omega arith) (omega arith)
                                                    (stepped
                                                      (validate_record_sequence-Reads
                                                        ColumnStatsDecode.read_from ColumnStats.body
                                                        IsReadable stat-Reads x.stats _ stats_fine)
                                                      (counted OrderingKey.body ordering_key_v1_len
                                                        OrderingKeyLaws.length-body _ _
                                                        x.ordering_keys _
                                                        (row_group_ordering_proofs ++ [])
                                                        (omega arith) (omega arith) (omega arith)
                                                        (stepped
                                                          (validate_record_sequence-Reads
                                                            OrderingKeyDecode.read_from
                                                            OrderingKey.body OrderingKey.IsTyped
                                                            OrderingKeyLaws.read_from-Reads
                                                            x.ordering_keys _ t.ordering_keys_typed)
                                                          (counted OrderingProof.body
                                                            row_group_ordering_proof_v1_len
                                                            OrderingProofLaws.length-body _ _
                                                            x.row_group_ordering_proofs _ []
                                                            (omega arith) (omega arith)
                                                            (omega arith)
                                                            (stepped
                                                            (validate_record_sequence-Reads
                                                            OrderingProofDecode.read_from
                                                            OrderingProof.body OrderingProof.IsTyped
                                                            OrderingProofLaws.read_from-Reads
                                                            x.row_group_ordering_proofs _
                                                            t.row_group_ordering_proofs_typed)
                                                            (lifted _
                                                            (checked_materialized_vec_bytes-ok
                                                            p.size_of_row_group_desc
                                                            (length x.row_groups)
                                                            (omega (arith, room.small)))
                                                            (lifted _
                                                            (checked_materialized_vec_bytes-ok
                                                            p.size_of_column_chunk_desc
                                                            (length x.column_chunks)
                                                            (omega (arith, room.small)))
                                                            (lifted _
                                                            (checked_materialized_vec_bytes-ok
                                                            p.size_of_column_stats (length x.stats)
                                                            (omega (arith, room.small)))
                                                            (lifted _
                                                            (checked_materialized_vec_bytes-ok
                                                            p.size_of_ordering_key
                                                            (length x.ordering_keys)
                                                            (omega (arith, room.small)))
                                                            (lifted _
                                                            (checked_materialized_vec_bytes-ok
                                                            p.size_of_ordering_proof
                                                            (length x.row_group_ordering_proofs)
                                                            (omega (arith, room.small)))
                                                            (lifted _
                                                            (checked_materialized_sum-ok _
                                                            room.small)
                                                            (lifted _ room.paid (
                                                            sought (
                                                            step _
                                                            (read_record_sequence-Reads
                                                            RowGroupDescDecode.read_from
                                                            RowGroupDesc.body RowGroupDesc.IsTyped
                                                            RowGroupDescLaws.read_from-Reads p _ _
                                                            x.row_groups _ t.row_groups_typed
                                                            room.row_groups_granted)
                                                            (step _
                                                            (read_record_sequence-Reads
                                                            ColumnChunkDescDecode.read_from
                                                            ColumnChunkDesc.body
                                                            ColumnChunkDesc.IsTyped
                                                            ColumnChunkDescLaws.read_from-Reads p _
                                                            _ x.column_chunks _
                                                            t.column_chunks_typed
                                                            room.column_chunks_granted)
                                                            (step _
                                                            (read_record_sequence-Reads
                                                            ColumnStatsDecode.read_from
                                                            ColumnStats.body IsReadable stat-Reads p
                                                            _ _ x.stats _ stats_fine
                                                            room.stats_granted)
                                                            (step _
                                                            (read_record_sequence-Reads
                                                            OrderingKeyDecode.read_from
                                                            OrderingKey.body OrderingKey.IsTyped
                                                            OrderingKeyLaws.read_from-Reads p _ _
                                                            x.ordering_keys _ t.ordering_keys_typed
                                                            room.ordering_keys_granted)
                                                            (step _
                                                            (read_record_sequence-Reads
                                                            OrderingProofDecode.read_from
                                                            OrderingProof.body OrderingProof.IsTyped
                                                            OrderingProofLaws.read_from-Reads p _ _
                                                            x.row_group_ordering_proofs _
                                                            t.row_group_ordering_proofs_typed
                                                            room.row_group_ordering_proofs_granted)
                                                            (pure-Reads _ _)))))))))))))))))))))))))
                                                            )))))))))))))))))

-- What `encode_without_checksum` accepts, and what it returns then.
encoded :
    (x : OcbRowGroupIndexDeltaV1) {buf : List ℕ}
    → encode_without_checksum x ≡ ok buf
    → (length x.row_groups < 2 ^ 32)
      × (length x.column_chunks < 2 ^ 32)
      × (length x.stats < 2 ^ 32)
      × (length x.ordering_keys < 2 ^ 16)
      × (length x.row_group_ordering_proofs < 2 ^ 32)
      × All (λ r. ColumnStats.types_differ r ≡ false) x.stats
      × (buf ≡ body x ++ write_u32 0)
unfolding encode_without_checksum body ColumnStats.write_to ColumnStats.check_writable
encoded x h =
    let (n0, counts0, more0) = >>=-eq-ok (count_u32 (length x.row_groups) _) _ h in
    let (n1, counts1, more1) = >>=-eq-ok (count_u32 (length x.column_chunks) _) _ more0 in
    let (n2, counts2, more2) = >>=-eq-ok (count_u32 (length x.stats) _) _ more1 in
    let (n3, counts3, more3) = >>=-eq-ok (count_u16 (length x.ordering_keys) _) _ more2 in
    let (n4, counts4, more4) =
      >>=-eq-ok (count_u32 (length x.row_group_ordering_proofs) _) _ more3 in
    let (bytes0, writes0, rest0) =
      >>=-eq-ok (write_records RowGroupDesc.write_to x.row_groups) _ more4 in
    let (bytes1, writes1, rest1) =
      >>=-eq-ok (write_records ColumnChunkDesc.write_to x.column_chunks) _ rest0 in
    let (bytes2, writes2, rest2) = >>=-eq-ok (write_records ColumnStats.write_to x.stats) _ rest1 in
    let (bytes3, writes3, rest3) =
      >>=-eq-ok (write_records OrderingKey.write_to x.ordering_keys) _ rest2 in
    let (bytes4, writes4, rest4) =
      >>=-eq-ok (write_records OrderingProof.write_to x.row_group_ordering_proofs) _ rest3 in
    let (same0, few0) = count_u32-eq-ok (length x.row_groups) _ counts0 in
    let wrote0 : bytes0 ≡ concat (map RowGroupDesc.body x.row_groups) =
      write_records-eq-ok RowGroupDesc.write_to RowGroupDesc.body RowGroupDescLaws.write_to-eq-ok
        x.row_groups bytes0 writes0 in
    let (same1, few1) = count_u32-eq-ok (length x.column_chunks) _ counts1 in
    let wrote1 : bytes1 ≡ concat (map ColumnChunkDesc.body x.column_chunks) =
      write_records-eq-ok ColumnChunkDesc.write_to ColumnChunkDesc.body
        ColumnChunkDescLaws.write_to-eq-ok x.column_chunks bytes1 writes1 in
    let (same2, few2) = count_u32-eq-ok (length x.stats) _ counts2 in
    let wrote2 : bytes2 ≡ concat (map ColumnStats.body x.stats) =
      write_records-eq-ok ColumnStats.write_to ColumnStats.body ColumnStatsLaws.write_to-eq-ok
        x.stats bytes2 writes2 in
    let (same3, few3) = count_u16-eq-ok (length x.ordering_keys) _ counts3 in
    let wrote3 : bytes3 ≡ concat (map OrderingKey.body x.ordering_keys) =
      write_records-eq-ok OrderingKey.write_to OrderingKey.body OrderingKeyLaws.write_to-eq-ok
        x.ordering_keys bytes3 writes3 in
    let (same4, few4) = count_u32-eq-ok (length x.row_group_ordering_proofs) _ counts4 in
    let wrote4 : bytes4 ≡ concat (map OrderingProof.body x.row_group_ordering_proofs) =
      write_records-eq-ok OrderingProof.write_to OrderingProof.body OrderingProofLaws.write_to-eq-ok
        x.row_group_ordering_proofs bytes4 writes4 in
    (
      few0,
      few1,
      few2,
      few3,
      few4,
      write_records-All ColumnStats.write_to (λ r. ColumnStats.types_differ r ≡ false)
          (λ r bytes w. (fail_if-eq-ok _ _ _ ((then-eq-ok (ColumnStats.check_writable r) _ w).0)).0)
          x.stats bytes2 writes2,
      sym (ok-injective rest4)
          ∙ ap
              (λ v.
                (concat (front x v n1 n2 n3 n4)
                  ++ concat (bytes0 ∷ bytes1 ∷ bytes2 ∷ bytes3 ∷ bytes4 ∷ []))
                ++ write_u32 0)
              same0
          ∙ ap
              (λ v.
                (concat (front x (length x.row_groups) v n2 n3 n4)
                  ++ concat (bytes0 ∷ bytes1 ∷ bytes2 ∷ bytes3 ∷ bytes4 ∷ []))
                ++ write_u32 0)
              same1
          ∙ ap
              (λ v.
                (concat (front x (length x.row_groups) (length x.column_chunks) v n3 n4)
                  ++ concat (bytes0 ∷ bytes1 ∷ bytes2 ∷ bytes3 ∷ bytes4 ∷ []))
                ++ write_u32 0)
              same2
          ∙ ap
              (λ v.
                (concat
                    (front x (length x.row_groups) (length x.column_chunks) (length x.stats) v n4)
                  ++ concat (bytes0 ∷ bytes1 ∷ bytes2 ∷ bytes3 ∷ bytes4 ∷ []))
                ++ write_u32 0)
              same3
          ∙ ap
              (λ v.
                (concat (
                    front x (length x.row_groups) (length x.column_chunks) (length x.stats)
                      (length x.ordering_keys) v)
                  ++ concat (bytes0 ∷ bytes1 ∷ bytes2 ∷ bytes3 ∷ bytes4 ∷ []))
                ++ write_u32 0)
              same4
          ∙ ap
              (λ v.
                (concat (
                    front x (length x.row_groups) (length x.column_chunks) (length x.stats)
                      (length x.ordering_keys) (length x.row_group_ordering_proofs))
                  ++ concat (v ∷ bytes1 ∷ bytes2 ∷ bytes3 ∷ bytes4 ∷ []))
                ++ write_u32 0)
              wrote0
          ∙ ap
              (λ v.
                (concat (
                    front x (length x.row_groups) (length x.column_chunks) (length x.stats)
                      (length x.ordering_keys) (length x.row_group_ordering_proofs))
                  ++ concat (
                      concat (map RowGroupDesc.body x.row_groups)
                      ∷ v
                      ∷ bytes2
                      ∷ bytes3
                      ∷ bytes4
                      ∷ []))
                ++ write_u32 0)
              wrote1
          ∙ ap
              (λ v.
                (concat (
                    front x (length x.row_groups) (length x.column_chunks) (length x.stats)
                      (length x.ordering_keys) (length x.row_group_ordering_proofs))
                  ++ concat (
                      concat (map RowGroupDesc.body x.row_groups)
                      ∷ concat (map ColumnChunkDesc.body x.column_chunks)
                      ∷ v
                      ∷ bytes3
                      ∷ bytes4
                      ∷ []))
                ++ write_u32 0)
              wrote2
          ∙ ap
              (λ v.
                (concat (
                    front x (length x.row_groups) (length x.column_chunks) (length x.stats)
                      (length x.ordering_keys) (length x.row_group_ordering_proofs))
                  ++ concat (
                      concat (map RowGroupDesc.body x.row_groups)
                      ∷ concat (map ColumnChunkDesc.body x.column_chunks)
                      ∷ concat (map ColumnStats.body x.stats)
                      ∷ v
                      ∷ bytes4
                      ∷ []))
                ++ write_u32 0)
              wrote3
          ∙ ap
              (λ v.
                (concat (
                    front x (length x.row_groups) (length x.column_chunks) (length x.stats)
                      (length x.ordering_keys) (length x.row_group_ordering_proofs))
                  ++ concat (
                      concat (map RowGroupDesc.body x.row_groups)
                      ∷ concat (map ColumnChunkDesc.body x.column_chunks)
                      ∷ concat (map ColumnStats.body x.stats)
                      ∷ concat (map OrderingKey.body x.ordering_keys)
                      ∷ v
                      ∷ []))
                ++ write_u32 0)
              wrote4,
    )

-- A row-group index delta whose fields have their Rust types, of version 1, that `write_to` wrote,
-- is read back by `read_from_bytes_with_budget` with the checksum that was stored, and the budget
-- returned is the one that a charge for its row groups, column chunks, statistics, ordering keys
-- and ordering proofs leaves; this where that charge is accepted, the byte count is below 2 ^ 64
-- and the allocator grants the requests.
pub row_group_index_delta_read_from-write_to :
    (p : Platform) (x : OcbRowGroupIndexDeltaV1) (budget charged : MetadataMaterializationBudget)
    (bytes : List ℕ)
    → IsTyped x
    → x.version ≡ 1
    → write_to x ≡ ok bytes
    → HasRoom p x budget charged
    → read_from_bytes_with_budget p bytes budget
      ≡ ok (record x { crc32c = crc32c (body x ++ write_u32 0) }, charged)
unfolding write_to read_from_bytes_with_budget
row_group_index_delta_read_from-write_to p x budget charged bytes t version_one h room =
    let (buf, e, whole) = sealed-eq-ok (encode_without_checksum x) h in
    let (few0, few1, few2, few3, few4, agree2, same) = encoded x e in
    rw (whole ∙ ap seal same) (
      rw (unseal-seal "OCB row-group index delta crc mismatch" (body x)) (
        cursor-Reads
          (decode-Reads p x budget charged _ t version_one few0 few1 few2 few3 few4 agree2 room)))
