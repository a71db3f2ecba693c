-- ===== src/Schema/Laws.antt =====
-- The schema: the round trip through `write_to` and `read_from_bytes_with_budget`.
use arcadia_tio_rs.Base.{
  ℕ, ◌*◌, ◌^◌, ◌<◌, ◌≡◌, ◌∙◌, refl, sym, ap, arith, List, [], ◌++◌, length, concat, map, true, not,
  ◌==◌,
}
use arcadia_tio_rs.Error.{ok, fail_if-eq-ok, >>=-eq-ok, ok-injective}
use arcadia_tio_rs.Bytes.{write_u32, bytes_eq}
use arcadia_tio_rs.Bytes.Reads.{
  Reads, step, at_end, passed, pure-Reads, read_exact-Reads, read_u16-Reads, read_u32-Reads,
  cursor-Reads,
}
use arcadia_tio_rs.Crc.{crc32c, seal}
use arcadia_tio_rs.Crc.Range.{unseal-seal}
use arcadia_tio_rs.Format.{schema_magic_v1, schema_v1_header_len, column_desc_v1_len}
use arcadia_tio_rs.BodyRef.Laws as BodyRef
use arcadia_tio_rs.Limits.{MetadataMaterializationBudget, charge}
use arcadia_tio_rs.Object.Laws.{sealed-eq-ok}
use arcadia_tio_rs.Table.{Platform, write_records, count_u32}
use arcadia_tio_rs.Table.Reads.{counted, collected, write_records-eq-ok, count_u32-eq-ok}
use arcadia_tio_rs.Records.ColumnDesc
use arcadia_tio_rs.Records.ColumnDesc.Laws as ColumnLaws
use arcadia_tio_rs.Records.ColumnDesc.Decode as ColumnDecode
use arcadia_tio_rs.Schema.{OcbSchemaV1, IsTyped, front, encode_without_checksum, write_to}
use arcadia_tio_rs.Schema.Decode.{decode, read_from_bytes_with_budget}

-- The bytes of the schema, all but the trailer.
unfoldable pub body : OcbSchemaV1 → List ℕ
body x = concat (front x (length x.columns)) ++ concat (map ColumnDesc.body x.columns)

decode-Reads :
    (p : Platform) (x : OcbSchemaV1) (budget charged : MetadataMaterializationBudget) (crc : ℕ)
    → IsTyped x
    → x.version ≡ 1
    → length x.columns < 2 ^ 32
    → length x.columns * p.size_of_column_desc < 2 ^ 64
    → charge budget (length x.columns * p.size_of_column_desc) ≡ ok charged
    → p.grants (length x.columns * p.size_of_column_desc) ≡ true
    → Reads
        (decode p (length (body x ++ write_u32 0)) budget crc)
        (body x)
        (write_u32 0)
        (record x { crc32c = crc }, charged)
unfolding decode body front bytes_eq
decode-Reads p x budget charged crc t version_one few small paid g =
    step _ (read_exact-Reads schema_magic_v1 _ 8 refl) (
      passed _ refl (
        step _ (read_u16-Reads x.version _ t.version_u16) (
          passed _ (ap (λ v. not (v == 1)) version_one) (
            step _ (read_u16-Reads schema_v1_header_len _ (omega arith)) (
              passed _ refl (
                step _ (read_u32-Reads (length x.columns) _ few) (
                  step _ (BodyRef.read_from-Reads x.string_table_ref _ t.string_table_ref_typed) (
                    step _ (read_u32-Reads 0 _ (omega arith)) (
                      at_end (
                        counted ColumnDesc.body column_desc_v1_len ColumnLaws.length-body _ _
                          x.columns _ [] (omega arith) (omega arith) (omega arith)
                          (collected ColumnDecode.read_from ColumnDesc.body ColumnDesc.IsTyped
                            ColumnLaws.read_from-Reads p budget charged _ _ x.columns _
                            t.columns_typed small paid g (pure-Reads _ _))))))))))))

-- What `encode_without_checksum` accepts, and what it returns then.
encoded :
    (x : OcbSchemaV1) {buf : List ℕ}
    → encode_without_checksum x ≡ ok buf
    → (length x.columns < 2 ^ 32) × (buf ≡ body x ++ write_u32 0)
unfolding encode_without_checksum body
encoded x h =
    let (_, more) = fail_if-eq-ok _ _ _ h in
    let (count, counts, further) = >>=-eq-ok (count_u32 (length x.columns) _) _ more in
    let (columns, writes, done) =
      >>=-eq-ok (write_records ColumnDesc.write_to x.columns) _ further in
    let (same, few) = count_u32-eq-ok (length x.columns) _ counts in
    (
      few,
      sym (ok-injective done)
          ∙ ap (λ n. (concat (front x n) ++ columns) ++ write_u32 0) same
          ∙ ap (λ cs. (concat (front x (length x.columns)) ++ cs) ++ write_u32 0)
              (write_records-eq-ok ColumnDesc.write_to ColumnDesc.body ColumnLaws.write_to-eq-ok
                x.columns columns writes),
    )

-- A schema whose fields have their Rust types, of version 1, that `write_to` wrote, is read back
-- by `read_from_bytes_with_budget` with the checksum that was stored, and the budget returned is
-- the one that a charge for its columns leaves; this where that charge is accepted, the byte count
-- is below 2 ^ 64 and the allocator grants the requests.
pub schema_read_from-write_to :
    (p : Platform) (x : OcbSchemaV1) (budget charged : MetadataMaterializationBudget)
    (bytes : List ℕ)
    → IsTyped x
    → x.version ≡ 1
    → write_to x ≡ ok bytes
    → length x.columns * p.size_of_column_desc < 2 ^ 64
    → charge budget (length x.columns * p.size_of_column_desc) ≡ ok charged
    → p.grants (length x.columns * p.size_of_column_desc) ≡ true
    → read_from_bytes_with_budget p bytes budget
      ≡ ok (record x { crc32c = crc32c (body x ++ write_u32 0) }, charged)
unfolding write_to read_from_bytes_with_budget
schema_read_from-write_to p x budget charged bytes t version_one h small paid g =
    let (buf, e, whole) = sealed-eq-ok (encode_without_checksum x) h in
    let (few, same) = encoded x e in
    rw (whole ∙ ap seal same) (
      rw (unseal-seal "OCB schema crc mismatch" (body x))
        (cursor-Reads (decode-Reads p x budget charged _ t version_one few small paid g)))
