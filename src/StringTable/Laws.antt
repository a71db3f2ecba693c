-- ===== src/StringTable/Laws.antt =====
-- The string table: the round trip through `write_to` and `read_from_bytes_with_budget`.
use arcadia_tio_rs.Base.{
  ℕ, ◌+◌, ◌*◌, ◌^◌, ◌≤◌, ◌<◌, ◌≡◌, ◌∙◌, refl, sym, ap, arith, List, [], ◌∷◌, ◌++◌, length,
  length-append, append_assoc, concat, map, All, sum, true, not, ◌==◌,
}
use arcadia_tio_rs.Error.{ok, >>=-eq-ok, ok-injective}
use arcadia_tio_rs.Bytes.{write_u32, bytes_eq}
use arcadia_tio_rs.Bytes.Laws.{length-write_u32}
use arcadia_tio_rs.Bytes.Reads.{
  Reads, step, at_end, passed, lifted, pure-Reads, read_exact-Reads, read_u16-Reads, read_u32-Reads,
  cursor-Reads,
}
use arcadia_tio_rs.Crc.{crc32c, seal}
use arcadia_tio_rs.Crc.Range.{unseal-seal}
use arcadia_tio_rs.Format.{string_table_magic_v1, string_table_v1_header_len}
use arcadia_tio_rs.Limits.{MetadataMaterializationBudget, charge}
use arcadia_tio_rs.Object.Laws.{sealed-eq-ok}
use arcadia_tio_rs.Table.{Platform, write_records, count_u32, read_records}
use arcadia_tio_rs.Table.Reads.{
  positioned, told, sought, granted, checked_record_count-ok, checked_materialized_vec_bytes-ok,
  checked_materialized_sum-ok, write_records-eq-ok, write_records-All, count_u32-eq-ok,
}
use arcadia_tio_rs.StringTable.Strings.{
  write_string_u32, read_string_u32_bounded, prefixed, write_string_u32-eq-ok, inspect_string-Reads,
  read_string-Reads,
}
use arcadia_tio_rs.StringTable.{OcbStringTableV1, IsTyped, front, encode_without_checksum, write_to}
use arcadia_tio_rs.StringTable.Decode.{decode, inspect_strings, read_from_bytes_with_budget}

-- The bytes of the strings, and those of the table but for the trailer.
unfoldable pub written : List (List ℕ) → List ℕ
written ss = concat (map prefixed ss)

unfoldable pub body : OcbStringTableV1 → List ℕ
body x = concat (front x (length x.strings)) ++ written x.strings

unfoldable pub materialized : Platform → OcbStringTableV1 → ℕ
materialized p x = sum (length x.strings * p.size_of_string ∷ sum (map length x.strings) ∷ [])

-- The reader has room for the table: no size overflows, the budget covers it, the allocator grants it.
pub record HasRoom (p : Platform) (x : OcbStringTableV1)
    (budget charged : MetadataMaterializationBudget) : Type 0 where
  pub small : materialized p x < 2 ^ 64
  pub paid : charge budget (materialized p x) ≡ ok charged
  pub vector_granted : p.grants (length x.strings * p.size_of_string) ≡ true
  pub strings_granted : All (λ s. p.grants (length s) ≡ true) x.strings

length-prefixed : (s : List ℕ) → length (prefixed s) ≡ 4 + length s
unfolding prefixed
length-prefixed s =
    omega (arith, length-append (write_u32 (length s)) s, length-write_u32 (length s))

-- Each string takes the four bytes of its length at least.
length-written : (ss : List (List ℕ)) → length ss * 4 ≤ length (written ss)
unfolding written
length-written [] = omega arith
length-written (s ∷ ss) =
    omega (arith, length-append (prefixed s) (written ss), length-prefixed s, length-written ss)

module _ (p : Platform) (size : ℕ) (rest : List ℕ) (trailer : 4 ≤ length rest) where
  inspect_strings-Reads :
      (ss : List (List ℕ)) (start : ℕ)
      → All (λ s. p.is_utf8 s ≡ true) ss
      → All (λ s. length s < 2 ^ 32) ss
      → length (written ss ++ rest) ≤ size
      → start + sum (map length ss) < 2 ^ 64
      → Reads
          (inspect_strings p size (length ss) start)
          (written ss)
          rest
          (start + sum (map length ss))
  unfolding inspect_strings written
  inspect_strings-Reads [] start utf8 short fits small =
      let e : start + 0 ≡ start = omega arith in rw e (pure-Reads start rest)
  inspect_strings-Reads (s ∷ ss) start (u, us) (n, ns) fits small =
      let e : start + (length s + sum (map length ss)) ≡ (start + length s) + sum (map length ss) =
        omega arith in
      let same : length ((prefixed s ++ written ss) ++ rest)
          ≡ length (prefixed s ++ (written ss ++ rest)) =
        ap length (append_assoc (prefixed s) (written ss) rest) in
      let parts : length (prefixed s ++ (written ss ++ rest))
          ≡ length (prefixed s) + length (written ss ++ rest) =
        length-append (prefixed s) (written ss ++ rest) in
      let more : length (written ss ++ rest) ≡ length (written ss) + length rest =
        length-append (written ss) rest in
      rw e (
        step _ (inspect_string-Reads p size s (written ss ++ rest) u n (omega arith) (omega arith))
          (passed _ (ground arith)
            (inspect_strings-Reads ss (start + length s) us ns (omega arith) (omega arith))))

  inspect_all-Reads :
      (ss : List (List ℕ))
      → All (λ s. p.is_utf8 s ≡ true) ss
      → All (λ s. length s < 2 ^ 32) ss
      → length (written ss ++ rest) ≤ size
      → sum (map length ss) < 2 ^ 64
      → Reads (inspect_strings p size (length ss) 0) (written ss) rest (sum (map length ss))
  inspect_all-Reads ss us ns fits small =
      let e : sum (map length ss) ≡ 0 + sum (map length ss) = omega arith in
      rw e (inspect_strings-Reads ss 0 us ns fits (omega arith))

  read_strings-Reads :
      (ss : List (List ℕ))
      → All (λ s. p.is_utf8 s ≡ true) ss
      → All (λ s. length s < 2 ^ 32) ss
      → All (λ s. p.grants (length s) ≡ true) ss
      → length (written ss ++ rest) ≤ size
      → Reads (read_records (length ss) (read_string_u32_bounded p size)) (written ss) rest ss
  unfolding read_records written
  read_strings-Reads [] utf8 short granted fits = pure-Reads [] rest
  read_strings-Reads (s ∷ ss) (u, us) (n, ns) (g, gs) fits =
      let same : length ((prefixed s ++ written ss) ++ rest)
          ≡ length (prefixed s ++ (written ss ++ rest)) =
        ap length (append_assoc (prefixed s) (written ss) rest) in
      let parts : length (prefixed s ++ (written ss ++ rest))
          ≡ length (prefixed s) + length (written ss ++ rest) =
        length-append (prefixed s) (written ss ++ rest) in
      let more : length (written ss ++ rest) ≡ length (written ss) + length rest =
        length-append (written ss) rest in
      step _ (read_string-Reads p size s (written ss ++ rest) u n (omega arith) (omega arith) g)
        (at_end (step _ (read_strings-Reads ss us ns gs (omega arith)) (pure-Reads (s ∷ ss) rest)))

decode-Reads :
    (p : Platform) (x : OcbStringTableV1) (budget charged : MetadataMaterializationBudget) (crc : ℕ)
    → IsTyped p x
    → x.version ≡ 1
    → length x.strings < 2 ^ 32
    → All (λ s. length s < 2 ^ 32) x.strings
    → HasRoom p x budget charged
    → Reads
        (decode p (length (body x ++ write_u32 0)) budget crc)
        (body x)
        (write_u32 0)
        (record x { crc32c = crc }, charged)
unfolding decode body front bytes_eq materialized
decode-Reads p x budget charged crc t version_one few short room =
    let strings : List ℕ = written x.strings in
    let trailer : length (write_u32 0) ≡ 4 = length-write_u32 0 in
    let whole : length (strings ++ write_u32 0) ≡ length strings + length (write_u32 0) =
      length-append strings (write_u32 0) in
    let prefixes : length x.strings * 4 ≤ length strings = length-written x.strings in
    step _ (read_exact-Reads string_table_magic_v1 _ 8 refl) (
      passed _ refl (
        step _ (read_u16-Reads x.version _ t.version_u16) (
          passed _ (ap (λ v. not (v == 1)) version_one) (
            step _ (read_u16-Reads string_table_v1_header_len _ (omega arith)) (
              passed _ refl (
                step _ (read_u32-Reads (length x.strings) _ few) (
                  step _ (read_u32-Reads 0 _ (omega arith)) (
                    positioned _ _ (
                      lifted _
                        (checked_record_count-ok _ _ (length x.strings) 4 _ (omega arith)
                          (omega arith))
                        (at_end (
                          told _ (
                            step _
                              (inspect_all-Reads p (length (body x ++ write_u32 0)) (write_u32 0)
                                (omega arith) x.strings t.strings_utf8 short (omega arith)
                                (omega (arith, room.small)))
                              (lifted _
                                (checked_materialized_vec_bytes-ok p.size_of_string
                                  (length x.strings) (omega (arith, room.small)))
                                (lifted _ (checked_materialized_sum-ok _ room.small) (
                                  lifted _ room.paid (
                                    sought (
                                      granted p _ _ room.vector_granted (
                                        step _
                                          (read_strings-Reads p (length (body x ++ write_u32 0))
                                            (write_u32 0) (omega arith) x.strings t.strings_utf8
                                            short room.strings_granted (omega arith))
                                          (pure-Reads _ _)))))))))))))))))))

-- What `encode_without_checksum` accepts, and what it returns then.
encoded :
    (x : OcbStringTableV1) {buf : List ℕ}
    → encode_without_checksum x ≡ ok buf
    → (length x.strings < 2 ^ 32)
      × All (λ s. length s < 2 ^ 32) x.strings
      × (buf ≡ body x ++ write_u32 0)
unfolding encode_without_checksum body written
encoded x h =
    let (count, counts, more) = >>=-eq-ok (count_u32 (length x.strings) _) _ h in
    let (strings, writes, done) = >>=-eq-ok (write_records write_string_u32 x.strings) _ more in
    let (same, few) = count_u32-eq-ok (length x.strings) _ counts in
    (
      few,
      write_records-All write_string_u32 (λ s. length s < 2 ^ 32)
          (λ s bytes w. (write_string_u32-eq-ok s bytes w).1) x.strings strings writes,
      sym (ok-injective done)
          ∙ ap (λ n. (concat (front x n) ++ strings) ++ write_u32 0) same
          ∙ ap (λ ss. (concat (front x (length x.strings)) ++ ss) ++ write_u32 0)
              (write_records-eq-ok write_string_u32 prefixed
                (λ s bytes w. (write_string_u32-eq-ok s bytes w).0) x.strings strings writes),
    )

-- A string table whose fields have their Rust types, of version 1, that `write_to` wrote, is read
-- back by `read_from_bytes_with_budget` with the checksum that was stored, and the budget returned
-- is the one that a charge for its strings and their bytes leaves; this where that charge is
-- accepted, the byte count is below 2 ^ 64 and the allocator grants the requests.
pub string_table_read_from-write_to :
    (p : Platform) (x : OcbStringTableV1) (budget charged : MetadataMaterializationBudget)
    (bytes : List ℕ)
    → IsTyped p x
    → x.version ≡ 1
    → write_to x ≡ ok bytes
    → HasRoom p x budget charged
    → read_from_bytes_with_budget p bytes budget
      ≡ ok (record x { crc32c = crc32c (body x ++ write_u32 0) }, charged)
unfolding write_to read_from_bytes_with_budget
string_table_read_from-write_to p x budget charged bytes t version_one h room =
    let (buf, e, whole) = sealed-eq-ok (encode_without_checksum x) h in
    let (few, short, same) = encoded x e in
    rw (whole ∙ ap seal same) (
      rw (unseal-seal "OCB string table crc mismatch" (body x))
        (cursor-Reads (decode-Reads p x budget charged _ t version_one few short room)))
