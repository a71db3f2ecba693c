-- ===== src/StringTable/Strings.antt =====
-- Length-prefixed strings: `write_bytes_u32`, `write_string_u32`, `inspect_string_u32_bounded` and
-- `read_string_u32_bounded` of crates/arcadia-tio-ocb-core/src/format.rs.
use arcadia_tio_rs.Base.{
  ℕ, ◌+◌, ◌^◌, ◌≤◌, ◌<◌, ◌≡◌, ◌∙◌, refl, sym, ap, arith, not, true, List, ◌++◌, length,
  length-append,
}
use arcadia_tio_rs.Error.{
  Result, ok, err, ocb_invalid_input, ocb_corrupt_file, ok-injective, >>=-eq-ok,
}
use arcadia_tio_rs.Error
use arcadia_tio_rs.Bytes.{
  Reader, ◌>>=◌, ◌>>◌, pure, lift, check, read_exact_ocb, read_u32, write_u32,
}
use arcadia_tio_rs.Bytes.Laws.{length-write_u32}
use arcadia_tio_rs.Bytes.Reads.{
  Reads, step, at_end, passed, lifted, pure-Reads, read_exact-Reads, read_u32-Reads,
}
use arcadia_tio_rs.Table.{Platform, checked_payload_len, reserve, position, count_u32}
use arcadia_tio_rs.Table.Reads.{positioned, granted, checked_payload_len-ok, count_u32-eq-ok}

unfoldable pub write_bytes_u32 : List ℕ → Result (List ℕ)
unfolding count_u32 write_u32
write_bytes_u32 bytes =
    Error.◌>>=◌ (count_u32 (length bytes) (ocb_invalid_input "OCB byte payload length exceeds u32"))
      (λ len. ok (write_u32 len ++ bytes))

unfoldable pub write_string_u32 : List ℕ → Result (List ℕ)
unfolding write_bytes_u32
write_string_u32 value = write_bytes_u32 value

-- The string is validated in place and passed over.
unfoldable pub inspect_string_u32_bounded : Platform → ℕ → Reader ℕ
inspect_string_u32_bounded p total_len = do
  at ← position total_len
  _ ← lift (checked_payload_len total_len at 4 "OCB string byte length")
  len ← read_u32
  at ← position total_len
  len ← lift (checked_payload_len total_len at len "OCB string byte length")
  bytes ← read_exact_ocb len
  check (not (p.is_utf8 bytes)) (ocb_corrupt_file "OCB string is not valid UTF-8")
  pure len

unfoldable pub read_string_u32_bounded : Platform → ℕ → Reader (List ℕ)
read_string_u32_bounded p total_len = do
  at ← position total_len
  _ ← lift (checked_payload_len total_len at 4 "OCB string byte length")
  len ← read_u32
  at ← position total_len
  len ← lift (checked_payload_len total_len at len "OCB string byte length")
  lift (reserve p len "OCB string allocation failed within resource limit")
  bytes ← read_exact_ocb len
  check (not (p.is_utf8 bytes)) (ocb_corrupt_file "OCB string is not valid UTF-8")
  pure bytes

-- A string as it is written.
unfoldable pub prefixed : List ℕ → List ℕ
unfolding write_u32
prefixed s = write_u32 (length s) ++ s

pub write_string_u32-eq-ok :
    (s bytes : List ℕ) → write_string_u32 s ≡ ok bytes → (bytes ≡ prefixed s) × (length s < 2 ^ 32)
unfolding write_string_u32 write_bytes_u32 prefixed
write_string_u32-eq-ok s bytes h =
    let (len, counts, done) = >>=-eq-ok (count_u32 (length s) _) _ h in
    let (same, few) = count_u32-eq-ok (length s) _ counts in
    (sym (ok-injective done) ∙ ap (λ n. write_u32 n ++ s) same, few)

module _ (p : Platform) (total : ℕ) (s rest : List ℕ) (utf8 : p.is_utf8 s ≡ true)
    (short : length s < 2 ^ 32) (fits : length (prefixed s ++ rest) ≤ total)
    (trailer : 4 ≤ length rest) where
  sizes :
      (length (prefixed s ++ rest) ≡ 4 + length s + length rest)
      × (length (s ++ rest) ≡ length s + length rest)
  unfolding prefixed
  sizes = (
    omega (
      arith,
      length-append (write_u32 (length s) ++ s) rest,
      length-append (write_u32 (length s)) s,
      length-write_u32 (length s),
    ),
    length-append s rest,
  )

  pub inspect_string-Reads : Reads (inspect_string_u32_bounded p total) (prefixed s) rest (length s)
  unfolding inspect_string_u32_bounded prefixed
  inspect_string-Reads = positioned total _ (
      lifted _ (checked_payload_len-ok total _ 4 _ (omega (arith, sizes.0, fits, trailer))) (
        step _ (read_u32-Reads (length s) _ short) (
          positioned total _ (
            lifted _
              (checked_payload_len-ok total _ (length s) _
                (omega (arith, sizes.0, sizes.1, fits, trailer)))
              (at_end (
                step _ (read_exact-Reads s _ (length s) refl)
                  (passed _ (ap not utf8) (pure-Reads (length s) rest))))))))

  pub read_string-Reads :
      p.grants (length s) ≡ true → Reads (read_string_u32_bounded p total) (prefixed s) rest s
  unfolding read_string_u32_bounded prefixed
  read_string-Reads granted_len = positioned total _ (
      lifted _ (checked_payload_len-ok total _ 4 _ (omega (arith, sizes.0, fits, trailer))) (
        step _ (read_u32-Reads (length s) _ short) (
          positioned total _ (
            lifted _
              (checked_payload_len-ok total _ (length s) _
                (omega (arith, sizes.0, sizes.1, fits, trailer)))
              (granted p (length s) _ granted_len (
                at_end (
                  step _ (read_exact-Reads s _ (length s) refl)
                    (passed _ (ap not utf8) (pure-Reads s rest)))))))))
