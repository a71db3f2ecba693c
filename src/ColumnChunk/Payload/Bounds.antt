-- ===== src/ColumnChunk/Payload/Bounds.antt =====
-- What a decoded payload is bounded by, and that the two ways to decode agree.
use arcadia_tio_rs.Base.{
  ℕ, ◌≤◌, ◌≡◌, refl, sym, ap, ◌∙◌, arith, List, length, ltb, Bool, true, false, not, ◌==◌, Option,
  some, none, ltb-false, not-false, ==→eq,
}
use arcadia_tio_rs.Error.{ok, ocb_corrupt_file, fail_if-eq-ok, then-eq-ok, >>=-eq-ok, ok-injective}
use arcadia_tio_rs.Kinds.{OcbChunkCodecV1}
use arcadia_tio_rs.Table.{Platform, reserve}
use arcadia_tio_rs.ColumnChunk.{OcbColumnChunkObjectV1, check_value_bytes}
use arcadia_tio_rs.ColumnChunk.Payload.{
  read_stream, decode_zstd_payload_bounded, uncompressed_value_bytes, check_plain,
  decode_compressed, decode_payload_with_limits, into_decoded_payload_with_limits,
}

-- The bytes that decoding gives, against the header and the two limits.
pub record IsDecoded (x : OcbColumnChunkObjectV1) (max_compressed_bytes max_decompressed_bytes : ℕ)
    (bytes : List ℕ) : Type 0 where
  pub as_in_header : length bytes ≡ x.uncompressed_bytes
  pub decompressed : length bytes ≤ max_decompressed_bytes
  pub compressed : length x.payload ≤ max_compressed_bytes

passed_eq : (a b : ℕ) → not (a == b) ≡ false → a ≡ b
passed_eq a b h = ==→eq a b (not-false _ h)

read_stream-length :
    (expected : ℕ) (stream : Option (List ℕ × Bool)) {bytes : List ℕ}
    → read_stream expected stream ≡ ok bytes
    → length bytes ≡ expected
unfolding read_stream
read_stream-length expected none h = absurd (cc h)
read_stream-length expected (some (found, ends_well)) h =
    let (enough, h1) = fail_if-eq-ok (ltb (length found) expected) _ _ h in
    let (no_more, h2) = fail_if-eq-ok (ltb expected (length found)) _ _ h1 in
    let (_, h3) = fail_if-eq-ok (not ends_well) _ _ h2 in
    ap length (sym (ok-injective h3)) ∙ omega (arith, ltb-false _ _ enough, ltb-false _ _ no_more)

value_bytes-eq :
    (x : OcbColumnChunkObjectV1) {expected : ℕ}
    → uncompressed_value_bytes x ≡ ok expected
    → x.uncompressed_bytes ≡ expected
unfolding uncompressed_value_bytes
value_bytes-eq x h =
    let (_, h1) =
      then-eq-ok
        (check_value_bytes ocb_corrupt_file x.physical_type x.row_count x.uncompressed_bytes) _ h in
    ok-injective h1

plain-IsDecoded :
    (x : OcbColumnChunkObjectV1) (expected max_compressed_bytes max_decompressed_bytes : ℕ)
    → x.uncompressed_bytes ≡ expected
    → check_plain x expected max_compressed_bytes max_decompressed_bytes ≡ ok tt
    → IsDecoded x max_compressed_bytes max_decompressed_bytes x.payload
unfolding check_plain
plain-IsDecoded x expected max_compressed_bytes max_decompressed_bytes same h =
    let (size, h1) = fail_if-eq-ok (not (length x.payload == expected)) _ _ h in
    let (encoded, h2) = fail_if-eq-ok (ltb max_compressed_bytes (length x.payload)) _ _ h1 in
    let (decoded, _) = fail_if-eq-ok (ltb max_decompressed_bytes expected) _ _ h2 in
    let whole = passed_eq _ _ size in
    record {
      as_in_header = whole ∙ sym same;
      decompressed = omega (arith, whole, ltb-false _ _ decoded);
      compressed = ltb-false _ _ encoded;
    }

compressed-IsDecoded :
    (p : Platform) (x : OcbColumnChunkObjectV1)
    (expected max_compressed_bytes max_decompressed_bytes : ℕ) {bytes : List ℕ}
    → x.uncompressed_bytes ≡ expected
    → decode_compressed p x expected max_compressed_bytes max_decompressed_bytes ≡ ok bytes
    → IsDecoded x max_compressed_bytes max_decompressed_bytes bytes
unfolding decode_compressed decode_zstd_payload_bounded
compressed-IsDecoded p x expected max_compressed_bytes max_decompressed_bytes same h =
    let (_, h1) = fail_if-eq-ok _ _ _ h in
    let (encoded, h2) = fail_if-eq-ok (ltb max_compressed_bytes (length x.payload)) _ _ h1 in
    let (_, h3) = fail_if-eq-ok _ _ _ h2 in
    let (decoded, h4) = fail_if-eq-ok (ltb max_decompressed_bytes expected) _ _ h3 in
    let (_, h5) = then-eq-ok _ _ h4 in
    let whole = read_stream-length expected _ h5 in
    record {
      as_in_header = whole ∙ sym same;
      decompressed = omega (arith, whole, ltb-false _ _ decoded);
      compressed = ltb-false _ _ encoded;
    }

codec-IsDecoded :
    (p : Platform) (x : OcbColumnChunkObjectV1) (codec : OcbChunkCodecV1)
    (max_compressed_bytes max_decompressed_bytes : ℕ) {bytes : List ℕ}
    → x.codec ≡ codec
    → decode_payload_with_limits p x max_compressed_bytes max_decompressed_bytes ≡ ok bytes
    → IsDecoded x max_compressed_bytes max_decompressed_bytes bytes
unfolding decode_payload_with_limits
codec-IsDecoded p x OcbChunkCodecV1.none max_compressed_bytes max_decompressed_bytes {bytes = bytes}
      plain h =
    let (expected, sized, h1) = >>=-eq-ok (uncompressed_value_bytes x) _ (rw plain at h) in
    let (checked, h2) =
      then-eq-ok (check_plain x expected max_compressed_bytes max_decompressed_bytes) _ h1 in
    let (_, h3) = then-eq-ok _ _ h2 in
    let same : x.payload ≡ bytes = ok-injective h3 in
    rw (← same) (plain-IsDecoded x expected _ _ (value_bytes-eq x sized) checked)
codec-IsDecoded p x OcbChunkCodecV1.zstd max_compressed_bytes max_decompressed_bytes packed h =
    let (expected, sized, h1) = >>=-eq-ok (uncompressed_value_bytes x) _ (rw packed at h) in
    compressed-IsDecoded p x expected _ _ (value_bytes-eq x sized) h1

-- The bytes that `decode_payload_with_limits` returns, plain or from the zstd decoder whatever it
-- gives, are as many as the header of the column chunk says and at most the limit on decompressed
-- bytes, and they come from a payload within the limit on compressed bytes.
pub decode_payload_with_limits-IsDecoded :
    (p : Platform) (x : OcbColumnChunkObjectV1) (max_compressed_bytes max_decompressed_bytes : ℕ)
    {bytes : List ℕ}
    → decode_payload_with_limits p x max_compressed_bytes max_decompressed_bytes ≡ ok bytes
    → IsDecoded x max_compressed_bytes max_decompressed_bytes bytes
decode_payload_with_limits-IsDecoded p x max_compressed_bytes max_decompressed_bytes h =
    codec-IsDecoded p x x.codec max_compressed_bytes max_decompressed_bytes refl h

same_codec :
    (p : Platform) (x : OcbColumnChunkObjectV1) (codec : OcbChunkCodecV1)
    (max_compressed_bytes max_decompressed_bytes : ℕ)
    → x.codec ≡ codec
    → p.grants (length x.payload) ≡ true
    → into_decoded_payload_with_limits p x max_compressed_bytes max_decompressed_bytes
      ≡ decode_payload_with_limits p x max_compressed_bytes max_decompressed_bytes
unfolding into_decoded_payload_with_limits decode_payload_with_limits reserve
same_codec p x OcbChunkCodecV1.none max_compressed_bytes max_decompressed_bytes plain granted =
    rw (plain, granted) refl
same_codec p x OcbChunkCodecV1.zstd max_compressed_bytes max_decompressed_bytes packed granted =
    rw packed refl

-- Where the allocator grants a copy of the payload, `into_decoded_payload_with_limits` has the
-- same outcome as `decode_payload_with_limits`, errors included.
pub into_decoded_payload-decode_payload :
    (p : Platform) (x : OcbColumnChunkObjectV1) (max_compressed_bytes max_decompressed_bytes : ℕ)
    → p.grants (length x.payload) ≡ true
    → into_decoded_payload_with_limits p x max_compressed_bytes max_decompressed_bytes
      ≡ decode_payload_with_limits p x max_compressed_bytes max_decompressed_bytes
into_decoded_payload-decode_payload p x max_compressed_bytes max_decompressed_bytes granted =
    same_codec p x x.codec max_compressed_bytes max_decompressed_bytes refl granted
