-- ===== src/ColumnChunk/Payload.antt =====
-- The payload of a column chunk, decoded within the limits: `decode_payload_with_limits`,
-- `into_decoded_payload_with_limits`, `decode_zstd_payload_bounded` and what they call.
pub mod Bounds
use arcadia_tio_rs.Base.{
  ℕ, zero, suc, ◌+◌, ◌/◌, ◌^◌, ◌==◌, not, min, max, List, length, leb, ltb, Bool, Option, some,
  none, if◌then◌else◌,
}
use arcadia_tio_rs.Error.{
  Result, ok, err, ocb_corrupt_file, ocb_invalid_input, fail_if, ◌>>◌, ◌>>=◌,
}
use arcadia_tio_rs.Kinds.{OcbChunkCodecV1}
use arcadia_tio_rs.Limits.{policy_a}
use arcadia_tio_rs.Table.{Platform, reserve}
use arcadia_tio_rs.ColumnChunk.{OcbColumnChunkObjectV1, check_value_bytes, is_empty}

abbrev zstd_writer_compat_window_log : ℕ
zstd_writer_compat_window_log = 27

-- On a platform of 64 bits.
abbrev zstd_platform_max_window_log : ℕ
zstd_platform_max_window_log = 31

-- `u64::BITS - 1 - value.leading_zeros()`: the place of the highest bit, among so many.
unfoldable pub floor_log : ℕ → ℕ → ℕ
floor_log zero value = 0
floor_log (suc bits) value =
    let rest = floor_log bits (value / 2) in if ltb value 2 then 0 else suc rest

unfoldable pub zstd_window_log_for_decoded_limit : ℕ → ℕ
unfolding floor_log
zstd_window_log_for_decoded_limit max_decoded_bytes =
    min (max (floor_log 64 max_decoded_bytes) zstd_writer_compat_window_log)
      zstd_platform_max_window_log

-- The reads from the decoder: the bytes expected, then one more, which has to be missing.
unfoldable pub read_stream : ℕ → Option (List ℕ × Bool) → Result (List ℕ)
read_stream expected none = err (ocb_corrupt_file "OCB zstd column chunk decode failed")
read_stream expected (some (bytes, ends_well)) = do
  fail_if (ltb (length bytes) expected) (ocb_corrupt_file "OCB zstd column chunk decode failed")
  fail_if (ltb expected (length bytes))
      (ocb_corrupt_file "OCB zstd column chunk decoded byte length does not match header")
  fail_if (not ends_well) (ocb_corrupt_file "OCB zstd column chunk decode failed")
  ok bytes

unfoldable pub decode_zstd_payload_bounded : Platform → List ℕ → ℕ → ℕ → Result (List ℕ)
unfolding reserve zstd_window_log_for_decoded_limit read_stream
decode_zstd_payload_bounded p encoded expected_bytes max_decoded_bytes = do
  fail_if (leb (2 ^ 64) (expected_bytes + 1))
      (ocb_corrupt_file "OCB decoded column chunk byte length overflows")
  fail_if (ltb max_decoded_bytes expected_bytes)
      (ocb_invalid_input "OCB decoded column chunk exceeds resource limit")
  reserve p expected_bytes "OCB decoded payload allocation failed within resource limit"
  read_stream expected_bytes
      (p.zstd_stream (zstd_window_log_for_decoded_limit max_decoded_bytes) encoded)

unfoldable pub uncompressed_value_bytes : OcbColumnChunkObjectV1 → Result ℕ
unfolding check_value_bytes
uncompressed_value_bytes x = do
  check_value_bytes ocb_corrupt_file x.physical_type x.row_count x.uncompressed_bytes
  ok x.uncompressed_bytes

-- The checks of an uncompressed payload.
unfoldable pub check_plain : OcbColumnChunkObjectV1 → ℕ → ℕ → ℕ → Result (Unit {0})
check_plain x expected_value_bytes max_compressed_bytes max_decompressed_bytes = do
  fail_if (not (length x.payload == expected_value_bytes))
      (ocb_corrupt_file "OCB uncompressed column chunk value byte length does not match header")
  fail_if (ltb max_compressed_bytes (length x.payload))
      (ocb_invalid_input "OCB encoded column chunk exceeds resource limit")
  fail_if (ltb max_decompressed_bytes expected_value_bytes)
      (ocb_invalid_input "OCB decoded column chunk exceeds resource limit")
  ok tt

unfoldable pub decode_compressed : Platform → OcbColumnChunkObjectV1 → ℕ → ℕ → ℕ → Result (List ℕ)
unfolding is_empty decode_zstd_payload_bounded
decode_compressed p x expected_value_bytes max_compressed_bytes max_decompressed_bytes = do
  fail_if (is_empty x.payload) (ocb_corrupt_file "OCB zstd column chunk payload must not be empty")
  fail_if (ltb max_compressed_bytes (length x.payload))
      (ocb_invalid_input "OCB compressed column chunk exceeds resource limit")
  decode_zstd_payload_bounded p x.payload expected_value_bytes max_decompressed_bytes

unfoldable pub decode_payload_with_limits :
    Platform → OcbColumnChunkObjectV1 → ℕ → ℕ → Result (List ℕ)
unfolding uncompressed_value_bytes check_plain reserve decode_compressed
decode_payload_with_limits p x max_compressed_bytes max_decompressed_bytes = do
  expected_value_bytes ← uncompressed_value_bytes x
  elim x.codec [
    | OcbChunkCodecV1.none ↦ do
      check_plain x expected_value_bytes max_compressed_bytes max_decompressed_bytes
      reserve p (length x.payload) "OCB decoded payload allocation failed within resource limit"
      ok x.payload
    | OcbChunkCodecV1.zstd ↦
        decode_compressed p x expected_value_bytes max_compressed_bytes max_decompressed_bytes
  ]

unfoldable pub decode_payload : Platform → OcbColumnChunkObjectV1 → Result (List ℕ)
unfolding decode_payload_with_limits
decode_payload p x =
    decode_payload_with_limits p x policy_a.max_compressed_chunk_bytes
      policy_a.max_decompressed_chunk_bytes

unfoldable pub into_decoded_payload_with_limits :
    Platform → OcbColumnChunkObjectV1 → ℕ → ℕ → Result (List ℕ)
unfolding uncompressed_value_bytes check_plain decode_compressed
into_decoded_payload_with_limits p x max_compressed_bytes max_decompressed_bytes = do
  expected_value_bytes ← uncompressed_value_bytes x
  elim x.codec [
    | OcbChunkCodecV1.none ↦ do
      check_plain x expected_value_bytes max_compressed_bytes max_decompressed_bytes
      ok x.payload
    | OcbChunkCodecV1.zstd ↦
        decode_compressed p x expected_value_bytes max_compressed_bytes max_decompressed_bytes
  ]
