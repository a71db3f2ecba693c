-- ===== src/Table.antt =====
-- The helpers that the decoders of variable size share, of crates/arcadia-tio-ocb-core/src/format.rs:
-- counts and lengths checked against the bytes at hand, record sequences, and what they allocate.
pub mod Reads
pub mod Counts
use arcadia_tio_rs.Base.{
  ℕ, zero, suc, ◌+◌, ◌-◌, ◌*◌, ◌^◌, Bool, not, leb, ltb, List, [], ◌∷◌, ◌++◌, length, String,
  if◌then◌else◌, Option,
}
use arcadia_tio_rs.Error.{
  Result, ok, err, ocb_corrupt_file, io_error, fail_if, ◌>>◌, ◌>>=◌, ArcadiaTioError,
}
use arcadia_tio_rs.Bytes.{Reader, pure}
use arcadia_tio_rs.Bytes

-- What the code relies on and does not implement: whether the allocator grants a request of so many
-- bytes, or of a hash table for so many entries, whether the standard library takes bytes for UTF-8,
-- `size_of` of the types that are collected in vectors, and what a zstd decoder with a window limit
-- makes of bytes: no stream, or the bytes that it gives before it ends, and whether it ends well.
pub record Platform : Type 0 where
  pub grants : ℕ → Bool
  pub grants_entries : ℕ → Bool
  pub is_utf8 : List ℕ → Bool
  pub zstd_stream : ℕ → List ℕ → Option (List ℕ × Bool)
  pub size_of_string : ℕ
  pub size_of_bytes : ℕ
  pub size_of_column_desc : ℕ
  pub size_of_dictionary_desc : ℕ
  pub size_of_row_group_desc : ℕ
  pub size_of_column_chunk_desc : ℕ
  pub size_of_column_stats : ℕ
  pub size_of_ordering_key : ℕ
  pub size_of_ordering_proof : ℕ

unfoldable pub remaining_before_crc : ℕ → ℕ → Result ℕ
remaining_before_crc total_len position = do
  fail_if (ltb total_len 4) (ocb_corrupt_file "OCB object is too short")
  let payload_end = total_len - 4
  fail_if (ltb payload_end position) (ocb_corrupt_file "OCB cursor advanced beyond object payload")
  ok (payload_end - position)

unfoldable pub checked_record_count : ℕ → ℕ → ℕ → ℕ → String → Result ℕ
unfolding remaining_before_crc
checked_record_count total_len position count record_len what = do
  let needed = count * record_len
  fail_if (leb (2 ^ 64) needed) (ocb_corrupt_file "OCB record byte count overflows")
  remaining ← remaining_before_crc total_len position
  fail_if (ltb remaining needed) (ocb_corrupt_file what)
  ok count

unfoldable pub checked_payload_len : ℕ → ℕ → ℕ → String → Result ℕ
unfolding remaining_before_crc
checked_payload_len total_len position len what = do
  remaining ← remaining_before_crc total_len position
  fail_if (ltb remaining len) (ocb_corrupt_file what)
  ok len

-- The size of a vector of `count` items of `item_bytes` each.
unfoldable pub checked_materialized_vec_bytes : ℕ → ℕ → Result ℕ
checked_materialized_vec_bytes item_bytes count = do
  fail_if (leb (2 ^ 64) (count * item_bytes))
      (ocb_corrupt_file "OCB metadata materialized byte count overflows")
  ok (count * item_bytes)

unfoldable pub sum_from : ℕ → List ℕ → Result ℕ
sum_from total [] = ok total
sum_from total (part ∷ parts) = do
  fail_if (leb (2 ^ 64) (total + part))
      (ocb_corrupt_file "OCB metadata materialized byte count overflows")
  sum_from (total + part) parts

unfoldable pub checked_materialized_sum : List ℕ → Result ℕ
unfolding sum_from
checked_materialized_sum parts = sum_from 0 parts

-- `try_reserve_exact` of so many bytes, under the messages of `try_vec_with_capacity`,
-- `copy_bytes_fallibly` and `allocate_zeroed_bytes_fallibly`.
unfoldable pub reserve : Platform → ℕ → String → Result (Unit {0})
reserve p bytes message = do fail_if (not (p.grants bytes)) (io_error message); ok tt

-- `cursor.position()`, for a cursor over `total_len` bytes.
unfoldable pub position : ℕ → Reader ℕ
position total_len unread = ok (total_len - length unread, unread)

-- A position to come back to, and `cursor.set_position` of it.
unfoldable pub tell : Reader (List ℕ)
tell unread = ok (unread, unread)

unfoldable pub set_position : List ℕ → Reader (Unit {0})
set_position saved unread = ok (tt, saved)

module _ {ℓ} {A : Type ℓ} where
  unfoldable pub validate_record_sequence : ℕ → Reader A → Reader (Unit {0})
  unfolding Bytes.◌>>=◌ pure
  validate_record_sequence zero read_record = pure tt
  validate_record_sequence (suc count) read_record =
      Bytes.◌>>=◌ read_record (λ _. validate_record_sequence count read_record)

  -- The loop of `read_record_sequence`, after its allocation.
  unfoldable pub read_records : ℕ → Reader A → Reader (List A)
  unfolding Bytes.◌>>=◌ pure
  read_records zero read_record = pure []
  read_records (suc count) read_record =
      Bytes.◌>>=◌ read_record
        (λ r. Bytes.◌>>=◌ (read_records count read_record) (λ rs. pure (r ∷ rs)))

  unfoldable pub read_record_sequence : Platform → ℕ → ℕ → String → Reader A → Reader (List A)
  unfolding Bytes.◌>>=◌ Bytes.◌>>◌ Bytes.lift reserve read_records
  read_record_sequence p item_bytes count message read_record =
      Bytes.◌>>◌ (Bytes.lift (reserve p (count * item_bytes) message))
        (read_records count read_record)

  -- The `for` loop that writes each item of a table.
  unfoldable pub write_records : (A → Result (List ℕ)) → List A → Result (List ℕ)
  write_records write [] = ok []
  write_records write (x ∷ xs) = do ok ((← write x) ++ (← write_records write xs))

-- `u32::try_from(len)`.
unfoldable pub count_u32 : ℕ → ArcadiaTioError → Result ℕ
count_u32 count e = if leb (2 ^ 32) count then err e else ok count

unfoldable pub count_u16 : ℕ → ArcadiaTioError → Result ℕ
count_u16 count e = if leb (2 ^ 16) count then err e else ok count
