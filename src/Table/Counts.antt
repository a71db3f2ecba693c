-- ===== src/Table/Counts.antt =====
-- What `checked_record_count` and `checked_payload_len` accept.
use arcadia_tio_rs.Base.{ℕ, ◌+◌, ◌*◌, ◌^◌, ◌≤◌, ◌<◌, ◌≡◌, ◌↔◌, arith, String}
use arcadia_tio_rs.Error.{ok}
use arcadia_tio_rs.Table.{checked_record_count, remaining_before_crc}
use arcadia_tio_rs.Table.Reads.{checked_record_count-ok}

-- `checked_record_count` accepts a count exactly where the bytes of so many records are below 2 ^
-- 64, and they and the four bytes of the checksum fit between the position and the end of the
-- object.
pub checked_record_count-fits :
    (total position count record_len : ℕ) (what : String)
    → (checked_record_count total position count record_len what ≡ ok count)
      ↔ ((count * record_len < 2 ^ 64) × (position + count * record_len + 4 ≤ total))
unfolding checked_record_count remaining_before_crc
checked_record_count-fits total position count record_len what = (
  λ h. ground arith,
  λ (small, fits). checked_record_count-ok total position count record_len what small fits,
)
