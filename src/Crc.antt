-- ===== src/Crc.antt =====
-- CRC-32C of crates/arcadia-tio-ocb-core/src/format.rs, and the frame of the objects other
-- than the page of version 2: the checksum of the buffer with four zeros for a trailer, written over
-- that trailer.
pub mod Range
pub mod Detects
pub mod Damage
use Prim.Native.Nat.{bit_xor, bit_and}
use arcadia_tio_rs.Base.{ℕ, zero, suc, ◌-◌, ◌/◌, List, [], ◌∷◌, ◌==◌, if◌then◌else◌, not, String}
use arcadia_tio_rs.Error.{Result, ok, ocb_corrupt_file, fail_if, ◌>>=◌, ◌>>◌}
use arcadia_tio_rs.Bytes.{read_u32_at_end, write_u32_at_end}

abbrev pub crc32c_poly : ℕ
crc32c_poly = 0x82f63b78

-- One round of the inner loop of `build_crc32c_table`.
unfoldable pub crc_bit : ℕ → ℕ
crc_bit crc = if bit_and crc 1 == 0 then crc / 2 else bit_xor (crc / 2) crc32c_poly

unfoldable pub crc_bits : ℕ → ℕ → ℕ
unfolding crc_bit
crc_bits zero crc = crc
crc_bits (suc j) crc = crc_bits j (crc_bit crc)

-- `CRC32C_TABLE`: the entry at `i`, for `i` below 256.
unfoldable pub crc32c_table : ℕ → ℕ
unfolding crc_bits
crc32c_table i = crc_bits 8 i

abbrev pub crc32c_init : ℕ
crc32c_init = 0xffff_ffff

-- One round of the loop of `crc32c_update`.
unfoldable pub crc32c_byte : ℕ → ℕ → ℕ
unfolding crc32c_table
crc32c_byte state byte = bit_xor (crc32c_table (bit_and (bit_xor state byte) 0xff)) (state / 256)

unfoldable pub crc32c_update : ℕ → List ℕ → ℕ
unfolding crc32c_byte
crc32c_update state [] = state
crc32c_update state (byte ∷ bytes) = crc32c_update (crc32c_byte state byte) bytes

-- `!state` on 32 bits.
unfoldable pub crc32c_finish : ℕ → ℕ
crc32c_finish state = 0xffff_ffff - state

unfoldable pub crc32c : List ℕ → ℕ
unfolding crc32c_finish crc32c_update
crc32c bytes = crc32c_finish (crc32c_update crc32c_init bytes)

-- `let checksum = crc32c(&buf); write_u32_at_end(&mut buf, checksum)`, as the `write_to` of each object
-- has it, but for `OcbBootstrapPageV2`, whose checksum is `bootstrap_crc32c`.
unfoldable pub seal : List ℕ → List ℕ
unfolding crc32c write_u32_at_end
seal buf = write_u32_at_end buf (crc32c buf)

-- The opening lines of the decoders other than that of `OcbBootstrapPageV2`: the stored checksum, the buffer with its trailer set to
-- zero, and the comparison. Returns both.
unfoldable pub unseal : String → List ℕ → Result (ℕ × List ℕ)
unfolding crc32c write_u32_at_end read_u32_at_end
unseal mismatch bytes = do
  actual_crc ← read_u32_at_end bytes
  let stable = write_u32_at_end bytes 0
  fail_if (not (actual_crc == crc32c stable)) (ocb_corrupt_file mismatch)
  ok (actual_crc, stable)
