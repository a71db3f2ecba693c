-- ===== src/Crc/Range.antt =====
-- Every checksum is a 32-bit word, and what `seal` frames `unseal` opens.
use Prim.Native.Nat.{bit_xor}
use arcadia_tio_rs.Base.{
  ℕ, zero, suc, ◌/◌, ◌<◌, ◌≡◌, refl, ◌∙◌, arith, List, [], ◌∷◌, ◌++◌, String, eq→==, if◌then◌else◌,
  ◌==◌,
}
use arcadia_tio_rs.Base.Bits.{bit_xor-lt, bit_and-byte}
use arcadia_tio_rs.Error.{ok, err, ocb_corrupt_file}
use arcadia_tio_rs.Bytes.{IsU32, write_u32, le_bytes}
use arcadia_tio_rs.Bytes.Laws.{write_u32_at_end-append, read_u32_at_end-append, length-le_bytes}
use arcadia_tio_rs.Crc.{
  crc32c_poly, crc_bit, crc_bits, crc32c_table, crc32c_byte, crc32c_update, crc32c_finish, crc32c,
  seal, unseal,
}

crc_bit-IsU32 : (crc : ℕ) → IsU32 crc → IsU32 (crc_bit crc)
unfolding crc_bit
crc_bit-IsU32 crc h =
    ground (arith, bit_xor-lt 32 (crc / 2) crc32c_poly (omega arith) (omega arith))

pub crc_bits-IsU32 : (j crc : ℕ) → IsU32 crc → IsU32 (crc_bits j crc)
unfolding crc_bits
crc_bits-IsU32 zero crc h = h
crc_bits-IsU32 (suc j) crc h = crc_bits-IsU32 j (crc_bit crc) (crc_bit-IsU32 crc h)

pub table-IsU32 : (i : ℕ) → i < 256 → IsU32 (crc32c_table i)
unfolding crc32c_table
table-IsU32 i h = crc_bits-IsU32 8 i (omega arith)

pub crc32c_byte-IsU32 : (state byte : ℕ) → IsU32 state → IsU32 (crc32c_byte state byte)
unfolding crc32c_byte
crc32c_byte-IsU32 state byte h =
    bit_xor-lt 32 _ _ (table-IsU32 _ (omega (arith, bit_and-byte (bit_xor state byte))))
      (omega arith)

-- The state of the checksum stays a 32-bit word, so the complement at the end loses nothing.
pub crc32c_update-IsU32 :
    (state : ℕ) (bytes : List ℕ) → IsU32 state → IsU32 (crc32c_update state bytes)
unfolding crc32c_update
crc32c_update-IsU32 state [] h = h
crc32c_update-IsU32 state (b ∷ bs) h =
    crc32c_update-IsU32 (crc32c_byte state b) bs (crc32c_byte-IsU32 state b h)

pub crc32c-IsU32 : (bytes : List ℕ) → IsU32 (crc32c bytes)
unfolding crc32c crc32c_finish
crc32c-IsU32 bytes = omega arith

-- The framed form of a buffer that ends in the four zeros of `write_u32(&mut buf, 0)`.
pub seal-append :
    (body : List ℕ) → seal (body ++ write_u32 0) ≡ body ++ le_bytes 4 (crc32c (body ++ write_u32 0))
unfolding seal write_u32
seal-append body = write_u32_at_end-append body (le_bytes 4 0) _ (length-le_bytes 4 0)

-- What `unseal` sees in any buffer that ends in a stored checksum.
pub unseal-append :
    (mismatch : String) (body : List ℕ) (stored : ℕ)
    → IsU32 stored
    → unseal mismatch (body ++ le_bytes 4 stored) ≡ (
        if stored == crc32c (body ++ write_u32 0)
        then ok (stored, body ++ write_u32 0)
        else err (ocb_corrupt_file mismatch))
unfolding unseal write_u32
unseal-append mismatch body stored h = rw (read_u32_at_end-append body stored h) (
    rw (write_u32_at_end-append body (le_bytes 4 stored) 0 (length-le_bytes 4 stored))
      (ground arith))

-- A frame that `seal` made passes the check, and the buffer comes back as it was.
pub unseal-seal :
    (mismatch : String) (body : List ℕ)
    → unseal mismatch (seal (body ++ write_u32 0))
      ≡ ok (crc32c (body ++ write_u32 0), body ++ write_u32 0)
unseal-seal mismatch body = rw (seal-append body) (
    unseal-append mismatch body _ (crc32c-IsU32 _)
    ∙ rw (eq→== (crc32c (body ++ write_u32 0)) _ refl) refl)
