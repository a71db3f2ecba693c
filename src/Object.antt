-- ===== src/Object.antt =====
-- The frame of the objects of fixed size: the first lines of `read_from` and the body of `write_to`
-- of the bootstrap page (V1), the root slot and the roots.
pub mod Laws
use arcadia_tio_rs.Base.{ℕ, List, String}
use arcadia_tio_rs.Error.{Result, ok}
use arcadia_tio_rs.Error
use arcadia_tio_rs.Bytes.{Reader, ◌>>=◌, pure, lift, read_exact_ocb, cursor}
use arcadia_tio_rs.Crc.{seal, unseal}

-- `let mut buf = self.encode_without_checksum()?;` and what follows it in a `write_to`.
unfoldable pub sealed : Result (List ℕ) → Result (List ℕ)
unfolding seal
sealed encoded = Error.◌>>=◌ encoded (λ buf. ok (seal buf))

-- Reads `len` bytes, checks and clears the trailer, and decodes the rest from a cursor.
unfoldable pub read_sealed {ℓ} : {A : Type ℓ} → ℕ → String → (ℕ → Reader A) → Reader A
unfolding ◌>>=◌ pure lift read_exact_ocb cursor unseal
read_sealed len mismatch decode = do
  buf ← read_exact_ocb len
  (actual_crc, stable) ← lift (unseal mismatch buf)
  lift (cursor (decode actual_crc) stable)
