-- ===== src/Object/Laws.antt =====
-- Round trip and damage of a framed object, for any layout.
use arcadia_tio_rs.Base.{
  ℕ, ◌+◌, ◌≡◌, refl, ap, ◌∙◌, List, [], ◌++◌, String, length, length-append, All, append-nil,
  append_assoc,
}
use arcadia_tio_rs.Error.{Result, ok, err, ocb_corrupt_file}
use arcadia_tio_rs.Bytes.{Reader, ◌>>=◌, lift, cursor, IsByte, write_u32}
use arcadia_tio_rs.Bytes.Laws.{length-le_bytes}
use arcadia_tio_rs.Bytes.Reads.{Reads, step, lifted, read_exact-Reads, cursor-Reads}
use arcadia_tio_rs.Crc.{crc32c, seal}
use arcadia_tio_rs.Crc.Range.{seal-append, unseal-seal}
use arcadia_tio_rs.Crc.Detects.{OneByteOff}
use arcadia_tio_rs.Crc.Damage.{unseal-damaged, length-OneByteOff}
use arcadia_tio_rs.Object.{sealed, read_sealed}

pub length-seal : (body : List ℕ) → length (seal (body ++ write_u32 0)) ≡ length body + 4
length-seal body =
    rw (seal-append body) (length-append body _ ∙ ap (λ n. length body + n) (length-le_bytes 4 _))

-- What `sealed` returned is the frame of what was encoded.
pub sealed-eq-ok :
    (encoded : Result (List ℕ)) {bytes : List ℕ}
    → sealed encoded ≡ ok bytes
    → (buf : List ℕ) × (encoded ≡ ok buf) × (bytes ≡ seal buf)
unfolding sealed
sealed-eq-ok (ok buf) h = (buf, refl, cc)
sealed-eq-ok (err e) h = cc

pub lift-Reads {ℓ} :
    {A : Type ℓ} {r : Result A} {a : A} (rest : List ℕ) → r ≡ ok a → Reads (lift r) [] rest a
unfolding lift
lift-Reads rest h = record { run = rw (h, lift) }

-- If the decoder reads the body back, `read_sealed` reads the frame back.
pub read_sealed-Reads {ℓ} :
    {A : Type ℓ} (len : ℕ) (mismatch : String) (decode : ℕ → Reader A) (body rest : List ℕ) (a : A)
    → length body + 4 ≡ len
    → Reads (decode (crc32c (body ++ write_u32 0))) body (write_u32 0) a
    → Reads (read_sealed len mismatch decode) (seal (body ++ write_u32 0)) rest a
unfolding read_sealed
read_sealed-Reads len mismatch decode body rest a size h =
    rw (← append-nil (seal (body ++ write_u32 0))) (
      step _ (read_exact-Reads (seal (body ++ write_u32 0)) rest len (length-seal body ∙ size))
        (lifted _ (unseal-seal mismatch body) (lift-Reads rest (cursor-Reads h))))

-- The same where the decoder leaves a part of the body unread.
pub read_sealed-Reads_padded {ℓ} :
    {A : Type ℓ} (len : ℕ) (mismatch : String) (decode : ℕ → Reader A) (body padding rest : List ℕ)
    (a : A)
    → length (body ++ padding) + 4 ≡ len
    → Reads (decode (crc32c ((body ++ padding) ++ write_u32 0))) body (padding ++ write_u32 0) a
    → Reads (read_sealed len mismatch decode) (seal ((body ++ padding) ++ write_u32 0)) rest a
unfolding read_sealed
read_sealed-Reads_padded len mismatch decode body padding rest a size h =
    let whole : List ℕ = body ++ padding in
    rw (← append-nil (seal (whole ++ write_u32 0))) (
      step _ (read_exact-Reads (seal (whole ++ write_u32 0)) rest len (length-seal whole ∙ size)) (
        lifted _ (unseal-seal mismatch whole) (
          lift-Reads rest (
            ap (cursor (decode (crc32c (whole ++ write_u32 0))))
              (append_assoc body padding (write_u32 0))
            ∙ cursor-Reads h))))

-- One damaged byte anywhere in the frame is refused.
pub read_sealed-damaged {ℓ} :
    {A : Type ℓ} (len : ℕ) (mismatch : String) (decode : ℕ → Reader A) (body damaged rest : List ℕ)
    → length body + 4 ≡ len
    → All IsByte body
    → All IsByte damaged
    → OneByteOff (seal (body ++ write_u32 0)) damaged
    → read_sealed len mismatch decode (damaged ++ rest) ≡ err (ocb_corrupt_file mismatch)
unfolding read_sealed
read_sealed-damaged len mismatch decode body damaged rest size hb hd off =
    let whole : length damaged ≡ len =
      length-OneByteOff (seal (body ++ write_u32 0)) damaged off ∙ length-seal body ∙ size in
    unfold ◌>>=◌ lift in
    rw ((read_exact-Reads damaged rest len whole).run, ◌>>=◌)
      (rw (unseal-damaged mismatch body damaged hb hd off, lift))
