-- ===== src/Bytes/Laws.antt =====
-- Little-endian integers: length, range and round trip; the trailing four bytes of a buffer.
use arcadia_tio_rs.Base.{
  ℕ, zero, suc, ◌+◌, ◌-◌, ◌*◌, ◌/◌, ◌%◌, ◌^◌, ◌<◌, ◌≡◌, refl, ap, ap₂, ◌∙◌, List, [], ◌∷◌, ◌++◌,
  length, All, arith, length-append, length-replicate, take-append, drop-append,
}
use arcadia_tio_rs.Error.{ok}
use arcadia_tio_rs.Bytes.{
  IsByte, IsU32, le_bytes, zeros, from_le_bytes, write_u16, write_u32, write_u64, read_u32_at_end,
  write_u32_at_end,
}
use native.Mathlib.Nat.{pow-suc}

pub length-le_bytes : (n v : ℕ) → length (le_bytes n v) ≡ n
unfolding le_bytes
length-le_bytes zero v = refl
length-le_bytes (suc n) v = ap suc (length-le_bytes n (v / 256))

pub length-write_u16 : (v : ℕ) → length (write_u16 v) ≡ 2
unfolding write_u16
length-write_u16 v = refl

pub length-write_u32 : (v : ℕ) → length (write_u32 v) ≡ 4
unfolding write_u32
length-write_u32 v = refl

pub length-write_u64 : (v : ℕ) → length (write_u64 v) ≡ 8
unfolding write_u64
length-write_u64 v = refl

pub le_bytes-IsByte : (n v : ℕ) → All IsByte (le_bytes n v)
unfolding le_bytes
le_bytes-IsByte zero v = tt
le_bytes-IsByte (suc n) v = (omega arith, le_bytes-IsByte n (v / 256))

pub from_le_bytes-le_bytes : (n v : ℕ) → v < 256 ^ n → from_le_bytes (le_bytes n v) ≡ v
unfolding le_bytes from_le_bytes
from_le_bytes-le_bytes zero v h = omega arith
from_le_bytes-le_bytes (suc n) v h =
    omega (arith, from_le_bytes-le_bytes n (v / 256) (omega (arith, pow-suc 256 n)))

pub from_le_bytes-lt : (bs : List ℕ) → All IsByte bs → from_le_bytes bs < 256 ^ length bs
unfolding from_le_bytes
from_le_bytes-lt [] h = omega arith
from_le_bytes-lt (b ∷ bs) (hb, hbs) =
    omega (arith, from_le_bytes-lt bs hbs, pow-suc 256 (length bs))

pub le_bytes-from_le_bytes :
    (bs : List ℕ) → All IsByte bs → le_bytes (length bs) (from_le_bytes bs) ≡ bs
unfolding le_bytes from_le_bytes
le_bytes-from_le_bytes [] h = refl
le_bytes-from_le_bytes (b ∷ bs) (hb, hbs) =
    let low : (b + 256 * from_le_bytes bs) % 256 ≡ b = omega arith in
    let high : (b + 256 * from_le_bytes bs) / 256 ≡ from_le_bytes bs = omega arith in
    ap₂ ◌∷◌ low (ap (le_bytes (length bs)) high ∙ le_bytes-from_le_bytes bs hbs)

-- A buffer of four bytes or more is a body and a trailer.
pub write_u32_at_end-append :
    (body trailer : List ℕ) (v : ℕ)
    → length trailer ≡ 4
    → write_u32_at_end (body ++ trailer) v ≡ body ++ le_bytes 4 v
unfolding write_u32_at_end
write_u32_at_end-append body trailer v h =
    let cut : length (body ++ trailer) - 4 ≡ length body =
      omega (arith, length-append body trailer) in
    rw cut (rw (take-append body trailer))

pub read_u32_at_end-append :
    (body : List ℕ) (v : ℕ) → IsU32 v → read_u32_at_end (body ++ le_bytes 4 v) ≡ ok v
unfolding read_u32_at_end
read_u32_at_end-append body v h =
    let size : length (body ++ le_bytes 4 v) ≡ length body + 4 =
      length-append body (le_bytes 4 v) ∙ ap (λ t. length body + t) (length-le_bytes 4 v) in
    let cut : length (body ++ le_bytes 4 v) - 4 ≡ length body = omega (arith, size) in
    rw cut (
      rw (drop-append body (le_bytes 4 v))
        (rw (from_le_bytes-le_bytes 4 v h) (ground (arith, size))))

pub length-zeros : (n : ℕ) → length (zeros n) ≡ n
unfolding zeros
length-zeros n = length-replicate n 0
