-- ===== src/Crc/Damage.antt =====
-- A frame with one damaged byte, in the body or in the stored checksum, does not open.
use arcadia_tio_rs.Base.{
  ℕ, ◌≡◌, ◌≢◌, ◌⊎◌, inl, inr, refl, sym, ap, ap₂, ◌∙◌, arith, List, [], ◌∷◌, ◌++◌, String, length,
  All, ne→==, All-append_left, All-append_right, All-append,
}
use arcadia_tio_rs.Error.{err, ocb_corrupt_file}
use arcadia_tio_rs.Bytes.{IsU32, IsByte, le_bytes, write_u32, from_le_bytes}
use arcadia_tio_rs.Bytes.Laws.{
  le_bytes-from_le_bytes, from_le_bytes-lt, length-le_bytes, le_bytes-IsByte,
}
use arcadia_tio_rs.Crc.{crc32c, seal, unseal}
use arcadia_tio_rs.Crc.Range.{crc32c-IsU32, seal-append, unseal-append}
use arcadia_tio_rs.Crc.Detects.{OneByteOff, crc32c-OneByteOff}

OneByteOff-irrefl : (xs : List ℕ) → ¬ (OneByteOff xs xs)
OneByteOff-irrefl [] d = d
OneByteOff-irrefl (x ∷ xs) (inl (ne, e)) = ne refl
OneByteOff-irrefl (x ∷ xs) (inr (e, d)) = OneByteOff-irrefl xs d

OneByteOff-append_right : (xs ys zs : List ℕ) → OneByteOff xs ys → OneByteOff (xs ++ zs) (ys ++ zs)
OneByteOff-append_right [] ys zs d = absurd d
OneByteOff-append_right (x ∷ xs) [] zs d = absurd d
OneByteOff-append_right (x ∷ xs) (y ∷ ys) zs (inl (ne, e)) = inl (ne, ap (λ t. t ++ zs) e)
OneByteOff-append_right (x ∷ xs) (y ∷ ys) zs (inr (e, d)) =
    inr (e, OneByteOff-append_right xs ys zs d)

-- The damage of a concatenation is in one part, and the other part is intact.
record Split (xs ys zs : List ℕ) : Type 0 where
  front : List ℕ
  back : List ℕ
  whole : zs ≡ front ++ back
  place : (OneByteOff xs front × (ys ≡ back)) ⊎ ((xs ≡ front) × OneByteOff ys back)

split : (xs ys zs : List ℕ) → OneByteOff (xs ++ ys) zs → Split xs ys zs
split [] ys zs d = record { front = []; back = zs; whole = refl; place = inr (refl, d) }
split (x ∷ xs) ys [] d = absurd d
split (x ∷ xs) ys (z ∷ zs) (inl (ne, e)) = record {
  front = z ∷ xs;
  back = ys;
  whole = ap (λ t. z ∷ t) (sym e);
  place = inl (inl (ne, refl), refl);
}
split (x ∷ xs) ys (z ∷ zs) (inr (e, d)) =
    let s = split xs ys zs d in
    record {
      front = z ∷ s.front;
      back = s.back;
      whole = ap (λ t. z ∷ t) s.whole;
      place = elim s.place [
        | inl (off, same) ↦ inl (inr (e, off), same)
        | inr (same, off) ↦ inr (ap₂ ◌∷◌ e same, off)
      ];
    }

pub length-OneByteOff : (xs ys : List ℕ) → OneByteOff xs ys → length ys ≡ length xs
length-OneByteOff [] ys d = absurd d
length-OneByteOff (x ∷ xs) [] d = absurd d
length-OneByteOff (x ∷ xs) (y ∷ ys) (inl (ne, e)) = ap (λ t. length (y ∷ t)) (sym e)
length-OneByteOff (x ∷ xs) (y ∷ ys) (inr (e, d)) = omega (arith, length-OneByteOff xs ys d)

refused :
    (mismatch : String) (body : List ℕ) (stored : ℕ)
    → IsU32 stored
    → stored ≢ crc32c (body ++ write_u32 0)
    → unseal mismatch (body ++ le_bytes 4 stored) ≡ err (ocb_corrupt_file mismatch)
refused mismatch body stored h ne = unseal-append mismatch body stored h ∙ rw (ne→== _ _ ne) refl

body_damaged :
    (mismatch : String) (body body' : List ℕ)
    → All IsByte body
    → All IsByte body'
    → OneByteOff body body'
    → unseal mismatch (body' ++ le_bytes 4 (crc32c (body ++ write_u32 0)))
      ≡ err (ocb_corrupt_file mismatch)
unfolding write_u32
body_damaged mismatch body body' hb hb' d = refused mismatch body' _ (crc32c-IsU32 _) (
    crc32c-OneByteOff _ _ (All-append IsByte body _ hb (le_bytes-IsByte 4 0))
      (All-append IsByte body' _ hb' (le_bytes-IsByte 4 0))
      (OneByteOff-append_right body body' (le_bytes 4 0) d))

trailer_damaged :
    (mismatch : String) (body trailer : List ℕ)
    → All IsByte trailer
    → OneByteOff (le_bytes 4 (crc32c (body ++ write_u32 0))) trailer
    → unseal mismatch (body ++ trailer) ≡ err (ocb_corrupt_file mismatch)
trailer_damaged mismatch body trailer ht d =
    let c : ℕ = crc32c (body ++ write_u32 0) in
    let four : length trailer ≡ 4 =
      length-OneByteOff (le_bytes 4 c) trailer d ∙ length-le_bytes 4 c in
    let back : le_bytes 4 (from_le_bytes trailer) ≡ trailer =
      rw four at (le_bytes-from_le_bytes trailer ht) in
    rw back at (
      refused mismatch body (from_le_bytes trailer) (rw four at (from_le_bytes-lt trailer ht))
        (λ e. OneByteOff-irrefl trailer (rw (ap (le_bytes 4) (sym e) ∙ back) at d)))

-- Let a body of bytes be followed by the CRC-32C of the body with four zero bytes behind it, as
-- `seal` stores it. If exactly one byte of this is changed to another byte, in the body or in the
-- checksum, `unseal` refuses it with the message of the decoder that calls it.
pub unseal-damaged :
    (mismatch : String) (body damaged : List ℕ)
    → All IsByte body
    → All IsByte damaged
    → OneByteOff (seal (body ++ write_u32 0)) damaged
    → unseal mismatch damaged ≡ err (ocb_corrupt_file mismatch)
unseal-damaged mismatch body damaged hb hd d =
    let s = split body _ damaged (rw (seal-append body) at d) in
    let bytes : All IsByte (s.front ++ s.back) = rw s.whole at hd in
    rw s.whole (elim s.place [
      | inl (off, same) ↦
          rw (← same) (
            body_damaged mismatch body s.front hb (All-append_left IsByte s.front s.back bytes) off)
      | inr (same, off) ↦
          rw (← same) (
            trailer_damaged mismatch body s.back (All-append_right IsByte s.front s.back bytes) off)
    ])
