-- ===== src/Crc/Detects.antt =====
-- The checksum tells apart any two buffers of bytes that differ in one place, so a frame with one
-- damaged byte is refused.
use Prim.Native.Nat.{bit_xor, bit_and}
use arcadia_tio_rs.Base.{
  ℕ, zero, suc, ◌+◌, ◌*◌, ◌/◌, ◌%◌, ◌<◌, ◌^◌, ◌≡◌, ◌≢◌, ◌⊎◌, inl, inr, refl, sym, ap, ◌∙◌, arith,
  List, [], ◌∷◌, All, Bool, true, ◌&&◌, ◌==◌, if◌then◌else◌, leb,
}
use arcadia_tio_rs.Base.Bits.{
  bit_and-byte, bit_xor_byte_cancel, bit_xor-high_byte, bit_xor-zero, bit_xor-cancel_left,
  bit_xor_comm,
}
use arcadia_tio_rs.Bytes.{IsU32, IsByte}
use arcadia_tio_rs.Crc.{
  crc32c_poly, crc32c_table, crc32c_init, crc32c_byte, crc32c_update, crc32c_finish, crc32c,
}
use arcadia_tio_rs.Crc.Range.{crc32c_byte-IsU32, crc32c_update-IsU32}

-- One round of the table's inner loop, run backwards.
unbit : ℕ → ℕ → ℕ
unbit zero x = x
unbit (suc j) x = unbit j (if leb (2 ^ 31) x then bit_xor x crc32c_poly * 2 + 1 else x * 2)

-- The index of the table's entry whose top byte is given.
index_of : ℕ → ℕ
unfolding unbit
index_of top = unbit 8 (top * 2 ^ 24) % 256

module _ (f g : ℕ → ℕ) where
  agree_below : ℕ → Bool
  agree_below zero = true
  agree_below (suc n) = (f n == g n) && agree_below n

  agree_below→eq : (n i : ℕ) → agree_below n ≡ true → i < n → f i ≡ g i
  unfolding agree_below
  agree_below→eq zero i h lt = absurd (omega arith)
  agree_below→eq (suc n) i h lt = ground (arith, agree_below→eq n i)

top_of : ℕ → ℕ
top_of x = x / 256 / 256 / 256

index_of_entry : ℕ → ℕ
index_of_entry i = index_of (top_of (crc32c_table i))

index_found : (i : ℕ) → i < 256 → index_of_entry i ≡ i
unfolding agree_below index_of_entry index_of crc32c_table top_of
index_found i h = agree_below→eq index_of_entry (λ n. n) 256 i refl h

-- No two entries of the table have the same top byte.
top-injective :
    (i j : ℕ) → i < 256 → j < 256 → top_of (crc32c_table i) ≡ top_of (crc32c_table j) → i ≡ j
unfolding index_of_entry
top-injective i j hi hj h = sym (index_found i hi) ∙ ap index_of h ∙ index_found j hj

index : ℕ → ℕ → ℕ
index state byte = bit_and (bit_xor state byte) 0xff

index-lt : (state byte : ℕ) → index state byte < 256
unfolding index
index-lt state byte = omega (arith, bit_and-byte (bit_xor state byte))

-- The top byte of the new state is that of the entry.
top-crc32c_byte :
    (state byte : ℕ)
    → IsU32 state
    → top_of (crc32c_byte state byte) ≡ top_of (crc32c_table (index state byte))
unfolding crc32c_byte top_of index
top-crc32c_byte state byte h =
    rw (bit_xor-high_byte, bit_xor-high_byte, bit_xor-high_byte)
      (rw (let gone : state / 256 / 256 / 256 / 256 ≡ 0 = omega arith in gone) (bit_xor-zero _))

same_index :
    (s t a b : ℕ) → IsU32 s → IsU32 t → crc32c_byte s a ≡ crc32c_byte t b → index s a ≡ index t b
same_index s t a b hs ht h =
    top-injective _ _ (index-lt s a) (index-lt t b)
      (sym (top-crc32c_byte s a hs) ∙ ap top_of h ∙ top-crc32c_byte t b ht)

same_low : (s t a b : ℕ) → index s a ≡ index t b → bit_xor s a % 256 ≡ bit_xor t b % 256
unfolding index
same_low s t a b h = omega (arith, bit_and-byte (bit_xor s a), bit_and-byte (bit_xor t b))

same_rest :
    (s t a b : ℕ) → index s a ≡ index t b → crc32c_byte s a ≡ crc32c_byte t b → s / 256 ≡ t / 256
unfolding crc32c_byte index
same_rest s t a b hi h = bit_xor-cancel_left (s / 256) (t / 256) _ (rw hi at h)

-- A round keeps distinct states apart.
pub crc32c_byte-injective_state :
    (s t b : ℕ) → IsU32 s → IsU32 t → crc32c_byte s b ≡ crc32c_byte t b → s ≡ t
crc32c_byte-injective_state s t b hs ht h =
    let hi : index s b ≡ index t b = same_index s t b b hs ht h in
    omega (arith, bit_xor_byte_cancel s t b (same_low s t b b hi), same_rest s t b b hi h)

-- A round from one state keeps distinct bytes apart.
pub crc32c_byte-injective_byte :
    (s a b : ℕ) → IsU32 s → IsByte a → IsByte b → crc32c_byte s a ≡ crc32c_byte s b → a ≡ b
crc32c_byte-injective_byte s a b hs ha hb h = omega (
  arith,
  bit_xor_byte_cancel a b s
      (rw (bit_xor_comm a s, bit_xor_comm b s) (same_low s s a b (same_index s s a b hs hs h))),
)

pub crc32c_update-injective_state :
    (bytes : List ℕ) (s t : ℕ)
    → IsU32 s
    → IsU32 t
    → crc32c_update s bytes ≡ crc32c_update t bytes
    → s ≡ t
unfolding crc32c_update
crc32c_update-injective_state [] s t hs ht h = h
crc32c_update-injective_state (b ∷ bs) s t hs ht h =
    crc32c_byte-injective_state s t b hs ht
      (crc32c_update-injective_state bs _ _ (crc32c_byte-IsU32 s b hs) (crc32c_byte-IsU32 t b ht) h)

-- The second list is the first with another value in one place.
abbrev pub OneByteOff : List ℕ → List ℕ → Type 0
OneByteOff [] ys = ⊥
OneByteOff (x ∷ xs) [] = ⊥
OneByteOff (x ∷ xs) (y ∷ ys) = ((x ≢ y) × (xs ≡ ys)) ⊎ ((x ≡ y) × OneByteOff xs ys)

pub crc32c_update-OneByteOff :
    (xs ys : List ℕ) (s : ℕ)
    → IsU32 s
    → All IsByte xs
    → All IsByte ys
    → OneByteOff xs ys
    → crc32c_update s xs ≢ crc32c_update s ys
unfolding crc32c_update
crc32c_update-OneByteOff [] ys s hs hx hy d = absurd d
crc32c_update-OneByteOff (x ∷ xs) [] s hs hx hy d = absurd d
crc32c_update-OneByteOff (x ∷ xs) (y ∷ ys) s hs (hx, hxs) (hy, hys) (inl (ne, e)) = λ h. ne (
    crc32c_byte-injective_byte s x y hs hx hy (
      crc32c_update-injective_state xs _ _ (crc32c_byte-IsU32 s x hs) (crc32c_byte-IsU32 s y hs)
        (rw (← e) at h)))
crc32c_update-OneByteOff (x ∷ xs) (y ∷ ys) s hs (hx, hxs) (hy, hys) (inr (e, d)) =
    rw e (crc32c_update-OneByteOff xs ys (crc32c_byte s y) (crc32c_byte-IsU32 s y hs) hxs hys d)

-- Two byte strings that differ in exactly one byte have different CRC-32C.
pub crc32c-OneByteOff :
    (xs ys : List ℕ) → All IsByte xs → All IsByte ys → OneByteOff xs ys → crc32c xs ≢ crc32c ys
unfolding crc32c crc32c_finish
crc32c-OneByteOff xs ys hx hy d h =
    crc32c_update-OneByteOff xs ys crc32c_init (omega arith) hx hy d (
      omega (
        arith,
        crc32c_update-IsU32 crc32c_init xs (omega arith),
        crc32c_update-IsU32 crc32c_init ys (omega arith),
      ))
