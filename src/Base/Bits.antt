-- ===== src/Base/Bits.antt =====
-- Exclusive or at variables, one binary digit at a time: halves, range, cancellation.
use Prim.Native.Nat.{
  ℕ, zero, suc, ◌+◌, ◌*◌, ◌/◌, ◌%◌, ◌^◌, ◌≤◌, ◌<◌, bit_xor, bit_and, differ, digits, bitwise,
  bit_xor-bitwise, bit_and-bitwise, min,
}
use mathlib.Core.Path.{◌≡◌, refl, sym, ap, ap₂, ◌∙◌}
use native.Mathlib.Nat.{pow-suc}
use native.Mathlib.Omega.{arith}

-- The digits do not depend on the fuel, from the first argument on.
module _ (z : ℕ → ℕ) (f : ℕ → ℕ → ℕ) where
  digits-fuel : (n m a b : ℕ) → a ≤ n → a ≤ m → digits z f n a b ≡ digits z f m a b
  digits-fuel zero zero a b hn hm = refl
  digits-fuel zero (suc m) zero b hn hm = refl
  digits-fuel zero (suc m) (suc a) b hn hm = absurd (omega arith)
  digits-fuel (suc n) zero zero b hn hm = refl
  digits-fuel (suc n) zero (suc a) b hn hm = absurd (omega arith)
  digits-fuel (suc n) (suc m) zero b hn hm = refl
  digits-fuel (suc n) (suc m) (suc a) b hn hm =
      ap (λ d. d * 2 + f (suc a % 2) (b % 2))
        (digits-fuel n m (suc a / 2) (b / 2) (omega arith) (omega arith))

  bitwise-digit :
      (a b : ℕ)
      → bitwise z f (suc a) b ≡ bitwise z f (suc a / 2) (b / 2) * 2 + f (suc a % 2) (b % 2)
  bitwise-digit a b =
      ap (λ d. d * 2 + f (suc a % 2) (b % 2))
        (digits-fuel a (suc a / 2) (suc a / 2) (b / 2) (omega arith) (omega arith))

differ-eq : (p q : ℕ) → p < 2 → q < 2 → differ p q ≡ (p + q) % 2
differ-eq zero zero hp hq = refl
differ-eq zero (suc zero) hp hq = refl
differ-eq (suc zero) zero hp hq = refl
differ-eq (suc zero) (suc zero) hp hq = refl
differ-eq zero (suc (suc q)) hp hq = absurd (omega arith)
differ-eq (suc zero) (suc (suc q)) hp hq = absurd (omega arith)
differ-eq (suc (suc p)) q hp hq = absurd (omega arith)

pub bit_xor_digit : (a b : ℕ) → bit_xor a b ≡ bit_xor (a / 2) (b / 2) * 2 + (a % 2 + b % 2) % 2
bit_xor_digit zero b = omega (arith, bit_xor-bitwise 0 b, bit_xor-bitwise 0 (b / 2))
bit_xor_digit (suc a) b = omega (
  arith,
  bit_xor-bitwise (suc a) b,
  bit_xor-bitwise (suc a / 2) (b / 2),
  bitwise-digit (λ y. y) differ a b,
  differ-eq (suc a % 2) (b % 2) (omega arith) (omega arith),
)

pub bit_xor-half : (a b : ℕ) → bit_xor a b / 2 ≡ bit_xor (a / 2) (b / 2)
bit_xor-half a b = omega (arith, bit_xor_digit a b)

pub bit_xor-odd : (a b : ℕ) → bit_xor a b % 2 ≡ (a % 2 + b % 2) % 2
bit_xor-odd a b = omega (arith, bit_xor_digit a b)

pub bit_xor-lt : (k a b : ℕ) → a < 2 ^ k → b < 2 ^ k → bit_xor a b < 2 ^ k
bit_xor-lt zero zero zero ha hb = omega arith
bit_xor-lt zero zero (suc b) ha hb = absurd (omega arith)
bit_xor-lt zero (suc a) b ha hb = absurd (omega arith)
bit_xor-lt (suc k) a b ha hb =
    let half_a : a / 2 < 2 ^ k = omega (arith, pow-suc 2 k) in
    let half_b : b / 2 < 2 ^ k = omega (arith, pow-suc 2 k) in
    omega (arith, bit_xor_digit a b, pow-suc 2 k, bit_xor-lt k (a / 2) (b / 2) half_a half_b)

-- Exclusive or with one value can be undone.
xor-cancel_below : (k a b c : ℕ) → a ≤ k → b ≤ k → bit_xor a c ≡ bit_xor b c → a ≡ b
xor-cancel_below zero a b c ha hb h = omega arith
xor-cancel_below (suc k) a b c ha hb h =
    let halves : a / 2 ≡ b / 2 =
      xor-cancel_below k (a / 2) (b / 2) (c / 2) (omega arith) (omega arith)
        (omega (arith, bit_xor_digit a c, bit_xor_digit b c)) in
    omega (arith, bit_xor_digit a c, bit_xor_digit b c)

pub bit_xor-cancel_right : (a b c : ℕ) → bit_xor a c ≡ bit_xor b c → a ≡ b
bit_xor-cancel_right a b c h = xor-cancel_below (a + b) a b c (omega arith) (omega arith) h

xor_comm_below : (k a b : ℕ) → a ≤ k → b ≤ k → bit_xor a b ≡ bit_xor b a
xor_comm_below zero zero zero ha hb = refl
xor_comm_below zero zero (suc b) ha hb = absurd (omega arith)
xor_comm_below zero (suc a) b ha hb = absurd (omega arith)
xor_comm_below (suc k) a b ha hb = omega (
  arith,
  bit_xor_digit a b,
  bit_xor_digit b a,
  xor_comm_below k (a / 2) (b / 2) (omega arith) (omega arith),
)

pub bit_xor_comm : (a b : ℕ) → bit_xor a b ≡ bit_xor b a
bit_xor_comm a b = xor_comm_below (a + b) a b (omega arith) (omega arith)

pub bit_xor-cancel_left : (a b c : ℕ) → bit_xor c a ≡ bit_xor c b → a ≡ b
bit_xor-cancel_left a b c h =
    bit_xor-cancel_right a b c (omega (arith, bit_xor_comm a c, bit_xor_comm b c))

-- The lowest `k` bits.
low : ℕ → ℕ → ℕ
low zero a = 0
low (suc k) a = a % 2 + 2 * low k (a / 2)

-- One digit of a remainder by a power of two.
mod256 : (a : ℕ) → a % 256 ≡ a % 2 + 2 * (a / 2 % 128)
mod256 a = omega arith

mod128 : (a : ℕ) → a % 128 ≡ a % 2 + 2 * (a / 2 % 64)
mod128 a = omega arith

mod64 : (a : ℕ) → a % 64 ≡ a % 2 + 2 * (a / 2 % 32)
mod64 a = omega arith

mod32 : (a : ℕ) → a % 32 ≡ a % 2 + 2 * (a / 2 % 16)
mod32 a = omega arith

mod16 : (a : ℕ) → a % 16 ≡ a % 2 + 2 * (a / 2 % 8)
mod16 a = omega arith

mod8 : (a : ℕ) → a % 8 ≡ a % 2 + 2 * (a / 2 % 4)
mod8 a = omega arith

mod4 : (a : ℕ) → a % 4 ≡ a % 2 + 2 * (a / 2 % 2)
mod4 a = omega arith

low1 : (a : ℕ) → low 1 a ≡ a % 2
unfolding low
low1 a = omega arith

low2 : (a : ℕ) → low 2 a ≡ a % 4
unfolding low
low2 a = ap (λ t. a % 2 + 2 * t) (low1 (a / 2)) ∙ sym (mod4 a)

low3 : (a : ℕ) → low 3 a ≡ a % 8
unfolding low
low3 a = ap (λ t. a % 2 + 2 * t) (low2 (a / 2)) ∙ sym (mod8 a)

low4 : (a : ℕ) → low 4 a ≡ a % 16
unfolding low
low4 a = ap (λ t. a % 2 + 2 * t) (low3 (a / 2)) ∙ sym (mod16 a)

low5 : (a : ℕ) → low 5 a ≡ a % 32
unfolding low
low5 a = ap (λ t. a % 2 + 2 * t) (low4 (a / 2)) ∙ sym (mod32 a)

low6 : (a : ℕ) → low 6 a ≡ a % 64
unfolding low
low6 a = ap (λ t. a % 2 + 2 * t) (low5 (a / 2)) ∙ sym (mod64 a)

low7 : (a : ℕ) → low 7 a ≡ a % 128
unfolding low
low7 a = ap (λ t. a % 2 + 2 * t) (low6 (a / 2)) ∙ sym (mod128 a)

low_byte : (a : ℕ) → low 8 a ≡ a % 256
unfolding low
low_byte a = ap (λ t. a % 2 + 2 * t) (low7 (a / 2)) ∙ sym (mod256 a)

low-cancel : (k a b c : ℕ) → low k (bit_xor a c) ≡ low k (bit_xor b c) → low k a ≡ low k b
unfolding low
low-cancel zero a b c h = refl
low-cancel (suc k) a b c h =
    let rest : low k (bit_xor (a / 2) (c / 2)) ≡ low k (bit_xor (b / 2) (c / 2)) =
      rw (← bit_xor-half a c, ← bit_xor-half b c) (omega arith) in
    omega (arith, bit_xor-odd a c, bit_xor-odd b c, low-cancel k (a / 2) (b / 2) (c / 2) rest)

-- The low bytes of two words agree, if they do after an exclusive or with one value.
pub bit_xor_byte_cancel : (a b c : ℕ) → bit_xor a c % 256 ≡ bit_xor b c % 256 → a % 256 ≡ b % 256
bit_xor_byte_cancel a b c h = omega (
  arith,
  low_byte a,
  low_byte b,
  low-cancel 8 a b c (omega (arith, low_byte (bit_xor a c), low_byte (bit_xor b c))),
)

-- The bits from the second, the fourth and the eighth on.
div4 : (n : ℕ) → n / 4 ≡ n / 2 / 2
div4 n = omega arith

div16 : (n : ℕ) → n / 16 ≡ n / 4 / 4
div16 n = omega arith

div256 : (n : ℕ) → n / 256 ≡ n / 16 / 16
div256 n = omega arith

bit_xor-quarter : (a b : ℕ) → bit_xor a b / 4 ≡ bit_xor (a / 4) (b / 4)
bit_xor-quarter a b =
    div4 (bit_xor a b)
    ∙ ap (λ n. n / 2) (bit_xor-half a b)
    ∙ bit_xor-half (a / 2) (b / 2)
    ∙ ap₂ bit_xor (sym (div4 a)) (sym (div4 b))

bit_xor-sixteenth : (a b : ℕ) → bit_xor a b / 16 ≡ bit_xor (a / 16) (b / 16)
bit_xor-sixteenth a b =
    div16 (bit_xor a b)
    ∙ ap (λ n. n / 4) (bit_xor-quarter a b)
    ∙ bit_xor-quarter (a / 4) (b / 4)
    ∙ ap₂ bit_xor (sym (div16 a)) (sym (div16 b))

pub bit_xor-high_byte : (a b : ℕ) → bit_xor a b / 256 ≡ bit_xor (a / 256) (b / 256)
bit_xor-high_byte a b =
    div256 (bit_xor a b)
    ∙ ap (λ n. n / 16) (bit_xor-sixteenth a b)
    ∙ bit_xor-sixteenth (a / 16) (b / 16)
    ∙ ap₂ bit_xor (sym (div256 a)) (sym (div256 b))

pub bit_xor-zero : (a : ℕ) → bit_xor a 0 ≡ a
bit_xor-zero a = bit_xor_comm a 0 ∙ bit_xor-bitwise 0 a

-- The mask of a byte is a remainder.
pub bit_and_digit : (a b : ℕ) → bit_and a b ≡ bit_and (a / 2) (b / 2) * 2 + min (a % 2) (b % 2)
bit_and_digit zero b = omega (arith, bit_and-bitwise 0 b, bit_and-bitwise 0 (b / 2))
bit_and_digit (suc a) b = omega (
  arith,
  bit_and-bitwise (suc a) b,
  bit_and-bitwise (suc a / 2) (b / 2),
  bitwise-digit (λ y. 0) min a b,
)

and-zero_below : (k a : ℕ) → a ≤ k → bit_and a 0 ≡ 0
and-zero_below zero zero h = refl
and-zero_below zero (suc a) h = absurd (omega arith)
and-zero_below (suc k) a h =
    omega (arith, bit_and_digit a 0, and-zero_below k (a / 2) (omega arith))

pub bit_and-one : (a : ℕ) → bit_and a 1 ≡ a % 2
bit_and-one a = omega (arith, bit_and_digit a 1, and-zero_below a (a / 2) (omega arith))

digit_mask2 : (a d : ℕ) → d ≡ a / 2 % 2 → d * 2 + min (a % 2) 1 ≡ a % 4
digit_mask2 a d h = omega (arith, h)

and_mask2 : (a : ℕ) → bit_and a 3 ≡ a % 4
and_mask2 a = bit_and_digit a 3 ∙ digit_mask2 a (bit_and (a / 2) 1) (bit_and-one (a / 2))

digit_mask3 : (a d : ℕ) → d ≡ a / 2 % 4 → d * 2 + min (a % 2) 1 ≡ a % 8
digit_mask3 a d h = omega (arith, h)

and_mask3 : (a : ℕ) → bit_and a 7 ≡ a % 8
and_mask3 a = bit_and_digit a 7 ∙ digit_mask3 a (bit_and (a / 2) 3) (and_mask2 (a / 2))

digit_mask4 : (a d : ℕ) → d ≡ a / 2 % 8 → d * 2 + min (a % 2) 1 ≡ a % 16
digit_mask4 a d h = omega (arith, h)

and_mask4 : (a : ℕ) → bit_and a 15 ≡ a % 16
and_mask4 a = bit_and_digit a 15 ∙ digit_mask4 a (bit_and (a / 2) 7) (and_mask3 (a / 2))

digit_mask5 : (a d : ℕ) → d ≡ a / 2 % 16 → d * 2 + min (a % 2) 1 ≡ a % 32
digit_mask5 a d h = omega (arith, h)

and_mask5 : (a : ℕ) → bit_and a 31 ≡ a % 32
and_mask5 a = bit_and_digit a 31 ∙ digit_mask5 a (bit_and (a / 2) 15) (and_mask4 (a / 2))

digit_mask6 : (a d : ℕ) → d ≡ a / 2 % 32 → d * 2 + min (a % 2) 1 ≡ a % 64
digit_mask6 a d h = omega (arith, h)

and_mask6 : (a : ℕ) → bit_and a 63 ≡ a % 64
and_mask6 a = bit_and_digit a 63 ∙ digit_mask6 a (bit_and (a / 2) 31) (and_mask5 (a / 2))

digit_mask7 : (a d : ℕ) → d ≡ a / 2 % 64 → d * 2 + min (a % 2) 1 ≡ a % 128
digit_mask7 a d h = omega (arith, h)

and_mask7 : (a : ℕ) → bit_and a 127 ≡ a % 128
and_mask7 a = bit_and_digit a 127 ∙ digit_mask7 a (bit_and (a / 2) 63) (and_mask6 (a / 2))

digit_mask8 : (a d : ℕ) → d ≡ a / 2 % 128 → d * 2 + min (a % 2) 1 ≡ a % 256
digit_mask8 a d h = omega (arith, h)

pub bit_and-byte : (a : ℕ) → bit_and a 255 ≡ a % 256
bit_and-byte a = bit_and_digit a 255 ∙ digit_mask8 a (bit_and (a / 2) 127) (and_mask7 (a / 2))
