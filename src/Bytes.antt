-- ===== src/Bytes.antt =====
-- Little-endian integers and the cursor: the helpers `write_*`, `read_*`, `read_u32_at_end` and
-- `write_u32_at_end` of crates/arcadia-tio-ocb-core/src/format.rs. A byte is a number below 256.
pub mod Laws
pub mod Reads
use arcadia_tio_rs.Base.{
  ℕ, zero, suc, ◌+◌, ◌-◌, ◌*◌, ◌/◌, ◌%◌, ◌^◌, ◌<◌, List, [], ◌∷◌, ◌++◌, length, take, drop,
  replicate, ltb, if◌then◌else◌, true, false, ◌==◌, ◌&&◌, Bool, true, false, String,
}
use arcadia_tio_rs.Error.{ArcadiaTioError, Result, ok, err, ocb_corrupt_file, ocb_invalid_input}

abbrev pub IsByte : ℕ → Type 0
IsByte b = b < 256

abbrev pub IsU16 : ℕ → Type 0
IsU16 v = v < 2 ^ 16

abbrev pub IsU32 : ℕ → Type 0
IsU32 v = v < 2 ^ 32

abbrev pub IsU64 : ℕ → Type 0
IsU64 v = v < 2 ^ 64

-- `to_le_bytes` of an integer of `n` bytes.
unfoldable pub le_bytes : ℕ → ℕ → List ℕ
le_bytes zero v = []
le_bytes (suc n) v = (v % 256) ∷ le_bytes n (v / 256)

-- `from_le_bytes`.
unfoldable pub from_le_bytes : List ℕ → ℕ
from_le_bytes [] = 0
from_le_bytes (b ∷ bs) = b + 256 * from_le_bytes bs

unfoldable pub write_u16 : ℕ → List ℕ
unfolding le_bytes
write_u16 v = le_bytes 2 v

unfoldable pub write_u32 : ℕ → List ℕ
unfolding le_bytes
write_u32 v = le_bytes 4 v

-- An `i32` is given by its 32-bit pattern.
unfoldable pub write_i32 : ℕ → List ℕ
unfolding le_bytes
write_i32 v = le_bytes 4 v

unfoldable pub write_u64 : ℕ → List ℕ
unfolding le_bytes
write_u64 v = le_bytes 8 v

-- A run of zero bytes, kept shut: it is long where it stands for the rest of a page.
unfoldable pub zeros : ℕ → List ℕ
zeros n = replicate n 0

-- A reader or a cursor is the bytes that it has not yet handed out; a failed read ends the
-- decoding, so no state goes with an error.
abbrev pub Reader {ℓ} : Type ℓ → Type ℓ
Reader A = List ℕ → Result (A × List ℕ)

infixl 5 ◌>>=◌ ◌>>◌
unfoldable pub ◌>>=◌ {ℓ κ} : {A : Type ℓ} {B : Type κ} → Reader A → (A → Reader B) → Reader B
◌>>=◌ m f bytes = elim (m bytes) [ ok (a, rest) ↦ f a rest | err e ↦ err e ]

unfoldable pub ◌>>◌ {ℓ} : {B : Type ℓ} → Reader (Unit {0}) → Reader B → Reader B
◌>>◌ m k bytes = elim (m bytes) [ ok (_, rest) ↦ k rest | err e ↦ err e ]

-- `Ok(a)` at the end of a decoder.
unfoldable pub pure {ℓ} : {A : Type ℓ} → A → Reader A
pure a bytes = ok (a, bytes)

-- `r?`, for a computation that reads nothing.
unfoldable pub lift {ℓ} : {A : Type ℓ} → Result A → Reader A
lift (ok a) bytes = ok (a, bytes)
lift (err e) bytes = err e

-- `if test { return Err(e) }`.
unfoldable pub check : Bool → ArcadiaTioError → Reader (Unit {0})
check true e bytes = err e
check false e bytes = ok (tt, bytes)

-- `read_exact` into a buffer of `n` bytes. The reader is memory or a file that gives every byte it
-- has, so the one error is the end of the input.
unfoldable pub read_exact_ocb : ℕ → Reader (List ℕ)
read_exact_ocb n bytes =
    if ltb (length bytes) n
    then err (ocb_corrupt_file "OCB object is truncated")
    else ok (take n bytes, drop n bytes)

unfoldable pub read_le : ℕ → Reader ℕ
unfolding ◌>>=◌ pure read_exact_ocb from_le_bytes
read_le n = do buf ← read_exact_ocb n; pure (from_le_bytes buf)

unfoldable pub read_u16 : Reader ℕ
unfolding read_le
read_u16 = read_le 2

unfoldable pub read_u32 : Reader ℕ
unfolding read_le
read_u32 = read_le 4

unfoldable pub read_i32 : Reader ℕ
unfolding read_le
read_i32 = read_le 4

unfoldable pub read_u64 : Reader ℕ
unfolding read_le
read_u64 = read_le 8

unfoldable pub read_u32_at_end : List ℕ → Result ℕ
unfolding from_le_bytes
read_u32_at_end bytes =
    if ltb (length bytes) 4
    then err (ocb_corrupt_file "buffer too short for trailing crc")
    else ok (from_le_bytes (drop (length bytes - 4) bytes))

-- The source indexes from `len - 4`: it is called on four bytes or more.
unfoldable pub write_u32_at_end : List ℕ → ℕ → List ℕ
unfolding le_bytes
write_u32_at_end bytes value = take (length bytes - 4) bytes ++ le_bytes 4 value

-- A cursor over a buffer, dropped when the decoder has returned.
unfoldable pub cursor {ℓ} : {A : Type ℓ} → Reader A → List ℕ → Result A
cursor m bytes = elim (m bytes) [ ok (a, _) ↦ ok a | err e ↦ err e ]

-- `==` of byte arrays.
unfoldable pub bytes_eq : List ℕ → List ℕ → Bool
bytes_eq [] [] = true
bytes_eq [] (_ ∷ _) = false
bytes_eq (_ ∷ _) [] = false
bytes_eq (a ∷ others) (b ∷ bs) = a == b && bytes_eq others bs
