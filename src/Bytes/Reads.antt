-- ===== src/Bytes/Reads.antt =====
-- `Reads m bs rest a`: the decoder `m` takes exactly the bytes `bs` off `bs ++ rest` and returns
-- `a`. The rules below compose along a decoder, one for each kind of step.
use arcadia_tio_rs.Base.{
  ℕ, ◌^◌, ◌<◌, ◌≡◌, ◌∙◌, refl, sym, ap, List, [], ◌++◌, length, Bool, false, arith, length-append,
  take-append, drop-append, append_assoc, append-nil,
}
use arcadia_tio_rs.Error.{ArcadiaTioError, Result, ok}
use arcadia_tio_rs.Bytes.{
  IsU16, IsU32, IsU64, Reader, ◌>>=◌, ◌>>◌, pure, lift, check, read_exact_ocb, read_le, read_u16,
  read_u32, read_i32, read_u64, le_bytes, write_u16, write_u32, write_i32, write_u64, cursor,
}
use arcadia_tio_rs.Bytes.Laws.{length-le_bytes, from_le_bytes-le_bytes}

pub record Reads {ℓ} {A : Type ℓ} (m : Reader A) (bs rest : List ℕ) (a : A) : Type ℓ where
  pub run : m (bs ++ rest) ≡ ok (a, rest)

-- One read, then the rest of the decoder.
pub step {ℓ κ} :
    {A : Type ℓ} {B : Type κ} {m : Reader A} (f : A → Reader B) {bs cs rest : List ℕ} {a : A}
    {b : B}
    → Reads m bs (cs ++ rest) a
    → Reads (f a) cs rest b
    → Reads (m >>= f) (bs ++ cs) rest b
unfolding ◌>>=◌
step {m = m} f {bs = bs} {cs = cs} {rest = rest} h k = record {
  run = rw (append_assoc bs cs rest) (rw (h.run, ◌>>=◌) k.run);
}

pub pure-Reads {ℓ} : {A : Type ℓ} (a : A) (rest : List ℕ) → Reads (pure a) [] rest a
unfolding pure
pure-Reads a rest = record { run = refl }

-- The last part of a decoder, where nothing is left to take after it.
pub at_end {ℓ} :
    {A : Type ℓ} {m : Reader A} {bs rest : List ℕ} {a : A}
    → Reads m (bs ++ []) rest a
    → Reads m bs rest a
at_end {m = m} {bs = bs} {rest = rest} h = record {
  run = ap (λ taken. m (taken ++ rest)) (sym (append-nil bs)) ∙ h.run;
}

pub passed {ℓ} :
    {B : Type ℓ} {t : Bool} (e : ArcadiaTioError) {k : Reader B} {cs rest : List ℕ} {b : B}
    → t ≡ false
    → Reads k cs rest b
    → Reads (check t e >> k) cs rest b
unfolding ◌>>◌ check
passed e h k = record { run = rw (h, check) k.run }

pub lifted {ℓ κ} :
    {A : Type ℓ} {B : Type κ} {r : Result A} (f : A → Reader B) {cs rest : List ℕ} {a : A} {b : B}
    → r ≡ ok a
    → Reads (f a) cs rest b
    → Reads (lift r >>= f) cs rest b
unfolding ◌>>=◌ lift
lifted f h k = record { run = rw (h, lift) k.run }

pub read_exact-Reads :
    (bs rest : List ℕ) (n : ℕ) → length bs ≡ n → Reads (read_exact_ocb n) bs rest bs
unfolding read_exact_ocb
read_exact-Reads bs rest n h = record {
  run =
      rw (← h) (
        rw (take-append bs rest)
          (rw (drop-append bs rest) (ground (arith, length-append bs rest))));
}

read_le-Reads : (n v : ℕ) (rest : List ℕ) → v < 256 ^ n → Reads (read_le n) (le_bytes n v) rest v
unfolding read_le ◌>>=◌ pure
read_le-Reads n v rest h = rw (← append-nil (le_bytes n v)) (
    step _ (read_exact-Reads (le_bytes n v) rest n (length-le_bytes n v))
      (rw (from_le_bytes-le_bytes n v h) (pure-Reads v rest)))

pub read_u16-Reads : (v : ℕ) (rest : List ℕ) → IsU16 v → Reads read_u16 (write_u16 v) rest v
unfolding read_u16 write_u16
read_u16-Reads v rest h = read_le-Reads 2 v rest (omega arith)

pub read_u32-Reads : (v : ℕ) (rest : List ℕ) → IsU32 v → Reads read_u32 (write_u32 v) rest v
unfolding read_u32 write_u32
read_u32-Reads v rest h = read_le-Reads 4 v rest (omega arith)

pub read_i32-Reads : (v : ℕ) (rest : List ℕ) → IsU32 v → Reads read_i32 (write_i32 v) rest v
unfolding read_i32 write_i32
read_i32-Reads v rest h = read_le-Reads 4 v rest (omega arith)

pub read_u64-Reads : (v : ℕ) (rest : List ℕ) → IsU64 v → Reads read_u64 (write_u64 v) rest v
unfolding read_u64 write_u64
read_u64-Reads v rest h = read_le-Reads 8 v rest (omega arith)

pub cursor-Reads {ℓ} :
    {A : Type ℓ} {m : Reader A} {bs rest : List ℕ} {a : A}
    → Reads m bs rest a
    → cursor m (bs ++ rest) ≡ ok a
unfolding cursor
cursor-Reads h = rw (h.run, cursor)
