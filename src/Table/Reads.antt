-- ===== src/Table/Reads.antt =====
-- `Reads` rules for the steps that the decoders of variable size take.
use arcadia_tio_rs.Base.{
  ℕ, ◌+◌, ◌-◌, ◌*◌, ◌^◌, ◌≤◌, ◌<◌, ◌≡◌, ◌∙◌, sym, ap, ap₂, arith, true, List, [], ◌∷◌, ◌++◌, map,
  concat, length, length-append, append_assoc, append-nil, All, sum, String,
}
use arcadia_tio_rs.Error.{ArcadiaTioError, Result, ok, >>=-eq-ok, ok-injective}
use arcadia_tio_rs.Bytes.{Reader, ◌>>=◌, ◌>>◌, lift}
use arcadia_tio_rs.Bytes.Reads.{Reads, step, lifted, pure-Reads}
use arcadia_tio_rs.Limits.{MetadataMaterializationBudget, charge}
use arcadia_tio_rs.Table.{
  Platform, checked_record_count, checked_payload_len, checked_materialized_vec_bytes,
  checked_materialized_sum, sum_from, reserve, position, tell, set_position,
  validate_record_sequence, read_records, read_record_sequence, write_records, count_u32, count_u16,
}

module _ {ℓ} {B : Type ℓ} where
  pub positioned :
      (total : ℕ) (f : ℕ → Reader B) {cs rest : List ℕ} {b : B}
      → Reads (f (total - length (cs ++ rest))) cs rest b
      → Reads (position total >>= f) cs rest b
  unfolding ◌>>=◌ position
  positioned total f h = record { run = h.run }

  pub told :
      (f : List ℕ → Reader B) {cs rest : List ℕ} {b : B}
      → Reads (f (cs ++ rest)) cs rest b
      → Reads (tell >>= f) cs rest b
  unfolding ◌>>=◌ tell
  told f h = record { run = h.run }

  -- Back at the saved place, the bytes from there on are read again.
  pub sought :
      {k : Reader B} {cs rest ds : List ℕ} {b : B}
      → Reads k cs rest b
      → Reads (set_position (cs ++ rest) >> k) ds rest b
  unfolding ◌>>◌ set_position
  sought h = record { run = h.run }

  pub granted :
      (p : Platform) (bytes : ℕ) (message : String) {k : Reader B} {cs rest : List ℕ} {b : B}
      → p.grants bytes ≡ true
      → Reads k cs rest b
      → Reads (lift (reserve p bytes message) >> k) cs rest b
  unfolding ◌>>◌ lift reserve
  granted p bytes message g h = record { run = rw g h.run }

  pub stepped :
      {m : Reader (Unit {0})} {k : Reader B} {bs cs rest : List ℕ} {b : B}
      → Reads m bs (cs ++ rest) tt
      → Reads k cs rest b
      → Reads (m >> k) (bs ++ cs) rest b
  unfolding ◌>>◌
  stepped {m = m} {bs = bs} {cs = cs} {rest = rest} h k = record {
    run = rw (append_assoc bs cs rest) (rw (h.run, ◌>>◌) k.run);
  }

-- Counts that the bytes at hand bear out.
pub checked_record_count-ok :
    (total position count record_len : ℕ) (what : String)
    → count * record_len < 2 ^ 64
    → position + count * record_len + 4 ≤ total
    → checked_record_count total position count record_len what ≡ ok count
unfolding checked_record_count
checked_record_count-ok total position count record_len what small fits = ground arith

pub checked_payload_len-ok :
    (total position len : ℕ) (what : String)
    → position + len + 4 ≤ total
    → checked_payload_len total position len what ≡ ok len
unfolding checked_payload_len
checked_payload_len-ok total position len what fits = ground arith

pub checked_materialized_vec_bytes-ok :
    (item_bytes count : ℕ)
    → count * item_bytes < 2 ^ 64
    → checked_materialized_vec_bytes item_bytes count ≡ ok (count * item_bytes)
unfolding checked_materialized_vec_bytes
checked_materialized_vec_bytes-ok item_bytes count h = ground arith

sum_from-ok :
    (start : ℕ) (parts : List ℕ)
    → start + sum parts < 2 ^ 64
    → sum_from start parts ≡ ok (start + sum parts)
unfolding sum_from
sum_from-ok start [] h = ap ok (omega arith)
sum_from-ok start (part ∷ parts) h =
    ground (arith, sum_from-ok (start + part) parts (omega (arith, h)))

pub checked_materialized_sum-ok :
    (parts : List ℕ) → sum parts < 2 ^ 64 → checked_materialized_sum parts ≡ ok (sum parts)
unfolding checked_materialized_sum
checked_materialized_sum-ok parts h = sum_from-ok 0 parts (omega (arith, h)) ∙ ap ok (omega arith)

pub count_u32-eq-ok :
    (count : ℕ) (e : ArcadiaTioError) {n : ℕ}
    → count_u32 count e ≡ ok n
    → (n ≡ count) × (count < 2 ^ 32)
unfolding count_u32
count_u32-eq-ok count e h = ground arith

pub count_u16-eq-ok :
    (count : ℕ) (e : ArcadiaTioError) {n : ℕ}
    → count_u16 count e ≡ ok n
    → (n ≡ count) × (count < 2 ^ 16)
unfolding count_u16
count_u16-eq-ok count e h = ground arith

-- Sequences of records, where each record is read back from its bytes.
module _ {ℓ} {A : Type ℓ} (read : Reader A) (body : A → List ℕ) (P : A → Type 0)
    (reads : (x : A) (rest : List ℕ) → P x → Reads read (body x) rest x) where
  pub validate_record_sequence-Reads :
      (xs : List A) (rest : List ℕ)
      → All P xs
      → Reads (validate_record_sequence (length xs) read) (concat (map body xs)) rest tt
  unfolding validate_record_sequence
  validate_record_sequence-Reads [] rest h = pure-Reads tt rest
  validate_record_sequence-Reads (x ∷ xs) rest (h, hs) =
      step _ (reads x _ h) (validate_record_sequence-Reads xs rest hs)

  pub read_records-Reads :
      (xs : List A) (rest : List ℕ)
      → All P xs
      → Reads (read_records (length xs) read) (concat (map body xs)) rest xs
  unfolding read_records
  read_records-Reads [] rest h = pure-Reads [] rest
  read_records-Reads (x ∷ xs) rest (h, hs) = step _ (reads x _ h) (
      rw (← append-nil (concat (map body xs)))
        (step _ (read_records-Reads xs rest hs) (pure-Reads (x ∷ xs) rest)))

  pub read_record_sequence-Reads :
      (p : Platform) (item_bytes : ℕ) (message : String) (xs : List A) (rest : List ℕ)
      → All P xs
      → p.grants (length xs * item_bytes) ≡ true
      → Reads
          (read_record_sequence p item_bytes (length xs) message read)
          (concat (map body xs))
          rest
          xs
  unfolding read_record_sequence
  read_record_sequence-Reads p item_bytes message xs rest hs g =
      granted p (length xs * item_bytes) message g (read_records-Reads xs rest hs)

  -- The records are walked once for their validity, paid for, and then collected from the same place.
  pub collected {ℓ'} :
      {B : Type ℓ'} (p : Platform) (budget charged : MetadataMaterializationBudget) (item_bytes : ℕ)
      (message : String) (xs : List A) (f : MetadataMaterializationBudget → List A → Reader B)
      {cs rest : List ℕ} {b : B}
      → All P xs
      → length xs * item_bytes < 2 ^ 64
      → charge budget (length xs * item_bytes) ≡ ok charged
      → p.grants (length xs * item_bytes) ≡ true
      → Reads (f charged xs) cs rest b
      → Reads
          (tell >>= λ start.
            validate_record_sequence (length xs) read
            >> (lift (checked_materialized_vec_bytes item_bytes (length xs)) >>= λ bytes.
                lift (charge budget bytes) >>= λ left.
                set_position start
                >> (read_record_sequence p item_bytes (length xs) message read >>= λ records.
                    f left records)))
          (concat (map body xs) ++ cs)
          rest
          b
  collected p budget charged item_bytes message xs f {cs = cs} {rest = rest} hs small paid g h =
      told _ (
        stepped (validate_record_sequence-Reads xs (cs ++ rest) hs) (
          lifted _ (checked_materialized_vec_bytes-ok item_bytes (length xs) small) (
            lifted _ paid (
              sought (
                step _ (read_record_sequence-Reads p item_bytes message xs (cs ++ rest) hs g) h)))))

-- What a loop over fallible writers wrote.
pub write_records-eq-ok {ℓ} :
    {A : Type ℓ} (write : A → Result (List ℕ)) (body : A → List ℕ)
    → ((x : A) (bytes : List ℕ) → write x ≡ ok bytes → bytes ≡ body x)
    → (xs : List A) (bytes : List ℕ) → write_records write xs ≡ ok bytes
    → bytes ≡ concat (map body xs)
unfolding write_records
write_records-eq-ok write body each [] bytes h = sym (ok-injective h)
write_records-eq-ok write body each (x ∷ xs) bytes h =
    let (b, hb, more) = >>=-eq-ok (write x) _ h in
    let (bs, hbs, done) = >>=-eq-ok (write_records write xs) _ more in
    sym (ok-injective done) ∙ ap₂ ◌++◌ (each x b hb) (write_records-eq-ok write body each xs bs hbs)

-- Every record that a loop wrote was one that its writer accepts.
pub write_records-All {ℓ} :
    {A : Type ℓ} (write : A → Result (List ℕ)) (Q : A → Type 0)
    → ((x : A) (bytes : List ℕ) → write x ≡ ok bytes → Q x)
    → (xs : List A) (bytes : List ℕ) → write_records write xs ≡ ok bytes
    → All Q xs
unfolding write_records
write_records-All write Q each [] bytes h = tt
write_records-All write Q each (x ∷ xs) bytes h =
    let (b, hb, more) = >>=-eq-ok (write x) _ h in
    let (bs, hbs, done) = >>=-eq-ok (write_records write xs) _ more in
    (each x b hb, write_records-All write Q each xs bs hbs)

pub length-concat-map {ℓ} :
    {A : Type ℓ} (body : A → List ℕ) (n : ℕ)
    → ((x : A) → length (body x) ≡ n)
    → (xs : List A) → length (concat (map body xs)) ≡ length xs * n
length-concat-map body n each [] = omega arith
length-concat-map body n each (x ∷ xs) =
    omega (
      arith,
      length-append (body x) (concat (map body xs)),
      each x,
      length-concat-map body n each xs,
    )

-- A count that the records on hand bear out passes its check.
pub counted {ℓ κ} :
    {A : Type ℓ} {B : Type κ} (body : A → List ℕ) (n : ℕ) (each : (x : A) → length (body x) ≡ n)
    (what : String) (total : ℕ) (xs : List A) (f : ℕ → Reader B) (cs : List ℕ) {rest : List ℕ}
    {b : B}
    → length xs * n < 2 ^ 64
    → length (concat (map body xs) ++ (cs ++ rest)) ≤ total
    → 4 ≤ length (cs ++ rest)
    → Reads (f (length xs)) (concat (map body xs) ++ cs) rest b
    → Reads
        (position total >>= λ at. lift (checked_record_count total at (length xs) n what) >>= f)
        (concat (map body xs) ++ cs)
        rest
        b
counted body n each what total xs f cs {rest = rest} small fits trailer h = positioned total _ (
    rw (append_assoc (concat (map body xs)) cs rest) (
      lifted f
        (checked_record_count-ok total _ (length xs) n what small (
          omega (
            arith,
            length-append (concat (map body xs)) (cs ++ rest),
            length-concat-map body n each xs,
            fits,
            trailer,
          )))
        h))
