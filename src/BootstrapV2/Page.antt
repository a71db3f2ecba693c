-- ===== src/BootstrapV2/Page.antt =====
-- The layout of a page: header, slot table, zeros and trailer, and its checksum.
use arcadia_tio_rs.Base.{
  ℕ, ◌≡◌, ◌∙◌, ap, sym, arith, List, ◌++◌, length, length-append, take, drop, take_at, drop_at,
  append_assoc,
}
use arcadia_tio_rs.Error.{ok}
use arcadia_tio_rs.Bytes.{le_bytes, zeros}
use arcadia_tio_rs.Bytes.Laws.{length-zeros, write_u32_at_end-append}
use arcadia_tio_rs.Crc.{crc32c}
use arcadia_tio_rs.BootstrapV2.{bootstrap_crc32c}
use arcadia_tio_rs.BootstrapV2.Decode.{slot_at}

-- All of a page but its trailer; `table` is the slot table.
unfoldable pub front : List ℕ → List ℕ → List ℕ
front head table = head ++ (table ++ zeros 3708)

pub length-front :
    (head table : List ℕ) → length head ≡ 64 → length table ≡ 320 → length (front head table) ≡ 4092
unfolding front
length-front head table h t = omega (
  arith,
  length-append head (table ++ zeros 3708),
  length-append table (zeros 3708),
  length-zeros 3708,
)

pub front-append :
    (head table trailer : List ℕ)
    → front head table ++ trailer ≡ head ++ (table ++ (zeros 3708 ++ trailer))
unfolding front
front-append head table trailer =
    append_assoc head (table ++ zeros 3708) trailer
    ∙ ap (λ t. head ++ t) (append_assoc table (zeros 3708) trailer)

pub take-front :
    (head table trailer : List ℕ) → length head ≡ 64 → take 64 (front head table ++ trailer) ≡ head
take-front head table trailer h =
    ap (take 64) (front-append head table trailer) ∙ take_at 64 head _ h

pub drop-front :
    (head table trailer : List ℕ)
    → length head ≡ 64
    → length table ≡ 320
    → drop 384 (front head table ++ trailer) ≡ zeros 3708 ++ trailer
drop-front head table trailer h t =
    ap (drop 384) (front-append head table trailer ∙ sym (append_assoc head table _))
    ∙ drop_at 384 (head ++ table) _ (omega (arith, length-append head table))

-- The checksum of a page does not depend on its slot table.
pub bootstrap_crc32c-front :
    (head table trailer : List ℕ)
    → length head ≡ 64
    → length table ≡ 320
    → length trailer ≡ 4
    → bootstrap_crc32c (front head table ++ trailer)
      ≡ ok (crc32c (front head (zeros 320) ++ le_bytes 4 0))
unfolding bootstrap_crc32c
bootstrap_crc32c-front head table trailer h t e =
    let size : length (front head table ++ trailer) ≡ 4096 =
      omega (arith, length-append (front head table) trailer, length-front head table h t) in
    rw size (
      rw (take-front head table trailer h) (
        rw (drop-front head table trailer h t) (
          rw (← front-append head (zeros 320) trailer)
            (rw (write_u32_at_end-append (front head (zeros 320)) trailer 0 e)))))

pub slot_at_zero :
    (head slot0 slot1 trailer : List ℕ)
    → length head ≡ 64
    → length slot0 ≡ 160
    → slot_at 0 (front head (slot0 ++ slot1) ++ trailer) ≡ slot0
unfolding slot_at
slot_at_zero head slot0 slot1 trailer h s =
    ap (λ p. take 160 (drop 64 p)) (front-append head (slot0 ++ slot1) trailer)
    ∙ ap (take 160) (drop_at 64 head _ h ∙ append_assoc slot0 slot1 _)
    ∙ take_at 160 slot0 _ s

pub slot_at_one :
    (head slot0 slot1 trailer : List ℕ)
    → length head ≡ 64
    → length slot0 ≡ 160
    → length slot1 ≡ 160
    → slot_at 1 (front head (slot0 ++ slot1) ++ trailer) ≡ slot1
unfolding slot_at
slot_at_one head slot0 slot1 trailer h s0 s1 =
    ap (λ p. take 160 (drop 224 p))
      (front-append head (slot0 ++ slot1) trailer
        ∙ ap (λ t. head ++ t) (append_assoc slot0 slot1 _)
        ∙ sym (append_assoc head slot0 _))
    ∙ ap (take 160) (drop_at 224 (head ++ slot0) _ (omega (arith, length-append head slot0)))
    ∙ take_at 160 slot1 _ s1
