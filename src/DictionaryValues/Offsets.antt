-- ===== src/DictionaryValues/Offsets.antt =====
-- The offsets of the dictionary values, as they are written, checked and followed.
use arcadia_tio_rs.Base.{
  ℕ, ◌+◌, ◌-◌, ◌*◌, ◌^◌, ◌≤◌, ◌<◌, ◌≡◌, ◌∙◌, refl, sym, ap, arith, List, [], ◌∷◌, ◌++◌, length,
  length-append, concat, total, take, drop, take-append, drop-append, drop-sum, All, Bool, true,
  false, not, ◌==◌, ◌&&◌,
}
use arcadia_tio_rs.Bytes.{write_u64}
use arcadia_tio_rs.Bytes.Laws.{length-write_u64}
use arcadia_tio_rs.Bytes.Reads.{Reads, step, at_end, passed, pure-Reads, read_u64-Reads}
use arcadia_tio_rs.Kinds.{OcbDictionaryValueKindV1}
use arcadia_tio_rs.Table.{Platform}
use arcadia_tio_rs.Table.Reads.{granted}
use arcadia_tio_rs.DictionaryValues.{is_fixed, offsets_from, write_offsets}
use arcadia_tio_rs.DictionaryValues.Decode.{check_offsets, read_values}

-- The bytes of the offsets after the first.
unfoldable pub ends_from : ℕ → List (List ℕ) → List ℕ
unfolding write_u64
ends_from at [] = []
ends_from at (value ∷ values) =
    write_u64 (at + length value) ++ ends_from (at + length value) values

pub write_offsets-ends_from :
    (at : ℕ) (values : List (List ℕ))
    → write_offsets (offsets_from at values) ≡ write_u64 at ++ ends_from at values
unfolding write_offsets offsets_from ends_from
write_offsets-ends_from at [] = refl
write_offsets-ends_from at (value ∷ values) =
    ap (λ bytes. write_u64 at ++ bytes) (write_offsets-ends_from (at + length value) values)

pub length-ends_from :
    (at : ℕ) (values : List (List ℕ)) → length (ends_from at values) ≡ 8 * length values
unfolding ends_from
length-ends_from at [] = refl
length-ends_from at (value ∷ values) = omega (
  arith,
  length-append (write_u64 (at + length value)) (ends_from (at + length value) values),
  length-write_u64 (at + length value),
  length-ends_from (at + length value) values,
)

-- A value whose width the reader accepts.
abbrev pub HasWidth : Bool → ℕ → List ℕ → Type 0
HasWidth fixed fixed_width value = (fixed && not (length value == fixed_width)) ≡ false

pub check_offsets-Reads :
    (kind : OcbDictionaryValueKindV1) (fixed_width data_bytes at : ℕ) (values : List (List ℕ))
    (rest : List ℕ)
    → All (HasWidth (is_fixed kind) fixed_width) values
    → at + total values ≤ data_bytes
    → data_bytes < 2 ^ 64
    → Reads
        (check_offsets kind fixed_width data_bytes (length values) at)
        (ends_from at values)
        rest
        (at + total values)
unfolding check_offsets ends_from
check_offsets-Reads kind fixed_width data_bytes at [] rest widths fits small =
    let e : at + 0 ≡ at = omega arith in rw e (pure-Reads at rest)
check_offsets-Reads kind fixed_width data_bytes at (value ∷ values) rest (width, widths) fits
      small =
    let e : at + (length value + total values) ≡ (at + length value) + total values = omega arith in
    let size : (at + length value) - at ≡ length value = omega arith in
    rw e (
      step _ (read_u64-Reads (at + length value) _ (omega arith)) (
        passed _ (ground arith) (
          passed _ (rw size width) (
            check_offsets-Reads kind fixed_width data_bytes (at + length value) values rest widths
              (omega arith) small))))

pub read_values-Reads :
    (p : Platform) (run : List ℕ) (at : ℕ) (values : List (List ℕ)) (rest : List ℕ)
    → drop at run ≡ concat values
    → All (λ value. p.grants (length value) ≡ true) values
    → at + total values < 2 ^ 64
    → Reads (read_values p run (length values) at) (ends_from at values) rest values
unfolding read_values ends_from
read_values-Reads p run at [] rest same grants small = pure-Reads [] rest
read_values-Reads p run at (value ∷ values) rest same (grant, grants) small =
    let size : (at + length value) - at ≡ length value = omega arith in
    let first : take (length value) (drop at run) ≡ value =
      ap (take (length value)) same ∙ take-append value (concat values) in
    let others : drop (at + length value) run ≡ concat values =
      sym (drop-sum at (length value) run)
      ∙ ap (drop (length value)) same
      ∙ drop-append value (concat values) in
    step _ (read_u64-Reads (at + length value) _ (omega arith)) (
      rw size (
        granted p _ _ grant (
          at_end (
            step _
              (read_values-Reads p run (at + length value) values rest others grants (omega arith))
              (rw first (pure-Reads (value ∷ values) rest))))))
