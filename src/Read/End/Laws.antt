-- ===== src/Read/End/Laws.antt =====
-- The end that is found is beyond the first page and every reference, and no further.
use arcadia_tio_rs.Base.{
  ℕ, ◌+◌, ◌^◌, ◌≤◌, ◌<◌, ◌≡◌, ◌⊎◌, inl, inr, refl, sym, ◌∙◌, arith, List, [], ◌∷◌, leb, max, true,
  false, All, if-cases, Bool-cases, leb-false,
}
use mathlib.Core.List.Memᴰ
use mathlib.Core.List.{Memᴰ}
use arcadia_tio_rs.Error.{ok, >>=-eq-ok, fail_if-eq-ok, ok-injective}
use arcadia_tio_rs.Format.{bootstrap_page_v2_len}
use arcadia_tio_rs.BodyRef.{OcbBodyRefV2, is_null}
use arcadia_tio_rs.RootSlot.{OcbRootSlotV2}
use arcadia_tio_rs.RootV2.{OcbRootV2}
use arcadia_tio_rs.Read.Metadata.{OcbMetadataV1}
use arcadia_tio_rs.Read.End.{
  body_ref_end, update_max_ref_end, update_all, snapshot_references,
  selected_snapshot_referenced_end,
}
use arcadia_tio_rs.Read.End.References.{
  IsReferenced, IsReferenced-snapshot_references, snapshot_references-IsReferenced,
}

-- A reference that is null, or ends at or before the end, which is a 64-bit offset for it.
abbrev pub EndsBy : ℕ → OcbBodyRefV2 → Type 0
EndsBy end reference =
    (is_null reference ≡ true)
    ⊎ ((reference.offset + reference.size ≤ end) × (reference.offset + reference.size < 2 ^ 64))

-- The least end: not before the start, beyond every reference, and reached.
pub record IsEnd (begin end : ℕ) (references : List OcbBodyRefV2) : Type 0 where
  pub after_begin : begin ≤ end
  pub covers : All (EndsBy end) references
  pub reached :
      (end ≡ begin)
      ⊎ ((r : OcbBodyRefV2) × Memᴰ r references × (is_null r ≡ false) × (end ≡ r.offset + r.size))

update-cases :
    (max_end : ℕ) (reference : OcbBodyRefV2) {end : ℕ}
    → update_max_ref_end max_end reference ≡ ok end
    → ((is_null reference ≡ true) × (end ≡ max_end))
      ⊎ ((is_null reference ≡ false)
          × (end ≡ max max_end (reference.offset + reference.size))
          × (reference.offset + reference.size < 2 ^ 64))
unfolding update_max_ref_end body_ref_end
update-cases max_end reference h = elim (if-cases (is_null reference) (ok max_end) _ h) [
  | inl (absent, same) ↦ inl (absent, sym (ok-injective same))
  | inr (present, taken) ↦
      let (end, found, h1) = >>=-eq-ok (body_ref_end reference) _ taken in
      let (small, h2) =
        fail_if-eq-ok (leb (2 ^ 64) (reference.offset + reference.size)) _ _ found in
      inr (present, omega (arith, ok-injective h1, ok-injective h2), leb-false _ _ small)
]

max_cases : (a b e : ℕ) → e ≡ max a b → (e ≡ a) ⊎ (e ≡ b)
max_cases a b e h = elim (Bool-cases (leb a b)) [
  | inl below ↦ inr (ground (arith, h, below))
  | inr above ↦ inl (ground (arith, h, above))
]

grown_reached :
    (begin : ℕ) (r : OcbBodyRefV2) (references : List OcbBodyRefV2) (end : ℕ)
    → is_null r ≡ false
    → end ≡ max begin (r.offset + r.size)
    → (end ≡ begin)
      ⊎ ((d : OcbBodyRefV2) × Memᴰ d (r ∷ references)
          × (is_null d ≡ false)
          × (end ≡ d.offset + d.size))
grown_reached begin r references end present h = elim (max_cases begin (r.offset + r.size) end h) [
  | inl at_begin ↦ inl at_begin
  | inr at_end ↦ inr (r, Memᴰ.head refl, present, at_end)
]

update_all-IsEnd :
    (begin : ℕ) (references : List OcbBodyRefV2) {end : ℕ}
    → update_all begin references ≡ ok end
    → IsEnd begin end references
unfolding update_all
update_all-IsEnd begin [] {end = end} h =
    let same : begin ≡ end = ok-injective h in
    record { after_begin = omega (arith, same); covers = tt; reached = inl (sym same) }
update_all-IsEnd begin (r ∷ references) {end = end} h =
    let (middle, updated, h1) = >>=-eq-ok (update_max_ref_end begin r) _ h in
    let rest : IsEnd middle end references = update_all-IsEnd middle references h1 in
    elim (update-cases begin r updated) [
      | inl (absent, same) ↦ record {
        after_begin = omega (arith, same, rest.after_begin);
        covers = (inl absent, rest.covers);
        reached = elim rest.reached [
          | inl at_begin ↦ inl (at_begin ∙ same)
          | inr (d, member, present, at_end) ↦ inr (d, Memᴰ.tail member, present, at_end)
        ];
      }
      | inr (given, grown, small) ↦ record {
        after_begin = omega (arith, grown, rest.after_begin);
        covers = (inr (omega (arith, grown, rest.after_begin), small), rest.covers);
        reached = elim rest.reached [
          | inl at_middle ↦ grown_reached begin r references end given (at_middle ∙ grown)
          | inr (d, member, present, at_end) ↦ inr (d, Memᴰ.tail member, present, at_end)
        ];
      }
    ]

All-Memᴰ :
    (P : OcbBodyRefV2 → Type 0) (references : List OcbBodyRefV2) {r : OcbBodyRefV2}
    → All P references
    → Memᴰ r references
    → P r
All-Memᴰ P [] h m = absurd (Memᴰ.not-nil m)
All-Memᴰ P (d ∷ references) (h, hs) (Memᴰ.head e) = rw e h
All-Memᴰ P (d ∷ references) (h, hs) (Memᴰ.tail m) = All-Memᴰ P references hs m

-- The end of a snapshot: not before the end of the first page, not before that of any reference of the
-- snapshot, and no further.
pub record IsSnapshotEnd (slot : OcbRootSlotV2) (root : OcbRootV2) (metadata : OcbMetadataV1)
    (end : ℕ) : Type 0 where
  pub after_page : bootstrap_page_v2_len ≤ end
  pub covers : (r : OcbBodyRefV2) → IsReferenced slot root metadata r → EndsBy end r
  pub reached :
      (end ≡ bootstrap_page_v2_len)
      ⊎ ((r : OcbBodyRefV2) × IsReferenced slot root metadata r
          × (is_null r ≡ false)
          × (end ≡ r.offset + r.size))

-- The end that `selected_snapshot_referenced_end` returns is not before the end of the first page,
-- and not before the end of any reference of the snapshot that is not null, which is below 2 ^ 64;
-- and it is the end of the first page or of one of those references. The references of the
-- snapshot are those in the fields of its slot and of its root, that of the schema to the string
-- table, those of the dictionaries to their values, of the row groups and of the ordering proofs
-- to their first and last key tuples, and of the column chunks to their values and their validity.
pub selected_snapshot_referenced_end-IsSnapshotEnd :
    (slot : OcbRootSlotV2) (root : OcbRootV2) (metadata : OcbMetadataV1) (end : ℕ)
    → selected_snapshot_referenced_end slot root metadata ≡ ok end
    → IsSnapshotEnd slot root metadata end
unfolding selected_snapshot_referenced_end
selected_snapshot_referenced_end-IsSnapshotEnd slot root metadata end h =
    let references = snapshot_references slot root metadata in
    let e : IsEnd bootstrap_page_v2_len end references =
      update_all-IsEnd bootstrap_page_v2_len references h in
    record {
      after_page = e.after_begin;
      covers = λ r referenced.
          All-Memᴰ (EndsBy end) references e.covers
            (IsReferenced-snapshot_references slot root metadata referenced);
      reached = elim e.reached [
        | inl at_page ↦ inl at_page
        | inr (r, member, present, at_end) ↦
            inr (r, snapshot_references-IsReferenced slot root metadata member, present, at_end)
      ];
    }
