-- ===== src/Read/End/References.antt =====
-- The references of a snapshot, described without the order in which `selected_snapshot_referenced_end`
-- of crates/arcadia-tio-ocb-core/src/read.rs comes to them.
use arcadia_tio_rs.Base.{◌≡◌, ◌⊎◌, inl, inr, refl, List, [], ◌∷◌, ◌++◌, Option, none, some}
use mathlib.Core.List.Memᴰ
use mathlib.Core.List.{Memᴰ}
use arcadia_tio_rs.BodyRef.{OcbBodyRefV2}
use arcadia_tio_rs.RootSlot.{OcbRootSlotV2}
use arcadia_tio_rs.RootV2.{OcbRootV2}
use arcadia_tio_rs.Records.DictionaryDesc.{OcbDictionaryDescV1}
use arcadia_tio_rs.Records.RowGroupDesc.{OcbRowGroupDescV1}
use arcadia_tio_rs.Records.ColumnChunkDesc.{OcbColumnChunkDescV1}
use arcadia_tio_rs.Records.OrderingProof.{OcbRowGroupOrderingProofV1}
use arcadia_tio_rs.DictionaryIndex.{OcbDictionaryIndexV1}
use arcadia_tio_rs.OrderingProof.{OcbOrderingProofV1}
use arcadia_tio_rs.Read.Metadata.{OcbMetadataV1}
use arcadia_tio_rs.Read.End.{
  dictionary_references, index_references, row_group_references, chunk_references, tuple_references,
  proof_references, slot_and_root_references, snapshot_references,
}

-- A reference is of a snapshot as a field of its slot, of its root, of its schema, of a dictionary, of a
-- row group, of a column chunk, or of the proof of the order of a row group.
pub data IsReferenced (slot : OcbRootSlotV2) (root : OcbRootV2) (metadata : OcbMetadataV1)
    (r : OcbBodyRefV2) : Type 0 where
  of_slot :
      Memᴰ r (slot.root_ref ∷ slot.previous_root_ref ∷ slot.commit_diagnostics_ref ∷ [])
      → IsReferenced slot root metadata r
  of_root :
      Memᴰ r (
        root.previous_root_ref ∷ root.schema_ref ∷ root.dictionary_index_ref
        ∷ root.row_group_index_ref ∷ root.ordering_proof_ref ∷ root.debug_json_ref
        ∷ root.first_key_tuple_ref ∷ root.last_key_tuple_ref ∷ root.append_first_key_tuple_ref
        ∷ root.append_last_key_tuple_ref ∷ root.commit_diagnostics_ref ∷ [])
      → IsReferenced slot root metadata r
  of_schema : r ≡ metadata.schema.string_table_ref → IsReferenced slot root metadata r
  of_dictionary :
      (index : OcbDictionaryIndexV1) (d : OcbDictionaryDescV1)
      → metadata.dictionary_index ≡ some index
      → Memᴰ d index.dictionaries
      → r ≡ d.values_ref
      → IsReferenced slot root metadata r
  of_row_group :
      (g : OcbRowGroupDescV1)
      → Memᴰ g metadata.row_group_index.row_groups
      → (r ≡ g.first_key_tuple_ref) ⊎ (r ≡ g.last_key_tuple_ref)
      → IsReferenced slot root metadata r
  of_chunk :
      (chunk : OcbColumnChunkDescV1)
      → Memᴰ chunk metadata.row_group_index.column_chunks
      → (r ≡ chunk.value_ref) ⊎ (r ≡ chunk.validity_ref)
      → IsReferenced slot root metadata r
  of_proof :
      (ordering : OcbOrderingProofV1) (proof : OcbRowGroupOrderingProofV1)
      → metadata.ordering_proof ≡ some ordering
      → Memᴰ proof ordering.row_group_proofs
      → (r ≡ proof.first_tuple_ref) ⊎ (r ≡ proof.last_tuple_ref)
      → IsReferenced slot root metadata r

-- Two references of each record.
module _ {X : Type 0} (first second : X → OcbBodyRefV2) where
  abbrev both : List X → List OcbBodyRefV2
  both [] = []
  both (x ∷ xs) = first x ∷ second x ∷ both xs

  both-Memᴰ :
      (xs : List X) {r : OcbBodyRefV2}
      → Memᴰ r (both xs)
      → (x : X) × Memᴰ x xs × ((r ≡ first x) ⊎ (r ≡ second x))
  both-Memᴰ [] m = absurd (Memᴰ.not-nil m)
  both-Memᴰ (x ∷ xs) (Memᴰ.head e) = (x, Memᴰ.head refl, inl e)
  both-Memᴰ (x ∷ xs) (Memᴰ.tail (Memᴰ.head e)) = (x, Memᴰ.head refl, inr e)
  both-Memᴰ (x ∷ xs) (Memᴰ.tail (Memᴰ.tail m)) =
      let (y, member, e) = both-Memᴰ xs m in (y, Memᴰ.tail member, e)

  Memᴰ-both :
      (xs : List X) {r : OcbBodyRefV2} (x : X)
      → Memᴰ x xs
      → (r ≡ first x) ⊎ (r ≡ second x)
      → Memᴰ r (both xs)
  Memᴰ-both [] x m at = absurd (Memᴰ.not-nil m)
  Memᴰ-both (y ∷ xs) x (Memᴰ.head e) (inl at) = rw (← e) (Memᴰ.head at)
  Memᴰ-both (y ∷ xs) x (Memᴰ.head e) (inr at) = rw (← e) (Memᴰ.tail (Memᴰ.head at))
  Memᴰ-both (y ∷ xs) x (Memᴰ.tail m) at = Memᴰ.tail (Memᴰ.tail (Memᴰ-both xs x m at))

row_group_references-both :
    (gs : List OcbRowGroupDescV1)
    → row_group_references gs ≡ both (λ g. g.first_key_tuple_ref) (λ g. g.last_key_tuple_ref) gs
unfolding row_group_references
row_group_references-both [] = refl
row_group_references-both (g ∷ gs) = rw (row_group_references-both gs) refl

chunk_references-both :
    (chunks : List OcbColumnChunkDescV1)
    → chunk_references chunks ≡ both (λ chunk. chunk.value_ref) (λ chunk. chunk.validity_ref) chunks
unfolding chunk_references
chunk_references-both [] = refl
chunk_references-both (chunk ∷ chunks) = rw (chunk_references-both chunks) refl

tuple_references-both :
    (proofs : List OcbRowGroupOrderingProofV1)
    → tuple_references proofs
      ≡ both (λ proof. proof.first_tuple_ref) (λ proof. proof.last_tuple_ref) proofs
unfolding tuple_references
tuple_references-both [] = refl
tuple_references-both (proof ∷ proofs) = rw (tuple_references-both proofs) refl

dictionary_references-Memᴰ :
    (dictionaries : List OcbDictionaryDescV1) {r : OcbBodyRefV2}
    → Memᴰ r (dictionary_references dictionaries)
    → (d : OcbDictionaryDescV1) × Memᴰ d dictionaries × (r ≡ d.values_ref)
unfolding dictionary_references
dictionary_references-Memᴰ [] m = absurd (Memᴰ.not-nil m)
dictionary_references-Memᴰ (d ∷ dictionaries) (Memᴰ.head e) = (d, Memᴰ.head refl, e)
dictionary_references-Memᴰ (d ∷ dictionaries) (Memᴰ.tail m) =
    let (other, member, e) = dictionary_references-Memᴰ dictionaries m in
    (other, Memᴰ.tail member, e)

Memᴰ-dictionary_references :
    (dictionaries : List OcbDictionaryDescV1) {r : OcbBodyRefV2} (d : OcbDictionaryDescV1)
    → Memᴰ d dictionaries
    → r ≡ d.values_ref
    → Memᴰ r (dictionary_references dictionaries)
unfolding dictionary_references
Memᴰ-dictionary_references [] d m at = absurd (Memᴰ.not-nil m)
Memᴰ-dictionary_references (other ∷ dictionaries) d (Memᴰ.head e) at = rw (← e) (Memᴰ.head at)
Memᴰ-dictionary_references (other ∷ dictionaries) d (Memᴰ.tail m) at =
    Memᴰ.tail (Memᴰ-dictionary_references dictionaries d m at)

module _ (slot : OcbRootSlotV2) (root : OcbRootV2) (metadata : OcbMetadataV1) where
  module _ {r : OcbBodyRefV2} where
    slot_and_root-IsReferenced :
        Memᴰ r (slot_and_root_references slot root) → IsReferenced slot root metadata r
    unfolding slot_and_root_references
    slot_and_root-IsReferenced m =
        elim (Memᴰ.append_cases
          (slot.root_ref ∷ slot.previous_root_ref ∷ slot.commit_diagnostics_ref ∷ []) m) [
            | inl in_slot ↦ IsReferenced.of_slot in_slot
            | inr in_root ↦ IsReferenced.of_root in_root
          ]

    index-IsReferenced :
        (found : Option OcbDictionaryIndexV1)
        → metadata.dictionary_index ≡ found
        → Memᴰ r (index_references found)
        → IsReferenced slot root metadata r
    unfolding index_references
    index-IsReferenced none e m = absurd (Memᴰ.not-nil m)
    index-IsReferenced (some index) e m =
        let (d, member, at) = dictionary_references-Memᴰ index.dictionaries m in
        IsReferenced.of_dictionary index d e member at

    row_groups-IsReferenced :
        Memᴰ r (row_group_references metadata.row_group_index.row_groups)
        → IsReferenced slot root metadata r
    row_groups-IsReferenced m =
        let (g, member, at) =
          both-Memᴰ (λ g. g.first_key_tuple_ref) (λ g. g.last_key_tuple_ref)
            metadata.row_group_index.row_groups
            (rw (row_group_references-both metadata.row_group_index.row_groups) at m) in
        IsReferenced.of_row_group g member at

    chunks-IsReferenced :
        Memᴰ r (chunk_references metadata.row_group_index.column_chunks)
        → IsReferenced slot root metadata r
    chunks-IsReferenced m =
        let (chunk, member, at) =
          both-Memᴰ (λ chunk. chunk.value_ref) (λ chunk. chunk.validity_ref)
            metadata.row_group_index.column_chunks
            (rw (chunk_references-both metadata.row_group_index.column_chunks) at m) in
        IsReferenced.of_chunk chunk member at

    proofs-IsReferenced :
        (found : Option OcbOrderingProofV1)
        → metadata.ordering_proof ≡ found
        → Memᴰ r (proof_references found)
        → IsReferenced slot root metadata r
    unfolding proof_references
    proofs-IsReferenced none e m = absurd (Memᴰ.not-nil m)
    proofs-IsReferenced (some ordering) e m =
        let (proof, member, at) =
          both-Memᴰ (λ proof. proof.first_tuple_ref) (λ proof. proof.last_tuple_ref)
            ordering.row_group_proofs (rw (tuple_references-both ordering.row_group_proofs) at m) in
        IsReferenced.of_proof ordering proof e member at

    pub snapshot_references-IsReferenced :
        Memᴰ r (snapshot_references slot root metadata) → IsReferenced slot root metadata r
    unfolding snapshot_references
    snapshot_references-IsReferenced m =
        elim (Memᴰ.append_cases (slot_and_root_references slot root) m) [
          | inl fixed ↦ slot_and_root-IsReferenced fixed
          | inr (Memᴰ.head e) ↦ IsReferenced.of_schema e
          | inr (Memᴰ.tail m1) ↦
              elim (Memᴰ.append_cases (index_references metadata.dictionary_index) m1) [
                | inl of_index ↦ index-IsReferenced metadata.dictionary_index refl of_index
                | inr m2 ↦
                    elim (Memᴰ.append_cases
                      (row_group_references metadata.row_group_index.row_groups) m2) [
                        | inl of_row_groups ↦ row_groups-IsReferenced of_row_groups
                        | inr m3 ↦
                            elim (Memᴰ.append_cases
                              (chunk_references metadata.row_group_index.column_chunks) m3) [
                                | inl of_chunks ↦ chunks-IsReferenced of_chunks
                                | inr of_proofs ↦
                                    proofs-IsReferenced metadata.ordering_proof refl of_proofs
                              ]
                      ]
              ]
        ]

    in_slot_and_root :
        Memᴰ r (slot_and_root_references slot root)
        → Memᴰ r (snapshot_references slot root metadata)
    unfolding snapshot_references
    in_slot_and_root m = Memᴰ.append_left {s = slot_and_root_references slot root} _ m

    -- Behind the references of the slot and the root, and that of the schema.
    in_tables :
        Memᴰ r (
          index_references metadata.dictionary_index
          ++ (row_group_references metadata.row_group_index.row_groups
              ++ (chunk_references metadata.row_group_index.column_chunks
                  ++ proof_references metadata.ordering_proof)))
        → Memᴰ r (snapshot_references slot root metadata)
    unfolding snapshot_references
    in_tables m = Memᴰ.append_right (slot_and_root_references slot root) (Memᴰ.tail m)

    in_index :
        (found : Option OcbDictionaryIndexV1) (index : OcbDictionaryIndexV1)
        (d : OcbDictionaryDescV1)
        → found ≡ some index
        → Memᴰ d index.dictionaries
        → r ≡ d.values_ref
        → Memᴰ r (index_references found)
    unfolding index_references
    in_index found index d e m at = rw e (Memᴰ-dictionary_references index.dictionaries d m at)

    in_proofs :
        (found : Option OcbOrderingProofV1) (ordering : OcbOrderingProofV1)
        (proof : OcbRowGroupOrderingProofV1)
        → found ≡ some ordering
        → Memᴰ proof ordering.row_group_proofs
        → (r ≡ proof.first_tuple_ref) ⊎ (r ≡ proof.last_tuple_ref)
        → Memᴰ r (proof_references found)
    unfolding proof_references
    in_proofs found ordering proof e m at =
        rw (e, tuple_references-both ordering.row_group_proofs)
          (Memᴰ-both (λ proof. proof.first_tuple_ref) (λ proof. proof.last_tuple_ref)
            ordering.row_group_proofs proof m at)

    in_row_groups :
        (gs : List OcbRowGroupDescV1) (g : OcbRowGroupDescV1)
        → Memᴰ g gs
        → (r ≡ g.first_key_tuple_ref) ⊎ (r ≡ g.last_key_tuple_ref)
        → Memᴰ r (row_group_references gs)
    in_row_groups gs g m at =
        rw (row_group_references-both gs)
          (Memᴰ-both (λ g. g.first_key_tuple_ref) (λ g. g.last_key_tuple_ref) gs g m at)

    in_chunks :
        (chunks : List OcbColumnChunkDescV1) (chunk : OcbColumnChunkDescV1)
        → Memᴰ chunk chunks
        → (r ≡ chunk.value_ref) ⊎ (r ≡ chunk.validity_ref)
        → Memᴰ r (chunk_references chunks)
    in_chunks chunks chunk m at =
        rw (chunk_references-both chunks)
          (Memᴰ-both (λ chunk. chunk.value_ref) (λ chunk. chunk.validity_ref) chunks chunk m at)

    pub IsReferenced-snapshot_references :
        IsReferenced slot root metadata r → Memᴰ r (snapshot_references slot root metadata)
    unfolding snapshot_references slot_and_root_references
    IsReferenced-snapshot_references (IsReferenced.of_slot m) = in_slot_and_root (
        Memᴰ.append_left
          (root.previous_root_ref ∷ root.schema_ref ∷ root.dictionary_index_ref
            ∷ root.row_group_index_ref ∷ root.ordering_proof_ref ∷ root.debug_json_ref
            ∷ root.first_key_tuple_ref ∷ root.last_key_tuple_ref ∷ root.append_first_key_tuple_ref
            ∷ root.append_last_key_tuple_ref ∷ root.commit_diagnostics_ref ∷ [])
          m)
    IsReferenced-snapshot_references (IsReferenced.of_root m) = in_slot_and_root (
        Memᴰ.append_right
          (slot.root_ref ∷ slot.previous_root_ref ∷ slot.commit_diagnostics_ref ∷ []) m)
    IsReferenced-snapshot_references (IsReferenced.of_schema e) =
        Memᴰ.append_right (slot_and_root_references slot root) (Memᴰ.head e)
    IsReferenced-snapshot_references (IsReferenced.of_dictionary index d e m at) =
        in_tables (Memᴰ.append_left _ (in_index metadata.dictionary_index index d e m at))
    IsReferenced-snapshot_references (IsReferenced.of_row_group g m at) = in_tables (
        Memᴰ.append_right (index_references metadata.dictionary_index)
          (Memᴰ.append_left _ (in_row_groups metadata.row_group_index.row_groups g m at)))
    IsReferenced-snapshot_references (IsReferenced.of_chunk chunk m at) = in_tables (
        Memᴰ.append_right (index_references metadata.dictionary_index) (
          Memᴰ.append_right (row_group_references metadata.row_group_index.row_groups)
            (Memᴰ.append_left _ (in_chunks metadata.row_group_index.column_chunks chunk m at))))
    IsReferenced-snapshot_references (IsReferenced.of_proof ordering proof e m at) = in_tables (
        Memᴰ.append_right (index_references metadata.dictionary_index) (
          Memᴰ.append_right (row_group_references metadata.row_group_index.row_groups) (
            Memᴰ.append_right (chunk_references metadata.row_group_index.column_chunks)
              (in_proofs metadata.ordering_proof ordering proof e m at))))
