-- ===== src/Read/End.antt =====
-- `selected_snapshot_referenced_end` of crates/arcadia-tio-ocb-core/src/read.rs: the end of the last object
-- that a snapshot refers to.
pub mod References
pub mod Laws
use arcadia_tio_rs.Base.{
  ℕ, ◌+◌, ◌^◌, List, [], ◌∷◌, ◌++◌, leb, max, Option, some, none, if◌then◌else◌,
}
use arcadia_tio_rs.Error.{Result, ok, ocb_corrupt_file, fail_if, ◌>>◌, ◌>>=◌}
use arcadia_tio_rs.Format.{bootstrap_page_v2_len}
use arcadia_tio_rs.BodyRef.{OcbBodyRefV2, is_null}
use arcadia_tio_rs.Records.DictionaryDesc.{OcbDictionaryDescV1}
use arcadia_tio_rs.Records.RowGroupDesc.{OcbRowGroupDescV1}
use arcadia_tio_rs.Records.ColumnChunkDesc.{OcbColumnChunkDescV1}
use arcadia_tio_rs.Records.OrderingProof.{OcbRowGroupOrderingProofV1}
use arcadia_tio_rs.RootSlot.{OcbRootSlotV2}
use arcadia_tio_rs.RootV2.{OcbRootV2}
use arcadia_tio_rs.DictionaryIndex.{OcbDictionaryIndexV1}
use arcadia_tio_rs.OrderingProof.{OcbOrderingProofV1}
use arcadia_tio_rs.Read.Metadata.{OcbMetadataV1}

unfoldable pub body_ref_end : OcbBodyRefV2 → Result ℕ
body_ref_end reference = do
  fail_if (leb (2 ^ 64) (reference.offset + reference.size))
      (ocb_corrupt_file "OCB body reference range overflows")
  ok (reference.offset + reference.size)

-- The end that the source changes in place is returned.
unfoldable pub update_max_ref_end : ℕ → OcbBodyRefV2 → Result ℕ
unfolding is_null body_ref_end
update_max_ref_end max_end reference =
    if is_null reference
    then ok max_end
    else (do end ← body_ref_end reference; ok (max max_end end))

unfoldable pub update_all : ℕ → List OcbBodyRefV2 → Result ℕ
unfolding update_max_ref_end
update_all max_end [] = ok max_end
update_all max_end (reference ∷ references) = do
  end ← update_max_ref_end max_end reference
  update_all end references

-- The references of the `for` loops, in order.
unfoldable pub dictionary_references : List OcbDictionaryDescV1 → List OcbBodyRefV2
dictionary_references [] = []
dictionary_references (d ∷ dictionaries) = d.values_ref ∷ dictionary_references dictionaries

unfoldable pub index_references : Option OcbDictionaryIndexV1 → List OcbBodyRefV2
unfolding dictionary_references
index_references none = []
index_references (some index) = dictionary_references index.dictionaries

unfoldable pub row_group_references : List OcbRowGroupDescV1 → List OcbBodyRefV2
row_group_references [] = []
row_group_references (g ∷ row_groups) =
    g.first_key_tuple_ref ∷ g.last_key_tuple_ref ∷ row_group_references row_groups

unfoldable pub chunk_references : List OcbColumnChunkDescV1 → List OcbBodyRefV2
chunk_references [] = []
chunk_references (chunk ∷ chunks) = chunk.value_ref ∷ chunk.validity_ref ∷ chunk_references chunks

unfoldable pub tuple_references : List OcbRowGroupOrderingProofV1 → List OcbBodyRefV2
tuple_references [] = []
tuple_references (proof ∷ proofs) =
    proof.first_tuple_ref ∷ proof.last_tuple_ref ∷ tuple_references proofs

unfoldable pub proof_references : Option OcbOrderingProofV1 → List OcbBodyRefV2
unfolding tuple_references
proof_references none = []
proof_references (some proof) = tuple_references proof.row_group_proofs

unfoldable pub slot_and_root_references : OcbRootSlotV2 → OcbRootV2 → List OcbBodyRefV2
slot_and_root_references slot root =
    (slot.root_ref ∷ slot.previous_root_ref ∷ slot.commit_diagnostics_ref ∷ root.previous_root_ref
      ∷ root.schema_ref ∷ root.dictionary_index_ref ∷ root.row_group_index_ref
      ∷ root.ordering_proof_ref ∷ root.debug_json_ref ∷ root.first_key_tuple_ref
      ∷ root.last_key_tuple_ref ∷ root.append_first_key_tuple_ref ∷ root.append_last_key_tuple_ref
      ∷ root.commit_diagnostics_ref ∷ [])

unfoldable pub snapshot_references : OcbRootSlotV2 → OcbRootV2 → OcbMetadataV1 → List OcbBodyRefV2
unfolding slot_and_root_references index_references row_group_references chunk_references
    proof_references
snapshot_references slot root metadata =
    slot_and_root_references slot root
    ++ ((metadata.schema.string_table_ref ∷ [])
        ++ (index_references metadata.dictionary_index
            ++ (row_group_references metadata.row_group_index.row_groups
                ++ (chunk_references metadata.row_group_index.column_chunks
                    ++ proof_references metadata.ordering_proof))))

unfoldable pub selected_snapshot_referenced_end :
    OcbRootSlotV2 → OcbRootV2 → OcbMetadataV1 → Result ℕ
unfolding update_all snapshot_references
selected_snapshot_referenced_end slot root metadata =
    update_all bootstrap_page_v2_len (snapshot_references slot root metadata)
