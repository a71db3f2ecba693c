-- ===== src/Read/Metadata.antt =====
-- `OcbMetadataV1` of crates/arcadia-tio-ocb-core/src/read.rs: what opening a file keeps of it.
pub mod Objects
use arcadia_tio_rs.Base.{ℕ, List, [], ◌∷◌, Bool, ◌==◌, get_elem?, Option, some, none, if◌then◌else◌}
use arcadia_tio_rs.Records.RowGroupDesc.{OcbRowGroupDescV1}
use arcadia_tio_rs.RootV1.{OcbRootV1}
use arcadia_tio_rs.StringTable.{OcbStringTableV1}
use arcadia_tio_rs.Schema.{OcbSchemaV1}
use arcadia_tio_rs.DictionaryIndex.{OcbDictionaryIndexV1}
use arcadia_tio_rs.RowGroupIndex.{OcbRowGroupIndexV1}
use arcadia_tio_rs.OrderingProof.{OcbOrderingProofV1}
use arcadia_tio_rs.Limits.{OcbResourceLimits}

-- A `HashMap` with numbers for keys is its entries, the last one inserted first.
abbrev pub Map : Type 0 → Type 0
Map V = List (ℕ × V)

unfoldable pub get : {V : Type 0} → Map V → ℕ → Option V
get [] key = none
get ((k, value) ∷ entries) key = if k == key then some value else get entries key

pub record OcbMetadataV1 : Type 0 where
  pub root : OcbRootV1
  pub string_table : OcbStringTableV1
  pub schema : OcbSchemaV1
  pub dictionary_index : Option OcbDictionaryIndexV1
  pub row_group_index : OcbRowGroupIndexV1
  pub row_group_positions_by_id : Map ℕ
  pub ordering_proof : Option OcbOrderingProofV1
  pub file_len : ℕ
  pub appendable : Bool
  pub root_generation : ℕ
  pub previous_root_generation : Option ℕ
  pub resource_limits : OcbResourceLimits
  pub open_metadata_materialized_bytes : ℕ
  pub open_auxiliary_encoded_bytes : ℕ

unfoldable pub row_group_by_id : OcbMetadataV1 → ℕ → Option OcbRowGroupDescV1
unfolding get
row_group_by_id metadata row_group_id = elim (get metadata.row_group_positions_by_id row_group_id) [
  | none ↦ none
  | some position ↦ get_elem? metadata.row_group_index.row_groups position
]
