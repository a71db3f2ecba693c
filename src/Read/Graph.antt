-- ===== src/Read/Graph.antt =====
-- The validation of the metadata of a file, `validate_metadata_graph` and what it calls in
-- crates/arcadia-tio-ocb-core/src/read.rs: what its parts share. A `HashSet` is the list of its members
-- and a `HashMap` the list of its entries; a loop over the values of a map takes them in one order.
pub mod Roots
pub mod Columns
pub mod Dictionaries
pub mod Chunks
pub mod Tiles
pub mod RowGroupDescs
pub mod RowGroups
pub mod Ordering
use arcadia_tio_rs.Base.{
  ℕ, List, [], ◌∷◌, Bool, true, false, not, ◌==◌, ◌&&◌, ◌||◌, Option, some, none, get_elem?,
}
use arcadia_tio_rs.Error.{Result, ok, err, ocb_corrupt_file, fail_if}
use arcadia_tio_rs.Base.{String}
use arcadia_tio_rs.Table.{Platform}
use arcadia_tio_rs.Read.Metadata.{Map, get}
use arcadia_tio_rs.Read.Auxiliary.{metadata_graph_allocation_error}

unfoldable pub contains : List ℕ → ℕ → Bool
contains [] member = false
contains (m ∷ members) member = m == member || contains members member

unfoldable pub contains_key : {V : Type 0} → Map V → ℕ → Bool
contains_key [] key = false
contains_key ((k, value) ∷ entries) key = k == key || contains_key entries key

unfoldable pub key_list : {V : Type 0} → Map V → List ℕ
key_list [] = []
key_list ((k, value) ∷ entries) = k ∷ key_list entries

unfoldable pub value_list : {V : Type 0} → Map V → List V
value_list [] = []
value_list ((k, value) ∷ entries) = value ∷ value_list entries

unfoldable pub is_subset : List ℕ → List ℕ → Bool
unfolding contains
is_subset [] others = true
is_subset (m ∷ members) others = contains others m && is_subset members others

-- `==` of sets.
unfoldable pub set_eq : List ℕ → List ℕ → Bool
unfolding is_subset
set_eq members others = is_subset members others && is_subset others members

-- `try_reserve` of an empty table for so many entries.
unfoldable pub reserve_entries : Platform → ℕ → Result (Unit {0})
reserve_entries p count = fail_if (not (p.grants_entries count)) metadata_graph_allocation_error

-- `ok_or(corrupt_file(message))`.
unfoldable pub required {ℓ} : {A : Type ℓ} → Option A → String → Result A
required none message = err (ocb_corrupt_file message)
required (some a) message = ok a
