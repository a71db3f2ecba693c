-- ===== src/Limits.antt =====
-- crates/arcadia-tio-ocb-core/src/resource_limits.rs: the byte limits of an opened file, and the
-- budget for the metadata that it materialises. The platform has 64-bit addresses.
pub mod Laws
use arcadia_tio_rs.Base.{ℕ, ◌+◌, ◌-◌, ◌^◌, leb, ltb}
use arcadia_tio_rs.Error.{Result, ok, ocb_invalid_input, fail_if, ◌>>◌}

pub record OcbResourceLimits : Type 0 where
  pub max_encoded_object_bytes : ℕ
  pub max_compressed_chunk_bytes : ℕ
  pub max_decompressed_chunk_bytes : ℕ
  pub max_projected_row_group_bytes : ℕ
  pub max_owned_selected_compressed_bytes : ℕ
  pub max_owned_decoded_materialized_bytes : ℕ

-- Above `isize::MAX`.
unfoldable pub validate_direct_allocation_limit : ℕ → Result (Unit {0})
validate_direct_allocation_limit value = do
  fail_if (leb (2 ^ 63) value) (
      ocb_invalid_input
        "OCB direct-allocation resource limit exceeds the platform addressable size")
  ok tt

unfoldable pub new : ℕ → ℕ → ℕ → ℕ → ℕ → ℕ → Result OcbResourceLimits
unfolding validate_direct_allocation_limit
new encoded_object compressed_chunk decompressed_chunk projected_row_group selected_compressed
      decoded_materialized =
    do
      validate_direct_allocation_limit encoded_object
      validate_direct_allocation_limit compressed_chunk
      validate_direct_allocation_limit decompressed_chunk
      validate_direct_allocation_limit projected_row_group
      ok (record {
        max_encoded_object_bytes = encoded_object;
        max_compressed_chunk_bytes = compressed_chunk;
        max_decompressed_chunk_bytes = decompressed_chunk;
        max_projected_row_group_bytes = projected_row_group;
        max_owned_selected_compressed_bytes = selected_compressed;
        max_owned_decoded_materialized_bytes = decoded_materialized;
      })

abbrev pub policy_a : OcbResourceLimits
policy_a = record {
  max_encoded_object_bytes = 1_073_741_824;
  max_compressed_chunk_bytes = 536_870_912;
  max_decompressed_chunk_bytes = 536_870_912;
  max_projected_row_group_bytes = 1_073_741_824;
  max_owned_selected_compressed_bytes = 8_589_934_592;
  max_owned_decoded_materialized_bytes = 17_179_869_184;
}

unfoldable pub with_max_encoded_object_bytes : OcbResourceLimits → ℕ → Result OcbResourceLimits
unfolding new
with_max_encoded_object_bytes l value =
    new value l.max_compressed_chunk_bytes l.max_decompressed_chunk_bytes
      l.max_projected_row_group_bytes l.max_owned_selected_compressed_bytes
      l.max_owned_decoded_materialized_bytes

unfoldable pub with_max_compressed_chunk_bytes : OcbResourceLimits → ℕ → Result OcbResourceLimits
unfolding new
with_max_compressed_chunk_bytes l value =
    new l.max_encoded_object_bytes value l.max_decompressed_chunk_bytes
      l.max_projected_row_group_bytes l.max_owned_selected_compressed_bytes
      l.max_owned_decoded_materialized_bytes

unfoldable pub with_max_decompressed_chunk_bytes : OcbResourceLimits → ℕ → Result OcbResourceLimits
unfolding new
with_max_decompressed_chunk_bytes l value =
    new l.max_encoded_object_bytes l.max_compressed_chunk_bytes value
      l.max_projected_row_group_bytes l.max_owned_selected_compressed_bytes
      l.max_owned_decoded_materialized_bytes

unfoldable pub with_max_projected_row_group_bytes : OcbResourceLimits → ℕ → Result OcbResourceLimits
unfolding new
with_max_projected_row_group_bytes l value =
    new l.max_encoded_object_bytes l.max_compressed_chunk_bytes l.max_decompressed_chunk_bytes value
      l.max_owned_selected_compressed_bytes l.max_owned_decoded_materialized_bytes

unfoldable pub with_max_owned_selected_compressed_bytes :
    OcbResourceLimits → ℕ → Result OcbResourceLimits
unfolding new
with_max_owned_selected_compressed_bytes l value =
    new l.max_encoded_object_bytes l.max_compressed_chunk_bytes l.max_decompressed_chunk_bytes
      l.max_projected_row_group_bytes value l.max_owned_decoded_materialized_bytes

unfoldable pub with_max_owned_decoded_materialized_bytes :
    OcbResourceLimits → ℕ → Result OcbResourceLimits
unfolding new
with_max_owned_decoded_materialized_bytes l value =
    new l.max_encoded_object_bytes l.max_compressed_chunk_bytes l.max_decompressed_chunk_bytes
      l.max_projected_row_group_bytes l.max_owned_selected_compressed_bytes value

-- `MetadataMaterializationBudget`.
pub record MetadataMaterializationBudget : Type 0 where
  pub limit_bytes : ℕ
  pub charged_bytes : ℕ

unfoldable pub new_budget : ℕ → MetadataMaterializationBudget
new_budget limit_bytes = record { limit_bytes = limit_bytes; charged_bytes = 0 }

unfoldable pub from_limits : OcbResourceLimits → MetadataMaterializationBudget
unfolding new_budget
from_limits limits = new_budget limits.max_owned_decoded_materialized_bytes

unfoldable pub remaining_bytes : MetadataMaterializationBudget → ℕ
remaining_bytes b = b.limit_bytes - b.charged_bytes

-- `charge` returns the budget that it leaves in place; a refusal leaves it as it was.
unfoldable pub charge : MetadataMaterializationBudget → ℕ → Result MetadataMaterializationBudget
charge b bytes = do
  let charged_bytes = b.charged_bytes + bytes
  fail_if (leb (2 ^ 64) charged_bytes)
      (ocb_invalid_input "OCB open metadata materialization exceeds resource limit")
  fail_if (ltb b.limit_bytes charged_bytes)
      (ocb_invalid_input "OCB open metadata materialization exceeds resource limit")
  ok (record b { charged_bytes = charged_bytes })

unfoldable pub policy_a_metadata_materialization_budget : MetadataMaterializationBudget
unfolding from_limits
policy_a_metadata_materialization_budget = from_limits policy_a
