-- ===== src/Limits/Laws.antt =====
-- The limits and the budget: what is accepted, and what a charge leaves.
use arcadia_tio_rs.Base.{ℕ, ◌+◌, ◌^◌, ◌≤◌, ◌<◌, ◌≡◌, ◌↔◌, arith}
use arcadia_tio_rs.Error.{ok}
use arcadia_tio_rs.Bytes.{IsU64}
use arcadia_tio_rs.Limits.{
  OcbResourceLimits, new, MetadataMaterializationBudget, remaining_bytes, charge,
}

-- The limits that size one allocation are below `2 ^ 63`; `new` accepts exactly those, and keeps
-- every value in its place.
pub record IsAddressable (l : OcbResourceLimits) : Type 0 where
  pub encoded_object : l.max_encoded_object_bytes < 2 ^ 63
  pub compressed_chunk : l.max_compressed_chunk_bytes < 2 ^ 63
  pub decompressed_chunk : l.max_decompressed_chunk_bytes < 2 ^ 63
  pub projected_row_group : l.max_projected_row_group_bytes < 2 ^ 63

-- `OcbResourceLimits::new` returns the limits it was given exactly where the four that size one
-- allocation are below 2 ^ 63.
pub new-ok :
    (l : OcbResourceLimits)
    → IsAddressable l ↔ (
        new l.max_encoded_object_bytes l.max_compressed_chunk_bytes l.max_decompressed_chunk_bytes
          l.max_projected_row_group_bytes l.max_owned_selected_compressed_bytes
          l.max_owned_decoded_materialized_bytes
        ≡ ok l)
unfolding new
new-ok l = (λ a. ground arith, λ h. ground arith)

-- A budget is never overdrawn.
unfoldable pub IsWithin : MetadataMaterializationBudget → Type 0
IsWithin b = (b.charged_bytes ≤ b.limit_bytes) × IsU64 b.limit_bytes

-- For a budget within its 64-bit limit, `charge` succeeds with the sum as the new charge exactly
-- where the bytes that remain cover the request.
pub charge-ok :
    (b : MetadataMaterializationBudget) (bytes : ℕ)
    → IsWithin b
    → (bytes ≤ remaining_bytes b)
      ↔ (charge b bytes ≡ ok (record b { charged_bytes = b.charged_bytes + bytes }))
unfolding IsWithin charge remaining_bytes
charge-ok b bytes w = (λ a. ground arith, λ h. ground arith)

-- A charge that a budget within its 64-bit limit accepts leaves it within its limit, keeps the
-- limit, and takes exactly the bytes charged from those that remain.
pub charge-remaining :
    (b b' : MetadataMaterializationBudget) (bytes : ℕ)
    → IsWithin b
    → charge b bytes ≡ ok b'
    → IsWithin b'
      × (b'.limit_bytes ≡ b.limit_bytes)
      × (remaining_bytes b' + bytes ≡ remaining_bytes b)
unfolding IsWithin charge remaining_bytes
charge-remaining b b' bytes w h = ground arith
