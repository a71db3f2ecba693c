-- ===== src/RootSlot/Root.antt =====
-- `OcbRootSlotV2::validate_root`: a root agrees with the slot that refers to it.
use arcadia_tio_rs.Base.{◌≡◌, ◌==◌, not, not-false, ne_false, true}
use arcadia_tio_rs.Error.{Result, ok, ocb_corrupt_file, fail_if, fail_if-eq-ok, ◌>>◌}
use arcadia_tio_rs.BodyRef
use arcadia_tio_rs.RootSlot.{OcbRootSlotV2}
use arcadia_tio_rs.RootV2.{OcbRootV2}

unfoldable pub validate_root : OcbRootSlotV2 → OcbRootV2 → Result (Unit {0})
unfolding BodyRef.eq
validate_root slot root = do
  fail_if (not (root.generation == slot.generation))
      (ocb_corrupt_file "OCB root generation does not match root slot")
  fail_if (not (root.previous_generation == slot.previous_generation))
      (ocb_corrupt_file "OCB root previous_generation does not match root slot")
  fail_if (not (BodyRef.eq root.previous_root_ref slot.previous_root_ref))
      (ocb_corrupt_file "OCB root previous_root_ref does not match root slot")
  fail_if (not (BodyRef.eq root.commit_diagnostics_ref slot.commit_diagnostics_ref))
      (ocb_corrupt_file "OCB root commit diagnostics ref does not match root slot")
  ok tt

-- A root that is accepted has the generations and the references that the slot records.
pub validate_root-agrees :
    (slot : OcbRootSlotV2) (root : OcbRootV2)
    → validate_root slot root ≡ ok tt
    → (root.generation ≡ slot.generation)
      × (root.previous_generation ≡ slot.previous_generation)
      × (BodyRef.eq root.previous_root_ref slot.previous_root_ref ≡ true)
      × (BodyRef.eq root.commit_diagnostics_ref slot.commit_diagnostics_ref ≡ true)
unfolding validate_root
validate_root-agrees slot root h =
    let (generation, h1) = fail_if-eq-ok _ _ _ h in
    let (previous, h2) = fail_if-eq-ok _ _ _ h1 in
    let (previous_ref, h3) = fail_if-eq-ok _ _ _ h2 in
    let (diagnostics, h4) = fail_if-eq-ok _ _ _ h3 in
    (
      ne_false _ _ generation,
      ne_false _ _ previous,
      not-false (BodyRef.eq root.previous_root_ref slot.previous_root_ref) previous_ref,
      not-false (BodyRef.eq root.commit_diagnostics_ref slot.commit_diagnostics_ref) diagnostics,
    )
