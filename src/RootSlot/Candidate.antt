-- ===== src/RootSlot/Candidate.antt =====
-- What `OcbRootSlotV2::validate_candidate` accepts.
use arcadia_tio_rs.Base.{ℕ, ◌≡◌, ne_false, false}
use arcadia_tio_rs.Error.{ok, fail_if-eq-ok, then-eq-ok}
use arcadia_tio_rs.Format.{root_v2_len}
use arcadia_tio_rs.Kinds.{OcbBodyKindV1}
use arcadia_tio_rs.BodyRef.{validate}
use arcadia_tio_rs.BodyRef.Bounds.{IsInFile, validate-IsInFile}
use arcadia_tio_rs.RootSlot.{OcbRootSlotV2, is_empty, validate_candidate}

-- If `validate_candidate` accepts a slot for a place and a file length, the slot names that place,
-- is not empty, and refers to a root object of the exact root length that lies inside the file.
pub candidate-IsInFile :
    (slot : OcbRootSlotV2) (expected_slot_id file_len : ℕ)
    → validate_candidate slot expected_slot_id file_len ≡ ok tt
    → (slot.slot_id ≡ expected_slot_id)
      × (is_empty slot ≡ false)
      × IsInFile slot.root_ref OcbBodyKindV1.root file_len
      × (slot.root_ref.size ≡ root_v2_len)
unfolding validate_candidate
candidate-IsInFile slot expected_slot_id file_len h =
    let (place, h1) = fail_if-eq-ok _ _ _ h in
    let (present, h2) = fail_if-eq-ok _ _ _ h1 in
    let (root, h3) = then-eq-ok (validate slot.root_ref OcbBodyKindV1.root file_len) _ h2 in
    let (size, h4) = fail_if-eq-ok _ _ _ h3 in
    (
      ne_false _ _ place,
      present,
      (validate-IsInFile slot.root_ref OcbBodyKindV1.root file_len).0 root,
      ne_false _ _ size,
    )
