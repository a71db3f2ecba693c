-- ===== src/OrderingProof.antt =====
-- `OcbOrderingProofV1` of crates/arcadia-tio-ocb-core/src/format.rs: the ordering keys and the proof of each row group.
pub mod Decode
pub mod Laws
use arcadia_tio_rs.Base.{ℕ, ◌*◌, ◌^◌, ◌<◌, List, [], ◌∷◌, ◌++◌, Bool, not, All, length, concat, map}
use arcadia_tio_rs.Error.{Result, ok, ocb_invalid_input, fail_if, ◌>>◌, ◌>>=◌}
use arcadia_tio_rs.Bytes.{write_u16, write_u32, write_u64, IsU16, IsU32, IsU64}
use arcadia_tio_rs.Format.{ordering_proof_magic_v1, ordering_proof_v1_header_len}
use arcadia_tio_rs.Object.{sealed}
use arcadia_tio_rs.Table.{write_records, count_u32, count_u16}
use arcadia_tio_rs.Records.OrderingKey
use arcadia_tio_rs.Records.OrderingKey.{OcbOrderingKeyV1}
use arcadia_tio_rs.Records.OrderingProof
use arcadia_tio_rs.Records.OrderingProof.{OcbRowGroupOrderingProofV1}

pub record OcbOrderingProofV1 : Type 0 where
  pub version : ℕ
  pub flags : ℕ
  pub keys : List OcbOrderingKeyV1
  pub row_group_proofs : List OcbRowGroupOrderingProofV1
  pub crc32c : ℕ

-- The ranges that the Rust types of the fields give.
pub record IsTyped (x : OcbOrderingProofV1) : Type 0 where
  pub version_u16 : IsU16 x.version
  pub flags_u16 : IsU16 x.flags
  pub keys_typed : All OrderingKey.IsTyped x.keys
  pub row_group_proofs_typed : All OrderingProof.IsTyped x.row_group_proofs

-- What is written before the tables.
unfoldable pub front : OcbOrderingProofV1 → ℕ → ℕ → List (List ℕ)
unfolding write_u16 write_u32 write_u64
front x key_count row_group_count =
    (ordering_proof_magic_v1
      ∷ write_u16 x.version
      ∷ write_u16 ordering_proof_v1_header_len
      ∷ write_u16 key_count
      ∷ write_u16 x.flags
      ∷ write_u32 row_group_count
      ∷ write_u64 0
      ∷ [])

unfoldable pub encode_without_checksum : OcbOrderingProofV1 → Result (List ℕ)
unfolding count_u32 count_u16 front write_records write_u32 OrderingKey.write_to
    OrderingProof.write_to
encode_without_checksum x = do
  key_count ← count_u16 (length x.keys) (ocb_invalid_input "OCB ordering proof has too many keys")
  row_group_count ←
      count_u32 (length x.row_group_proofs)
        (ocb_invalid_input "OCB ordering proof has too many row groups")
  keys ← write_records OrderingKey.write_to x.keys
  row_group_proofs ← write_records OrderingProof.write_to x.row_group_proofs
  ok (
      (concat (front x key_count row_group_count) ++ concat (keys ∷ row_group_proofs ∷ []))
      ++ write_u32 0)

unfoldable pub write_to : OcbOrderingProofV1 → Result (List ℕ)
unfolding sealed encode_without_checksum
write_to x = sealed (encode_without_checksum x)
