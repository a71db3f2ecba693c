-- ===== src/RowGroupIndexDelta.antt =====
-- `OcbRowGroupIndexDeltaV1` of crates/arcadia-tio-ocb-core/src/format.rs: what one append adds to the row-group index and to the ordering proof.
pub mod Decode
pub mod Laws
use arcadia_tio_rs.Base.{ℕ, ◌*◌, ◌^◌, ◌<◌, List, [], ◌∷◌, ◌++◌, Bool, not, All, length, concat, map}
use arcadia_tio_rs.Error.{Result, ok, ocb_invalid_input, fail_if, ◌>>◌, ◌>>=◌}
use arcadia_tio_rs.Bytes.{write_u16, write_u32, write_u64, IsU16, IsU32, IsU64}
use arcadia_tio_rs.Format.{row_group_index_delta_magic_v1, row_group_index_delta_v1_header_len}
use arcadia_tio_rs.Object.{sealed}
use arcadia_tio_rs.Table.{write_records, count_u32, count_u16}
use arcadia_tio_rs.Records.RowGroupDesc
use arcadia_tio_rs.Records.RowGroupDesc.{OcbRowGroupDescV1}
use arcadia_tio_rs.Records.ColumnChunkDesc
use arcadia_tio_rs.Records.ColumnChunkDesc.{OcbColumnChunkDescV1}
use arcadia_tio_rs.Records.ColumnStats
use arcadia_tio_rs.Records.ColumnStats.{OcbColumnStatsV1}
use arcadia_tio_rs.Records.OrderingKey
use arcadia_tio_rs.Records.OrderingKey.{OcbOrderingKeyV1}
use arcadia_tio_rs.Records.OrderingProof
use arcadia_tio_rs.Records.OrderingProof.{OcbRowGroupOrderingProofV1}

pub record OcbRowGroupIndexDeltaV1 : Type 0 where
  pub version : ℕ
  pub base_row_group_count : ℕ
  pub base_column_chunk_count : ℕ
  pub base_stat_count : ℕ
  pub base_ordering_proof_count : ℕ
  pub flags : ℕ
  pub row_groups : List OcbRowGroupDescV1
  pub column_chunks : List OcbColumnChunkDescV1
  pub stats : List OcbColumnStatsV1
  pub ordering_keys : List OcbOrderingKeyV1
  pub row_group_ordering_proofs : List OcbRowGroupOrderingProofV1
  pub crc32c : ℕ

-- The ranges that the Rust types of the fields give.
pub record IsTyped (x : OcbRowGroupIndexDeltaV1) : Type 0 where
  pub version_u16 : IsU16 x.version
  pub base_row_group_count_u32 : IsU32 x.base_row_group_count
  pub base_column_chunk_count_u32 : IsU32 x.base_column_chunk_count
  pub base_stat_count_u32 : IsU32 x.base_stat_count
  pub base_ordering_proof_count_u32 : IsU32 x.base_ordering_proof_count
  pub flags_u32 : IsU32 x.flags
  pub row_groups_typed : All RowGroupDesc.IsTyped x.row_groups
  pub column_chunks_typed : All ColumnChunkDesc.IsTyped x.column_chunks
  pub stats_typed : All ColumnStats.IsTyped x.stats
  pub ordering_keys_typed : All OrderingKey.IsTyped x.ordering_keys
  pub row_group_ordering_proofs_typed : All OrderingProof.IsTyped x.row_group_ordering_proofs

-- What is written before the tables.
unfoldable pub front : OcbRowGroupIndexDeltaV1 → ℕ → ℕ → ℕ → ℕ → ℕ → List (List ℕ)
unfolding write_u16 write_u32 write_u64
front x row_group_count column_chunk_count stat_count ordering_key_count ordering_proof_count =
    (row_group_index_delta_magic_v1
      ∷ write_u16 x.version
      ∷ write_u16 row_group_index_delta_v1_header_len
      ∷ write_u32 x.base_row_group_count
      ∷ write_u32 x.base_column_chunk_count
      ∷ write_u32 x.base_stat_count
      ∷ write_u32 x.base_ordering_proof_count
      ∷ write_u32 row_group_count
      ∷ write_u32 column_chunk_count
      ∷ write_u32 stat_count
      ∷ write_u16 ordering_key_count
      ∷ write_u16 0
      ∷ write_u32 ordering_proof_count
      ∷ write_u32 x.flags
      ∷ write_u32 0
      ∷ [])

unfoldable pub encode_without_checksum : OcbRowGroupIndexDeltaV1 → Result (List ℕ)
unfolding count_u32 count_u16 front write_records write_u32 RowGroupDesc.write_to
    ColumnChunkDesc.write_to ColumnStats.write_to OrderingKey.write_to OrderingProof.write_to
encode_without_checksum x = do
  row_group_count ←
      count_u32 (length x.row_groups)
        (ocb_invalid_input "OCB row-group index delta has too many row groups")
  column_chunk_count ←
      count_u32 (length x.column_chunks)
        (ocb_invalid_input "OCB row-group index delta has too many column chunks")
  stat_count ←
      count_u32 (length x.stats) (ocb_invalid_input "OCB row-group index delta has too many stats")
  ordering_key_count ←
      count_u16 (length x.ordering_keys)
        (ocb_invalid_input "OCB row-group index delta has too many ordering keys")
  ordering_proof_count ←
      count_u32 (length x.row_group_ordering_proofs)
        (ocb_invalid_input "OCB row-group index delta has too many ordering proofs")
  row_groups ← write_records RowGroupDesc.write_to x.row_groups
  column_chunks ← write_records ColumnChunkDesc.write_to x.column_chunks
  stats ← write_records ColumnStats.write_to x.stats
  ordering_keys ← write_records OrderingKey.write_to x.ordering_keys
  row_group_ordering_proofs ← write_records OrderingProof.write_to x.row_group_ordering_proofs
  ok (
      (concat (
          front x row_group_count column_chunk_count stat_count ordering_key_count
            ordering_proof_count)
        ++ concat
            (row_groups ∷ column_chunks ∷ stats ∷ ordering_keys ∷ row_group_ordering_proofs ∷ []))
      ++ write_u32 0)

unfoldable pub write_to : OcbRowGroupIndexDeltaV1 → Result (List ℕ)
unfolding sealed encode_without_checksum
write_to x = sealed (encode_without_checksum x)
