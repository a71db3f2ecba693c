-- ===== src/ColumnChunk.antt =====
-- `OcbColumnChunkObjectV1` of crates/arcadia-tio-ocb-core/src/format.rs: the values of one column of one
-- row group, plain or compressed.
pub mod Decode
pub mod Laws
pub mod Payload
use arcadia_tio_rs.Base.{
  ℕ, ◌+◌, ◌*◌, ◌^◌, String, List, [], ◌∷◌, ◌++◌, ◌≡◌, Bool, not, ◌==◌, ◌&&◌, All, length, concat,
  leb, some, none,
}
use arcadia_tio_rs.Error.{
  ArcadiaTioError, Result, ok, ocb_invalid_input, ocb_corrupt_file, fail_if, ◌>>◌, ◌>>=◌,
}
use arcadia_tio_rs.Bytes.{write_u16, write_u32, write_u64, IsU16, IsU32, IsU64, IsByte}
use arcadia_tio_rs.Format.{column_chunk_magic_v1, column_chunk_v1_header_len}
use arcadia_tio_rs.Object.{sealed}
use arcadia_tio_rs.Kinds.{OcbPhysicalTypeV1, OcbChunkCodecV1}
use arcadia_tio_rs.Kinds.PhysicalType
use arcadia_tio_rs.Kinds.ChunkCodec

pub record OcbColumnChunkObjectV1 : Type 0 where
  pub version : ℕ
  pub physical_type : OcbPhysicalTypeV1
  pub codec : OcbChunkCodecV1
  pub flags : ℕ
  pub row_group_id : ℕ
  pub column_id : ℕ
  pub row_count : ℕ
  pub uncompressed_bytes : ℕ
  pub payload : List ℕ
  pub crc32c : ℕ

-- The ranges that the Rust types of the fields give.
pub record IsTyped (x : OcbColumnChunkObjectV1) : Type 0 where
  pub version_u16 : IsU16 x.version
  pub flags_u32 : IsU32 x.flags
  pub row_group_id_u32 : IsU32 x.row_group_id
  pub column_id_u32 : IsU32 x.column_id
  pub row_count_u64 : IsU64 x.row_count
  pub uncompressed_bytes_u64 : IsU64 x.uncompressed_bytes
  pub payload_bytes : All IsByte x.payload

-- The check of the value bytes of a primitive type, which the writer, the reader and
-- `uncompressed_value_bytes` make, each with its errors.
unfoldable pub check_value_bytes :
    (String → ArcadiaTioError) → OcbPhysicalTypeV1 → ℕ → ℕ → Result (Unit {0})
unfolding PhysicalType.primitive_byte_width
check_value_bytes error physical_type row_count value_bytes =
    elim (PhysicalType.primitive_byte_width physical_type) [
      | none ↦ ok tt
      | some byte_width ↦ do
        fail_if (leb (2 ^ 64) (row_count * byte_width))
            (error "OCB column chunk value byte length overflows")
        fail_if (not (value_bytes == row_count * byte_width))
            (error "OCB column chunk value byte length does not match row count and physical type")
        ok tt
    ]

unfoldable pub is_empty : List ℕ → Bool
is_empty bytes = length bytes == 0

-- The checks of `encode_without_checksum`.
unfoldable pub check_encodable : OcbColumnChunkObjectV1 → Result (Unit {0})
unfolding check_value_bytes ChunkCodec.eq is_empty
check_encodable x = do
  check_value_bytes ocb_invalid_input x.physical_type x.row_count x.uncompressed_bytes
  fail_if
      (ChunkCodec.eq x.codec OcbChunkCodecV1.none && not (length x.payload == x.uncompressed_bytes))
      (ocb_invalid_input
        "OCB column chunk payload length does not match row count and physical type")
  fail_if (ChunkCodec.eq x.codec OcbChunkCodecV1.zstd && is_empty x.payload)
      (ocb_invalid_input "OCB zstd column chunk payload must not be empty")
  ok tt

-- What is written before the payload.
unfoldable pub front : OcbColumnChunkObjectV1 → List (List ℕ)
unfolding write_u16 write_u32 write_u64 PhysicalType.to_u16 ChunkCodec.to_u16
front x =
    (column_chunk_magic_v1
      ∷ write_u16 x.version
      ∷ write_u16 column_chunk_v1_header_len
      ∷ write_u16 (PhysicalType.to_u16 x.physical_type)
      ∷ write_u16 (ChunkCodec.to_u16 x.codec)
      ∷ write_u32 x.flags
      ∷ write_u32 x.row_group_id
      ∷ write_u32 x.column_id
      ∷ write_u64 x.row_count
      ∷ write_u64 x.uncompressed_bytes
      ∷ [])

unfoldable pub encode_without_checksum : OcbColumnChunkObjectV1 → Result (List ℕ)
unfolding check_encodable front write_u32
encode_without_checksum x = do
  check_encodable x
  ok ((concat (front x) ++ x.payload) ++ write_u32 0)

unfoldable pub write_to : OcbColumnChunkObjectV1 → Result (List ℕ)
unfolding sealed encode_without_checksum
write_to x = sealed (encode_without_checksum x)
