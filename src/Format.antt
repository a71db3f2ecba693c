-- ===== src/Format.antt =====
-- The constants of crates/arcadia-tio-ocb-core/src/format.rs.
use arcadia_tio_rs.Base.{ℕ, List, [], ◌∷◌}

abbrev pub format_major_v1 : ℕ
format_major_v1 = 1

abbrev pub format_minor_v1 : ℕ
format_minor_v1 = 0

abbrev pub format_major_v2 : ℕ
format_major_v2 = 2

abbrev pub format_minor_v2 : ℕ
format_minor_v2 = 0

abbrev pub bootstrap_page_v1_len : ℕ
bootstrap_page_v1_len = 4096

abbrev pub bootstrap_page_v2_len : ℕ
bootstrap_page_v2_len = bootstrap_page_v1_len

abbrev pub root_slot_v2_count : ℕ
root_slot_v2_count = 2

abbrev pub root_slot_v2_len : ℕ
root_slot_v2_len = 160

abbrev pub root_slot_table_v2_offset : ℕ
root_slot_table_v2_offset = 64

abbrev pub root_slot_table_v2_len : ℕ
root_slot_table_v2_len = 320

abbrev pub body_ref_v2_len : ℕ
body_ref_v2_len = 32

abbrev pub column_desc_v1_len : ℕ
column_desc_v1_len = 32

abbrev pub row_group_desc_v1_len : ℕ
row_group_desc_v1_len = 120

abbrev pub column_chunk_desc_v1_len : ℕ
column_chunk_desc_v1_len = 96

abbrev pub stat_scalar_v1_len : ℕ
stat_scalar_v1_len = 16

abbrev pub column_stats_v1_len : ℕ
column_stats_v1_len = 48

abbrev pub ordering_key_v1_len : ℕ
ordering_key_v1_len = 8

abbrev pub row_group_ordering_proof_v1_len : ℕ
row_group_ordering_proof_v1_len = 72

abbrev pub bootstrap_magic_v1 : List ℕ
bootstrap_magic_v1 = b'T' ∷ b'I' ∷ b'O' ∷ b'O' ∷ b'C' ∷ b'B' ∷ b'1' ∷ 0 ∷ []

abbrev pub bootstrap_magic_v2 : List ℕ
bootstrap_magic_v2 = b'T' ∷ b'I' ∷ b'O' ∷ b'O' ∷ b'C' ∷ b'B' ∷ b'2' ∷ 0 ∷ []

abbrev pub root_magic_v1 : List ℕ
root_magic_v1 = b'O' ∷ b'C' ∷ b'B' ∷ b'R' ∷ b'O' ∷ b'O' ∷ b'T' ∷ b'1' ∷ []

abbrev pub root_magic_v2 : List ℕ
root_magic_v2 = b'O' ∷ b'C' ∷ b'B' ∷ b'R' ∷ b'O' ∷ b'O' ∷ b'T' ∷ b'2' ∷ []

abbrev pub root_slot_magic_v2 : List ℕ
root_slot_magic_v2 = b'O' ∷ b'C' ∷ b'B' ∷ b'S' ∷ b'L' ∷ b'T' ∷ b'2' ∷ 0 ∷ []

abbrev pub schema_magic_v1 : List ℕ
schema_magic_v1 = b'O' ∷ b'C' ∷ b'B' ∷ b'S' ∷ b'C' ∷ b'H' ∷ b'1' ∷ 0 ∷ []

abbrev pub string_table_magic_v1 : List ℕ
string_table_magic_v1 = b'O' ∷ b'C' ∷ b'B' ∷ b'S' ∷ b'T' ∷ b'R' ∷ b'1' ∷ 0 ∷ []

abbrev pub dictionary_index_magic_v1 : List ℕ
dictionary_index_magic_v1 = b'O' ∷ b'C' ∷ b'B' ∷ b'D' ∷ b'I' ∷ b'X' ∷ b'1' ∷ 0 ∷ []

abbrev pub dictionary_values_magic_v1 : List ℕ
dictionary_values_magic_v1 = b'O' ∷ b'C' ∷ b'B' ∷ b'D' ∷ b'V' ∷ b'L' ∷ b'1' ∷ 0 ∷ []

abbrev pub row_group_index_magic_v1 : List ℕ
row_group_index_magic_v1 = b'O' ∷ b'C' ∷ b'B' ∷ b'R' ∷ b'G' ∷ b'I' ∷ b'1' ∷ 0 ∷ []

abbrev pub ordering_proof_magic_v1 : List ℕ
ordering_proof_magic_v1 = b'O' ∷ b'C' ∷ b'B' ∷ b'O' ∷ b'R' ∷ b'D' ∷ b'1' ∷ 0 ∷ []

abbrev pub column_chunk_magic_v1 : List ℕ
column_chunk_magic_v1 = b'O' ∷ b'C' ∷ b'B' ∷ b'C' ∷ b'H' ∷ b'K' ∷ b'1' ∷ 0 ∷ []

abbrev pub row_group_index_delta_magic_v1 : List ℕ
row_group_index_delta_magic_v1 = b'O' ∷ b'C' ∷ b'B' ∷ b'R' ∷ b'G' ∷ b'D' ∷ b'1' ∷ 0 ∷ []

abbrev pub null_u32 : ℕ
null_u32 = 0xffff_ffff

abbrev pub root_v1_len : ℕ
root_v1_len = 220

abbrev pub root_v2_len : ℕ
root_v2_len = 456

abbrev pub schema_v1_header_len : ℕ
schema_v1_header_len = 52

abbrev pub string_table_v1_header_len : ℕ
string_table_v1_header_len = 20

abbrev pub dictionary_index_v1_header_len : ℕ
dictionary_index_v1_header_len = 20

abbrev pub dictionary_values_v1_header_len : ℕ
dictionary_values_v1_header_len = 40

abbrev pub row_group_index_v1_header_len : ℕ
row_group_index_v1_header_len = 32

abbrev pub ordering_proof_v1_header_len : ℕ
ordering_proof_v1_header_len = 28

abbrev pub column_chunk_v1_header_len : ℕ
column_chunk_v1_header_len = 44

abbrev pub row_group_index_delta_v1_header_len : ℕ
row_group_index_delta_v1_header_len = 56
