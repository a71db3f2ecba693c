-- ===== src/Read/Graph/RowGroups/Run.antt =====
-- What the loop over the row groups does to its state.
use arcadia_tio_rs.Base.{
  ℕ, suc, ◌+◌, ◌^◌, ◌≡◌, refl, sym, ◌∙◌, List, [], ◌∷◌, false, ◌==◌, leb, some, none, ne_false,
  ==→eq, Bool-cases, inl, inr, if_true, if_false, or-eq_false, eq→==,
}
use arcadia_tio_rs.Error.{ok, fail_if-eq-ok, ok-injective}
use arcadia_tio_rs.Records.RowGroupDesc.{OcbRowGroupDescV1}
use arcadia_tio_rs.Read.Metadata.{Map, get}
use arcadia_tio_rs.Read.Graph.{contains_key}
use arcadia_tio_rs.Read.Graph.Tiles.{Tiles, end_of}
use arcadia_tio_rs.Read.Graph.RowGroupDescs.{Progress, validate_row_group_desc}

abbrev pub base_row : OcbRowGroupDescV1 → ℕ
base_row g = g.base_row

abbrev pub row_count : OcbRowGroupDescV1 → ℕ
row_count g = g.row_count

abbrev pub chunk_begin : OcbRowGroupDescV1 → ℕ
chunk_begin g = g.chunk_desc_begin

abbrev pub chunk_count : OcbRowGroupDescV1 → ℕ
chunk_count g = g.chunk_desc_count

abbrev pub stat_begin : OcbRowGroupDescV1 → ℕ
stat_begin g = g.stat_begin

abbrev pub stat_count : OcbRowGroupDescV1 → ℕ
stat_count g = g.stat_count

-- One row group: where it begins, and where the next one has to.
pub record IsNext (g : OcbRowGroupDescV1) (position : ℕ) (before after : Progress) : Type 0 where
  pub fresh : contains_key before.row_group_positions_by_id g.row_group_id ≡ false
  pub rows_begin : g.base_row ≡ before.expected_base_row
  pub chunks_begin : g.chunk_desc_begin ≡ before.expected_chunk_begin
  pub stats_begin : g.stat_begin ≡ before.expected_stat_begin
  pub advanced : after ≡ record {
    row_group_positions_by_id = (g.row_group_id, position) ∷ before.row_group_positions_by_id;
    expected_base_row = before.expected_base_row + g.row_count;
    expected_chunk_begin = before.expected_chunk_begin + g.chunk_desc_count;
    expected_stat_begin = before.expected_stat_begin + g.stat_count;
  }

pub desc-IsNext :
    (g : OcbRowGroupDescV1) (position : ℕ) (before after : Progress)
    → validate_row_group_desc g position before ≡ ok after
    → IsNext g position before after
unfolding validate_row_group_desc
desc-IsNext g position before after h =
    let (fresh, h1) = fail_if-eq-ok _ _ _ h in
    let (rows, h2) = fail_if-eq-ok _ _ _ h1 in
    let (chunks, h3) = fail_if-eq-ok _ _ _ h2 in
    let (stats, h4) = fail_if-eq-ok _ _ _ h3 in
    let (_, h5) = fail_if-eq-ok (leb (2 ^ 64) (before.expected_base_row + g.row_count)) _ _ h4 in
    let (_, h6) =
      fail_if-eq-ok (leb (2 ^ 64) (before.expected_chunk_begin + g.chunk_desc_count)) _ _ h5 in
    let (_, h7) = fail_if-eq-ok (leb (2 ^ 64) (before.expected_stat_begin + g.stat_count)) _ _ h6 in
    record {
      fresh = fresh;
      rows_begin = ne_false _ _ rows;
      chunks_begin = ne_false _ _ chunks;
      stats_begin = ne_false _ _ stats;
      advanced = sym (ok-injective h7);
    }

-- A key that a map lacks is not found, and an entry for it hides no other.
pub absent-get : (m : Map ℕ) (key : ℕ) → contains_key m key ≡ false → get m key ≡ none
unfolding contains_key get
absent-get [] key h = refl
absent-get ((k, value) ∷ m) key h =
    let (other, rest) = or-eq_false (k == key) _ h in
    if_false (k == key) _ _ other ∙ absent-get m key rest

pub kept-get :
    (m : Map ℕ) (fresh position key i : ℕ)
    → contains_key m fresh ≡ false
    → get m key ≡ some i
    → get ((fresh, position) ∷ m) key ≡ some i
unfolding get
kept-get m fresh position key i absent found = elim (Bool-cases (fresh == key)) [
  | inl same ↦ absurd (cc (found, absent-get m key (rw (← ==→eq fresh key same) absent)))
  | inr other ↦ if_false (fresh == key) _ _ other ∙ found
]

-- Each row group stands in the map with its place.
unfoldable pub Indexed : ℕ → List OcbRowGroupDescV1 → Map ℕ → Type 0
Indexed position [] m = Unit {0}
Indexed position (g ∷ row_groups) m =
    (get m g.row_group_id ≡ some position) × Indexed (suc position) row_groups m

-- What the loop does to its state.
pub record IsRun (row_groups : List OcbRowGroupDescV1) (position : ℕ) (before after : Progress)
    : Type 0 where
  pub rows : Tiles base_row row_count before.expected_base_row row_groups
  pub chunks : Tiles chunk_begin chunk_count before.expected_chunk_begin row_groups
  pub stats : Tiles stat_begin stat_count before.expected_stat_begin row_groups
  pub chunk_end :
      after.expected_chunk_begin
      ≡ end_of chunk_begin chunk_count before.expected_chunk_begin row_groups
  pub stat_end :
      after.expected_stat_begin ≡ end_of stat_begin stat_count before.expected_stat_begin row_groups
  pub kept :
      (key i : ℕ)
      → get before.row_group_positions_by_id key ≡ some i
      → get after.row_group_positions_by_id key ≡ some i
  pub indexed : Indexed position row_groups after.row_group_positions_by_id

pub IsRun-nil : (position : ℕ) (progress : Progress) → IsRun [] position progress progress
unfolding Tiles Indexed
IsRun-nil position progress = record {
  rows = tt;
  chunks = tt;
  stats = tt;
  chunk_end = refl;
  stat_end = refl;
  kept = λ key i h. h;
  indexed = tt;
}

pub IsRun-cons :
    (g : OcbRowGroupDescV1) (row_groups : List OcbRowGroupDescV1) (position : ℕ)
    (before between after : Progress)
    → IsNext g position before between
    → IsRun row_groups (suc position) between after
    → IsRun (g ∷ row_groups) position before after
unfolding Tiles Indexed get
IsRun-cons g row_groups position before between after n run =
    let r : IsRun row_groups (suc position) _ after = rw n.advanced at run in
    record {
      rows = (n.rows_begin, r.rows);
      chunks = (n.chunks_begin, r.chunks);
      stats = (n.stats_begin, r.stats);
      chunk_end = r.chunk_end;
      stat_end = r.stat_end;
      kept = λ key i found.
          r.kept key i
            (kept-get before.row_group_positions_by_id g.row_group_id position key i n.fresh found);
      indexed = (
        r.kept g.row_group_id position
            (if_true (g.row_group_id == g.row_group_id) _ _ (eq→== _ _ refl)),
        r.indexed,
      );
    }
