-- ===== src/Read/Graph/Tiles.antt =====
-- Ranges one after the other, and the slices that they cut from a list.
use arcadia_tio_rs.Base.{
  ℕ, ◌+◌, ◌≡◌, refl, sym, arith, List, [], ◌∷◌, length, take, drop, concat, map, sum,
  take-append-drop, drop-sum,
}

module _ {X : Type 0} (begin_of count_of : X → ℕ) where
  -- Each range begins where the one before it ends.
  unfoldable pub Tiles : ℕ → List X → Type 0
  Tiles at [] = Unit {0}
  Tiles at (x ∷ xs) = (begin_of x ≡ at) × Tiles (at + count_of x) xs

  -- Where the last range ends.
  abbrev pub end_of : ℕ → List X → ℕ
  end_of at [] = at
  end_of at (x ∷ xs) = end_of (at + count_of x) xs

  pub end_of-sum : (at : ℕ) (xs : List X) → end_of at xs ≡ at + sum (map count_of xs)
  end_of-sum at [] = omega arith
  end_of-sum at (x ∷ xs) = omega (arith, end_of-sum (at + count_of x) xs)

module _ {A : Type 0} where
  drop-length : (table : List A) → drop (length table) table ≡ []
  drop-length [] = refl
  drop-length (x ∷ table) = drop-length table

  -- Ranges that tile a list cut it into parts that make it up again.
  pub Tiles-concat :
      {X : Type 0} (begin_of count_of : X → ℕ) (table : List A) (at : ℕ) (xs : List X)
      → Tiles begin_of count_of at xs
      → end_of begin_of count_of at xs ≡ length table
      → concat (map (λ x. take (count_of x) (drop (begin_of x) table)) xs) ≡ drop at table
  unfolding Tiles
  Tiles-concat begin_of count_of table at [] tiles ends = sym (rw ends (drop-length table))
  Tiles-concat begin_of count_of table at (x ∷ xs) (begins, tiles) ends = rw begins (
      rw (Tiles-concat begin_of count_of table (at + count_of x) xs tiles ends)
        (rw (← drop-sum at (count_of x) table) (take-append-drop (count_of x) (drop at table))))
