-- ===== src/Summary/Window/Cover.antt =====
-- What the loops over a window of the grid walk through.
use go_lobby.Prelude.{
  nat_eq, ℕ, zero, suc, ◌+◌, ◌-◌, ◌*◌, ◌≤◌, ◌<◌, List, [], ◌∷◌, ◌++◌, false, ◌&&◌, if◌then◌else◌,
}
use go_lobby.Prelude.{
  ◌==◌, ltb, leb, eqb, length, length-append, All, All-append, ◌≡◌, refl, arith, Result, ok, err,
}
use native.Mathlib.Nat.{one-le-pow}
use go_lobby.Prelude.Int.{ℤ, pos, negsuc, int_eq}
use go_lobby.Chunk.{ChunkId, cn, chunk_grid_size, off_grid}
use go_lobby.Summary.Views.{Floats, ChunkBounds}
use go_lobby.Summary.Window.{
  ChunkRange, clamp_chunk_coord, coord_of, range_on_grid, visible_chunk_range, window_row,
  window_rows, window_ids,
}

-- A chunk of the region on the grid of a level.
pub record OnGrid (level : ℤ) (size : ℕ) (id : ChunkId) : Type 0 where
  pub region_cn : id.region ≡ cn
  pub of_level : id.z ≡ level
  pub column : ℕ
  pub row : ℕ
  pub at_column : id.x ≡ pos column
  pub at_row : id.y ≡ pos row
  pub column_fits : column < size
  pub row_fits : row < size

pub OnGrid-off_grid :
    (level : ℤ) (size : ℕ) (id : ChunkId) → OnGrid level size id → off_grid size id.x id.y ≡ false
unfolding off_grid
OnGrid-off_grid level size id g = rw (g.at_column, g.at_row) go
  where
    fits : g.column < size × g.row < size
    fits = (g.column_fits, g.row_fits)

    go : off_grid size (pos g.column) (pos g.row) ≡ false
    go = ground (arith, g.column_fits, g.row_fits)

-- The number of chunks of a list at a place.
unfoldable pub count_at : ℕ → ℕ → List ChunkId → ℕ
count_at x y [] = 0
count_at x y (id ∷ ids) = (if id.x == pos x && id.y == pos y then 1 else 0) + count_at x y ids

count_at-append :
    (x y : ℕ) (ids more : List ChunkId)
    → count_at x y (ids ++ more) ≡ count_at x y ids + count_at x y more
unfolding count_at
count_at-append x y [] more = omega arith
count_at-append x y (id ∷ ids) more = omega (arith, count_at-append x y ids more)

-- A window on a grid.
abbrev pub IsWithin : ℕ → ChunkRange → Type 0
IsWithin size r = (r.min_x < size) × (r.min_y < size) × (r.max_x < size) × (r.max_y < size)

module _ (level : ℤ) where
  count_at-window_row :
      (x y left from at : ℕ)
      → count_at x y (window_row level left from at)
        ≡ (if eqb at y && leb from x && ltb x (from + left) then 1 else 0)
  unfolding count_at window_row
  count_at-window_row x y zero from at = ground arith
  count_at-window_row x y (suc left) from at =
      ground (arith, count_at-window_row x y left (from + 1) at)

  count_at-window_rows :
      (x y left wide from at : ℕ)
      → count_at x y (window_rows level left wide from at)
        ≡ (if leb at y && ltb y (at + left) && leb from x && ltb x (from + wide) then 1 else 0)
  unfolding count_at window_rows
  count_at-window_rows x y zero wide from at = ground arith
  count_at-window_rows x y (suc left) wide from at = ground (
    arith,
    count_at-append x y (window_row level wide from at) (window_rows level left wide from (at + 1)),
    count_at-window_row x y wide from at,
    count_at-window_rows x y left wide from (at + 1),
  )

  length-window_row : (left from at : ℕ) → length (window_row level left from at) ≡ left
  unfolding window_row
  length-window_row zero from at = refl
  length-window_row (suc left) from at = omega (arith, length-window_row left (from + 1) at)

  length-window_rows :
      (left wide from at : ℕ) → length (window_rows level left wide from at) ≡ left * wide
  unfolding window_rows
  length-window_rows zero wide from at = omega arith
  length-window_rows (suc left) wide from at = grind (
    arith,
    length-append (window_row level wide from at) (window_rows level left wide from (at + 1)),
    length-window_row wide from at,
    length-window_rows left wide from (at + 1),
  )

  pub length-window_ids :
      (r : ChunkRange)
      → length (window_ids level r) ≡ (r.max_y + 1 - r.min_y) * (r.max_x + 1 - r.min_x)
  unfolding window_ids
  length-window_ids r =
      length-window_rows (r.max_y + 1 - r.min_y) (r.max_x + 1 - r.min_x) r.min_x r.min_y

  module _ (size : ℕ) where
    window_row-OnGrid :
        (left from at : ℕ)
        → from + left ≤ size
        → at < size
        → All (OnGrid level size) (window_row level left from at)
    unfolding window_row
    window_row-OnGrid zero from at wide high = tt
    window_row-OnGrid (suc left) from at wide high = (
      record {
        region_cn = refl;
        of_level = refl;
        column = from;
        row = at;
        at_column = refl;
        at_row = refl;
        column_fits = omega arith;
        row_fits = high;
      },
      window_row-OnGrid left (from + 1) at (omega arith) high,
    )

    window_rows-OnGrid :
        (left wide from at : ℕ)
        → from + wide ≤ size
        → at + left ≤ size
        → All (OnGrid level size) (window_rows level left wide from at)
    unfolding window_rows
    window_rows-OnGrid zero wide from at w h = tt
    window_rows-OnGrid (suc left) wide from at w h =
        All-append (OnGrid level size) (window_row level wide from at)
          (window_rows level left wide from (at + 1))
          (window_row-OnGrid wide from at w (omega arith))
          (window_rows-OnGrid left wide from (at + 1) w (omega arith))

    pub window_ids-OnGrid :
        (r : ChunkRange) → IsWithin size r → All (OnGrid level size) (window_ids level r)
    unfolding window_ids
    window_ids-OnGrid r w =
        window_rows-OnGrid (r.max_y + 1 - r.min_y) (r.max_x + 1 - r.min_x) r.min_x r.min_y
          (omega arith) (omega arith)

    pub count_at-window_ids :
        (x y : ℕ) (r : ChunkRange)
        → IsWithin size r
        → count_at x y (window_ids level r)
          ≡ (if leb r.min_x x && leb x r.max_x && leb r.min_y y && leb y r.max_y then 1 else 0)
    unfolding window_ids
    count_at-window_ids x y r w = ground (
      arith,
      count_at-window_rows x y (r.max_y + 1 - r.min_y) (r.max_x + 1 - r.min_x) r.min_x r.min_y,
    )

chunk_grid_size_pos : (level : ℤ) {size : ℕ} → chunk_grid_size level ≡ ok size → 0 < size
unfolding chunk_grid_size
chunk_grid_size_pos (negsuc n) e = cc
chunk_grid_size_pos (pos n) e = ground (arith, e, one-le-pow n 2 (omega arith))

clamp-lt : (v : ℤ) (size : ℕ) → 0 < size → clamp_chunk_coord v size < size
unfolding clamp_chunk_coord
clamp-lt v size h = ground arith

range-IsWithin :
    (fl : Floats) (level : ℤ) (b : ChunkBounds) (size : ℕ) {r : ChunkRange}
    → 0 < size
    → range_on_grid fl b size ≡ ok r
    → IsWithin size r
unfolding range_on_grid coord_of
range-IsWithin fl level b size h e = grind (arith, clamp-lt, e)

-- A window that `VisibleChunkRange` answers lies on the grid of its level.
pub visible_chunk_range-IsWithin :
    (fl : Floats) (level : ℤ) (b : ChunkBounds) {r : ChunkRange}
    → visible_chunk_range fl level b ≡ ok r
    → (size : ℕ) × (chunk_grid_size level ≡ ok size) × IsWithin size r
unfolding visible_chunk_range
visible_chunk_range-IsWithin fl level b {r} e = go (chunk_grid_size level) refl
  where
    go :
        (grid : Result ℕ)
        → chunk_grid_size level ≡ grid
        → (size : ℕ) × (chunk_grid_size level ≡ ok size) × IsWithin size r
    go (err x) sized = absurd (ground (arith, e, sized))
    go (ok size) sized = (
      size,
      sized,
      range-IsWithin fl level b size (chunk_grid_size_pos level sized) (ground (arith, e, sized)),
    )
