-- ===== src/Summary/Window.antt =====
-- `VisibleChunkRange` of internal/model/chunk.go and the chunks in its window.
pub mod Cover
use go_lobby.Prelude.{ℕ, zero, suc, ◌+◌, ◌-◌, ◌*◌, List, [], ◌∷◌, ◌++◌, ◌||◌, Result, ok, err}
use go_lobby.Prelude.{if◌then◌else◌, leb, invalid_format}
use go_lobby.Prelude.Int.{ℤ, pos, negsuc}
use go_lobby.Chunk.{ChunkId, cn, chunk_grid_size}
use go_lobby.Summary.Views.{Floats, ChunkBounds}

pub record ChunkRange : Type 0 where
  pub min_x : ℕ
  pub min_y : ℕ
  pub max_x : ℕ
  pub max_y : ℕ

unfoldable pub clamp_chunk_coord : ℤ → ℕ → ℕ
clamp_chunk_coord (negsuc n) grid_size = 0
clamp_chunk_coord (pos n) grid_size = if leb grid_size n then grid_size - 1 else n

module _ (fl : Floats) where
  -- `int(math.Floor(v * float64(gridSize)))`, on the grid.
  coord_of : ℕ → ℕ → ℕ
  unfolding clamp_chunk_coord
  coord_of v grid_size =
      clamp_chunk_coord (fl.to_int (fl.floor (fl.multiply v (fl.of_int (pos grid_size))))) grid_size

  unfoldable pub range_on_grid : ChunkBounds → ℕ → Result ChunkRange
  unfolding coord_of
  range_on_grid b grid_size =
      if fl.less b.min_x fl.float_zero
        || fl.less b.min_y fl.float_zero
        || fl.less fl.float_one b.max_x
        || fl.less fl.float_one b.max_y
        || fl.at_least b.min_x b.max_x
        || fl.at_least b.min_y b.max_y
      then err invalid_format
      else ok (record {
        min_x = coord_of b.min_x grid_size;
        min_y = coord_of b.min_y grid_size;
        max_x = coord_of (fl.subtract b.max_x fl.epsilon) grid_size;
        max_y = coord_of (fl.subtract b.max_y fl.epsilon) grid_size;
      })

  unfoldable pub visible_chunk_range : ℤ → ChunkBounds → Result ChunkRange
  unfolding chunk_grid_size range_on_grid
  visible_chunk_range level bounds = elim (chunk_grid_size level) [
    | err e ↦ err e
    | ok grid_size ↦ range_on_grid bounds grid_size
  ]

-- The loops `for y := minY; y <= maxY; y++ { for x := minX; x <= maxX; x++ { … } }`.
window_row : ℤ → ℕ → ℕ → ℕ → List ChunkId
window_row level zero x y = []
window_row level (suc left) x y =
    record { region = cn; z = level; x = pos x; y = pos y } ∷ window_row level left (x + 1) y

window_rows : ℤ → ℕ → ℕ → ℕ → ℕ → List ChunkId
unfolding window_row
window_rows level zero wide x y = []
window_rows level (suc left) wide x y =
    window_row level wide x y ++ window_rows level left wide x (y + 1)

unfoldable pub window_ids : ℤ → ChunkRange → List ChunkId
unfolding window_rows
window_ids level r =
    window_rows level (r.max_y + 1 - r.min_y) (r.max_x + 1 - r.min_x) r.min_x r.min_y
