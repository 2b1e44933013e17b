-- ===== src/Chunk/Cells.antt =====
-- `ChunkCellIndex`, `ChunkGridSize` and `EnsurePlayableChunk` of internal/model, and
-- `NormalizeChunkCell`, by which a cell beyond a border is a cell of the next chunk.
use go_lobby.Prelude.{ℕ, ◌+◌, ◌*◌, ◌/◌, ◌%◌, ◌<◌, ◌≡◌, refl, arith}
use go_lobby.Prelude.{
  ◌↔◌, refuse, ◌>>◌, ok, err, cell_out_of_range, cell_out_of_world, true, false, ap, ◌∙◌,
}
use go_lobby.Prelude.Text.{str_beq_iff}
use go_lobby.Prelude.Int.{
  eqb_ℤ_iff, quo, rem, ℤ, pos, negsuc, pos_part, neg_part, ◌+ℤ◌, ◌*ℤ◌, wrap64,
}
use go_lobby.Chunk.{ChunkId, cn, chunk_size, chunk_cell_index, chunk_grid_size, global_coord}
use go_lobby.Chunk.{normalize_chunk_cell, ensure_playable_chunk, off_grid}

-- Where a number lies in a grid of `size` columns and rows.
abbrev pub Inside : ℕ → ℤ → ℤ → Type 0
Inside size (pos x) (pos y) = (x < size) × (y < size)
Inside size _ _ = ⊥

pub off_grid-Inside' : (size : ℕ) (x y : ℤ) → Inside size x y → off_grid size x y ≡ false
unfolding off_grid
off_grid-Inside' size (pos x) (pos y) h = ground arith
off_grid-Inside' size (pos x) (negsuc y) h = absurd h
off_grid-Inside' size (negsuc x) y h = absurd h

pub off_grid_outside : (size : ℕ) (x y : ℤ) → ¬ Inside size x y → off_grid size x y ≡ true
unfolding off_grid
off_grid_outside size (pos x) (pos y) h = ground arith
off_grid_outside size (pos x) (negsuc y) h = ground arith
off_grid_outside size (negsuc x) y h = ground arith

pub off_grid-Inside : (size : ℕ) (x y : ℤ) → off_grid size x y ≡ false → Inside size x y
unfolding off_grid
off_grid-Inside size (pos x) (pos y) h = ground arith
off_grid-Inside size (pos x) (negsuc y) h = ground arith
off_grid-Inside size (negsuc x) y h = ground arith

grid_size_leaf : chunk_grid_size (pos 6) ≡ ok 64
unfolding chunk_grid_size
grid_size_leaf = refl

-- A cell of a chunk has an index below 128 * 128, from which its coordinates are read back
-- (`index % 128`, `index / 128`); a cell outside has none.
pub chunk_cell_index_lem :
    (x y : ℤ)
    → (Inside chunk_size x y
        → (i : ℕ) × (chunk_cell_index x y ≡ ok i)
          × (i < chunk_size * chunk_size)
          × (x ≡ pos (i % chunk_size))
          × (y ≡ pos (i / chunk_size)))
      × (¬ Inside chunk_size x y → chunk_cell_index x y ≡ err cell_out_of_range)
unfolding chunk_cell_index off_grid
chunk_cell_index_lem (pos x) (pos y) = (
  λ h. (y * chunk_size + x, ground arith, omega arith, ground arith, ground arith),
  λ h. ground arith,
)
chunk_cell_index_lem (pos x) (negsuc y) = (λ h. absurd h, λ h. ground arith)
chunk_cell_index_lem (negsuc x) y = (λ h. absurd h, λ h. ground arith)

pub record IsPlayable (id : ChunkId) : Type 0 where
  pub in_cn : id.region ≡ cn
  pub at_leaf : id.z ≡ pos 6
  pub on_grid : Inside 64 id.x id.y

playable : (id : ChunkId) → ensure_playable_chunk id ≡ ok tt → IsPlayable id
unfolding ensure_playable_chunk
playable id e = record {
  in_cn = ground (arith, str_beq_iff id.region cn);
  at_leaf = leaf;
  on_grid = off_grid-Inside 64 id.x id.y (ground (arith, grid));
}
  where
    leaf : id.z ≡ pos 6
    leaf = ground (arith, eqb_ℤ_iff id.z (pos 6))

    grid : chunk_grid_size id.z ≡ ok 64
    grid = ap chunk_grid_size leaf ∙ grid_size_leaf

-- `EnsurePlayableChunk` accepts the chunks of region "cn" at level 6 on the grid of 64 by 64.
pub ensure_playable_chunk_iff : (id : ChunkId) → (ensure_playable_chunk id ≡ ok tt) ↔ IsPlayable id
unfolding ensure_playable_chunk
ensure_playable_chunk_iff id = (
  λ e. playable id e,
  λ p. rw (
    (str_beq_iff id.region cn).1 p.in_cn,
    (eqb_ℤ_iff id.z (pos 6)).1 p.at_leaf,
    p.at_leaf,
    off_grid-Inside' 64 id.x id.y p.on_grid,
  ),
)

-- The cell coordinates that the code computes with: within 2 ^ 62 of 0.
abbrev pub IsNear : ℤ → Type 0
IsNear c = (pos_part c < 4611686018427387904) × (neg_part c < 4611686018427387904)

-- No chunk of the grid and cell near it wraps around.
global_coord_exact :
    (a : ℕ) (cell : ℤ)
    → a < 64
    → IsNear cell
    → global_coord (pos a) cell ≡ pos a *ℤ pos chunk_size +ℤ cell
unfolding global_coord wrap64 ◌+ℤ◌ ◌*ℤ◌
global_coord_exact a (pos c) h n = ground arith
global_coord_exact a (negsuc c) h n = ground arith

-- The world of the leaf level has 64 * 128 cells each way.
abbrev pub world_size : ℕ
world_size = 8192

-- The place of a cell in the whole world.
unfoldable pub place : ℤ → ℤ → ℤ
place chunk cell = chunk *ℤ pos chunk_size +ℤ cell

global_coord-eq-place :
    {c : ℤ} {a : ℕ} (cell : ℤ)
    → c ≡ pos a
    → a < 64
    → IsNear cell
    → global_coord c cell ≡ place c cell
unfolding place
global_coord-eq-place cell e h n = rw e (global_coord_exact _ cell h n)

pub Inside-inv :
    (size : ℕ) (x y : ℤ)
    → Inside size x y
    → (a : ℕ) × (b : ℕ) × (x ≡ pos a) × (y ≡ pos b) × (a < size) × (b < size)
Inside-inv size (pos a) (pos b) h = (a, b, refl, refl, h.0, h.1)
Inside-inv size (pos a) (negsuc b) h = absurd h
Inside-inv size (negsuc a) y h = absurd h

-- A cell of a playable chunk is at its place, and nothing wraps around.
pub global_coord-Inside :
    (id : ChunkId) (x y : ℤ)
    → IsPlayable id
    → Inside chunk_size x y
    → (global_coord id.x x ≡ place id.x x) × (global_coord id.y y ≡ place id.y y)
global_coord-Inside id x y p h =
    let (a, b, ex, ey, ha, hb) = Inside-inv 64 id.x id.y p.on_grid in
    let (c, d, fx, fy, hc, hd) = Inside-inv chunk_size x y h in
    (
      global_coord-eq-place x ex ha (rw fx (omega arith)),
      global_coord-eq-place y ey hb (rw fy (omega arith)),
    )

pub place_pos : (a c : ℕ) → place (pos a) (pos c) ≡ pos (a * chunk_size + c)
unfolding place ◌+ℤ◌ ◌*ℤ◌
place_pos a c = ground arith

pub place-Inside :
    (id : ChunkId) (x y : ℤ)
    → IsPlayable id
    → Inside chunk_size x y
    → Inside world_size (place id.x x) (place id.y y)
place-Inside id x y p h =
    let (a, b, ex, ey, ha, hb) = Inside-inv 64 id.x id.y p.on_grid in
    let (c, d, fx, fy, hc, hd) = Inside-inv chunk_size x y h in
    rw (ex, fx, ey, fy, place_pos, place_pos) (omega arith, omega arith)

split_place :
    (gx gy : ℤ)
    → Inside world_size gx gy
    → Inside 64 (quo gx chunk_size) (quo gy chunk_size)
      × Inside chunk_size (rem gx chunk_size) (rem gy chunk_size)
      × (place (quo gx chunk_size) (rem gx chunk_size) ≡ gx)
      × (place (quo gy chunk_size) (rem gy chunk_size) ≡ gy)
unfolding place ◌+ℤ◌ ◌*ℤ◌
split_place (pos a) (pos b) h = (omega arith, omega arith, ground arith, ground arith)
split_place (pos a) (negsuc b) h = absurd h
split_place (negsuc a) y h = absurd h

-- What `NormalizeChunkCell` computes for a playable chunk.
normalize_exact :
    (id : ChunkId) (x y : ℤ)
    → IsPlayable id
    → IsNear x
    → IsNear y
    → let gx = place id.x x in
      let gy = place id.y y in
      normalize_chunk_cell id x y ≡ (
        refuse (off_grid world_size gx gy) cell_out_of_world
        >> ok (
          record id { x = quo gx chunk_size; y = quo gy chunk_size },
          rem gx chunk_size,
          rem gy chunk_size,
        ))
unfolding normalize_chunk_cell
normalize_exact id x y p nx ny =
    let (a, b, ex, ey, ha, hb) = Inside-inv 64 id.x id.y p.on_grid in
    rw (
      ap chunk_grid_size p.at_leaf,
      global_coord-eq-place x ex ha nx,
      global_coord-eq-place y ey hb ny,
    )

-- For a playable chunk, and cell coordinates that need not lie in it, `NormalizeChunkCell` gives the playable
-- chunk and the cell in that chunk at the same place of the world; it refuses exactly what lies
-- outside the world.
pub normalize_chunk_cell_lem :
    (id : ChunkId) (x y : ℤ)
    → IsPlayable id
    → IsNear x
    → IsNear y
    → (Inside world_size (place id.x x) (place id.y y)
        → (n : ChunkId × ℤ × ℤ) × (normalize_chunk_cell id x y ≡ ok n)
          × IsPlayable n.0
          × Inside chunk_size n.1 n.2
          × (place n.0.x n.1 ≡ place id.x x)
          × (place n.0.y n.2 ≡ place id.y y))
      × (¬ Inside world_size (place id.x x) (place id.y y)
          → normalize_chunk_cell id x y ≡ err cell_out_of_world)
normalize_chunk_cell_lem id x y p nx ny = (
  λ h.
      let (on_grid, in_chunk, ex, ey) = split_place _ _ h in
      (
        _,
        normalize_exact id x y p nx ny ∙ rw (off_grid-Inside' _ _ _ h),
        record { in_cn = p.in_cn; at_leaf = p.at_leaf; on_grid = on_grid },
        in_chunk,
        ex,
        ey,
      ),
  λ h. normalize_exact id x y p nx ny ∙ rw (off_grid_outside _ _ _ h),
)
