-- ===== src/Mine/World.antt =====
-- The mines as a fixed set of places of the world, whatever chunk they are asked for from.
use go_lobby.Prelude.{ℕ, ◌+◌, ◌<◌, ◌≡◌, refl, ◌∙◌, List, [], ◌∷◌, Bool, true, false, not}
use go_lobby.Prelude.{◌&&◌, some, ok, err, cell_out_of_world, Bool-cases, inl, inr, arith, ◌⊎◌}
use go_lobby.Prelude.{if◌then◌else◌}
use go_lobby.Prelude.Int.{ℤ, pos, negsuc, ◌+ℤ◌, ◌*ℤ◌, wrap64}
use go_lobby.Chunk.{ChunkId, cn, chunk_size, off_grid}
use go_lobby.Chunk.Cells.{Inside, IsPlayable, IsNear, place, world_size, normalize_chunk_cell_lem}
use go_lobby.Chunk.Cells.{
  global_coord-Inside, place-Inside, Inside-inv, off_grid-Inside', off_grid-Inside,
}
use go_lobby.Mine.{External, MineSeason, hash_below, mine_message, invalid_mine_rate, is_mine}
use go_lobby.Mine.{count_mine, count_around, offsets, adjacent_mine_count}

module _ (ext : External) (s : MineSeason) where
  -- Whether a place of the world holds a mine in this season.
  pub mine_at : ℤ → ℤ → Bool
  mine_at gx gy = hash_below ext s (mine_message s cn (pos 6) gx gy)

  -- Beyond the world there is none.
  pub world_mine : ℤ → ℤ → Bool
  world_mine gx gy = not (off_grid world_size gx gy) && mine_at gx gy

module _ (ext : External) (s : MineSeason) (valid : invalid_mine_rate ext s.mine_rate ≡ false)
    (id : ChunkId) (p : IsPlayable id) where
  -- From any playable chunk the same place of the world has the same answer, and a place beyond
  -- the world is refused.
  pub is_mine-eq-mine_at :
      (x y : ℤ)
      → IsNear x
      → IsNear y
      → (Inside world_size (place id.x x) (place id.y y)
          → is_mine ext (some s) id x y ≡ ok (mine_at ext s (place id.x x) (place id.y y)))
        × (¬ Inside world_size (place id.x x) (place id.y y)
            → is_mine ext (some s) id x y ≡ err cell_out_of_world)
  unfolding is_mine mine_at
  is_mine-eq-mine_at x y nx ny =
      let (inside, outside) = normalize_chunk_cell_lem id x y p nx ny in
      (
        λ h.
            let (n, e, q, i, ex, ey) = inside h in
            let (gx, gy) = global_coord-Inside n.0 n.1 n.2 q i in
            rw (e, valid, gx, gy, q.in_cn, q.at_leaf, ex, ey),
        λ h. rw (outside h),
      )

-- The eight places around one.
unfoldable pub around : ℤ → ℤ → List (ℤ × ℤ)
around gx gy =
    let west = gx +ℤ negsuc 0 in
    let east = gx +ℤ pos 1 in
    let north = gy +ℤ negsuc 0 in
    let south = gy +ℤ pos 1 in
    (west, north)
    ∷ (gx, north)
    ∷ (east, north)
    ∷ (west, gy)
    ∷ (east, gy)
    ∷ (west, south)
    ∷ (gx, south)
    ∷ (east, south)
    ∷ []

-- How many of the places hold a mine.
pub mines_of : External → MineSeason → List (ℤ × ℤ) → ℕ
mines_of ext s [] = 0
mines_of ext s ((gx, gy) ∷ ps) = (if world_mine ext s gx gy then 1 else 0) + mines_of ext s ps

unfoldable pub IsStep : ℤ → Type 0
IsStep d = (d ≡ negsuc 0) ⊎ (d ≡ pos 0) ⊎ (d ≡ pos 1)

-- A step from a cell of a chunk stays near the chunk.
pub step-IsNear :
    {chunk cell : ℤ} {a c : ℕ} (d : ℤ)
    → chunk ≡ pos a
    → cell ≡ pos c
    → a < 64
    → c < 128
    → IsStep d
    → (wrap64 (cell +ℤ d) ≡ cell +ℤ d)
      × IsNear (cell +ℤ d)
      × (place chunk (cell +ℤ d) ≡ place chunk cell +ℤ d)
unfolding IsStep wrap64 place ◌+ℤ◌ ◌*ℤ◌
step-IsNear d ea ec ha hc (inl e) =
    rw (ea, ec, e) (ground arith, (ground arith, ground arith), ground arith)
step-IsNear d ea ec ha hc (inr (inl e)) =
    rw (ea, ec, e) (ground arith, (ground arith, ground arith), ground arith)
step-IsNear d ea ec ha hc (inr (inr e)) =
    rw (ea, ec, e) (ground arith, (ground arith, ground arith), ground arith)

off_grid_disjoint : (size : ℕ) (gx gy : ℤ) → Inside size gx gy → off_grid size gx gy ≡ true → ⊥
off_grid_disjoint size gx gy i out = cc (off_grid-Inside' size gx gy i)

bit_world_mine : External → MineSeason → ℤ → ℤ → ℕ
bit_world_mine ext s gx gy = if world_mine ext s gx gy then 1 else 0

abbrev shift : ℤ → ℤ → List (ℤ × ℤ) → List (ℤ × ℤ)
shift gx gy [] = []
shift gx gy ((dx, dy) ∷ os) = (gx +ℤ dx, gy +ℤ dy) ∷ shift gx gy os

abbrev AreSteps : List (ℤ × ℤ) → Type 0
AreSteps [] = Unit {0}
AreSteps ((dx, dy) ∷ os) = IsStep dx × IsStep dy × AreSteps os

offsets-AreSteps : AreSteps offsets
unfolding offsets IsStep
offsets-AreSteps = (
  west,
  west,
  (
    here,
    west,
    (east, west, (west, here, (east, here, (west, east, (here, east, (east, east, tt)))))),
  ),
)
  where
    west : IsStep (negsuc 0)
    west = inl refl

    here : IsStep (pos 0)
    here = inr (inl refl)

    east : IsStep (pos 1)
    east = inr (inr refl)

pub +ℤ-zero : (g : ℤ) → g +ℤ pos 0 ≡ g
unfolding ◌+ℤ◌
+ℤ-zero g = ground arith

shift-offsets : (gx gy : ℤ) → shift gx gy offsets ≡ around gx gy
unfolding offsets around
shift-offsets gx gy = rw (+ℤ-zero gx, +ℤ-zero gy)

module _ (ext : External) (s : MineSeason) (valid : invalid_mine_rate ext s.mine_rate ≡ false)
    (id : ChunkId) (p : IsPlayable id) (x y : ℤ) (h : Inside chunk_size x y) where
  count_one :
      (dx dy : ℤ) (n : ℕ)
      → IsStep dx
      → IsStep dy
      → count_mine (is_mine ext (some s) id (wrap64 (x +ℤ dx)) (wrap64 (y +ℤ dy))) n
        ≡ ok (n + bit_world_mine ext s (place id.x x +ℤ dx) (place id.y y +ℤ dy))
  unfolding count_mine bit_world_mine world_mine
  count_one dx dy n sx sy =
      let (a, b, ea, eb, ha, hb) = Inside-inv 64 id.x id.y p.on_grid in
      let (c, d, ec, ed, hc, hd) = Inside-inv chunk_size x y h in
      let (wx, nx, px) = step-IsNear dx ea ec ha hc sx in
      let (wy, ny, py) = step-IsNear dy eb ed hb hd sy in
      let (inside, outside) = is_mine-eq-mine_at ext s valid id p (x +ℤ dx) (y +ℤ dy) nx ny in
      elim (Bool-cases (off_grid world_size (place id.x (x +ℤ dx)) (place id.y (y +ℤ dy)))) [
        | inl out ↦
            rw (wx, wy, outside (λ i. off_grid_disjoint _ _ _ i out), ← px, ← py, out)
              (ground arith)
        | inr within ↦
            rw (wx, wy, inside (off_grid-Inside _ _ _ within), ← px, ← py, within) (ground arith)
      ]

  count_around_lem :
      (os : List (ℤ × ℤ)) (n : ℕ)
      → AreSteps os
      → count_around ext (some s) id x y os n
        ≡ ok (n + mines_of ext s (shift (place id.x x) (place id.y y) os))
  unfolding count_around mines_of
  count_around_lem [] n a = ground arith
  count_around_lem ((dx, dy) ∷ os) n (sx, sy, rest) =
      rw (count_one dx dy n sx sy)
        (count_around_lem os _ rest ∙ unfold bit_world_mine in ground arith)

  -- In a playable chunk the count of a cell is the number of mines among the eight places around
  -- it, those in the neighbouring chunks included and those beyond the world left out.
  pub adjacent_mine_count_lem :
      adjacent_mine_count ext (some s) id x y
      ≡ ok (mines_of ext s (around (place id.x x) (place id.y y)))
  unfolding adjacent_mine_count
  adjacent_mine_count_lem =
      count_around_lem offsets 0 offsets-AreSteps
      ∙ rw (shift-offsets (place id.x x) (place id.y y)) (ground arith)

  -- A cell of the chunk is answered, and has at most eight mines around it.
  pub is_mine_inside :
      is_mine ext (some s) id x y ≡ ok (mine_at ext s (place id.x x) (place id.y y))
  is_mine_inside =
      let (c, d, ec, ed, hc, hd) = Inside-inv chunk_size x y h in
      (is_mine-eq-mine_at ext s valid id p x y (rw ec (omega arith)) (rw ed (omega arith))).0
        (place-Inside id x y p h)
