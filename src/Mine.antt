-- ===== src/Mine.antt =====
-- internal/model/mine.go: which cells of the world hold a mine, and how many stand around a cell.
-- The hash of the standard library and the floating-point numbers are parameters, `External`.
pub mod World
use go_lobby.Prelude.{
  ℕ, zero, suc, ◌+◌, ◌*◌, ◌%◌, List, [], ◌∷◌, ◌++◌, Bool, true, false, ◌||◌, ◌&&◌,
}
use go_lobby.Prelude.{Option, none, some, Result, ok, err, ◌>>=◌, ◌>>◌, refuse, ltb, if◌then◌else◌}
use go_lobby.Prelude.{nil_season, invalid_rate, cell_out_of_world, take, map, ◌==◌}
use go_lobby.Prelude.Int.{ℤ, pos, negsuc, ◌+ℤ◌, wrap64, int_eq}
use go_lobby.Prelude.Text.{Str, codes}
use go_lobby.Chunk.{ChunkId, normalize_chunk_cell, global_coord}
use go_lobby.Chunk.Numbers.{itoa}

-- A float64 is its bit pattern.
pub record External : Type 0 where
  pub le : ℕ → ℕ → Bool  -- a <= b
  pub mul : ℕ → ℕ → ℕ
  pub to_uint64 : ℕ → ℕ
  pub float_zero : ℕ
  pub float_one : ℕ
  pub float_max_uint64 : ℕ  -- float64(math.MaxUint64)
  pub hmac_sha256 : Str → Str → Str  -- of a key and a message

-- The columns that the game reads.
pub record MineSeason : Type 0 where
  pub id : ℕ
  pub code : Str
  pub seed : Str
  pub mine_rate : ℕ  -- float64
  pub algorithm_version : ℤ

-- `binary.BigEndian.Uint64` of the first eight bytes.
unfoldable pub big_endian : Str → ℕ → ℕ
big_endian [] acc = acc
big_endian (b ∷ s) acc = big_endian s (acc * 256 + b)

-- `fmt.Sprintf("%s|%d|%s|%d|%d|%d", …)`
unfoldable pub mine_message : MineSeason → Str → ℤ → ℤ → ℤ → Str
mine_message s region z gx gy =
    let bar : ℕ = b'|' in
    s.code
    ++ (bar
        ∷ (itoa s.algorithm_version
            ++ (bar ∷ (region ++ (bar ∷ (itoa z ++ (bar ∷ (itoa gx ++ (bar ∷ itoa gy)))))))))

-- The two nested loops over `dy` and `dx`, without the cell itself.
abbrev steps : List ℤ
steps = negsuc 0 ∷ pos 0 ∷ pos 1 ∷ []

unfoldable pub row_offsets : ℤ → List ℤ → List (ℤ × ℤ)
row_offsets dy [] = []
row_offsets dy (dx ∷ dxs) =
    let rest = row_offsets dy dxs in if dx == pos 0 && dy == pos 0 then rest else (dx, dy) ∷ rest

unfoldable pub offsets_from : List ℤ → List (ℤ × ℤ)
unfolding row_offsets
offsets_from [] = []
offsets_from (dy ∷ dys) = row_offsets dy steps ++ offsets_from dys

unfoldable pub offsets : List (ℤ × ℤ)
unfolding offsets_from
offsets = offsets_from steps

-- What one neighbour adds: one beyond the world is skipped, any other error ends the loop.
unfoldable pub count_mine : Result Bool → ℕ → Result ℕ
count_mine (ok true) count = ok (count + 1)
count_mine (ok false) count = ok count
count_mine (err cell_out_of_world) count = ok count
count_mine (err e) count = err e

module _ (ext : External) where
  abbrev pub invalid_mine_rate : ℕ → Bool
  invalid_mine_rate rate = ext.le rate ext.float_zero || ext.le ext.float_one rate

  -- The keyed hash of the message, compared with the share of the mines.
  unfoldable pub hash_below : MineSeason → Str → Bool
  unfolding big_endian
  hash_below s message =
      ltb (big_endian (take 8 (ext.hmac_sha256 s.seed message)) 0)
        (ext.to_uint64 (ext.mul s.mine_rate ext.float_max_uint64))

  unfoldable pub is_mine : Option MineSeason → ChunkId → ℤ → ℤ → Result Bool
  is_mine none id cell_x cell_y = err nil_season
  is_mine (some s) id cell_x cell_y = do
    n ← normalize_chunk_cell id cell_x cell_y
    refuse (invalid_mine_rate s.mine_rate) invalid_rate
    let global_x = global_coord n.0.x n.1
    let global_y = global_coord n.0.y n.2
    ok (hash_below s (mine_message s n.0.region n.0.z global_x global_y))

  unfoldable pub count_around : Option MineSeason → ChunkId → ℤ → ℤ → List (ℤ × ℤ) → ℕ → Result ℕ
  unfolding is_mine count_mine
  count_around season id x y [] count = ok count
  count_around season id x y ((dx, dy) ∷ os) count =
      count_mine (is_mine season id (wrap64 (x +ℤ dx)) (wrap64 (y +ℤ dy))) count
      >>= count_around season id x y os

  unfoldable pub adjacent_mine_count : Option MineSeason → ChunkId → ℤ → ℤ → Result ℕ
  unfolding count_around offsets
  adjacent_mine_count season id x y = count_around season id x y offsets 0
