-- ===== src/Chunk.antt =====
-- internal/model/chunk.go: chunk identifiers, the grid of a level, the cells of a chunk; and
-- internal/model/mine_state.go: the cell coordinates that cross a chunk's border.
pub mod Numbers
pub mod Parse
pub mod Cells
use go_lobby.Prelude.{
  ℕ, Bool, ◌+◌, ◌-◌, ◌*◌, ◌/◌, ◌%◌, ◌^◌, List, [], ◌∷◌, ◌++◌, true, false, ◌||◌, not,
}
use go_lobby.Prelude.{Result, ok, err, ◌>>=◌, ◌>>◌, refuse, or_error, ◌==◌, if◌then◌else◌}
use go_lobby.Prelude.{level_out_of_range, cell_out_of_range, cell_out_of_world}
use go_lobby.Prelude.{invalid_format, empty_region, invalid_coord, negative_coord}
use go_lobby.Prelude.{unsupported_region, not_max_level, coord_out_of_range}
use go_lobby.Prelude.Int.{ℤ, pos, negsuc, pos_part, ◌+ℤ◌, ◌*ℤ◌, ltb_ℤ, leb_ℤ, wrap64, quo, rem}
use go_lobby.Prelude.Int.{int_eq}
use go_lobby.Prelude.Text.{Str, codes, str_eq}
use Numbers.{split, atoi, itoa}

abbrev pub chunk_size : ℕ
chunk_size = 128

abbrev pub chunk_min_level : ℕ
chunk_min_level = 0

abbrev pub chunk_max_level : ℕ
chunk_max_level = 6

abbrev pub cn : Str
cn = codes "cn"

pub record ChunkId : Type 0 where
  pub region : Str
  pub z : ℤ
  pub x : ℤ
  pub y : ℤ

unfoldable pub parse_chunk_coord : Str → Result ℤ
parse_chunk_coord raw = do
  value ← or_error (atoi raw) invalid_coord
  refuse (ltb_ℤ value (pos 0)) negative_coord
  ok value

-- The four parts that `strings.Split` has to give.
unfoldable pub parse_parts : List Str → Result ChunkId
unfolding parse_chunk_coord
parse_parts (region ∷ raw_z ∷ raw_x ∷ raw_y ∷ []) = do
  refuse (region == []) empty_region
  z ← parse_chunk_coord raw_z
  x ← parse_chunk_coord raw_x
  y ← parse_chunk_coord raw_y
  ok (record { region = region; z = z; x = x; y = y })
parse_parts _ = err invalid_format

unfoldable pub parse_chunk_id : Str → Result ChunkId
unfolding parse_parts
parse_chunk_id raw = parse_parts (split b':' raw)

-- `fmt.Sprintf("%s:%d:%d:%d", …)`
unfoldable pub chunk_id_string : ChunkId → Str
chunk_id_string id = id.region ++ (b':' ∷ (itoa id.z ++ (b':' ∷ (itoa id.x ++ (b':' ∷ itoa id.y)))))

unfoldable pub chunk_grid_size : ℤ → Result ℕ
chunk_grid_size (negsuc n) = err level_out_of_range
chunk_grid_size (pos n) = do
  refuse (ltb_ℤ (pos n) (pos chunk_min_level) || ltb_ℤ (pos chunk_max_level) (pos n))
      level_out_of_range
  ok (2 ^ n)

-- `x < 0 || x >= size || y < 0 || y >= size`
unfoldable pub off_grid : ℕ → ℤ → ℤ → Bool
off_grid size x y = ltb_ℤ x (pos 0) || leb_ℤ (pos size) x || ltb_ℤ y (pos 0) || leb_ℤ (pos size) y

-- Behind the check neither coordinate is negative, so their parts above 0 are they.
unfoldable pub chunk_cell_index : ℤ → ℤ → Result ℕ
chunk_cell_index x y = do
  refuse (off_grid chunk_size x y) cell_out_of_range
  ok (pos_part y * chunk_size + pos_part x)

-- `chunkID.X*ChunkSize + cellX`
unfoldable pub global_coord : ℤ → ℤ → ℤ
global_coord chunk cell = wrap64 (wrap64 (chunk *ℤ pos chunk_size) +ℤ cell)

unfoldable pub normalize_chunk_cell : ChunkId → ℤ → ℤ → Result (ChunkId × ℤ × ℤ)
unfolding chunk_grid_size
normalize_chunk_cell id cell_x cell_y = do
  grid_size ← chunk_grid_size id.z
  let global_x = global_coord id.x cell_x
  let global_y = global_coord id.y cell_y
  refuse (off_grid (grid_size * chunk_size) global_x global_y) cell_out_of_world
  ok (
    record id { x = quo global_x chunk_size; y = quo global_y chunk_size },
    rem global_x chunk_size,
    rem global_y chunk_size,
  )

unfoldable pub ensure_playable_chunk : ChunkId → Result (Unit {0})
unfolding chunk_grid_size
ensure_playable_chunk id = do
  refuse (not (id.region == cn)) unsupported_region
  refuse (not (id.z == pos chunk_max_level)) not_max_level
  grid_size ← chunk_grid_size id.z
  refuse (off_grid grid_size id.x id.y) coord_out_of_range
  ok tt
