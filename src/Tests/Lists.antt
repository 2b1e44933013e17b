-- ===== src/Tests/Lists.antt =====
-- Lists of chunks.
use go_lobby.Prelude.{
  nat_eq, ℕ, ◌-◌, ◌*◌, ◌/◌, List, [], ◌∷◌, map, true, false, ◌||◌, Option, none, some, ok, err,
  panic, if◌then◌else◌,
}
use go_lobby.Prelude.{◌==◌, ltb, leb, All, ◌≡◌, refl, arith}
use go_lobby.Prelude.Int.{pos, negsuc, pos_part, int_eq, ◌*ℤ◌}
use go_lobby.Prelude.Text.{Str, codes, str_eq}
use go_lobby.Prelude.Effect.{M}
use go_lobby.Chunk.{cn, chunk_grid_size}
use go_lobby.ChunkState.{MineChunkState, new_mine_chunk_state}
use go_lobby.ChunkService.{ChunkService}
use go_lobby.ChunkService.Reopen.{reopening}
use go_lobby.Mine.{MineSeason}
use go_lobby.MineMatch.States.{MineChunkStateStore}
use go_lobby.Summary.{get_chunk_summary}
use go_lobby.Summary.Views.{Floats, ChunkBounds, ChunkSummary}
use go_lobby.Summary.Window.{ChunkRange, visible_chunk_range, range_on_grid, clamp_chunk_coord}
use go_lobby.Summary.Listing.{list_chunks, is_negative_capacity, stored_for}
use go_lobby.Summary.Listing.Places.{id_of, IsWindow, list_chunks-IsWindow}
use go_lobby.Summary.Listing.Single.{IsQuiet, list_chunks-get_chunk_summary}

-- Billionths in place of floats.
abbrev billionths : Floats
billionths = record {
  of_int = λ v. pos_part v * 1000000000;
  divide = λ a b. a * 1000000000 / b;
  multiply = λ a b. a * b / 1000000000;
  float_zero = 0;
  float_one = 1000000000;
  epsilon = 1;
  less = ltb;
  at_least = λ a b. leb b a;
  subtract = λ a b. a - b;
  floor = λ a. a / 1000000000 * 1000000000;
  to_int = λ a. pos (a / 1000000000);
}

abbrev box : ChunkBounds
box = record { min_x = 150000000; min_y = 310000000; max_x = 180000000; max_y = 340000000 }

abbrev window : ChunkRange
window = record { min_x = 9; min_y = 19; max_x = 11; max_y = 21 }

box-window : visible_chunk_range billionths (pos 6) box ≡ ok window
unfolding visible_chunk_range range_on_grid chunk_grid_size clamp_chunk_coord
box-window = refl

window_capacity : is_negative_capacity window ≡ false
unfolding is_negative_capacity ◌*ℤ◌
window_capacity = refl

crossed_capacity :
    is_negative_capacity (record { min_x = 32; min_y = 0; max_x = 0; max_y = 3 }) ≡ true
unfolding is_negative_capacity ◌*ℤ◌
crossed_capacity = refl

-- The leaf 9, 19 has a state.
abbrev leaf_key : Str
leaf_key = codes "cn:6:9:19"

abbrev season_one : MineSeason
season_one = record {
  id = 1;
  code = codes "s1";
  seed = codes "seed";
  mine_rate = 150;
  algorithm_version = pos 1;
}

abbrev states : Str → Option MineChunkState
states k = if k == leaf_key then some (new_mine_chunk_state 1 leaf_key) else none

abbrev store : MineChunkStateStore ℕ
store = record {
  get_state = λ season_id k w. (ok (states k), w);
  save_state = λ state w. (ok tt, w);
  list_closed_leaf_chunk_ids = λ season_id w. (ok (codes "cn:6:10:20" ∷ []), w);
}

abbrev reader : M ℕ (Option MineSeason)
reader w = (ok (some season_one), w)

abbrev service : ChunkService ℕ
service = record {
  season_reader = some reader;
  state_store = some store;
  mine_match_service = none;
  closure_duration = 300;
  now = λ w. (ok w, w);
}

settled :
    (k : Str) (state : MineChunkState)
    → states k ≡ some state
    → (reopening 300 7 state).changed ≡ false
unfolding reopening new_mine_chunk_state
settled k state e = ground (arith, e)

quiet : IsQuiet service store 1 7
quiet = record { state_of = states; time = 7; found = λ k. refl; clock = refl; settled = settled }

list_chunks-get_chunk_summary_example :
    (chunks : List ChunkSummary) × (list_chunks billionths service (pos 6) box 7
      ≡ (ok (record { region = cn; level = pos 6; bbox = box; chunks = chunks }), 7))
    × All (λ c. get_chunk_summary billionths service c.chunk_id 7 ≡ (ok c, 7)) chunks
list_chunks-get_chunk_summary_example =
    list_chunks-get_chunk_summary billionths service store season_one reader
      (codes "cn:6:10:20" ∷ []) 7 refl refl refl refl quiet (pos 6) box window box-window
      window_capacity

abbrev demo : ChunkService ℕ
demo = record service { season_reader = none; state_store = none }

nothing_stored : stored_for billionths demo (pos 6) window 7 ≡ (ok none, 7)
unfolding stored_for
nothing_stored = refl

list_chunks-IsWindow_example :
    (if is_negative_capacity window
      then list_chunks billionths demo (pos 6) box 7 ≡ (err panic, 7)
      else ((size : ℕ) × (chunks : List ChunkSummary) × (chunk_grid_size (pos 6) ≡ ok size)
          × (list_chunks billionths demo (pos 6) box 7
              ≡ (ok (record { region = cn; level = pos 6; bbox = box; chunks = chunks }), 7))
          × IsWindow (pos 6) size window (map id_of chunks)))
list_chunks-IsWindow_example =
    list_chunks-IsWindow billionths demo (pos 6) box window 7 7 box-window nothing_stored

-- The text NaN is read as a number that no comparison holds for, and its conversion is the least int.
abbrev nan : ℕ
nan = 1000000000000000000000

abbrev with_nan : Floats
with_nan = record billionths {
  multiply = λ a b. if a == nan then nan else a * b / 1000000000;
  less = λ a b. if a == nan || b == nan then false else ltb a b;
  at_least = λ a b. if a == nan || b == nan then false else leb b a;
  subtract = λ a b. if a == nan then nan else a - b;
  floor = λ a. if a == nan then nan else a / 1000000000 * 1000000000;
  to_int = λ a. if a == nan then negsuc 9223372036854775807 else pos (a / 1000000000);
}

half_to_nan :
    list_chunks with_nan demo
      (pos 6)
      (record { min_x = 500000000; min_y = 0; max_x = nan; max_y = 50000000 })
      7
    ≡ (err panic, 7)
unfolding list_chunks visible_chunk_range range_on_grid chunk_grid_size clamp_chunk_coord
    is_negative_capacity stored_for ◌*ℤ◌
half_to_nan = refl
