-- ===== src/ChunkState.antt =====
-- The state of a chunk: internal/model/mine_state.go, and the functions of
-- internal/service/chunk_service.go that read or change it in memory. Identifiers of users and
-- seasons are numbers, a time is the nanoseconds since an origin, and `version` is the bit pattern
-- of the int64.
use go_lobby.Prelude.{nat_eq, ℕ, ◌+◌, ◌%◌, List, [], ◌∷◌, Bool, false, ◌||◌, Option, none}
use go_lobby.Prelude.{insert, delete, values, ◌==◌}
use go_lobby.Prelude.Int.{ℤ, two64}
use go_lobby.Prelude.Text.{Str}

pub record OpenedCell : Type 0 where
  pub x : ℤ
  pub y : ℤ
  pub index : ℕ
  pub opened_by : ℕ
  pub opened_at : ℕ
  pub adjacent_mines : ℕ

pub record MineChunkState : Type 0 where
  pub season_id : ℕ
  pub chunk_id : Str
  pub closed : Bool
  pub closed_by : ℕ
  pub closed_at : Option ℕ
  pub closed_until : Option ℕ
  pub version : ℕ
  pub opened_cells : List (ℕ × OpenedCell)
  pub flagged_by : List (ℕ × ℕ)

unfoldable pub new_mine_chunk_state : ℕ → Str → MineChunkState
new_mine_chunk_state season_id chunk_id = record {
  season_id = season_id;
  chunk_id = chunk_id;
  closed = false;
  closed_by = 0;
  closed_at = none;
  closed_until = none;
  version = 1;
  opened_cells = [];
  flagged_by = [];
}

-- `state.Version++`
abbrev pub next_version : ℕ → ℕ
next_version v = (v + 1) % two64

unfoldable pub open_cell_in_state : MineChunkState → ℤ → ℤ → ℕ → ℕ → ℕ → ℕ → MineChunkState
open_cell_in_state state x y index user opened_at adjacent = record state {
  opened_cells = insert index cell state.opened_cells;
  flagged_by = delete index state.flagged_by;
}
  where
    cell : OpenedCell
    cell = record {
      x = x;
      y = y;
      index = index;
      opened_by = user;
      opened_at = opened_at;
      adjacent_mines = adjacent;
    }

any_opened_by : ℕ → List OpenedCell → Bool
any_opened_by user [] = false
any_opened_by user (c ∷ cs) = c.opened_by == user || any_opened_by user cs

unfoldable pub player_has_opened_cell : MineChunkState → ℕ → Bool
unfolding any_opened_by
player_has_opened_cell state user = any_opened_by user (values state.opened_cells)
