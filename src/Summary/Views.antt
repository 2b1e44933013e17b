-- ===== src/Summary/Views.antt =====
-- What a client reads of a chunk, internal/dto/res/chunk_response.go, and how a stored state shows
-- in it (internal/service/chunk_service.go).
use go_lobby.Prelude.{nat_eq, ℕ, ◌/◌, ◌%◌, List, [], map}
use go_lobby.Prelude.{Bool, false, ◌&&◌, Option, none, some, if◌then◌else◌}
use go_lobby.Prelude.{values, length, eqb, ltb}
use go_lobby.Prelude.Int.{ℤ, int_eq}
use go_lobby.Prelude.Text.{Str}
use go_lobby.Chunk.{ChunkId, chunk_id_string, chunk_size}
use go_lobby.ChunkState.{MineChunkState, OpenedCell}

pub record Floats : Type 0 where
  pub of_int : ℤ → ℕ
  pub divide : ℕ → ℕ → ℕ
  pub multiply : ℕ → ℕ → ℕ
  pub float_zero : ℕ
  pub float_one : ℕ
  pub epsilon : ℕ  -- 0.000000001
  pub less : ℕ → ℕ → Bool
  pub at_least : ℕ → ℕ → Bool  -- `>=`, which is false at a NaN, as `<` is
  pub subtract : ℕ → ℕ → ℕ
  pub floor : ℕ → ℕ
  pub to_int : ℕ → ℤ

pub record ChunkBounds : Type 0 where
  pub min_x : ℕ
  pub min_y : ℕ
  pub max_x : ℕ
  pub max_y : ℕ

pub data SummaryState : Type 0 where
  normal opening closing closed hot : SummaryState

pub record ChunkSummary : Type 0 where
  pub chunk_id : Str
  pub region : Str
  pub level : ℤ
  pub x : ℤ
  pub y : ℤ
  pub bounds : ChunkBounds
  pub state : SummaryState
  pub is_closed : Bool
  pub closed_at : Option ℕ
  pub closed_until : Option ℕ
  pub version : ℕ
  pub opened_count : ℕ
  pub closed_leaf_count : ℕ
  pub total_leaf_count : ℕ
  pub closed_ratio : ℕ

pub record OpenedCellResponse : Type 0 where
  pub x : ℤ
  pub y : ℤ
  pub index : ℕ
  pub adjacent_mines : ℕ
  pub user_id : ℕ
  pub nickname : Str
  pub opened_at : ℕ

pub record FlaggedCellResponse : Type 0 where
  pub x : ℕ
  pub y : ℕ
  pub index : ℕ
  pub user_id : ℕ

pub record ChunkSnapshot : Type 0 where
  pub chunk_id : Str
  pub is_closed : Bool
  pub closed_at : Option ℕ
  pub closed_until : Option ℕ
  pub version : ℕ
  pub opened_cells : List OpenedCellResponse
  pub flagged_cells : List FlaggedCellResponse

-- A summary without its leaves.
unfoldable pub apply_mine_state_to_summary : ChunkSummary → Option MineChunkState → ChunkSummary
apply_mine_state_to_summary summary none = record summary {
  state = normal;
  is_closed = false;
  closed_at = none;
  closed_until = none;
  opened_count = 0;
  version = 1;
}
apply_mine_state_to_summary summary (some s) = record summary {
  is_closed = s.closed;
  closed_at = s.closed_at;
  closed_until = s.closed_until;
  version = s.version;
  opened_count = length s.opened_cells;
  state = if s.closed then closed else if ltb 0 (length s.opened_cells) then opening else normal;
}

unfoldable pub state_of_counts : ℕ → ℕ → ℕ → SummaryState
state_of_counts closed_leaves total opened =
    if eqb closed_leaves total && ltb 0 total
    then closed
    else if ltb 0 closed_leaves
    then closing
    else if ltb 0 opened
    then opening
    else normal

unfoldable pub opened_cell_response : OpenedCell → OpenedCellResponse
opened_cell_response c = record {
  x = c.x;
  y = c.y;
  index = c.index;
  adjacent_mines = c.adjacent_mines;
  user_id = c.opened_by;
  nickname = [];
  opened_at = c.opened_at;
}

unfoldable pub flagged_cell : ℕ × ℕ → FlaggedCellResponse
flagged_cell (index, user) = record {
  x = index % chunk_size;
  y = index / chunk_size;
  index = index;
  user_id = user;
}

unfoldable pub build_snapshot_from_state : ChunkId → Option MineChunkState → ChunkSnapshot
unfolding opened_cell_response flagged_cell
build_snapshot_from_state id none = record {
  chunk_id = chunk_id_string id;
  is_closed = false;
  closed_at = none;
  closed_until = none;
  version = 1;
  opened_cells = [];
  flagged_cells = [];
}
build_snapshot_from_state id (some s) = record {
  chunk_id = chunk_id_string id;
  is_closed = s.closed;
  closed_at = s.closed_at;
  closed_until = s.closed_until;
  version = s.version;
  opened_cells = map opened_cell_response (values s.opened_cells);
  flagged_cells = map flagged_cell s.flagged_by;
}
