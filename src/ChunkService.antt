-- ===== src/ChunkService.antt =====
-- internal/service/chunk_service.go: the operations that players make on a chunk. A service is
-- the stores that it was given, its closure time and a clock.
pub mod Reopen
pub mod Consistent
pub mod Requests
use go_lobby.Prelude.{
  nat_eq, ℕ, ◌+◌, ◌-◌, List, [], ◌∷◌, Bool, true, false, not, ◌&&◌, Option, none, some,
}
use go_lobby.Prelude.{
  if◌then◌else◌, Result, ok, err, or_error, lookup, insert, delete, values, length,
}
use go_lobby.Prelude.{has_value, eqb, ltb, ◌==◌, no_active_season, invalid_chunk_id, chunk_closed}
use go_lobby.Prelude.{cell_already_open, cell_flagged, chunk_not_found, ◌||◌}
use go_lobby.Prelude.Int.{ℤ, pos, pos_part, leb_ℤ, int_eq}
use go_lobby.Prelude.Text.{Str, str_eq, codes}
use go_lobby.Prelude.Effect.{M, Done, pure, fail, lift, stop_if, and_then, ◌>>=◌, ◌>>◌}
use go_lobby.Chunk.{ChunkId, cn, parse_chunk_id, chunk_id_string, chunk_grid_size, chunk_cell_index}
use go_lobby.Chunk.{ensure_playable_chunk}
use go_lobby.Mine.{External, MineSeason, is_mine, adjacent_mine_count}
use go_lobby.ChunkState.{MineChunkState, OpenedCell, new_mine_chunk_state, next_version}
use go_lobby.ChunkState.{open_cell_in_state, player_has_opened_cell}
use go_lobby.ZeroArea.{open_zero_area}
use go_lobby.Responses.{OpenMineCellResponse, FlagMineCellResponse}
use go_lobby.MineMatch.States.{MineMatchService, MineMatchState, MineChunkStateStore}
use go_lobby.MineMatch.{authorize_chunk_operation, apply_open_result, season_or_fail}
use Reopen.{Reopening, reopening}

-- Five minutes, in nanoseconds.
abbrev default_chunk_closure_duration : ℕ
default_chunk_closure_duration = 300000000000

-- `closureDurations ...time.Duration`
unfoldable pub resolve_chunk_closure_duration : List ℤ → ℕ
resolve_chunk_closure_duration [] = default_chunk_closure_duration
resolve_chunk_closure_duration (d ∷ ds) =
    if leb_ℤ d (pos 0) then default_chunk_closure_duration else pos_part d

pub record ChunkService (W : Type 0) : Type 0 where
  pub season_reader : Option (M W (Option MineSeason))
  pub state_store : Option (MineChunkStateStore W)
  pub mine_match_service : Option (MineMatchService W)
  pub closure_duration : ℕ
  pub now : M W ℕ

unfoldable pub parse_demo_chunk_id : Str → Result ChunkId
parse_demo_chunk_id raw = elim (parse_chunk_id raw) [
  | err _ ↦ err invalid_chunk_id
  | ok id ↦ if not (id.region == cn) then err chunk_not_found else elim (chunk_grid_size id.z) [
    | err _ ↦ err invalid_chunk_id
    | ok size ↦
        if leb_ℤ (pos size) id.x || leb_ℤ (pos size) id.y then err chunk_not_found else ok id
  ]
]

unfoldable pub parse_playable_chunk_id : Str → Result ChunkId
parse_playable_chunk_id raw = elim (parse_demo_chunk_id raw) [
  | err e ↦ err e
  | ok id ↦ elim (ensure_playable_chunk id) [ err _ ↦ err invalid_chunk_id | ok _ ↦ ok id ]
]

module _ {W : Type 0} (s : ChunkService W) (store : MineChunkStateStore W) where
  unfoldable pub load_or_new_chunk_state : ℕ → Str → M W MineChunkState
  load_or_new_chunk_state season_id chunk_id =
      store.get_state season_id chunk_id
      >>= elim [ none ↦ pure (new_mine_chunk_state season_id chunk_id) | some state ↦ pure state ]

  unfoldable pub reopen_expired_chunk : MineChunkState → ℕ → M W MineChunkState
  reopen_expired_chunk state now =
      let r = reopening s.closure_duration now state in
      if r.changed then (store.save_state r.state >> pure r.state) else pure r.state

-- `authorizeMineMatchOperation`, whose state no caller reads.
unfoldable pub authorize : {W : Type 0} → Option (MineMatchService W) → ℕ → ℕ → Str → M W Done
authorize none user season_id chunk_id = pure tt
authorize (some ms) user season_id chunk_id =
    authorize_chunk_operation ms user season_id chunk_id >>= λ _. pure tt

-- `applyMineMatchOpenResult`
unfoldable pub apply_result :
    {W : Type 0}
    → External
    → Option (MineMatchService W)
    → ℕ
    → MineSeason
    → ChunkId
    → MineChunkState
    → OpenMineCellResponse
    → M W OpenMineCellResponse
apply_result ext none user season id state resp = pure resp
apply_result ext (some ms) user season id state resp =
    apply_open_result ms ext user season id state resp

-- A response with the fields that Go leaves at their zero values.
unfoldable pub blank_response : Str → ℤ → ℤ → ℕ → MineChunkState → ℕ → OpenMineCellResponse
blank_response chunk_id x y index state opened_at = record {
  chunk_id = chunk_id;
  x = x;
  y = y;
  index = index;
  mine = false;
  closed = false;
  closed_at = none;
  closed_until = none;
  canceled = false;
  reason = [];
  adjacent_mines = 0;
  version = state.version;
  opened_at = opened_at;
  new_opened_count = 0;
  match_id = 0;
  match_scores = [];
  match_finished = false;
  win_team_no = none;
  opened_cells = [];
}

unfoldable pub already_open_response : ChunkId → MineChunkState → OpenedCell → OpenMineCellResponse
unfolding blank_response
already_open_response id state c =
    record (blank_response (chunk_id_string id) c.x c.y c.index state c.opened_at) {
      closed = state.closed;
      adjacent_mines = c.adjacent_mines;
      opened_cells = c ∷ [];
    }

unfoldable pub protected_response : ChunkId → ℤ → ℤ → ℕ → MineChunkState → ℕ → OpenMineCellResponse
unfolding blank_response
protected_response id x y index state now =
    record (blank_response (chunk_id_string id) x y index state now) {
      mine = true;
      canceled = true;
      reason = codes "first_open_mine_protected";
    }

unfoldable pub opened_response :
    ChunkId → ℤ → ℤ → ℕ → MineChunkState → ℕ → Bool → ℕ → ℕ → OpenMineCellResponse
unfolding blank_response
opened_response id x y index state now mine adjacent opened_before =
    record (blank_response (chunk_id_string id) x y index state now) {
      mine = mine;
      closed = state.closed;
      closed_at = state.closed_at;
      closed_until = state.closed_until;
      adjacent_mines = adjacent;
      new_opened_count = length state.opened_cells - opened_before;
      opened_cells = values state.opened_cells;
    }

-- What a fresh cell does to the state, before it is saved: a mine is left alone for a player who
-- has opened nothing, or closes the chunk; another cell opens, with its area if no mine is near.
pub data Effect : Type 0 where
  protected : Effect
  changed : Bool → ℕ → MineChunkState → Effect

module _ (ext : External) (closure user now : ℕ) (season : MineSeason) (id : ChunkId) where
  abbrev close_chunk : MineChunkState → MineChunkState
  close_chunk state = record state {
    closed = true;
    closed_by = user;
    closed_at = some now;
    closed_until = some (now + closure);
  }

  unfoldable pub open_mine : MineChunkState → Effect
  open_mine state =
      if player_has_opened_cell state user then changed true 0 (close_chunk state) else protected

  abbrev pub area_effect : ℕ → Result MineChunkState → Result Effect
  area_effect adjacent (err e) = err e
  area_effect adjacent (ok state') = ok (changed false adjacent state')

  -- With the count of the mines around.
  unfoldable pub open_counted : MineChunkState → ℤ → ℤ → ℕ → Result ℕ → Result Effect
  open_counted state x y index (err e) = err e
  open_counted state x y index (ok adjacent) =
      if eqb adjacent 0
      then area_effect adjacent (
          open_zero_area (is_mine ext (some season) id) (adjacent_mine_count ext (some season) id)
            user now state x y)
      else ok (changed false adjacent (open_cell_in_state state x y index user now adjacent))

  -- With the answer whether the cell is a mine.
  unfoldable pub open_answered : MineChunkState → ℤ → ℤ → ℕ → Result Bool → Result Effect
  unfolding open_mine open_counted
  open_answered state x y index (err e) = err e
  open_answered state x y index (ok true) = ok (open_mine state)
  open_answered state x y index (ok false) =
      open_counted state x y index (adjacent_mine_count ext (some season) id x y)

  unfoldable pub open_fresh : MineChunkState → ℤ → ℤ → ℕ → Result Effect
  unfolding open_answered
  open_fresh state x y index = open_answered state x y index (is_mine ext (some season) id x y)

abbrev bump : MineChunkState → MineChunkState
bump state = record state { version = next_version state.version }

module _ {W : Type 0} (ext : External) (s : ChunkService W) (store : MineChunkStateStore W)
    (user : ℕ) (id : ChunkId) (x y : ℤ) where
  -- `openCellInWorker` from the effect on: save the state, answer, and tell the match.
  finish_open : MineSeason → ℕ → MineChunkState → ℕ → Effect → M W OpenMineCellResponse
  finish_open season index state now protected =
      apply_result ext s.mine_match_service user season id state
        (protected_response id x y index state now)
  finish_open season index state now (changed mine adjacent state') = do
    store.save_state (bump state')
    apply_result ext s.mine_match_service user season id (bump state')
        (opened_response id x y index (bump state') now mine adjacent (length state.opened_cells))

  open_unopened : MineSeason → ℕ → MineChunkState → M W OpenMineCellResponse
  unfolding finish_open
  open_unopened season index state = do
    stop_if (has_value (lookup index state.flagged_by)) cell_flagged
    now ← s.now
    effect ← lift (open_fresh ext s.closure_duration user now season id state x y index)
    finish_open season index state now effect

  unfoldable pub open_in_state : MineSeason → ℕ → MineChunkState → M W OpenMineCellResponse
  unfolding open_unopened
  open_in_state season index state = do
    stop_if state.closed chunk_closed
    elim (lookup index state.opened_cells) [
      | some c ↦
          apply_result ext s.mine_match_service user season id state
            (already_open_response id state c)
      | none ↦ open_unopened season index state
    ]

  unfoldable pub open_cell_in_worker : M W (Option MineSeason) → M W OpenMineCellResponse
  unfolding season_or_fail
  open_cell_in_worker get_active_season = do
    index ← lift (or_error (chunk_cell_index x y) invalid_chunk_id)
    active ← get_active_season
    season ← season_or_fail active
    authorize s.mine_match_service user season.id (chunk_id_string id)
    loaded ← load_or_new_chunk_state s store season.id (chunk_id_string id)
    now ← s.now
    state ← reopen_expired_chunk s store loaded now
    open_in_state season index state

  abbrev flag : ℕ → Bool → MineChunkState → MineChunkState
  flag index flagged state = record state {
    flagged_by =
        if flagged then insert index user state.flagged_by else delete index state.flagged_by;
  }

  unfoldable pub flag_in_state : ℕ → Bool → MineChunkState → M W FlagMineCellResponse
  flag_in_state index flagged state = do
    stop_if state.closed chunk_closed
    stop_if (has_value (lookup index state.opened_cells)) cell_already_open
    store.save_state (bump (flag index flagged state))
    pure (record {
      chunk_id = chunk_id_string id;
      x = x;
      y = y;
      index = index;
      flagged = flagged;
      version = next_version state.version;
    })

  unfoldable pub flag_cell_in_worker : M W (Option MineSeason) → Bool → M W FlagMineCellResponse
  unfolding season_or_fail
  flag_cell_in_worker get_active_season flagged = do
    index ← lift (or_error (chunk_cell_index x y) invalid_chunk_id)
    active ← get_active_season
    season ← season_or_fail active
    authorize s.mine_match_service user season.id (chunk_id_string id)
    loaded ← load_or_new_chunk_state s store season.id (chunk_id_string id)
    now ← s.now
    state ← reopen_expired_chunk s store loaded now
    flag_in_state index flagged state
