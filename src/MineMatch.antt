-- ===== src/MineMatch.antt =====
-- internal/service/mine_match_service.go: a match that is played on one chunk. A service is built
-- by `NewMineMatchService`, with its stores; only the match service may be missing. A map is
-- walked in the order of its entries, which Go leaves open: MineMatch/Winner shows where that
-- does not matter.
pub mod States
pub mod Score
pub mod Winner
pub mod Locks
pub mod Contract
pub mod Chosen
pub mod Members
use go_lobby.Prelude.{
  nat_eq, ℕ, zero, suc, ◌+◌, ◌*◌, ◌/◌, ◌%◌, List, [], ◌∷◌, Bool, true, false, not, ◌&&◌,
}
use go_lobby.Prelude.{
  ◌==◌, if◌then◌else◌, Option, none, some, Result, ok, err, lookup, insert, length,
}
use go_lobby.Prelude.{eqb, ltb, leb, no_active_season, wrong_chunk, chunk_occupied, no_clean_chunk}
use go_lobby.Prelude.{not_in_match, no_opponent, no_winner, refuse}
use go_lobby.Prelude.Int.{ℤ, pos, int_eq, ◌+ℤ◌, wrap64}
use go_lobby.Prelude.Text.{Str, str_eq, codes}
use go_lobby.Prelude.Effect.{M, Done, pure, fail, lift, and_then, ignore, ◌>>=◌, ◌>>◌}
use go_lobby.Chunk.{ChunkId, chunk_id_string, cn, chunk_size}
use go_lobby.Mine.{External, MineSeason, is_mine}
use go_lobby.ChunkState.{MineChunkState}
use go_lobby.Responses.{MatchedTeam, OpenMineCellResponse}
use go_lobby.Match.{MatchService, MatchStatus, ongoing, finished, set_match_result}
use Score.{score_winner_team}
use go_lobby.MineMatch.States.{
  MineMatchService, MineMatchState, attach_mine_match_response, build_mine_match_state, is_finished,
  opponent_team, score_or_zero,
}

module _ (ext : External) where
  -- The two loops of `allSafeCellsOpened`, over the cells `from`, `from` + 1, … of the chunk.
  count_safe : MineSeason → ChunkId → ℕ → ℕ → ℕ → Result ℕ
  count_safe season id zero from safe = ok safe
  count_safe season id (suc left) from safe =
      elim (is_mine ext (some season) id (pos (from % chunk_size)) (pos (from / chunk_size))) [
        | err e ↦ err e
        | ok mine ↦ count_safe season id left (from + 1) (if mine then safe else safe + 1)
      ]

  unfoldable pub all_safe_cells_opened : MineSeason → ChunkId → MineChunkState → Result Bool
  unfolding count_safe
  all_safe_cells_opened season id state =
      if eqb (length state.opened_cells) 0
      then ok false
      else elim (count_safe season id (chunk_size * chunk_size) 0 0) [
        | err e ↦ err e
        | ok safe ↦ ok (leb safe (length state.opened_cells))
      ]

unfoldable pub season_or_fail : {W : Type 0} → Option MineSeason → M W MineSeason
season_or_fail none = fail no_active_season
season_or_fail (some season) = pure season

module _ {W : Type 0} (s : MineMatchService W) where
  open s use {get_active_season, chunk_store, match_store, match_service, now, rand_perm}

  -- Whether a chunk is neither closed nor touched.
  abbrev untouched_state : Option MineChunkState → Bool
  untouched_state none = true
  untouched_state (some state) =
      not state.closed && eqb (length state.opened_cells) 0 && eqb (length state.flagged_by) 0

  unfoldable pub is_clean_chunk : ℕ → Str → M W Bool
  is_clean_chunk season_id chunk_id = do
    state ← chunk_store.get_state season_id chunk_id
    pure (untouched_state state)

  unfoldable pub is_clean_unlocked_chunk : ℕ → Str → M W Bool
  unfolding is_clean_chunk
  is_clean_unlocked_chunk season_id chunk_id = do
    locked ← match_store.get_chunk_lock season_id chunk_id
    if locked == 0 then is_clean_chunk season_id chunk_id else pure false

  -- After the lock is taken: `none` to go on with the next chunk.
  recheck : ℕ → ℕ → Str → Result Bool × W → Result (Option Str) × W
  recheck season_id match_id chunk_id (ok true, w) = (ok (some chunk_id), w)
  recheck season_id match_id chunk_id (ok false, w) =
      (ok none, (match_store.unlock_chunk season_id chunk_id match_id w).1)
  recheck season_id match_id chunk_id (err e, w) =
      (err e, (match_store.unlock_chunk season_id chunk_id match_id w).1)

  try_chunk : ℕ → ℕ → Str → M W (Option Str)
  unfolding is_clean_unlocked_chunk is_clean_chunk recheck
  try_chunk season_id match_id chunk_id = do
    clean ← is_clean_unlocked_chunk season_id chunk_id
    if not clean then pure none else do
      locked ← match_store.try_lock_chunk season_id chunk_id match_id
      if not locked then pure none else λ w.
          recheck season_id match_id chunk_id (is_clean_chunk season_id chunk_id w)

  abbrev pub leaf_chunk : ℕ → Str
  leaf_chunk value =
      chunk_id_string
        (record { region = cn; z = pos 6; x = pos (value % 64); y = pos (value / 64) })

  try_chunks : ℕ → ℕ → List ℕ → M W Str
  unfolding try_chunk
  try_chunks season_id match_id [] = fail no_clean_chunk
  try_chunks season_id match_id (value ∷ order) =
      try_chunk season_id match_id (leaf_chunk value)
      >>= elim [ some chunk_id ↦ pure chunk_id | none ↦ try_chunks season_id match_id order ]

  -- `ChunkGridSize(ChunkMaxLevel)` is 64.
  unfoldable pub find_and_lock_clean_chunk : ℕ → ℕ → M W Str
  unfolding try_chunks
  find_and_lock_clean_chunk season_id match_id = do
    order ← rand_perm (64 * 64)
    try_chunks season_id match_id order

  -- `if err != nil { unlock; return err }`
  unfoldable pub unlock_on_error : ℕ → Str → ℕ → Result Done × W → Result Done × W
  unlock_on_error season_id chunk_id match_id (ok u, w) = (ok u, w)
  unlock_on_error season_id chunk_id match_id (err e, w) =
      (err e, (match_store.unlock_chunk season_id chunk_id match_id w).1)

  unfoldable pub assign_chunk_for_match : ℕ → Str → List MatchedTeam → M W Str
  unfolding season_or_fail unlock_on_error
  assign_chunk_for_match match_id room_id teams = do
    active ← get_active_season
    season ← season_or_fail active
    chunk_id ← find_and_lock_clean_chunk season.id match_id
    started_at ← now
    let state = build_mine_match_state match_id room_id season.id chunk_id teams started_at
    λ w. unlock_on_error season.id chunk_id match_id (match_store.save_match_state state w)
    λ w.
        unlock_on_error season.id chunk_id match_id (match_store.set_active_match_for_users state w)
    pure chunk_id

  unfoldable pub authorize_without_match : ℕ → Str → M W (Option MineMatchState)
  authorize_without_match season_id chunk_id = do
    locked ← match_store.get_chunk_lock season_id chunk_id
    if locked == 0 then pure none else fail chunk_occupied

  unfoldable pub authorize_chunk_operation : ℕ → ℕ → Str → M W (Option MineMatchState)
  unfolding authorize_without_match
  authorize_chunk_operation user season_id chunk_id =
      match_store.get_active_match_by_user user >>= elim [
        | none ↦ authorize_without_match season_id chunk_id
        | some active ↦ if active.chunk_id == chunk_id then pure (some active) else fail wrong_chunk
      ]

  report_result : ℕ → ℤ → Option (MatchService W) → M W Done
  report_result match_id win_team_no none = pure tt
  report_result match_id win_team_no (some ms) = set_match_result ms match_id win_team_no

  unfoldable pub finish_match :
      MineMatchState → ℤ → ℕ → OpenMineCellResponse → M W OpenMineCellResponse
  unfolding report_result
  finish_match state win_team_no finished_at resp =
      if is_finished state.status then pure (attach_mine_match_response resp state) else do
        report_result state.match_id win_team_no match_service
        let done = record state {
          status = finished;
          win_team_no = some win_team_no;
          finished_at = some finished_at;
        }
        match_store.save_match_state done
        match_store.delete_active_match_for_users done
        match_store.unlock_chunk done.season_id done.chunk_id done.match_id
        pure (attach_mine_match_response resp done)

  -- `PlayerScores[userID] += n; LastScoreAt[userID] = t`
  abbrev score : MineMatchState → ℕ → ℕ → ℕ → MineMatchState
  score state user opened at = record state {
    player_scores =
        insert user (wrap64 (score_or_zero (lookup user state.player_scores) +ℤ pos opened))
          state.player_scores;
    last_score_at = insert user (pos at) state.last_score_at;
  }

  add_score :
      MineMatchState → ℕ → OpenMineCellResponse → M W (MineMatchState × OpenMineCellResponse)
  add_score state user resp = if eqb resp.new_opened_count 0 then pure (state, resp) else do
    at ← now
    let scored = score state user resp.new_opened_count at
    match_store.save_match_state scored
    pure (scored, attach_mine_match_response resp scored)

  finish_when_complete : MineMatchState → Bool → OpenMineCellResponse → M W OpenMineCellResponse
  finish_when_complete state completed resp = if not completed then pure resp else do
    winner ← lift (score_winner_team state.teams state.player_scores state.last_score_at)
    finished_at ← now
    finish_match state winner finished_at resp

  open_in_match :
      External
      → ℕ
      → MineSeason
      → ChunkId
      → MineChunkState
      → MineMatchState
      → OpenMineCellResponse
      → M W OpenMineCellResponse
  unfolding add_score finish_when_complete
  open_in_match ext user season id state match_state resp =
      if resp.canceled
      then pure resp
      else if resp.mine
      then (lift (opponent_team match_state user) >>= λ winner.
          now >>= λ at. finish_match match_state winner at resp)
      else add_score match_state user resp >>= λ r.
          lift (all_safe_cells_opened ext season id state) >>= λ completed.
          finish_when_complete r.0 completed r.1

  unfoldable pub apply_open_result :
      External
      → ℕ
      → MineSeason
      → ChunkId
      → MineChunkState
      → OpenMineCellResponse
      → M W OpenMineCellResponse
  unfolding open_in_match
  apply_open_result ext user season id state resp =
      match_store.get_active_match_by_user user >>= elim [
        | none ↦ pure resp
        | some match_state ↦
            if match_state.chunk_id == chunk_id_string id
            then open_in_match ext user season id state match_state
                (attach_mine_match_response resp match_state)
            else pure resp
      ]
