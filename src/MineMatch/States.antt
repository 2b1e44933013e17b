-- ===== src/MineMatch/States.antt =====
-- The state of a match on a chunk, internal/model/mine_match.go, the stores of
-- internal/service/mine_match_service.go, and its functions that call no store.
use go_lobby.Prelude.{nat_eq, ℕ, List, [], ◌∷◌, Bool, true, false}
use go_lobby.Prelude.{◌==◌, if◌then◌else◌, Option, none, some, Result, ok, err, lookup, insert}
use go_lobby.Prelude.{not_in_match, no_opponent}
use go_lobby.Prelude.Int.{ℤ, pos, int_eq}
use go_lobby.Prelude.Text.{Str, str_eq}
use go_lobby.Prelude.Effect.{M, Done}
use go_lobby.Mine.{MineSeason}
use go_lobby.ChunkState.{MineChunkState}
use go_lobby.Responses.{MatchedTeam, OpenMineCellResponse}
use go_lobby.Match.{MatchService, MatchStatus, ongoing, finished}

pub record MineMatchState : Type 0 where
  pub match_id : ℕ
  pub room_id : Str
  pub season_id : ℕ
  pub chunk_id : Str
  pub status : MatchStatus
  pub teams : List (ℤ × List ℕ)
  pub user_teams : List (ℕ × ℤ)
  pub player_scores : List (ℕ × ℤ)
  pub last_score_at : List (ℕ × ℤ)
  pub win_team_no : Option ℤ
  pub started_at : ℕ
  pub finished_at : Option ℕ

pub record MineChunkStateStore (W : Type 0) : Type 0 where
  pub get_state : ℕ → Str → M W (Option MineChunkState)
  pub save_state : MineChunkState → M W Done
  pub list_closed_leaf_chunk_ids : ℕ → M W (List Str)

-- A lock is the number of its match, 0 for none.
pub record MineMatchStore (W : Type 0) : Type 0 where
  pub save_match_state : MineMatchState → M W Done
  pub get_active_match_by_user : ℕ → M W (Option MineMatchState)
  pub set_active_match_for_users : MineMatchState → M W Done
  pub delete_active_match_for_users : MineMatchState → M W Done
  pub get_chunk_lock : ℕ → Str → M W ℕ
  pub try_lock_chunk : ℕ → Str → ℕ → M W Bool
  pub unlock_chunk : ℕ → Str → ℕ → M W Done

pub record MineMatchService (W : Type 0) : Type 0 where
  pub get_active_season : M W (Option MineSeason)
  pub chunk_store : MineChunkStateStore W
  pub match_store : MineMatchStore W
  pub match_service : Option (MatchService W)
  pub now : M W ℕ  -- time.Now(), in nanoseconds
  pub rand_perm : ℕ → M W (List ℕ)

-- The two maps that the teams fill in the order of the teams.
unfoldable pub add_users : ℤ → List ℕ → List (ℕ × ℤ) → List (ℕ × ℤ)
add_users v [] m = m
add_users v (user ∷ users) m = add_users v users (insert user v m)

abbrev pub add_team : MineMatchState → MatchedTeam → MineMatchState
add_team state team = record state {
  teams = insert team.team_id team.user_ids state.teams;
  user_teams = add_users team.team_id team.user_ids state.user_teams;
  player_scores = add_users (pos 0) team.user_ids state.player_scores;
}

unfoldable pub add_teams : MineMatchState → List MatchedTeam → MineMatchState
unfolding add_users
add_teams state [] = state
add_teams state (team ∷ teams) = add_teams (add_team state team) teams

unfoldable pub build_mine_match_state : ℕ → Str → ℕ → Str → List MatchedTeam → ℕ → MineMatchState
unfolding add_teams
build_mine_match_state match_id room_id season_id chunk_id teams started_at = add_teams new teams
  where
    new : MineMatchState
    new = record {
      match_id = match_id;
      room_id = room_id;
      season_id = season_id;
      chunk_id = chunk_id;
      status = ongoing;
      teams = [];
      user_teams = [];
      player_scores = [];
      last_score_at = [];
      win_team_no = none;
      started_at = started_at;
      finished_at = none;
    }

abbrev pub is_finished : MatchStatus → Bool
is_finished finished = true
is_finished ongoing = false

unfoldable pub attach_mine_match_response :
    OpenMineCellResponse → MineMatchState → OpenMineCellResponse
attach_mine_match_response resp state = record resp {
  match_id = state.match_id;
  match_scores = state.player_scores;
  match_finished = is_finished state.status;
  win_team_no = state.win_team_no;
}

other_team : ℤ → List (ℤ × List ℕ) → Result ℤ
other_team own [] = err no_opponent
other_team own ((team, users) ∷ teams) = if team == own then other_team own teams else ok team

unfoldable pub opponent_team : MineMatchState → ℕ → Result ℤ
unfolding other_team
opponent_team state user = elim (lookup user state.user_teams) [
  | none ↦ err not_in_match
  | some own ↦ other_team own state.teams
]

abbrev pub score_or_zero : Option ℤ → ℤ
score_or_zero none = pos 0
score_or_zero (some v) = v
