-- ===== src/Match.antt =====
-- internal/service/match_service.go: creating, reading and finishing a match.
use go_lobby.Prelude.{nat_eq, ℕ, List, [], ◌∷◌, ◌++◌, Option, none, some, err, ok}
use go_lobby.Prelude.{match_not_found, Result}
use go_lobby.Prelude.Int.{ℤ, pos}
use go_lobby.Prelude.Text.{Str, codes}
use go_lobby.Prelude.Effect.{M, Done, pure, fail, ◌>>=◌, ◌>>◌}
use go_lobby.Chunk.Numbers.{itoa}
use go_lobby.Responses.{MatchedTeam}

pub data MatchStatus : Type 0 where
  ongoing finished : MatchStatus

pub record MatchRecord : Type 0 where
  pub id : ℕ
  pub status : MatchStatus
  pub win_team_no : Option ℤ
  pub started_at : ℕ
  pub room_id : Str
  pub finished_at : Option ℕ
  pub mode : Str

pub record MatchPlayer : Type 0 where
  pub match_id : ℕ
  pub user_id : ℕ
  pub team_no : ℤ

pub record MatchResultFinishedEvent : Type 0 where
  pub event_id : Str
  pub match_id : ℕ
  pub win_team_no : ℤ
  pub mode : Str
  pub occurred_at : ℕ

pub record MatchQueueResult : Type 0 where
  pub room_id : Str
  pub mode : Str
  pub teams : List MatchedTeam

-- The database and the broker. `create_match` and `add_match_player` run in the transaction that
-- `begin_tx` opens.
pub record MatchRepository (W : Type 0) : Type 0 where
  pub now : M W ℕ
  pub begin_tx : M W Done
  pub commit : M W Done
  pub rollback : M W Done
  pub create_match : MatchRecord → M W ℕ
  pub add_match_player : List MatchPlayer → M W Done
  pub get_match_by_id : ℕ → M W (Option MatchRecord)
  pub update_match : MatchRecord → M W Done
  pub get_match_players : ℕ → M W (List MatchPlayer)

pub record MatchService (W : Type 0) : Type 0 where
  pub repo : MatchRepository W
  pub publisher : Option (MatchResultFinishedEvent → M W Done)

players_of_team : ℕ → ℤ → List ℕ → List MatchPlayer
players_of_team match_id team [] = []
players_of_team match_id team (user ∷ users) =
    record { match_id = match_id; user_id = user; team_no = team }
    ∷ players_of_team match_id team users

unfoldable pub build_player_from_match : ℕ → List MatchedTeam → List MatchPlayer
unfolding players_of_team
build_player_from_match match_id [] = []
build_player_from_match match_id (team ∷ teams) =
    players_of_team match_id team.team_id team.user_ids ++ build_player_from_match match_id teams

module _ {W : Type 0} (s : MatchService W) where
  open s use {repo, publisher}

  -- The deferred call: roll back unless the transaction was committed.
  abbrev roll_back_on_error : {A : Type 0} → Result A × W → Result A × W
  roll_back_on_error (ok a, w) = (ok a, w)
  roll_back_on_error (err e, w) = (err e, (repo.rollback w).1)

  unfoldable pub create_in_tx : MatchQueueResult → M W ℕ
  unfolding build_player_from_match
  create_in_tx result = do
    started_at ← repo.now
    match_id ← repo.create_match (record {
      id = 0;
      status = ongoing;
      win_team_no = none;
      started_at = started_at;
      room_id = result.room_id;
      finished_at = none;
      mode = result.mode;
    })
    repo.add_match_player (build_player_from_match match_id result.teams)
    repo.commit
    pure match_id

  unfoldable pub create_match_from_queue : MatchQueueResult → M W ℕ
  unfolding create_in_tx
  create_match_from_queue result = do repo.begin_tx; λ w. roll_back_on_error (create_in_tx result w)

  publish_result : ℕ → ℤ → Str → Option (MatchResultFinishedEvent → M W Done) → M W Done
  publish_result match_id win_team_no mode none = pure tt
  publish_result match_id win_team_no mode (some publish) = do
    occurred_at ← repo.now
    publish (record {
      event_id = codes "evt_" ++ itoa (pos match_id);
      match_id = match_id;
      win_team_no = win_team_no;
      mode = mode;
      occurred_at = occurred_at;
    })

  found : Option MatchRecord → M W MatchRecord
  found none = fail match_not_found
  found (some m) = pure m

  unfoldable pub set_match_result : ℕ → ℤ → M W Done
  unfolding found publish_result
  set_match_result match_id win_team_no = do
    stored ← repo.get_match_by_id match_id
    m ← found stored
    finished_at ← repo.now
    repo.update_match (record m {
      win_team_no = some win_team_no;
      status = finished;
      finished_at = some finished_at;
    })
    publish_result match_id win_team_no m.mode publisher

  -- A failure to read the players is logged, and there are none.
  players_or_none : Result (List MatchPlayer) × W → Result (List MatchPlayer) × W
  players_or_none (ok players, w) = (ok players, w)
  players_or_none (err e, w) = (ok [], w)

  -- `MatchInfoResponse` has the fields of the match and its players.
  unfoldable pub get_match_info : ℕ → M W (MatchRecord × List MatchPlayer)
  unfolding found players_or_none
  get_match_info match_id = do
    stored ← repo.get_match_by_id match_id
    m ← found stored
    players ← λ w. players_or_none (repo.get_match_players match_id w)
    pure (m, players)
