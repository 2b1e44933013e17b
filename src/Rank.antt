-- ===== src/Rank.antt =====
-- internal/service/rank_service.go: the settlement of a finished match, and the leaderboard; and
-- internal/repository/rank_repository.go, whose statements are modelled as what they do to the
-- tables. The database fails when `faults` says so, once for each statement, the ones that begin and
-- commit a transaction included: a statement that fails is refused and changes nothing, or its answer
-- is lost. The table `gl_rank_event` (unique event_id, unique match_id) is the list of its rows,
-- `gl_player_rank` (unique mode and user_id) is a map. Ids of events and modes are compared exactly:
-- those that the program writes are in lower case.
pub mod Settle
pub mod Consumer
use go_lobby.Prelude.{nat_eq, ℕ, suc, ◌+◌, List, [], ◌∷◌, Bool, true, false, Option, none, some}
use go_lobby.Prelude.{Result, ok, err, Error, external, empty_mode, lookup, insert, Eq, ◌==◌, ◌||◌}
use go_lobby.Prelude.{if◌then◌else◌, leb}
use go_lobby.Prelude.Int.{ℤ, pos, negsuc, ◌+ℤ◌, wrap64, eqb_ℤ, leb_ℤ, ltb_ℤ, int_eq}
use go_lobby.Prelude.Text.{Str, str_eq}
use go_lobby.Prelude.Effect.{M, Done, pure, fail, and_then, ◌>>=◌, ◌>>◌}
use go_lobby.Match.{MatchPlayer, MatchResultFinishedEvent}

-- A row of a player in a mode, without its columns `id`, `created_at` and `updated_at`.
pub record PlayerRank : Type 0 where
  pub score : ℤ
  pub win_count : ℕ
  pub lose_count : ℕ
  pub match_count : ℕ

pub record RankEvent : Type 0 where
  pub event_id : Str
  pub match_id : ℕ
  pub status : ℕ

-- The ranks of one mode stand under their users.
pub record Tables : Type 0 where
  pub events : List RankEvent
  pub ranks : List (Str × List (ℕ × PlayerRank))

-- A statement that is refused does nothing; one that is lost takes effect, but the caller gets an
-- error.
pub data Fault : Type 0 where
  works refused lost : Fault

-- `committed` is what others see, `tables` what the transaction sees.
pub record Db : Type 0 where
  pub committed : Tables
  pub tables : Tables
  pub faults : List Fault
  pub board : List (Str × List (ℕ × ℤ))

abbrev pub no_rows {ℓ} : {A : Type ℓ} → Option (List A) → List A
no_rows none = []
no_rows (some rows) = rows

unfoldable pub rank_of : Str → ℕ → Tables → Option PlayerRank
rank_of mode user t = lookup user (no_rows (lookup mode t.ranks))

-- One statement: it fails if the next fault says so.
unfoldable pub statement_with : {A : Type 0} → List Fault → M Db A → M Db A
statement_with [] m db = m (record db { faults = [] })
statement_with (works ∷ faults) m db = m (record db { faults = faults })
statement_with (refused ∷ faults) m db = (err external, record db { faults = faults })
statement_with (lost ∷ faults) m db = (err external, (m (record db { faults = faults })).1)

unfoldable pub statement : {A : Type 0} → M Db A → M Db A
unfolding statement_with
statement m db = statement_with db.faults m db

unfoldable pub begin_tx : M Db Done
unfolding statement
begin_tx = statement λ db. (ok tt, record db { tables = db.committed })

unfoldable pub commit : M Db Done
unfolding statement
commit = statement λ db. (ok tt, record db { committed = db.tables })

unfoldable pub rollback : M Db Done
rollback db = (ok tt, record db { tables = db.committed })

-- A row with the event or with the match stands in the table.
unfoldable pub is_duplicate : RankEvent → List RankEvent → Bool
is_duplicate e [] = false
is_duplicate e (r ∷ rows) =
    r.event_id == e.event_id || r.match_id == e.match_id || is_duplicate e rows

-- `true` is MySQL's error 1062, a duplicate key, which `IsDuplicateKeyError` recognizes.
unfoldable pub add_rank_event : RankEvent → M Db Bool
unfolding statement is_duplicate
add_rank_event e = statement λ db.
    if is_duplicate e db.tables.events
    then (ok true, db)
    else (ok false, record db { tables = record db.tables { events = e ∷ db.tables.events } })

-- `INSERT … ON DUPLICATE KEY UPDATE`
unfoldable pub updated_rank : ℤ → ℕ → ℕ → Option PlayerRank → PlayerRank
updated_rank delta wins loses none = record {
  score = pos 1000 +ℤ delta;
  win_count = wins;
  lose_count = loses;
  match_count = 1;
}
updated_rank delta wins loses (some r) = record {
  score = r.score +ℤ delta;
  win_count = r.win_count + wins;
  lose_count = r.lose_count + loses;
  match_count = suc r.match_count;
}

unfoldable pub set_rank : Str → ℕ → PlayerRank → Tables → Tables
set_rank mode user r t = record t {
  ranks = insert mode (insert user r (no_rows (lookup mode t.ranks))) t.ranks;
}

unfoldable pub update_player_rank : Str → ℕ → ℤ → ℕ → ℕ → M Db Done
unfolding statement updated_rank set_rank rank_of
update_player_rank mode user delta wins loses = statement λ db. (
  ok tt,
  record db {
    tables =
        set_rank mode user (updated_rank delta wins loses (rank_of mode user db.tables)) db.tables;
  },
)

unfoldable pub get_player_rank : Str → ℕ → M Db (Option PlayerRank)
unfolding statement rank_of
get_player_rank mode user = statement λ db. (ok (rank_of mode user db.committed), db)

unfoldable pub set_player_score : Str → ℕ → ℤ → M Db Done
unfolding statement
set_player_score mode user score = statement λ db. (
  ok tt,
  record db { board = insert mode (insert user score (no_rows (lookup mode db.board))) db.board },
)

-- `if matchPlayer.TeamNo == evt.WinTeamNo`: the change of the score, the wins and the losses.
unfoldable pub score_delta : Bool → ℤ
score_delta true = pos 100
score_delta false = negsuc 59

abbrev one_if : Bool → ℕ
one_if true = 1
one_if false = 0

unfoldable pub settle_player : MatchResultFinishedEvent → MatchPlayer → M Db Done
unfolding score_delta update_player_rank
settle_player evt p =
    let won = p.team_no == evt.win_team_no in
    update_player_rank evt.mode p.user_id (score_delta won) (one_if won) (if won then 0 else 1)

unfoldable pub settle_players : MatchResultFinishedEvent → List MatchPlayer → M Db Done
unfolding settle_player
settle_players evt [] = pure tt
settle_players evt (p ∷ ps) = settle_player evt p >> settle_players evt ps

-- `SetPlayerScore` of the players that have a rank.
sync_rank : Str → ℕ → Option PlayerRank → M Db Done
unfolding set_player_score
sync_rank mode user none = pure tt
sync_rank mode user (some r) = set_player_score mode user r.score

unfoldable pub sync_players : Str → List MatchPlayer → M Db Done
unfolding sync_rank get_player_rank
sync_players mode [] = pure tt
sync_players mode (p ∷ ps) = do
  r ← get_player_rank mode p.user_id
  sync_rank mode p.user_id r
  sync_players mode ps

-- An error rolls the transaction back.
unfoldable pub roll_back_on_error : {A : Type 0} → Result A × Db → Result A × Db
unfolding rollback
roll_back_on_error (ok a, db) = (ok a, db)
roll_back_on_error (err e, db) = (err e, (rollback db).1)

-- After the insertion of the event: `true` is a duplicate, and settles nothing again.
unfoldable pub after_event : MatchResultFinishedEvent → List MatchPlayer → Bool → M Db Done
unfolding rollback settle_players roll_back_on_error commit sync_players
after_event evt ps true = rollback
after_event evt ps false = do
  λ db. roll_back_on_error (settle_players evt ps db)
  commit
  sync_players evt.mode ps

-- The players of the match are read first; the mutex makes the rest one step.
unfoldable pub settle_match_result : M Db (List MatchPlayer) → MatchResultFinishedEvent → M Db Done
unfolding begin_tx add_rank_event after_event
settle_match_result get_match_players evt = do
  ps ← get_match_players
  begin_tx
  duplicate ← λ db.
      roll_back_on_error (
        add_rank_event (record { event_id = evt.event_id; match_id = evt.match_id; status = 1 }) db)
  after_event evt ps duplicate

pub record LeaderboardItem : Type 0 where
  pub rank : ℕ
  pub user_id : ℕ
  pub score : ℤ

unfoldable pub clamp_limit : ℤ → ℤ
clamp_limit limit =
    let limit' = if leb_ℤ limit (pos 0) then pos 20 else limit in
    if ltb_ℤ (pos 100) limit' then pos 100 else limit'

unfoldable pub ranked_from : ℕ → List (ℕ × ℤ) → List LeaderboardItem
ranked_from n [] = []
ranked_from n ((user, score) ∷ items) =
    record { rank = n; user_id = user; score = score } ∷ ranked_from (suc n) items

-- `ListTopN` of Redis gives the users and scores.
unfoldable pub get_leaderboard :
    {W : Type 0} → (Str → ℤ → M W (List (ℕ × ℤ))) → Str → ℤ → M W (List LeaderboardItem)
unfolding clamp_limit ranked_from
get_leaderboard list_top_n mode limit =
    if mode == []
    then fail empty_mode
    else do items ← list_top_n mode (clamp_limit limit); pure (ranked_from 1 items)
