-- ===== src/Tests/Lobby.antt =====
-- Rooms and ranks.
use go_lobby.Prelude.{nat_eq, ℕ, List, [], ◌∷◌, true, false, ◌≡◌, refl}
use go_lobby.Prelude.{ok, lookup, insert, IsMap}
use go_lobby.Prelude.Int.{ℤ, pos, int_eq}
use go_lobby.Prelude.Text.{Str, codes, str_eq, str_beq}
use go_lobby.Prelude.Effect.{M}
use go_lobby.Responses.{MatchedTeam}
use go_lobby.Room.{
  Room, Rooms, RoomPlayer, create_room, ready_player, add_teams, waiting, all_ready,
}
use go_lobby.Room.Ready.{start, create, IsSound, Readied}
use go_lobby.Room.Ready.{Reach-IsSound, ready_player_lem}
use go_lobby.Match.{MatchPlayer, MatchResultFinishedEvent}
use go_lobby.Rank.{
  Db, Tables, settle_match_result, begin_tx, add_rank_event, after_event, settle_players,
}
use go_lobby.Rank.{settle_player, update_player_rank, statement, statement_with, roll_back_on_error}
use go_lobby.Rank.{RankEvent, PlayerRank, no_rows, updated_rank, set_rank, rank_of, score_delta}
use go_lobby.Prelude.Int.{◌+ℤ◌}
use go_lobby.Rank.{works, refused, lost, is_duplicate}
use go_lobby.Rank.{rollback, commit, sync_players, get_player_rank, set_player_score}
use go_lobby.Prelude.{Option, none, some, inl, map, if◌then◌else◌, ◌==◌}
use go_lobby.Rank.Consumer.{Reply, consume, handle_event, Consumed, consume-Consumed}
use go_lobby.Rank.Settle.{Outcome, settle_match_result-Outcome}

abbrev duel : List MatchedTeam
duel =
    record { team_id = pos 0; user_ids = 11 ∷ [] }
    ∷ record { team_id = pos 1; user_ids = 12 ∷ [] }
    ∷ []

abbrev clock : ℕ → ℕ
clock n = n

abbrev waiting_player : ℕ → ℤ → ℕ → RoomPlayer
waiting_player user team now = record {
  user_id = user;
  user_name = [];
  team_no = team;
  online = true;
  ready = false;
  updated_at = now;
}

abbrev room : Room
room = record {
  id = codes "r_1";
  match_id = 5;
  mode = codes "1v1";
  status = waiting;
  teams = duel;
  players = (11, waiting_player 11 (pos 0) 0) ∷ (12, waiting_player 12 (pos 1) 1) ∷ [];
}

abbrev pub rooms : Rooms
rooms = (codes "r_1", room) ∷ []

created : create_room clock (codes "r_1") (codes "1v1") 5 duel [] ≡ (room, rooms)
unfolding create_room add_teams insert
created = refl

Reach-IsSound_example : IsSound room
unfolding create_room add_teams insert lookup str_beq
Reach-IsSound_example =
    Reach-IsSound (create clock (codes "r_1") (codes "1v1") 5 duel start) (codes "r_1") room refl

ready_player_lem_example :
    Readied
      (codes "r_1")
      11
      9
      room
      (waiting_player 11 (pos 0) 0)
      (ready_player (codes "r_1") 11 9 rooms)
unfolding lookup str_beq IsMap
ready_player_lem_example =
    ready_player_lem (codes "r_1") 11 9 room rooms (waiting_player 11 (pos 0) 0) refl refl
      (refl, (refl, tt)) refl

both_ready : (ready_player (codes "r_1") 12 10 (ready_player (codes "r_1") 11 9 rooms).1).0 ≡ ok tt
unfolding ready_player insert lookup str_beq all_ready
both_ready = refl

abbrev finished_duel : MatchResultFinishedEvent
finished_duel = record {
  event_id = codes "evt_5";
  match_id = 5;
  win_team_no = pos 1;
  mode = codes "1v1";
  occurred_at = 20;
}

abbrev players : List MatchPlayer
players =
    record { match_id = 5; user_id = 11; team_no = pos 0 }
    ∷ record { match_id = 5; user_id = 12; team_no = pos 1 }
    ∷ []

abbrev read_players : M Db (List MatchPlayer)
read_players db = (ok players, db)

abbrev empty_tables : Tables
empty_tables = record { events = []; ranks = [] }

-- The third statement, the first change of a rank, succeeds and the fourth fails.
abbrev flaky_db : Db
flaky_db = record {
  committed = empty_tables;
  tables = empty_tables;
  faults = works ∷ works ∷ works ∷ refused ∷ [];
  board = [];
}

settle_match_result-Outcome_example :
    Outcome finished_duel players empty_tables
      (settle_match_result read_players finished_duel flaky_db)
settle_match_result-Outcome_example =
    settle_match_result-Outcome read_players finished_duel players flaky_db refl

-- Body 5 is the event, body 6 is no JSON.
abbrev parse_event : Str → Option MatchResultFinishedEvent
parse_event body = if body == codes "5" then some finished_duel else none

abbrev bodies : List Str
bodies = codes "5" ∷ codes "6" ∷ codes "5" ∷ codes "5" ∷ []

-- The first delivery fails at its fourth statement and comes back.
consume_test :
    map (λ d. d.1) (consume parse_event (λ m. read_players) bodies flaky_db).0
    ≡ Reply.nack true ∷ Reply.nack false ∷ Reply.ack ∷ Reply.ack ∷ []
unfolding consume handle_event settle_match_result begin_tx add_rank_event after_event
    settle_players settle_player update_player_rank statement statement_with roll_back_on_error
    rollback commit sync_players get_player_rank set_player_score is_duplicate str_beq lookup insert
consume_test = refl

-- Body 7 is another event of the match.
abbrev other_event : Str → Option MatchResultFinishedEvent
other_event body =
    if body == codes "7"
    then some (record finished_duel { event_id = codes "evt_7" })
    else some finished_duel

-- The answer of the commit is lost, so the event comes back; nothing is settled again.
abbrev lossy_db : Db
lossy_db = record flaky_db { faults = works ∷ works ∷ works ∷ works ∷ lost ∷ [] }

settled_once :
    let out =
      consume other_event (λ m. read_players) (codes "5" ∷ codes "5" ∷ codes "7" ∷ []) lossy_db in
    (map (λ d. d.1) out.0 ≡ Reply.nack true ∷ Reply.ack ∷ Reply.ack ∷ [])
    × (map (λ (e : RankEvent). e.event_id) out.1.committed.events ≡ codes "evt_5" ∷ [])
    × (map
          (λ (p : ℕ × PlayerRank). p.1.score)
          (no_rows (lookup (codes "1v1") out.1.committed.ranks))
        ≡ pos 940 ∷ pos 1100 ∷ [])
unfolding consume handle_event settle_match_result begin_tx add_rank_event after_event
    settle_players settle_player update_player_rank updated_rank set_rank rank_of score_delta
    statement statement_with roll_back_on_error rollback commit sync_players get_player_rank
    set_player_score is_duplicate str_beq lookup insert ◌+ℤ◌
settled_once = (refl, refl, refl)

consume-Consumed_example :
    Consumed
      (λ m. players)
      parse_event
      empty_tables
      (consume parse_event (λ m. read_players) bodies flaky_db)
consume-Consumed_example =
    consume-Consumed (λ m. players) parse_event (λ m. read_players) (λ m db. inl refl) bodies
      flaky_db
