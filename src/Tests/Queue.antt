-- ===== src/Tests/Queue.antt =====
-- The queue over a store in memory.
use go_lobby.Prelude.{err, external, ◌==◌, ==-refl}
use go_lobby.Repository.{Json}
use go_lobby.Repository.Queue.{queue_key}
use go_lobby.Repository.Fifo.{Queued, IsFifo, match_queues-IsFifo}
use go_lobby.Tests.Stores.{Memory, memory, lists_at, memory-HasLists}
use go_lobby.Prelude.{nat_eq, ℕ, suc, List, [], ◌∷◌, ◌++◌, none, some}
use go_lobby.Prelude.{
  ◌≡◌, ◌≢◌, refl, ok, lookup, insert, delete, length, take, drop, arith, eqb, if◌then◌else◌,
}
use go_lobby.Prelude.Int.{pos}
use go_lobby.Prelude.Text.{Str, codes, str_eq, str_beq}
use go_lobby.Prelude.Effect.{M, pure}
use go_lobby.Chunk.Numbers.{itoa}
use go_lobby.Responses.{MatchedTeam}
use go_lobby.Match.{MatchRepository}
use go_lobby.MatchQueue.Entries.{MatchQueueService, MatchQueueRepository, QueueUserState, matching}
use go_lobby.MatchQueue.{join_mode, join_with, enter_queue, form_group, start_group, start_match}
use go_lobby.MatchQueue.{created, assign_chunk, update_user_state_to_matched, for_teams, for_users}
use go_lobby.MatchQueue.{with_state, answer}
use go_lobby.MatchQueue.Entries.{build_teams, two_teams, join_response}
use go_lobby.Prelude.{inr}
use go_lobby.Match.{create_match_from_queue, create_in_tx}
use go_lobby.MatchQueue.{find_match_group, join}
use go_lobby.MatchQueue.Entries.{get_player_count, build_join_response}
use go_lobby.MatchQueue.Entries.{trim_space}
use go_lobby.MatchQueue.Teams.{IsSplit, find_match_group_lem, join-join}

record World : Type 0 where
  queue : List ℕ
  users : List (ℕ × QueueUserState)
  time : ℕ

abbrev without : ℕ → List ℕ → List ℕ
without user [] = []
without user (u ∷ us) = let rest = without user us in if eqb u user then rest else u ∷ rest

abbrev clock : M World ℕ
clock w = (ok w.time, record w { time = suc w.time })

abbrev repository : MatchQueueRepository World
repository = record {
  enqueue = λ mode user w. (ok tt, record w { queue = w.queue ++ (user ∷ []) });
  queue_len = λ mode w. (ok (length w.queue), w);
  dequeue_batch = λ mode n w. (ok (take n w.queue), record w { queue = drop n w.queue });
  remove_from_queue = λ mode user w. (ok tt, record w { queue = without user w.queue });
  get_user_status = λ user w. (ok (lookup user w.users), w);
  set_user_status = λ state w. (ok tt, record w { users = insert state.user_id state w.users });
  delete_user_status = λ user w. (ok tt, record w { users = delete user w.users });
}

abbrev matches : MatchRepository World
matches = record {
  now = clock;
  begin_tx = pure tt;
  commit = pure tt;
  rollback = pure tt;
  create_match = λ m. pure 5;
  add_match_player = λ players. pure tt;
  get_match_by_id = λ id. pure none;
  update_match = λ m. pure tt;
  get_match_players = λ id. pure [];
}

abbrev service : MatchQueueService World
service = record {
  repo = repository;
  ms = record { repo = matches; publisher = none };
  mine_match_service = none;
  create_room = λ room_id mode match_id teams. pure tt;
  now = clock;
}

abbrev one_on_one : Str
one_on_one = codes "1v1"

abbrev state : QueueUserState
state = record {
  user_id = 11;
  user_name = [];
  mode = one_on_one;
  status = matching;
  match_id = 0;
  ticket_id = codes "qt_3";
  room_id = [];
  chunk_id = [];
  teams = [];
  enqueue_time = 3;
  updated_at = 3;
}

abbrev world : World
world = record { queue = 11 ∷ 12 ∷ 13 ∷ []; users = (11, state) ∷ []; time = 7 }

find_match_group_lem_example :
    (teams : List MatchedTeam) × (find_match_group service one_on_one world ≡ (
      ok (some (teams, codes "r_" ++ itoa (pos 7))),
      record { queue = 13 ∷ []; users = (11, state) ∷ []; time = 8 },
    ))
    × IsSplit (11 ∷ 12 ∷ []) teams
unfolding get_player_count str_beq
find_match_group_lem_example =
    find_match_group_lem service one_on_one 3 7 (11 ∷ 12 ∷ []) world world
      (record { queue = 13 ∷ []; users = (11, state) ∷ []; time = 7 }) _ (omega arith) (omega arith)
      refl refl refl refl

-- The second player of a duel joins, is matched, and joins again.
abbrev one_waits : World
one_waits = record { queue = 11 ∷ []; users = (11, state) ∷ []; time = 7 }

join-join_example :
    let first = join service 12 (some one_on_one) one_waits in
    join service 12 (some (codes " 2v2 ")) first.1 ≡ first
unfolding join join_mode join_with enter_queue find_match_group form_group start_group start_match
    created assign_chunk update_user_state_to_matched for_teams for_users with_state answer
    create_match_from_queue create_in_tx get_player_count build_teams two_teams join_response
    build_join_response lookup insert delete trim_space str_beq
join-join_example =
    join-join service 12 (some one_on_one) (codes " 2v2 ") one_waits (λ user w. refl) named refl
      (inr refl)
  where
    named : trim_space (codes " 2v2 ") ≢ []
    named e = cc

-- Two users wait for a duel in the Redis in memory.
abbrev status_json : Json QueueUserState
status_json = record { encode = λ s. err external; decode = λ raw. err external }

abbrev two_waiting : Memory
two_waiting = record {
  strings = λ k. none;
  sets = λ k. [];
  lists = λ k. if queue_key (codes "1v1") == k then itoa (pos 7) ∷ itoa (pos 8) ∷ [] else [];
}

two_waiting-Queued :
    Queued memory lists_at memory-HasLists status_json (codes "1v1") two_waiting (7 ∷ 8 ∷ [])
two_waiting-Queued = rw (==-refl (queue_key (codes "1v1"))) refl

match_queues-IsFifo_example :
    IsFifo memory lists_at memory-HasLists status_json (codes "1v1") two_waiting (7 ∷ 8 ∷ [])
match_queues-IsFifo_example =
    match_queues-IsFifo memory lists_at memory-HasLists status_json (codes "1v1") two_waiting
      (7 ∷ 8 ∷ []) (omega arith) two_waiting-Queued
