-- ===== src/MatchQueue.antt =====
-- internal/service/match_queue_service.go: joining, cancelling and the forming of teams. The mutex of the service makes each operation one step. The queue is in
-- Redis, behind a record of operations; an error that is wrapped on its way keeps its kind.
pub mod Entries
pub mod Teams
use go_lobby.Prelude.{
  ℕ, ◌+◌, List, [], ◌∷◌, ◌++◌, Bool, true, false, not, ◌||◌, ◌&&◌, Option, none, some,
}
use go_lobby.Prelude.{Result, ok, err, ◌==◌, ltb, leb, eqb, if◌then◌else◌, empty_mode, invalid_mode}
use go_lobby.Prelude.{no_queue_state, not_cancellable, create_failed, panic, empty_request}
use go_lobby.Prelude.Int.{pos}
use go_lobby.Prelude.Text.{Str, codes, str_eq}
use go_lobby.Prelude.Effect.{M, Done, pure, fail, lift, stop_if, and_then, with_error, ◌>>=◌, ◌>>◌}
use go_lobby.Chunk.Numbers.{itoa}
use go_lobby.Responses.{MatchedTeam}
use go_lobby.Match.{MatchService, MatchQueueResult, create_match_from_queue}
use go_lobby.MineMatch.{assign_chunk_for_match}
use go_lobby.MineMatch.States.{MineMatchService}
use go_lobby.MatchQueue.Entries.{
  JoinMatchQueueResponse, MatchQueueService, QueueStatus, QueueUserState, StatusMatchQueueResponse,
  build_join_response, build_teams, cancelled, get_player_count, join_response, matched, matching,
  trim_space,
}

abbrev attempt : {W A : Type 0} → M W A → M W (Result A)
attempt m w = (ok (m w).0, (m w).1)

module _ {W : Type 0} (s : MatchQueueService W) where
  open s use {repo, ms, mine_match_service, now}

  unfoldable pub for_users : (ℕ → M W Done) → List ℕ → M W Done
  for_users f [] = pure tt
  for_users f (user ∷ users) = f user >> for_users f users

  unfoldable pub for_teams : (ℕ → M W Done) → List MatchedTeam → M W Done
  unfolding for_users
  for_teams f [] = pure tt
  for_teams f (team ∷ teams) = for_users f team.user_ids >> for_teams f teams

  -- A user without a state is passed over.
  unfoldable pub with_state : (ℕ → QueueUserState → M W Done) → ℕ → M W Done
  with_state f user =
      repo.get_user_status user >>= elim [ none ↦ pure tt | some state ↦ f user state ]

  unfoldable pub update_user_state_to_matched : List MatchedTeam → Str → ℕ → M W Done
  unfolding for_teams with_state
  update_user_state_to_matched teams room_id match_id = do
    t ← now
    for_teams
        (with_state λ user state. repo.set_user_status (record state {
          status = matched;
          room_id = room_id;
          match_id = match_id;
          teams = teams;
          updated_at = t;
        }))
        teams

  unfoldable pub update_user_state_chunk : List MatchedTeam → Str → M W Done
  unfolding for_teams with_state
  update_user_state_chunk teams chunk_id = do
    t ← now
    for_teams
        (with_state
          λ user state. repo.set_user_status (record state { chunk_id = chunk_id; updated_at = t }))
        teams

  restore_user : Str → ℕ → QueueUserState → M W Done
  restore_user mode user state = do
    t ← now
    repo.set_user_status (record state {
      status = matching;
      match_id = 0;
      room_id = [];
      chunk_id = [];
      updated_at = t;
    })
    repo.enqueue mode user

  unfoldable pub restore_matched_users : List MatchedTeam → Str → M W Done
  unfolding for_teams with_state restore_user
  restore_matched_users teams mode = for_teams (with_state (restore_user mode)) teams

  unfoldable pub form_group : Str → ℕ → M W (Option (List MatchedTeam × Str))
  form_group mode required = do
    users ← repo.dequeue_batch mode required
    t ← now
    teams ← lift (build_teams mode users)
    pure (some (teams, codes "r_" ++ itoa (pos t)))

  unfoldable pub find_match_group : Str → M W (Option (List MatchedTeam × Str))
  unfolding form_group
  find_match_group mode = do
    stop_if (leb (get_player_count mode) 0) invalid_mode
    len ← repo.queue_len mode
    if ltb len (get_player_count mode) then pure none else form_group mode (get_player_count mode)

  unfoldable pub answer : ℕ → M W JoinMatchQueueResponse
  unfolding join_response
  answer user = do state ← repo.get_user_status user; join_response state

  -- The match of a group is created; if that fails, its users wait again.
  unfoldable pub created : List MatchedTeam → Str → Result ℕ → M W ℕ
  unfolding restore_matched_users
  created teams mode (ok match_id) = pure match_id
  created teams mode (err e) = restore_matched_users teams mode >> fail create_failed

  -- Likewise for its chunk, with the error of the assignment.
  assigned : List MatchedTeam → Str → Result Str → M W Done
  unfolding restore_matched_users update_user_state_chunk
  assigned teams mode (ok chunk_id) = update_user_state_chunk teams chunk_id
  assigned teams mode (err e) = restore_matched_users teams mode >> fail e

  unfoldable pub assign_chunk :
      Option (MineMatchService W) → List MatchedTeam → Str → Str → ℕ → M W Done
  unfolding assigned
  assign_chunk none teams room_id mode match_id = pure tt
  assign_chunk (some mms) teams room_id mode match_id =
      if mode == codes "1v1"
      then (attempt (assign_chunk_for_match mms match_id room_id teams) >>= assigned teams mode)
      else pure tt

  unfoldable pub start_match : Str → List MatchedTeam → Str → M W Done
  unfolding created assign_chunk update_user_state_to_matched
  start_match mode teams room_id = do
    outcome ←
        attempt
          (create_match_from_queue ms (record { room_id = room_id; mode = mode; teams = teams }))
    match_id ← created teams mode outcome
    update_user_state_to_matched teams room_id match_id
    assign_chunk mine_match_service teams room_id mode match_id
    with_error (s.create_room room_id mode match_id teams) create_failed

  -- `matchTeams == nil`: the user waits.
  unfoldable pub start_group : Str → Option (List MatchedTeam × Str) → M W Done
  unfolding start_match
  start_group mode none = pure tt
  start_group mode (some (teams, room_id)) = start_match mode teams room_id

  unfoldable pub enter_queue : ℕ → Str → M W JoinMatchQueueResponse
  unfolding start_group answer find_match_group
  enter_queue user mode = do
    t ← now
    ticket ← now
    repo.set_user_status (record {
      user_id = user;
      user_name = [];
      mode = mode;
      status = matching;
      match_id = 0;
      ticket_id = codes "qt_" ++ itoa (pos ticket);
      room_id = [];
      chunk_id = [];
      teams = [];
      enqueue_time = t;
      updated_at = t;
    })
    repo.enqueue mode user
    group ← find_match_group mode
    start_group mode group
    answer user

  abbrev is_active : QueueStatus → Bool
  is_active matching = true
  is_active matched = true
  is_active _ = false

  unfoldable pub join_with : ℕ → Str → Option QueueUserState → M W JoinMatchQueueResponse
  unfolding enter_queue build_join_response
  join_with user mode none = enter_queue user mode
  join_with user mode (some state) =
      if is_active state.status
      then pure (build_join_response state)
      else (repo.delete_user_status user >> enter_queue user mode)

  unfoldable pub join_mode : ℕ → Str → M W JoinMatchQueueResponse
  unfolding join_with
  join_mode user mode = do
    stop_if (mode == []) empty_mode
    state ← repo.get_user_status user
    join_with user mode state

  -- A missing request is refused before its mode is read.
  unfoldable pub join : ℕ → Option Str → M W JoinMatchQueueResponse
  unfolding join_mode trim_space
  join user none = fail empty_request
  join user (some mode) = join_mode user (trim_space mode)

  abbrev status_response : ℕ → ℕ → QueueUserState → StatusMatchQueueResponse
  status_response user match_id state = record {
    user_id = user;
    match_id = match_id;
    mode = state.mode;
    status = state.status;
    ticket_id = state.ticket_id;
    room_id = state.room_id;
    chunk_id = state.chunk_id;
    teams = state.teams;
    updated_at = state.updated_at;
  }

  status_of : ℕ → Option QueueUserState → M W StatusMatchQueueResponse
  status_of user none = fail no_queue_state
  status_of user (some state) = pure (status_response user state.match_id state)

  unfoldable pub status : ℕ → M W StatusMatchQueueResponse
  unfolding status_of
  status user = do state ← repo.get_user_status user; status_of user state

  abbrev is_matching : QueueStatus → Bool
  is_matching matching = true
  is_matching _ = false

  cancel_waiting : ℕ → QueueUserState → M W StatusMatchQueueResponse
  cancel_waiting user state = do
    repo.remove_from_queue state.mode user
    t ← now
    let state' : QueueUserState = record state { status = cancelled; updated_at = t }
    repo.set_user_status state'
    pure (status_response user 0 state')

  cancel_state : ℕ → Option QueueUserState → M W StatusMatchQueueResponse
  unfolding cancel_waiting
  cancel_state user none = fail no_queue_state
  cancel_state user (some state) = do
    stop_if (not (is_matching state.status)) not_cancellable
    cancel_waiting user state

  -- The answer to a cancellation leaves the match out.
  unfoldable pub cancel : ℕ → M W StatusMatchQueueResponse
  unfolding cancel_state
  cancel user = do state ← repo.get_user_status user; cancel_state user state
