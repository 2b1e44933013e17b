-- ===== src/MatchQueue/Entries.antt =====
-- What a user in the queue is, internal/matchqueue/type.go and internal/dto/res, and the teams of a
-- group: the functions of internal/service/match_queue_service.go that call no store.
use go_lobby.Prelude.{ℕ, List, [], ◌∷◌, Bool, ◌||◌, ◌&&◌, Option, none, some}
use go_lobby.Prelude.{Result, ok, err, ◌==◌, leb, eqb, if◌then◌else◌}
use go_lobby.Prelude.{panic}
use go_lobby.Prelude.Int.{pos}
use go_lobby.Prelude.Text.{Str, codes, str_eq}
use go_lobby.Prelude.Effect.{M, Done, pure, fail}
use go_lobby.Responses.{MatchedTeam}
use go_lobby.Match.{MatchService}
use go_lobby.MineMatch.States.{MineMatchService}

-- `unknown` is any other text that was stored.
pub data QueueStatus : Type 0 where
  init matching matched cancelled : QueueStatus
  unknown : Str → QueueStatus

pub record QueueUserState : Type 0 where
  pub user_id : ℕ
  pub user_name : Str
  pub mode : Str
  pub status : QueueStatus
  pub match_id : ℕ
  pub ticket_id : Str
  pub room_id : Str
  pub chunk_id : Str
  pub teams : List MatchedTeam
  pub enqueue_time : ℕ
  pub updated_at : ℕ

pub record JoinMatchQueueResponse : Type 0 where
  pub queue_status : QueueStatus
  pub queue_ticket_id : Str
  pub match_id : ℕ
  pub mode : Str
  pub room_id : Str
  pub chunk_id : Str
  pub teams : List MatchedTeam

pub record StatusMatchQueueResponse : Type 0 where
  pub user_id : ℕ
  pub match_id : ℕ
  pub mode : Str
  pub status : QueueStatus
  pub ticket_id : Str
  pub room_id : Str
  pub chunk_id : Str
  pub teams : List MatchedTeam
  pub updated_at : ℕ

pub record MatchQueueRepository (W : Type 0) : Type 0 where
  pub enqueue : Str → ℕ → M W Done
  pub queue_len : Str → M W ℕ
  pub dequeue_batch : Str → ℕ → M W (List ℕ)
  pub remove_from_queue : Str → ℕ → M W Done
  pub get_user_status : ℕ → M W (Option QueueUserState)
  pub set_user_status : QueueUserState → M W Done
  pub delete_user_status : ℕ → M W Done

-- `create_room` is the room service's, and `now` reads the clock in nanoseconds.
pub record MatchQueueService (W : Type 0) : Type 0 where
  pub repo : MatchQueueRepository W
  pub ms : MatchService W
  pub mine_match_service : Option (MineMatchService W)
  pub create_room : Str → Str → ℕ → List MatchedTeam → M W Done
  pub now : M W ℕ

-- `strings.TrimSpace` on the white space of ASCII.
abbrev is_space : ℕ → Bool
is_space c = (leb 9 c && leb c 13) || eqb c 32

abbrev trim_left : Str → Str
trim_left [] = []
trim_left (c ∷ s) = let rest = trim_left s in if is_space c then rest else c ∷ s

abbrev trim_right : Str → Str
trim_right [] = []
trim_right (c ∷ s) = let rest = trim_right s in if is_space c && (rest == []) then [] else c ∷ rest

unfoldable pub trim_space : Str → Str
trim_space s = trim_right (trim_left s)

unfoldable pub get_player_count : Str → ℕ
get_player_count mode = if mode == codes "1v1" then 2 else if mode == codes "2v2" then 4 else 0

-- An index past the end of the users panics.
unfoldable pub two_teams : List ℕ → Result (List MatchedTeam)
two_teams (a ∷ b ∷ rest) = ok (
    record { team_id = pos 0; user_ids = a ∷ [] }
    ∷ record { team_id = pos 1; user_ids = b ∷ [] }
    ∷ [])
two_teams _ = err panic

unfoldable pub two_pairs : List ℕ → Result (List MatchedTeam)
two_pairs (a ∷ b ∷ c ∷ d ∷ rest) = ok (
    record { team_id = pos 0; user_ids = a ∷ b ∷ [] }
    ∷ record { team_id = pos 1; user_ids = c ∷ d ∷ [] }
    ∷ [])
two_pairs _ = err panic

-- The nil of another mode is no team.
unfoldable pub build_teams : Str → List ℕ → Result (List MatchedTeam)
build_teams mode users =
    if mode == codes "1v1"
    then two_teams users
    else if mode == codes "2v2"
    then two_pairs users
    else ok []

unfoldable pub build_join_response : QueueUserState → JoinMatchQueueResponse
build_join_response state = record {
  queue_status = state.status;
  queue_ticket_id = state.ticket_id;
  match_id = state.match_id;
  mode = state.mode;
  room_id = state.room_id;
  chunk_id = state.chunk_id;
  teams = state.teams;
}

-- A nil state is dereferenced.
unfoldable pub join_response : {W : Type 0} → Option QueueUserState → M W JoinMatchQueueResponse
unfolding build_join_response
join_response none = fail panic
join_response (some state) = pure (build_join_response state)
