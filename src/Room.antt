-- ===== src/Room.antt =====
-- internal/service/room_service.go and internal/model/room.go: the rooms of the matches and the
-- readiness of their players. The mutex of the service makes each operation one step. `clock n` is
-- the n-th reading of the clock in an operation.
pub mod Ready
use go_lobby.Prelude.{
  nat_eq, ℕ, zero, suc, ◌+◌, List, [], ◌∷◌, Bool, true, false, Option, none, some,
}
use go_lobby.Prelude.{Result, ok, err, lookup, insert, has_value, room_not_found, not_waiting}
use go_lobby.Prelude.{player_not_found, not_in_room, length, Error, if◌then◌else◌}
use go_lobby.Prelude.Int.{ℤ}
use go_lobby.Prelude.Text.{Str, str_eq}
use go_lobby.Prelude.Effect.{Done}
use go_lobby.Responses.{MatchedTeam}

pub data RoomStatus : Type 0 where
  waiting playing finished : RoomStatus

pub record RoomPlayer : Type 0 where
  pub user_id : ℕ
  pub user_name : Str
  pub team_no : ℤ
  pub online : Bool
  pub ready : Bool
  pub updated_at : ℕ

abbrev pub Players : Type 0
Players = List (ℕ × RoomPlayer)

-- `RoomInfoResponse` has the same fields.
pub record Room : Type 0 where
  pub id : Str
  pub match_id : ℕ
  pub mode : Str
  pub status : RoomStatus
  pub teams : List MatchedTeam
  pub players : Players

abbrev pub Rooms : Type 0
Rooms = List (Str × Room)

module _ (clock : ℕ → ℕ) where
  unfoldable pub add_users : ℤ → ℕ → List ℕ → Players → Players
  add_users team n [] players = players
  add_users team n (user ∷ users) players = add_users team (suc n) users (
      insert user
        (record {
          user_id = user;
          user_name = [];
          team_no = team;
          online = true;
          ready = false;
          updated_at = clock n;
        })
        players)

  unfoldable pub add_teams : ℕ → List MatchedTeam → Players → Players
  unfolding add_users
  add_teams n [] players = players
  add_teams n (team ∷ teams) players =
      add_teams (n + length team.user_ids) teams (add_users team.team_id n team.user_ids players)

  unfoldable pub create_room : Str → Str → ℕ → List MatchedTeam → Rooms → Room × Rooms
  create_room room_id mode match_id teams rooms =
      let room : Room = record {
        id = room_id;
        match_id = match_id;
        mode = mode;
        status = waiting;
        teams = teams;
        players = add_teams 0 teams [];
      } in
      (room, insert room_id room rooms)

unfoldable pub get_room : Str → ℕ → Rooms → Result Room
get_room room_id user rooms = elim (lookup room_id rooms) [
  | none ↦ err room_not_found
  | some room ↦ if has_value (lookup user room.players) then ok room else err not_in_room
]

unfoldable pub check_user_in_room : Str → ℕ → Rooms → Bool
check_user_in_room room_id user rooms = elim (lookup room_id rooms) [
  | none ↦ false
  | some room ↦ has_value (lookup user room.players)
]

unfoldable pub all_ready : Players → Bool
all_ready [] = true
all_ready ((user, p) ∷ players) = let rest = all_ready players in if p.ready then rest else false

unfoldable pub ready_of_found : Option Room → Result Bool
ready_of_found none = err room_not_found
ready_of_found (some room) = ok (all_ready room.players)

unfoldable pub check_all_ready : Str → Rooms → Result Bool
unfolding ready_of_found
check_all_ready room_id rooms = ready_of_found (lookup room_id rooms)

-- The players are shared with the room in the map, so they change in place.
unfoldable pub with_ready : ℕ → ℕ → RoomPlayer → Room → Room
with_ready user now p room = record room {
  players = insert user (record p { ready = true; updated_at = now }) room.players;
}

unfoldable pub start_when : Str → Room → Rooms → Result Bool → Result Done × Rooms
start_when room_id room rooms (err e) = (err e, rooms)
start_when room_id room rooms (ok true) =
    (ok tt, insert room_id (record room { status = playing }) rooms)
start_when room_id room rooms (ok false) = (ok tt, rooms)

unfoldable pub ready_found_player :
    Str → ℕ → ℕ → Room → Rooms → Option RoomPlayer → Result Done × Rooms
unfolding with_ready start_when check_all_ready
ready_found_player room_id user now room rooms none = (err player_not_found, rooms)
ready_found_player room_id user now room rooms (some p) =
    let room' : Room = with_ready user now p room in
    let rooms' : Rooms = insert room_id room' rooms in
    start_when room_id room' rooms' (check_all_ready room_id rooms')

unfoldable pub ready_with_status : Str → ℕ → ℕ → Room → Rooms → RoomStatus → Result Done × Rooms
unfolding ready_found_player
ready_with_status room_id user now room rooms waiting =
    ready_found_player room_id user now room rooms (lookup user room.players)
ready_with_status room_id user now room rooms playing = (err not_waiting, rooms)
ready_with_status room_id user now room rooms finished = (err not_waiting, rooms)

unfoldable pub ready_found_room : Str → ℕ → ℕ → Rooms → Option Room → Result Done × Rooms
unfolding ready_with_status
ready_found_room room_id user now rooms none = (err room_not_found, rooms)
ready_found_room room_id user now rooms (some room) =
    ready_with_status room_id user now room rooms room.status

unfoldable pub ready_player : Str → ℕ → ℕ → Rooms → Result Done × Rooms
unfolding ready_found_room
ready_player room_id user now rooms = ready_found_room room_id user now rooms (lookup room_id rooms)
