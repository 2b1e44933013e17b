-- ===== src/Room/Ready.antt =====
-- The rooms as a state machine.
use go_lobby.Prelude.{
  nat_eq, ℕ, suc, List, [], ◌∷◌, Bool, true, false, Option, none, some, ◌≡◌, refl,
}
use go_lobby.Prelude.{◌⊎◌, inl, inr, sym, ◌∙◌, ap, subst, length, ◌+◌, ok, arith, Result, ◌↔◌}
use go_lobby.Prelude.{lookup, insert, IsMap, insert-IsMap, lookup-insert, Bool-cases}
use go_lobby.Prelude.{◌==◌, ==-refl, eqb_iff, if◌then◌else◌}
use go_lobby.Prelude.Effect.{Done}
use go_lobby.Prelude.Int.{ℤ}
use go_lobby.Prelude.Text.{Str, str_eq}
use go_lobby.Responses.{MatchedTeam}
use go_lobby.Room.{Room, Rooms, RoomPlayer, Players, waiting, playing, finished, RoomStatus}
use go_lobby.Room.{add_users, add_teams, create_room, all_ready, check_all_ready}
use go_lobby.Room.{with_ready, start_when, ready_of_found, ready_found_player, ready_with_status}
use go_lobby.Room.{ready_found_room, ready_player}

-- Somebody is not ready, or there is nobody.
abbrev Unready : Players → Type 0
Unready players = (all_ready players ≡ false) ⊎ (players ≡ [])

-- A room plays when all its players are ready, and waits while one is not.
abbrev pub IsSound : Room → Type 0
IsSound room =
    IsMap room.players
    × (((room.status ≡ playing) × (all_ready room.players ≡ true))
        ⊎ ((room.status ≡ waiting) × Unready room.players))

all_ready-insert :
    (k : ℕ) (p : RoomPlayer) (players : Players)
    → p.ready ≡ false
    → all_ready (insert k p players) ≡ false
unfolding all_ready insert
all_ready-insert k p [] h = rw h refl
all_ready-insert k p ((j, q) ∷ players) h = ground (arith, all_ready-insert k p players h)

add_users-Unready :
    (clock : ℕ → ℕ) (team : ℤ) (n : ℕ) (users : List ℕ) (players : Players)
    → IsMap players × Unready players
    → IsMap (add_users clock team n users players) × Unready (add_users clock team n users players)
unfolding add_users
add_users-Unready clock team n [] players h = h
add_users-Unready clock team n (user ∷ users) players (i, _) =
    add_users-Unready clock team (suc n) users _
      (insert-IsMap user _ players i, inl (all_ready-insert user _ players refl))

add_teams-Unready :
    (clock : ℕ → ℕ) (n : ℕ) (teams : List MatchedTeam) (players : Players)
    → IsMap players × Unready players
    → IsMap (add_teams clock n teams players) × Unready (add_teams clock n teams players)
unfolding add_teams
add_teams-Unready clock n [] players h = h
add_teams-Unready clock n (team ∷ teams) players h =
    add_teams-Unready clock (n + length team.user_ids) teams _
      (add_users-Unready clock team.team_id n team.user_ids players h)

-- A predicate at every room, and at every room but one.
abbrev EveryRoom : (Room → Type 0) → Rooms → Type 0
EveryRoom P rooms = (id : Str) (room : Room) → lookup id rooms ≡ some room → P room

abbrev EveryOther : (Room → Type 0) → Str → Rooms → Type 0
EveryOther P key rooms =
    (id : Str) (room : Room) → (key == id) ≡ false → lookup id rooms ≡ some room → P room

EveryRoom-insert :
    (P : Room → Type 0) (key : Str) (new : Room) (rooms : Rooms)
    → EveryOther P key rooms
    → P new
    → EveryRoom P (insert key new rooms)
EveryRoom-insert P key new rooms h p id room found =
    go (key == id) refl (sym (lookup-insert key id new rooms) ∙ found)
  where
    go :
        (b : Bool)
        → (key == id) ≡ b
        → (if b then some new else lookup id rooms) ≡ some room
        → P room
    go true e same = subst P (cc same) p
    go false e other = h id room e other

EveryOther-insert :
    (P : Room → Type 0) (key : Str) (new : Room) (rooms : Rooms)
    → EveryOther P key rooms
    → EveryOther P key (insert key new rooms)
EveryOther-insert P key new rooms h id room other found =
    h id room other (sym (lookup-insert key id new rooms ∙ rw other refl) ∙ found)

check_all_ready-insert :
    (key : Str) (room : Room) (rooms : Rooms)
    → check_all_ready key (insert key room rooms) ≡ ok (all_ready room.players)
unfolding check_all_ready ready_of_found
check_all_ready-insert key room rooms = rw (lookup-insert key key room rooms, ==-refl key) refl

start_when-IsSound :
    (key : Str) (room : Room) (rooms : Rooms) (b : Bool)
    → all_ready room.players ≡ b
    → IsMap room.players
    → room.status ≡ waiting
    → EveryOther IsSound key rooms
    → EveryRoom IsSound (start_when key room (insert key room rooms) (ok b)).1
unfolding start_when
start_when-IsSound key room rooms true r i w h =
    EveryRoom-insert IsSound key _ (insert key room rooms)
      (EveryOther-insert IsSound key room rooms h) (i, inl (refl, r))
start_when-IsSound key room rooms false r i w h =
    EveryRoom-insert IsSound key room rooms h (i, inr (w, inl r))

ready_found_player-IsSound :
    (key : Str) (user now : ℕ) (room : Room) (rooms : Rooms) (found : Option RoomPlayer)
    → IsMap room.players
    → room.status ≡ waiting
    → EveryRoom IsSound rooms
    → EveryRoom IsSound (ready_found_player key user now room rooms found).1
unfolding ready_found_player with_ready
ready_found_player-IsSound key user now room rooms none i w h = h
ready_found_player-IsSound key user now room rooms (some p) i w h =
    let room' : Room = with_ready user now p room in
    subst (λ r. EveryRoom IsSound (start_when key room' (insert key room' rooms) r).1)
      (sym (check_all_ready-insert key room' rooms))
      (start_when-IsSound key room' rooms (all_ready room'.players) refl
        (insert-IsMap user _ room.players i) w (λ id other_room other. h id other_room))

ready_with_status-IsSound :
    (key : Str) (user now : ℕ) (room : Room) (rooms : Rooms) (status : RoomStatus)
    → room.status ≡ status
    → IsMap room.players
    → EveryRoom IsSound rooms
    → EveryRoom IsSound (ready_with_status key user now room rooms status).1
unfolding ready_with_status
ready_with_status-IsSound key user now room rooms waiting w i h =
    ready_found_player-IsSound key user now room rooms (lookup user room.players) i w h
ready_with_status-IsSound key user now room rooms playing w i h = h
ready_with_status-IsSound key user now room rooms finished w i h = h

ready_found_room-IsSound :
    (key : Str) (user now : ℕ) (rooms : Rooms) (found : Option Room)
    → lookup key rooms ≡ found
    → EveryRoom IsSound rooms
    → EveryRoom IsSound (ready_found_room key user now rooms found).1
unfolding ready_found_room
ready_found_room-IsSound key user now rooms none e h = h
ready_found_room-IsSound key user now rooms (some room) e h =
    ready_with_status-IsSound key user now room rooms room.status refl (h key room e).0 h

-- The rooms that creations and readinesses in any order lead to from none.
pub data Reach : Rooms → Type 0 where
  start : Reach []
  create :
      {rooms : Rooms} (clock : ℕ → ℕ) (room_id mode : Str) (match_id : ℕ) (teams : List MatchedTeam)
      → Reach rooms
      → Reach (create_room clock room_id mode match_id teams rooms).1
  ready :
      {rooms : Rooms} (room_id : Str) (user now : ℕ)
      → Reach rooms
      → Reach (ready_player room_id user now rooms).1

fresh :
    (clock : ℕ → ℕ) (teams : List MatchedTeam) (id mode : Str) (match_id : ℕ)
    → IsSound (record {
      id = id;
      match_id = match_id;
      mode = mode;
      status = waiting;
      teams = teams;
      players = add_teams clock 0 teams [];
    })
unfolding IsMap
fresh clock teams id mode match_id =
    let unready = add_teams-Unready clock 0 teams [] (tt, inr refl) in
    (unready.0, inr (refl, unready.1))

-- Creations and readinesses in any order leave each room sound: it plays and everybody in it is
-- ready, or it waits and somebody in it is not ready or nobody is in it.
pub Reach-IsSound :
    {rooms : Rooms}
    → Reach rooms
    → (id : Str) (room : Room) → lookup id rooms ≡ some room
    → IsSound room
unfolding create_room ready_player lookup
Reach-IsSound start = λ id room found. cc
Reach-IsSound (create {rooms = rooms} clock room_id mode match_id teams r) =
    EveryRoom-insert IsSound room_id _ rooms (λ id other_room other. Reach-IsSound r id other_room)
      (fresh clock teams room_id mode match_id)
Reach-IsSound (ready {rooms = rooms} room_id user now r) =
    ready_found_room-IsSound room_id user now rooms (lookup room_id rooms) refl (Reach-IsSound r)

abbrev pub EveryoneReady : Players → Type 0
EveryoneReady players = (user : ℕ) (p : RoomPlayer) → lookup user players ≡ some p → p.ready ≡ true

all_ready-EveryoneReady : (players : Players) → all_ready players ≡ true → EveryoneReady players
unfolding all_ready lookup
all_ready-EveryoneReady [] h user p found = cc
all_ready-EveryoneReady ((j, q) ∷ players) h user p found =
    let rest : all_ready players ≡ true = ground arith in
    ground (arith, all_ready-EveryoneReady players rest user p)

none_is_not_some : {p : RoomPlayer} → none ≡ some p → ⊥
none_is_not_some e = cc

EveryoneReady-all_ready :
    (players : Players) → IsMap players → EveryoneReady players → all_ready players ≡ true
unfolding all_ready IsMap lookup
EveryoneReady-all_ready [] i h = refl
EveryoneReady-all_ready ((j, q) ∷ players) (new, i) h = rw (h j q (rw (==-refl j) refl)) (
    EveryoneReady-all_ready players i (λ user p found. h user p (elim (Bool-cases (j == user)) [
      | inl same ↦ absurd (
          none_is_not_some
            (sym new ∙ (ap (λ k. lookup k players) ((eqb_iff j user).0 same) ∙ found)))
      | inr other ↦ rw other found
    ])))

after_ready :
    (key : Str) (user now : ℕ) (room : Room) (rooms : Rooms) (p : RoomPlayer)
    → lookup key rooms ≡ some room
    → room.status ≡ waiting
    → lookup user room.players ≡ some p
    → ready_player key user now rooms
      ≡ start_when key
          (with_ready user now p room)
          (insert key (with_ready user now p room) rooms)
          (ok (all_ready (with_ready user now p room).players))
unfolding ready_player ready_found_room ready_with_status ready_found_player
after_ready key user now room rooms p found w member =
    let room' : Room = with_ready user now p room in
    ap (ready_found_room key user now rooms) found
    ∙ ap (ready_with_status key user now room rooms) w
    ∙ ap (ready_found_player key user now room rooms) member
    ∙ ap (start_when key room' (insert key room' rooms)) (check_all_ready-insert key room' rooms)

-- What is stored once a player of a waiting room was made ready.
abbrev pub Readied : Str → ℕ → ℕ → Room → RoomPlayer → Result Done × Rooms → Type 0
Readied key user now room p out =
    (out.0 ≡ ok tt)
    × (room' : Room) × (lookup key out.1 ≡ some room')
    × ((other : ℕ)
        → lookup other room'.players ≡ (
            if user == other
            then some (record p { ready = true; updated_at = now })
            else lookup other room.players))
    × ((room'.status ≡ playing) ↔ EveryoneReady room'.players)

waiting_is_not_playing : waiting ≡ playing → ⊥
waiting_is_not_playing e = cc

true_is_not_false : true ≡ false → ⊥
true_is_not_false e = cc

start_when-Readied :
    (key : Str) (user now : ℕ) (room : Room) (rooms : Rooms) (p : RoomPlayer) (b : Bool)
    → all_ready (with_ready user now p room).players ≡ b
    → room.status ≡ waiting
    → IsMap room.players
    → Readied key user now room p (
        start_when key
          (with_ready user now p room)
          (insert key (with_ready user now p room) rooms)
          (ok b))
unfolding start_when with_ready
start_when-Readied key user now room rooms p true r w i = (
  refl,
  record (with_ready user now p room) { status = playing },
  rw
      (
        lookup-insert key key (record (with_ready user now p room) { status = playing })
            (insert key (with_ready user now p room) rooms),
        ==-refl key,
      )
      refl,
  λ other. lookup-insert user other _ room.players,
  (λ started. all_ready-EveryoneReady _ r, λ everyone. refl),
)
start_when-Readied key user now room rooms p false r w i = (
  refl,
  with_ready user now p room,
  rw (lookup-insert key key (with_ready user now p room) rooms, ==-refl key) refl,
  λ other. lookup-insert user other _ room.players,
  (
    λ started. absurd (waiting_is_not_playing (sym w ∙ started)),
    λ everyone. absurd (
        true_is_not_false
          (sym (EveryoneReady-all_ready _ (insert-IsMap user _ room.players i) everyone) ∙ r)),
  ),
)

-- A player of a waiting room who readies is ready from then on, the others stay as they were, and
-- the game starts exactly when with that everyone is ready.
pub ready_player_lem :
    (key : Str) (user now : ℕ) (room : Room) (rooms : Rooms) (p : RoomPlayer)
    → lookup key rooms ≡ some room
    → room.status ≡ waiting
    → IsMap room.players
    → lookup user room.players ≡ some p
    → Readied key user now room p (ready_player key user now rooms)
ready_player_lem key user now room rooms p found w i member =
    subst (Readied key user now room p) (sym (after_ready key user now room rooms p found w member))
      (start_when-Readied key user now room rooms p _ refl w i)
