-- ===== src/Handler/Rooms.antt =====
-- room_handler.go and ws_handler.go: the rooms over HTTP, and the connections to their hub. The
-- upgrade of a connection is a parameter, and a request is one step.
use go_lobby.Prelude.{nat_eq, ℕ, List, ◌++◌, map, Bool, Option, some}
use go_lobby.Prelude.{if◌then◌else◌, Result, ok, err, values, ◌≡◌, refl, sym, subst}
use go_lobby.Prelude.Text.{Str, str_eq}
use go_lobby.Prelude.Effect.{M, Done}
use go_lobby.Room.{Room, Rooms, get_room, check_user_in_room, ready_player}
use go_lobby.RoomHub.{RoomHub, broadcast_to_room, join_room}
use go_lobby.MapHub.{MapHub, join_map}
use go_lobby.MapHub.Receivers.{AreReceivers}
use go_lobby.RoomHub.Members.{members}
use go_lobby.Prelude.{◌≢◌, ◌⊎◌, inl, inr}
use go_lobby.RoomHub.Reach.{Reach, RunsThrough, Reach-RunsThrough}
use go_lobby.Handler.{
  CtxValue, int64, Response, answered, plain, switched, refused, respond, with_raw_user, done,
}
use go_lobby.Handler.{no_room, no_room_or_player, no_room_read, not_in_this_room, no_upgrade}

-- The message `player_ready`.
pub record PlayerReady : Type 0 where
  pub room_id : Str
  pub room : Room

-- The rooms, their hub, and the messages that clients got.
pub record Lounge : Type 0 where
  pub rooms : Rooms
  pub hub : RoomHub
  pub delivered : List (ℕ × PlayerReady)

unfoldable pub get_room_handler : Option CtxValue → Str → M Lounge (Response Room)
get_room_handler user room_id = with_raw_user user λ user_id l.
    respond (λ e. refused 404 no_room) (answered done) (get_room room_id user_id l.rooms, l)

module _ (sum32 : Str → ℕ) (room_of : ℕ → Str) (user_of : ℕ → ℕ) (accepts : ℕ → Bool) where
  unfoldable pub announced : PlayerReady → Result (List ℕ) × RoomHub → M Lounge (Response Done)
  announced message (ok receivers, hub) l = (
    ok plain,
    record l { hub = hub; delivered = l.delivered ++ map (λ client. (client, message)) receivers },
  )
  announced message (err e, hub) l = (err e, record l { hub = hub })

  unfoldable pub announce : Str → Result Room → M Lounge (Response Done)
  unfolding announced
  announce room_id (err e) l = (ok (refused 500 no_room_read), l)
  announce room_id (ok room) l =
      announced (record { room_id = room_id; room = room })
        (broadcast_to_room sum32 user_of accepts room_id l.hub) l

  unfoldable pub after_ready : Str → ℕ → Result Done × Rooms → M Lounge (Response Done)
  unfolding announce
  after_ready room_id user_id (err e, rooms) l =
      (ok (refused 404 no_room_or_player), record l { rooms = rooms })
  after_ready room_id user_id (ok _, rooms) l =
      announce room_id (get_room room_id user_id rooms) (record l { rooms = rooms })

  unfoldable pub ready_handler : ℕ → Option CtxValue → Str → M Lounge (Response Done)
  unfolding after_ready
  ready_handler now user room_id =
      with_raw_user user
        λ user_id l. after_ready room_id user_id (ready_player room_id user_id now l.rooms) l

  -- `JoinRoom`: a member of the room is connected as the client, if the upgrade succeeds.
  unfoldable pub join_room_handler : Option CtxValue → Str → Bool → ℕ → M Lounge (Response Done)
  join_room_handler user room_id upgrades client = with_raw_user user λ user_id l.
      if check_user_in_room room_id user_id l.rooms
      then (if upgrades
          then (ok switched, record l { hub = join_room sum32 room_of user_of client l.hub })
          else (ok (refused 500 no_upgrade), l))
      else (ok (refused 403 not_in_this_room), l)

-- `JoinMap`: everybody who is logged in may look at the map.
unfoldable pub join_map_handler : Option CtxValue → Bool → ℕ → M MapHub (Response Done)
join_map_handler user upgrades client = with_raw_user user λ user_id h.
    if upgrades then (ok switched, join_map client h) else (ok (refused 500 no_upgrade), h)

module _ (sum32 : Str → ℕ) (room_of : ℕ → Str) (user_of : ℕ → ℕ) (accepts : ℕ → Bool) where
  -- The room with the player went to the clients of the room that take a message, and to nobody
  -- else.
  abbrev pub Announced : Str → ℕ → Lounge → Lounge → Type 0
  Announced room_id user_id l l' =
      (room : Room) × (get_room room_id user_id l'.rooms ≡ ok room)
      × ((receivers : List ℕ) × (l'.delivered
            ≡ l.delivered
              ++ map (λ client. (client, record { room_id = room_id; room = room })) receivers)
          × AreReceivers accepts (values (members sum32 room_id l.hub)) receivers)

  -- What a request to be ready comes to.
  abbrev pub Settled : Str → ℕ → Lounge → Result Done → Result (Response Done) × Lounge → Type 0
  Settled room_id user_id l ready out =
      (resp : Response Done) × (out.0 ≡ ok resp)
      × (((resp.code ≡ 0) × (ready ≡ ok tt) × Announced room_id user_id l out.1)
          ⊎ ((resp.code ≢ 0) × (out.1.delivered ≡ l.delivered)))

  announced-Settled :
      (room_id : Str) (user_id : ℕ) (l : Lounge) (room : Room) (rooms : Rooms)
      → get_room room_id user_id rooms ≡ ok room
      → (b : Result (List ℕ) × RoomHub) → RunsThrough sum32 room_of user_of accepts room_id l.hub b
      → Settled room_id user_id l (ok tt) (
          announced sum32 room_of user_of accepts
            (record { room_id = room_id; room = room })
            b
            (record l { rooms = rooms }))
  unfolding announced
  announced-Settled room_id user_id l room rooms here (ok rs, hub) ((receivers, same, are), _, _) =
      let is : rs ≡ receivers = cc in
      (
        plain,
        refl,
        inl (
          refl,
          refl,
          (
            room,
            here,
            (
              rs,
              refl,
              subst (AreReceivers accepts (values (members sum32 room_id l.hub))) (sym is) are,
            ),
          ),
        ),
      )
  announced-Settled room_id user_id l room rooms here (err x, hub) ((receivers, same, are), _, _) =
      cc

  -- When the hub is in a reachable state, the request of a logged-in user to be ready is answered
  -- without a panic: either readying succeeds and the room as it is then goes to exactly the
  -- clients of the room that take a message, or the code of the answer is an error and nobody gets
  -- one.
  pub ready_handler-Settled :
      (now user_id : ℕ) (room_id : Str) (l : Lounge)
      → Reach sum32 room_of user_of l.hub
      → Settled room_id user_id l
          ((ready_player room_id user_id now l.rooms).0)
          (ready_handler sum32 room_of user_of accepts now (some (int64 user_id)) room_id l)
  unfolding ready_handler after_ready announce
  ready_handler-Settled now user_id room_id l reach = go (ready_player room_id user_id now l.rooms)
    where
      told :
          RunsThrough sum32 room_of user_of accepts room_id l.hub
            (broadcast_to_room sum32 user_of accepts room_id l.hub)
      told = let k = Reach-RunsThrough sum32 room_of user_of reach in k.1 accepts room_id

      shown :
          (rooms : Rooms) (g : Result Room)
          → get_room room_id user_id rooms ≡ g
          → Settled room_id user_id l
              (ok tt)
              (announce sum32 room_of user_of accepts room_id g (record l { rooms = rooms }))
      shown rooms (err e) is = (refused 500 no_room_read, refl, inr (λ z. cc, refl))
      shown rooms (ok room) is =
          announced-Settled room_id user_id l room rooms is
            (broadcast_to_room sum32 user_of accepts room_id l.hub) told

      go :
          (r : Result Done × Rooms)
          → Settled room_id user_id l r.0
              (after_ready sum32 room_of user_of accepts room_id user_id r l)
      go (err e, rooms) = (refused 404 no_room_or_player, refl, inr (λ z. cc, refl))
      go (ok tt, rooms) = shown rooms (get_room room_id user_id rooms) refl
