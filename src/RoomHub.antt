-- ===== src/RoomHub.antt =====
-- internal/ws/room_hub.go: the clients that are connected to a room, one for each user, spread over
-- 32 segments by a hash of the room. A client is the number of its pointer; the fields that never
-- change are `room_of` and `user_of`. `sum32` is the hash (FNV-1a of hash/fnv), of which only the
-- segment of a room is used. The lock of a segment makes each operation one step.
pub mod Members
pub mod Sending
pub mod Placed
pub mod Leave
pub mod Reach
pub mod Client
pub mod Session
use go_lobby.Prelude.{nat_eq, ℕ, ◌%◌, List, [], ◌∷◌, Bool, true, false, Option, none, some}
use go_lobby.Prelude.{
  lookup, insert, delete, contains, if◌then◌else◌, Result, ok, err, panic, Error,
}
use go_lobby.Prelude.Text.{Str, str_eq}
use go_lobby.Prelude.Effect.{Done, M, pure, fail, ◌>>=◌, ◌>>◌}
use go_lobby.MapHub.{entries, is_empty, prepend}
use go_lobby.Workers.{update, is_worker}

-- The rooms of a segment, a user's client in each.
abbrev pub Members : Type 0
Members = List (ℕ × ℕ)

abbrev pub Segment : Type 0
Segment = List (Str × Members)

-- `closed` are the clients whose channel was closed.
pub record RoomHub : Type 0 where
  pub segments : ℕ → Segment
  pub closed : List ℕ

unfoldable pub new_room_hub : RoomHub
new_room_hub = record { segments = λ i. []; closed = [] }

-- A room without members is dropped.
unfoldable pub put_members : Str → Members → Segment → Segment
put_members room [] seg = delete room seg
put_members room (m ∷ ms) seg = insert room (m ∷ ms) seg

-- `close(client.Send)`: to close it twice panics.
unfoldable pub close_channel : ℕ → List ℕ → Result (List ℕ)
close_channel client closed = if contains client closed then err panic else ok (client ∷ closed)

module _ (sum32 : Str → ℕ) where
  unfoldable pub room_hub_segment_index : Str → ℕ
  room_hub_segment_index room = sum32 room % 32

  unfoldable pub room_segment : Str → RoomHub → Segment
  unfolding room_hub_segment_index
  room_segment room h = h.segments (room_hub_segment_index room)

  unfoldable pub set_segment : Str → Segment → RoomHub → RoomHub
  unfolding room_hub_segment_index
  set_segment room seg h = record h {
    segments = update (room_hub_segment_index room) seg h.segments;
  }

  unfoldable pub after_send :
      Str → RoomHub → Result (List ℕ) × Members × List ℕ → Result (List ℕ) × RoomHub
  unfolding room_segment set_segment put_members
  after_send room h (ok receivers, row, closed) = (
    ok receivers,
    record (set_segment room (put_members room row (room_segment room h)) h) { closed = closed },
  )
  after_send room h (err e, row, closed) = (
    err e,
    record (set_segment room (insert room row (room_segment room h)) h) { closed = closed },
  )

module _ (user_of : ℕ → ℕ) where
  -- The loop over the clients of a room: who got the message, the members left, the closed channels.
  -- To send on a closed channel panics.
  unfoldable pub send_all :
      (ℕ → Bool) → Members → Members → List ℕ → Result (List ℕ) × Members × List ℕ
  send_all accepts [] row closed = (ok [], row, closed)
  send_all accepts ((user, client) ∷ rest) row closed = elim (contains client closed) [
    | true ↦ (err panic, row, closed)
    | false ↦ elim (accepts client) [
      | true ↦ let r = send_all accepts rest row closed in (prepend client r.0, r.1, r.2)
      | false ↦ send_all accepts rest (delete (user_of client) row) (client ∷ closed)
    ]
  ]

module _ (sum32 : Str → ℕ) (room_of : ℕ → Str) (user_of : ℕ → ℕ) where
  unfoldable pub join_room : ℕ → RoomHub → RoomHub
  unfolding room_segment set_segment
  join_room client h =
      let room = room_of client in
      let seg = room_segment sum32 room h in
      set_segment sum32 room
        (insert room (insert (user_of client) client (entries (lookup room seg))) seg) h

  -- The client is in the map of the room; its channel is closed.
  unfoldable pub leave_closed : ℕ → Members → RoomHub → Result (List ℕ) → Result Done × RoomHub
  unfolding room_segment set_segment put_members
  leave_closed client row h (err e) = (
    err e,
    set_segment sum32 (room_of client)
        (insert (room_of client) (delete (user_of client) row)
          (room_segment sum32 (room_of client) h))
        h,
  )
  leave_closed client row h (ok closed) = (
    ok tt,
    record (set_segment sum32 (room_of client)
        (put_members (room_of client) (delete (user_of client) row)
          (room_segment sum32 (room_of client) h))
        h) { closed = closed },
  )

  -- Another client of the user, or none, may stand there.
  unfoldable pub leave_found : ℕ → RoomHub → Option Members → Result Done × RoomHub
  unfolding leave_closed close_channel room_segment set_segment put_members
  leave_found client h none = (ok tt, h)
  leave_found client h (some row) =
      if is_worker (lookup (user_of client) row) client
      then leave_closed client row h (close_channel client h.closed)
      else (
        ok tt,
        set_segment sum32 (room_of client)
            (put_members (room_of client) row (room_segment sum32 (room_of client) h)) h,
      )

  unfoldable pub leave_room : ℕ → RoomHub → Result Done × RoomHub
  unfolding leave_found room_segment
  leave_room client h =
      leave_found client h (lookup (room_of client) (room_segment sum32 (room_of client) h))

module _ (sum32 : Str → ℕ) (user_of : ℕ → ℕ) where
  unfoldable pub broadcast_found :
      (ℕ → Bool) → Str → RoomHub → Option Members → Result (List ℕ) × RoomHub
  unfolding send_all after_send
  broadcast_found accepts room h none = (ok [], h)
  broadcast_found accepts room h (some row) =
      after_send sum32 room h (send_all user_of accepts row row h.closed)

  unfoldable pub broadcast_to_room : (ℕ → Bool) → Str → RoomHub → Result (List ℕ) × RoomHub
  unfolding broadcast_found room_segment
  broadcast_to_room accepts room h =
      broadcast_found accepts room h (lookup room (room_segment sum32 room h))
