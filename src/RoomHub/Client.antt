-- ===== src/RoomHub/Client.antt =====
-- internal/ws/client.go: what a client of a room is answered to a message. Reading the socket and
-- decoding JSON are left out, and an answer that finds its channel full waits.
use go_lobby.Prelude.{nat_eq, ℕ, List, Bool, false, Option, none, some}
use go_lobby.Prelude.{contains, if◌then◌else◌, Result, ok, err, panic, ◌&&◌, not, ◌==◌}
use go_lobby.Prelude.Text.{Str, codes, str_eq}
use go_lobby.Prelude.Effect.{M}
use go_lobby.RoomHub.{RoomHub, broadcast_to_room}

-- What comes of a message: an answer to the client, or the receivers of its bytes.
pub data Outcome : Type 0 where
  pong bad_json unknown_type : Outcome
  chatted : List ℕ → Outcome

-- To send on a channel that the hub closed panics.
unfoldable pub write_answer : ℕ → Outcome → M RoomHub Outcome
write_answer client a h = if contains client h.closed then (err panic, h) else (ok a, h)

unfoldable pub chat_sent : Result (List ℕ) × RoomHub → Result Outcome × RoomHub
chat_sent (ok receivers, h) = (ok (chatted receivers), h)
chat_sent (err e, h) = (err e, h)

-- A message that decodes and has the type `chat`.
abbrev pub is_chat : Option Str → Bool
is_chat none = false
is_chat (some type) = type == codes "chat" && not (type == codes "ping")

-- What a client is told of a message that is not sent to others.
abbrev pub own_answer : Option Str → Outcome
own_answer none = bad_json
own_answer (some type) = if type == codes "ping" then pong else unknown_type

module _ (sum32 : Str → ℕ) (room_of : ℕ → Str) (user_of : ℕ → ℕ) where
  -- One round of the loop of `ReadPump`, of the type of the message; without one the text was no JSON.
  -- `accepts` are the clients whose channels have room.
  unfoldable pub read_message : (ℕ → Bool) → ℕ → Option Str → M RoomHub Outcome
  unfolding write_answer chat_sent
  read_message accepts client none h = write_answer client bad_json h
  read_message accepts client (some type) h =
      if type == codes "ping"
      then write_answer client pong h
      else if type == codes "chat"
      then chat_sent (broadcast_to_room sum32 user_of accepts (room_of client) h)
      else write_answer client unknown_type h
