-- ===== src/Tests/Sockets.antt =====
-- The hub of the rooms, and the handlers that write to sockets.
use go_lobby.Prelude.{nat_eq, ℕ, [], ◌∷◌, Bool, true, false, none, some, ok}
use go_lobby.Prelude.{◌≡◌, refl, lookup, insert, eqb, not}
use go_lobby.Prelude.Int.{pos}
use go_lobby.Prelude.Text.{Str, codes, str_eq, str_beq}
use go_lobby.Prelude.Effect.{Done, pure}
use go_lobby.Mine.{External, MineSeason}
use go_lobby.MineMatch.States.{MineChunkStateStore}
use go_lobby.ChunkState.{MineChunkState, OpenedCell}
use go_lobby.ChunkService.{ChunkService, already_open_response, blank_response, apply_result}
use go_lobby.ChunkService.{
  parse_playable_chunk_id, parse_demo_chunk_id, open_cell_in_worker, authorize,
}
use go_lobby.ChunkService.{load_or_new_chunk_state, reopen_expired_chunk, open_in_state}
use go_lobby.ChunkService.Reopen.{reopening}
use go_lobby.Chunk.{
  parse_chunk_id, chunk_grid_size, ensure_playable_chunk, off_grid, chunk_cell_index,
}
use go_lobby.Chunk.{chunk_id_string}
use go_lobby.Chunk.Numbers.{split, atoi, itoa}
use go_lobby.ChunkService.Requests.{served, open_cell}
use go_lobby.Chunk.{ChunkId, cn}
use go_lobby.MapHub.{
  broadcast_to_chunk, broadcast_to, subscribe, add_client, new_map_hub, join_map,
  replace_subscriptions,
}
use go_lobby.Room.{ready_player}
use go_lobby.RoomHub.{RoomHub, new_room_hub, join_room, leave_room, broadcast_to_room}
use go_lobby.RoomHub.Reach.{Reach, start, join, RunsThrough, Reach-RunsThrough}
use go_lobby.RoomHub.Client.{read_message, own_answer, write_answer, chat_sent}
use go_lobby.RoomHub.{broadcast_found, send_all, after_send, room_segment, set_segment}
use go_lobby.RoomHub.{put_members, room_hub_segment_index}
use go_lobby.Prelude.{Option, err, panic, delete}
use go_lobby.RoomHub.Session.{Session, IsAnswered, read_message-IsAnswered}
use go_lobby.Handler.{int64, answered, done}
use go_lobby.Handler.Chunks.{Server, OpenMineCellRequest, open_cell_handler, finish}
use go_lobby.Handler.Chunks.{
  after_broadcast, broadcast_open_cell, opened_event, broadcast_chunk_event,
}
use go_lobby.Handler.Chunks.{deliver}
use go_lobby.Handler.Chunks.Events.{Told, open_cell_handler-Told}
use go_lobby.Handler.Rooms.{Lounge, Settled, ready_handler, ready_handler-Settled}
use go_lobby.Tests.Lobby.{rooms}

abbrev r_1 : Str
r_1 = codes "r_1"

-- Every room falls into the same segment; a client is its user's first connection below 100.
abbrev one_hash : Str → ℕ
one_hash room = 37

abbrev in_r_1 : ℕ → Str
in_r_1 client = r_1

abbrev user_of_client : ℕ → ℕ
user_of_client client = client

abbrev not_12 : ℕ → Bool
not_12 client = not (eqb client 12)

abbrev connected : RoomHub
connected =
    join_room one_hash in_r_1 user_of_client 12
      (join_room one_hash in_r_1 user_of_client 11 new_room_hub)

connected-Reach : Reach one_hash in_r_1 user_of_client connected
unfolding new_room_hub join_room
connected-Reach = join 12 refl (join 11 refl start)

Reach-RunsThrough_example :
    ((client : ℕ) → (leave_room one_hash in_r_1 user_of_client client connected).0 ≡ ok tt)
    × ((accepts : ℕ → Bool) (room : Str)
        → RunsThrough one_hash in_r_1 user_of_client accepts room connected
            (broadcast_to_room one_hash user_of_client accepts room connected))
Reach-RunsThrough_example = Reach-RunsThrough one_hash in_r_1 user_of_client connected-Reach

-- Client 12 connects while client 11 is there, whose message then reaches itself alone.
connected-Session : Session one_hash in_r_1 user_of_client 11 connected
unfolding new_room_hub join_room
connected-Session = Session.joined 12 refl (Session.connected start refl)

abbrev chat : Option Str
chat = some (codes "chat")

read_message-IsAnswered_example :
    let out = read_message one_hash in_r_1 user_of_client not_12 11 chat connected in
    IsAnswered one_hash in_r_1 user_of_client not_12 11 (own_answer chat) connected out true
    × ((leave_room one_hash in_r_1 user_of_client 11 out.1).0 ≡ ok tt)
unfolding str_beq
read_message-IsAnswered_example =
    read_message-IsAnswered one_hash in_r_1 user_of_client not_12 chat refl connected-Session

-- The channel of client 12 was full and is closed; its next ping panics.
slow_client_pings :
    (read_message one_hash in_r_1 user_of_client not_12 12
      (some (codes "ping"))
      (read_message one_hash in_r_1 user_of_client not_12 11 chat connected).1).0
    ≡ err panic
unfolding read_message write_answer chat_sent broadcast_to_room broadcast_found send_all after_send
    room_segment set_segment put_members room_hub_segment_index join_room new_room_hub str_beq
    lookup insert delete
slow_client_pings = refl

abbrev lounge : Lounge
lounge = record { rooms = rooms; hub = connected; delivered = [] }

ready_handler-Settled_example :
    Settled one_hash in_r_1 user_of_client not_12 r_1 11 lounge
      (ready_player r_1 11 9 rooms).0
      (ready_handler one_hash in_r_1 user_of_client not_12 9 (some (int64 11)) r_1 lounge)
ready_handler-Settled_example =
    ready_handler-Settled one_hash in_r_1 user_of_client not_12 9 11 r_1 lounge connected-Reach

-- A cell that is open already, in a chunk that client 3 watches.
abbrev leaf : ChunkId
leaf = record { region = cn; z = pos 6; x = pos 12; y = pos 40 }

abbrev open_already : OpenedCell
open_already = record {
  x = pos 1;
  y = pos 0;
  index = 1;
  opened_by = 11;
  opened_at = 4;
  adjacent_mines = 2;
}

abbrev chunk_state : MineChunkState
chunk_state = record {
  season_id = 1;
  chunk_id = codes "cn:6:12:40";
  closed = false;
  closed_by = 0;
  closed_at = none;
  closed_until = none;
  version = 2;
  opened_cells = (1, open_already) ∷ [];
  flagged_by = [];
}

abbrev stored : MineChunkStateStore Done
stored = record {
  get_state = λ season chunk. pure (some chunk_state);
  save_state = λ state. pure tt;
  list_closed_leaf_chunk_ids = λ season. pure [];
}

abbrev season : MineSeason
season = record {
  id = 1;
  code = codes "s1";
  seed = codes "x";
  mine_rate = 0;
  algorithm_version = pos 1;
}

abbrev service : ChunkService Done
service = record {
  season_reader = some (pure (some season));
  state_store = some stored;
  mine_match_service = none;
  closure_duration = 10;
  now = pure 9;
}

abbrev no_floats : External
no_floats = record {
  le = λ a b. true;
  mul = λ a b. a;
  to_uint64 = λ a. a;
  float_zero = 0;
  float_one = 1;
  float_max_uint64 = 0;
  hmac_sha256 = λ key message. [];
}

abbrev watched : Server Done
watched = record {
  world = tt;
  map_hub = some (replace_subscriptions 3 (codes "cn:6:12:40" ∷ []) (join_map 3 new_map_hub));
  delivered = [];
}

abbrev asked : OpenMineCellRequest
asked = record { x = pos 1; y = pos 0 }

open_cell_handler-Told_example :
    let out =
      open_cell_handler not_12 no_floats service served
        (some (int64 11))
        (codes "cn:6:12:40")
        (some asked)
        watched in
    Told not_12 (some (already_open_response leaf chunk_state open_already)) watched out.1
unfolding open_cell_handler open_cell parse_playable_chunk_id parse_demo_chunk_id parse_chunk_id
    split str_beq atoi chunk_grid_size ensure_playable_chunk off_grid open_cell_in_worker
    chunk_cell_index authorize load_or_new_chunk_state reopen_expired_chunk reopening open_in_state
    lookup already_open_response blank_response apply_result chunk_id_string itoa finish
    after_broadcast broadcast_open_cell opened_event broadcast_chunk_event deliver
    broadcast_to_chunk broadcast_to replace_subscriptions join_map insert subscribe add_client
    new_map_hub
open_cell_handler-Told_example =
    open_cell_handler-Told not_12 no_floats service served (some (int64 11)) (codes "cn:6:12:40")
      (some asked) watched
      {resp = answered done (already_open_response leaf chunk_state open_already)} refl
