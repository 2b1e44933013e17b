-- ===== src/Handler/Chunks.antt =====
-- internal/handler/chunk_handler.go: opening and flagging a cell over HTTP, and the events that the
-- subscribers of the chunk get.
pub mod Events
use go_lobby.Prelude.{nat_eq, ℕ, List, [], ◌∷◌, ◌++◌, map, Bool, true, false, Option, none, some}
use go_lobby.Prelude.{if◌then◌else◌, Error, Result, ok, err, invalid_chunk_id, chunk_not_found}
use go_lobby.Prelude.{no_active_season, chunk_closed, cell_already_open, cell_flagged}
use go_lobby.Prelude.{chunk_occupied, wrong_chunk}
use go_lobby.Prelude.Int.{ℤ}
use go_lobby.Prelude.Text.{Str, codes}
use go_lobby.Prelude.Effect.{M, Done, pure}
use go_lobby.Mine.{External}
use go_lobby.Responses.{OpenMineCellResponse, FlagMineCellResponse}
use go_lobby.MapHub.{MapHub, broadcast_to_chunk}
use go_lobby.ChunkService.{ChunkService}
use go_lobby.ChunkService.Requests.{Fate, open_cell, flag_cell}
use go_lobby.Handler.{CtxValue, int64, Response, answered, refused, with_body, is_raised, done}
use go_lobby.Handler.{
  Message, not_logged_in, of_error, bad_chunk_id, no_chunk, no_season, chunk_is_closed,
}
use go_lobby.Handler.{cell_is_open, cell_has_flag, chunk_in_match, only_own_chunk}

pub record OpenMineCellRequest : Type 0 where
  pub x : ℤ
  pub y : ℤ

pub record FlagMineCellRequest : Type 0 where
  pub x : ℤ
  pub y : ℤ
  pub flagged : Bool

pub data EventData : Type 0 where
  opened : OpenMineCellResponse → EventData
  flagged : FlagMineCellResponse → EventData

pub record ChunkEvent : Type 0 where
  pub event_type : Str
  pub chunk_id : Str
  pub version : ℕ
  pub payload : EventData

-- The world of the services, the hub of the map if there is one, and the events that clients got.
pub record Server (W : Type 0) : Type 0 where
  pub world : W
  pub map_hub : Option MapHub
  pub delivered : List (ℕ × ChunkEvent)

unfoldable pub current_user_id : Option CtxValue → Option ℕ
current_user_id (some (int64 user)) = some user
current_user_id _ = none

unfoldable pub chunk_error_status : Error → ℕ
chunk_error_status invalid_chunk_id = 400
chunk_error_status chunk_not_found = 404
chunk_error_status no_active_season = 503
chunk_error_status chunk_closed = 409
chunk_error_status cell_already_open = 409
chunk_error_status cell_flagged = 409
chunk_error_status chunk_occupied = 409
chunk_error_status wrong_chunk = 403
chunk_error_status e = 500

unfoldable pub chunk_error_message : Error → Message
chunk_error_message invalid_chunk_id = bad_chunk_id
chunk_error_message chunk_not_found = no_chunk
chunk_error_message no_active_season = no_season
chunk_error_message chunk_closed = chunk_is_closed
chunk_error_message cell_already_open = cell_is_open
chunk_error_message cell_flagged = cell_has_flag
chunk_error_message chunk_occupied = chunk_in_match
chunk_error_message wrong_chunk = only_own_chunk
chunk_error_message e = of_error e

unfoldable pub write_chunk_error : {A : Type 0} → Error → Response A
unfolding chunk_error_status chunk_error_message
write_chunk_error e = refused (chunk_error_status e) (chunk_error_message e)

unfoldable pub opened_event : OpenMineCellResponse → ChunkEvent
opened_event result = record {
  event_type = if result.closed then codes "mine.chunk_closed" else codes "mine.cell_opened";
  chunk_id = result.chunk_id;
  version = result.version;
  payload = opened result;
}

unfoldable pub flagged_event : FlagMineCellResponse → ChunkEvent
flagged_event result = record {
  event_type = codes "mine.cell_flagged";
  chunk_id = result.chunk_id;
  version = result.version;
  payload = flagged result;
}

module _ {W : Type 0} where
  -- The service sees its own world.
  unfoldable pub in_world : {A : Type 0} → M W A → M (Server W) A
  in_world m server = let r = m server.world in (r.0, record server { world = r.1 })

  unfoldable pub with_current_user :
      {A : Type 0} → Option ℕ → (ℕ → M (Server W) (Response A)) → M (Server W) (Response A)
  with_current_user none next = pure (refused 401 not_logged_in)
  with_current_user (some user) next = next user

module _ {W : Type 0} (accepts : ℕ → Bool) where
  -- What a broadcast to the receivers leaves behind.
  unfoldable pub deliver : ChunkEvent → Result (List ℕ) × MapHub → M (Server W) Done
  deliver event (ok receivers, hub) server = (
    ok tt,
    record server {
      map_hub = some hub;
      delivered = server.delivered ++ map (λ client. (client, event)) receivers;
    },
  )
  deliver event (err e, hub) server = (err e, record server { map_hub = some hub })

  -- An event is always encoded.
  unfoldable pub broadcast_chunk_event : ChunkEvent → Option MapHub → M (Server W) Done
  unfolding deliver
  broadcast_chunk_event event none = pure tt
  broadcast_chunk_event event (some hub) =
      deliver event (broadcast_to_chunk accepts event.chunk_id hub)

  unfoldable pub broadcast_open_cell : OpenMineCellResponse → M (Server W) Done
  unfolding broadcast_chunk_event opened_event
  broadcast_open_cell result server =
      if result.canceled
      then (ok tt, server)
      else broadcast_chunk_event (opened_event result) server.map_hub server

  unfoldable pub broadcast_flag_cell : FlagMineCellResponse → M (Server W) Done
  unfolding broadcast_chunk_event flagged_event
  broadcast_flag_cell result server =
      broadcast_chunk_event (flagged_event result) server.map_hub server

  unfoldable pub after_broadcast :
      {A : Type 0} → A → Result Done × Server W → Result (Response A) × Server W
  after_broadcast result (ok _, server) = (ok (answered done result), server)
  after_broadcast result (err e, server) = (err e, server)

  -- The service ran: an error is written, a success is broadcast and then answered.
  unfoldable pub finish :
      {A : Type 0} → (A → M (Server W) Done) → Result A × Server W → Result (Response A) × Server W
  unfolding write_chunk_error after_broadcast
  finish broadcast (ok result, server) = after_broadcast result (broadcast result server)
  finish broadcast (err e, server) =
      if is_raised e then (err e, server) else (ok (write_chunk_error e), server)

  module _ (ext : External) (s : ChunkService W) (fate : Fate) (user : Option CtxValue)
      (raw : Str) where
    unfoldable pub open_cell_handler :
        Option OpenMineCellRequest → M (Server W) (Response OpenMineCellResponse)
    unfolding current_user_id with_current_user finish in_world broadcast_open_cell
    open_cell_handler body = with_current_user (current_user_id user) λ user_id.
        with_body body λ req server.
          finish broadcast_open_cell
            (in_world (open_cell s ext fate user_id raw req.x req.y) server)

    unfoldable pub flag_cell_handler :
        Option FlagMineCellRequest → M (Server W) (Response FlagMineCellResponse)
    unfolding current_user_id with_current_user finish in_world broadcast_flag_cell
    flag_cell_handler body = with_current_user (current_user_id user) λ user_id.
        with_body body λ req server.
          finish broadcast_flag_cell
            (in_world (flag_cell s ext fate user_id raw req.x req.y req.flagged) server)
