-- ===== src/Handler.antt =====
-- internal/handler and internal/middleware: what a request is answered. gin is left out: a handler
-- gets the parts of the request that it reads, a body as `ShouldBindJSON` binds it or none, and
-- gives a response. Errors pass as values; `panic` and `stuck` end a handler.
pub mod Auth
pub mod Users
pub mod Chunks
pub mod Lobby
pub mod Rooms
pub mod Reads
use go_lobby.Prelude.{ℕ, List, Bool, true, false, Option, none, some, if◌then◌else◌}
use go_lobby.Prelude.{Error, Result, ok, err, stuck, panic}
use go_lobby.Prelude.Effect.{M, pure}
use go_lobby.MatchQueue.Entries.{QueueStatus}

-- What `c.Get` finds: an int64 or a value of another type.
pub data CtxValue : Type 0 where
  int64 : ℕ → CtxValue
  other_value : CtxValue

-- The texts of the responses.
pub data Message : Type 0 where
  done bad_parameters not_logged_in unauthorized bad_token_message wrong_context : Message
  bad_chunk_id no_chunk no_season chunk_is_closed cell_is_open cell_has_flag : Message
  chunk_in_match only_own_chunk no_user joined no_status no_cancel cancelled : Message
  no_room no_room_or_player no_room_read bad_match_id bad_limit not_in_this_room no_upgrade :
      Message
  of_error : Error → Message
  of_status : QueueStatus → Message

pub record Response (A : Type 0) : Type 0 where
  pub status : ℕ
  pub code : ℕ
  pub message : Message
  pub data_of : Option A

abbrev pub answered : {A : Type 0} → Message → A → Response A
answered message a = record { status = 200; code = 0; message = message; data_of = some a }

-- Without data.
abbrev pub plain : {A : Type 0} → Response A
plain = record { status = 200; code = 0; message = done; data_of = none }

-- The connection becomes a web socket.
abbrev pub switched : {A : Type 0} → Response A
switched = record { status = 101; code = 0; message = done; data_of = none }

abbrev pub refused : {A : Type 0} → ℕ → Message → Response A
refused status message = record {
  status = status;
  code = status;
  message = message;
  data_of = none;
}

-- Panics are no error values.
abbrev pub is_raised : Error → Bool
is_raised panic = true
is_raised stuck = true
is_raised _ = false

-- `if err != nil { … }` of a handler.
abbrev pub respond :
    {W A B : Type 0}
    → (Error → Response B)
    → (A → Response B)
    → Result A × W
    → Result (Response B) × W
respond bad good (ok a, w) = (ok (good a), w)
respond bad good (err e, w) = if is_raised e then (err e, w) else (ok (bad e), w)

-- `c.Get` and the assertion with `ok`: the two ways to have no user.
abbrev pub with_user : {W B : Type 0} → Option CtxValue → (ℕ → M W (Response B)) → M W (Response B)
with_user none next = pure (refused 401 not_logged_in)
with_user (some other_value) next = pure (refused 401 wrong_context)
with_user (some (int64 user)) next = next user

-- `rawUserID.(int64)` panics.
abbrev pub with_raw_user :
    {W B : Type 0} → Option CtxValue → (ℕ → M W (Response B)) → M W (Response B)
with_raw_user none next = pure (refused 401 unauthorized)
with_raw_user (some other_value) next = λ w. (err panic, w)
with_raw_user (some (int64 user)) next = next user

abbrev pub with_body : {W B R : Type 0} → Option R → (R → M W (Response B)) → M W (Response B)
with_body none next = pure (refused 400 bad_parameters)
with_body (some body) next = next body
