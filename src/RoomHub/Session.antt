-- ===== src/RoomHub/Session.antt =====
-- A client of a room while it is connected: as long as its channel takes what is sent to it, no
-- message meets a closed channel.
use go_lobby.Prelude.{nat_eq, ℕ, List, [], ◌∷◌, Bool, true, false, Option, none, some}
use go_lobby.Prelude.{contains, if◌then◌else◌, Result, ok, err, panic, ◌&&◌, not}
use go_lobby.Prelude.{◌≡◌, refl, ap, ◌∙◌, ◌==◌}
use go_lobby.Prelude.{lookup, delete}
use go_lobby.Prelude.Text.{Str, codes, str_eq}
use go_lobby.MapHub.{prepend}
use go_lobby.Workers.{is_worker}
use go_lobby.RoomHub.{RoomHub, Members, put_members, room_segment, set_segment, close_channel}
use go_lobby.RoomHub.{join_room, leave_room, leave_found, leave_closed, broadcast_to_room}
use go_lobby.RoomHub.{broadcast_found, after_send, send_all}
use go_lobby.RoomHub.Leave.{still_open}
use go_lobby.RoomHub.Reach.{Reach, join, leave, broadcast, RunsThrough, Reach-RunsThrough}
use go_lobby.RoomHub.Client.{
  Outcome, pong, bad_json, unknown_type, chatted, chat_sent, write_answer, read_message, is_chat,
  own_answer,
}

-- A broadcast closes no channel that takes its message.
send_all-open :
    (user_of : ℕ → ℕ) (accepts : ℕ → Bool) (c : ℕ)
    → accepts c ≡ true
    → (rest row : Members) (closed : List ℕ) → contains c closed ≡ false
    → contains c ((send_all user_of accepts rest row closed).2) ≡ false
unfolding send_all
send_all-open user_of accepts c on [] row closed open_ = open_
send_all-open user_of accepts c on ((user, client) ∷ rest) row closed open_ =
    go (contains client closed) (accepts client) refl
      (send_all-open user_of accepts c on rest row closed open_)
      (send_all-open user_of accepts c on rest (delete (user_of client) row) (client ∷ closed))
  where
    go :
        (b d : Bool)
        → accepts client ≡ d
        → contains c ((send_all user_of accepts rest row closed).2) ≡ false
        → (contains c (client ∷ closed) ≡ false
            → contains c
                ((send_all user_of accepts rest (delete (user_of client) row) (client ∷ closed)).2)
              ≡ false)
        → let r : Result (List ℕ) × Members × List ℕ = elim b [
          | true ↦ (err panic, row, closed)
          | false ↦ elim d [
            | true ↦
                let r = send_all user_of accepts rest row closed in (prepend client r.0, r.1, r.2)
            | false ↦ send_all user_of accepts rest (delete (user_of client) row) (client ∷ closed)
          ]
        ] in
          contains c r.2 ≡ false
    go true d e one two = open_
    go false true e one two = one
    go false false e one two = two (still_open client c closed (λ same. differ same e) open_)
      where
        differ : client ≡ c → accepts client ≡ false → ⊥
        differ same off = let this : accepts client ≡ true = ap accepts same ∙ on in cc

module _ (sum32 : Str → ℕ) (room_of : ℕ → Str) (user_of : ℕ → ℕ) where
  broadcast-open :
      (accepts : ℕ → Bool) (room : Str) (c : ℕ) (h : RoomHub)
      → accepts c ≡ true
      → contains c h.closed ≡ false
      → contains c (broadcast_to_room sum32 user_of accepts room h).1.closed ≡ false
  unfolding broadcast_to_room broadcast_found after_send set_segment
  broadcast-open accepts room c h on open_ = go (lookup room (room_segment sum32 room h))
    where
      sent :
          (r : Result (List ℕ) × Members × List ℕ)
          → contains c r.2 ≡ false
          → contains c (after_send sum32 room h r).1.closed ≡ false
      sent (ok receivers, row, closed) still = still
      sent (err e, row, closed) still = still

      go :
          (o : Option Members)
          → contains c (broadcast_found sum32 user_of accepts room h o).1.closed ≡ false
      go none = open_
      go (some row) =
          sent (send_all user_of accepts row row h.closed)
            (send_all-open user_of accepts c on row row h.closed open_)

  leave-open :
      (client c : ℕ) (h : RoomHub)
      → (client ≡ c → ⊥)
      → contains c h.closed ≡ false
      → contains c (leave_room sum32 room_of user_of client h).1.closed ≡ false
  unfolding leave_room leave_found leave_closed close_channel set_segment
  leave-open client c h other open_ =
      go (lookup (room_of client) (room_segment sum32 (room_of client) h))
    where
      shut :
          (row : Members) (b : Bool)
          → contains c
              (leave_closed sum32 room_of user_of client row h
                (if b then err panic else ok (client ∷ h.closed))).1.closed
            ≡ false
      shut row true = open_
      shut row false = still_open client c h.closed other open_

      here :
          (row : Members) (b : Bool)
          → contains c
              (if b
                then leave_closed sum32 room_of user_of client row h (close_channel client h.closed)
                else (
                  ok tt,
                  set_segment sum32
                      (room_of client)
                      (put_members (room_of client) row (room_segment sum32 (room_of client) h))
                      h,
                )).1.closed
            ≡ false
      here row true = shut row (contains client h.closed)
      here row false = open_

      go :
          (o : Option Members)
          → contains c (leave_found sum32 room_of user_of client h o).1.closed ≡ false
      go none = open_
      go (some row) = here row (is_worker (lookup (user_of client) row) client)

  -- The hub while a client is connected whose channel takes what is sent to it: others, or the client
  -- of a newer connection of its user, connect, leave and send messages, and the server broadcasts.
  pub data Session (client : ℕ) : RoomHub → Type 0 where
    connected :
        {h : RoomHub}
        → Reach sum32 room_of user_of h
        → contains client h.closed ≡ false
        → Session client (join_room sum32 room_of user_of client h)
    joined :
        {h : RoomHub} (other : ℕ)
        → contains other h.closed ≡ false
        → Session client h
        → Session client (join_room sum32 room_of user_of other h)
    left :
        {h : RoomHub} (other : ℕ)
        → (other ≡ client → ⊥)
        → Session client h
        → Session client (leave_room sum32 room_of user_of other h).1
    told :
        {h : RoomHub} (accepts : ℕ → Bool) (room : Str)
        → accepts client ≡ true
        → Session client h
        → Session client (broadcast_to_room sum32 user_of accepts room h).1
    heard :
        {h : RoomHub} (accepts : ℕ → Bool) (sender : ℕ) (message : Option Str)
        → accepts client ≡ true
        → Session client h
        → Session client (read_message sum32 room_of user_of accepts sender message h).1

  -- What a message of a client does to the hub is nothing, or a broadcast to its room.
  read_message-kept :
      (P : RoomHub → Type 0) (accepts : ℕ → Bool) (sender : ℕ) (message : Option Str) (h : RoomHub)
      → P h
      → P (broadcast_to_room sum32 user_of accepts (room_of sender) h).1
      → P (read_message sum32 room_of user_of accepts sender message h).1
  unfolding read_message write_answer
  read_message-kept P accepts sender message h same sent = go message
    where
      own :
          (a : Outcome) (b : Bool)
          → let out : Result Outcome × RoomHub = if b then (err panic, h) else (ok a, h) in P out.1
      own a true = same
      own a false = same

      chat : (r : Result (List ℕ) × RoomHub) → P r.1 → P (chat_sent r).1
      chat (ok receivers, g) p = p
      chat (err e, g) p = p

      cases :
          (b c : Bool)
          → let out : Result Outcome × RoomHub =
              if b
              then write_answer sender pong h
              else if c
              then chat_sent (broadcast_to_room sum32 user_of accepts (room_of sender) h)
              else write_answer sender unknown_type h in
            P out.1
      cases true c = own pong (contains sender h.closed)
      cases false true = chat (broadcast_to_room sum32 user_of accepts (room_of sender) h) sent
      cases false false = own unknown_type (contains sender h.closed)

      go : (m : Option Str) → P (read_message sum32 room_of user_of accepts sender m h).1
      go none = own bad_json (contains sender h.closed)
      go (some type) = cases (type == codes "ping") (type == codes "chat")

  Session-Reach : {client : ℕ} {h : RoomHub} → Session client h → Reach sum32 room_of user_of h
  Session-Reach {client} (connected r open_) = join client open_ r
  Session-Reach (joined other open_ s) = join other open_ (Session-Reach s)
  Session-Reach (left other apart s) = leave other (Session-Reach s)
  Session-Reach (told accepts room on s) = broadcast accepts room (Session-Reach s)
  Session-Reach (heard {h} accepts sender message on s) =
      read_message-kept (Reach sum32 room_of user_of) accepts sender message h (Session-Reach s)
        (broadcast accepts (room_of sender) (Session-Reach s))

  Session-open : {client : ℕ} {h : RoomHub} → Session client h → contains client h.closed ≡ false
  unfolding join_room set_segment
  Session-open (connected r open_) = open_
  Session-open (joined other open_ s) = Session-open s
  Session-open {client} (left {h} other apart s) = leave-open other client h apart (Session-open s)
  Session-open {client} (told {h} accepts room on s) =
      broadcast-open accepts room client h on (Session-open s)
  Session-open {client} (heard {h} accepts sender message on s) =
      read_message-kept (λ g. contains client g.closed ≡ false) accepts sender message h
        (Session-open s) (broadcast-open accepts (room_of sender) client h on (Session-open s))

  -- A chat message runs through as a broadcast to the room of its sender; any other message gets its
  -- answer and leaves the hub alone.
  abbrev pub IsAnswered :
      (ℕ → Bool) → ℕ → Outcome → RoomHub → Result Outcome × RoomHub → Bool → Type 0
  IsAnswered accepts client a h out false = out ≡ (ok a, h)
  IsAnswered accepts client a h out true =
      (receivers : List ℕ) × (out.0 ≡ ok (chatted receivers))
      × RunsThrough sum32 room_of user_of accepts (room_of client) h (ok receivers, out.1)

  -- While a client of a room is connected and its channel takes what is sent to it, whatever the
  -- others and the server do in between: none of its messages panics. One of the type `chat` reaches
  -- exactly the members of its room that take it, keeps these, drops the others and leaves the other
  -- rooms alone; a ping, another type or a text that is no JSON is answered on its own channel, and
  -- the hub stays. After any of them the client still leaves without a panic.
  pub read_message-IsAnswered :
      {client : ℕ} {h : RoomHub} (accepts : ℕ → Bool) (message : Option Str)
      → accepts client ≡ true
      → Session client h
      → let out = read_message sum32 room_of user_of accepts client message h in
        IsAnswered accepts client (own_answer message) h out (is_chat message)
        × ((leave_room sum32 room_of user_of client out.1).0 ≡ ok tt)
  unfolding read_message write_answer
  read_message-IsAnswered {client} {h} accepts message on s = (
    go message,
    (Reach-RunsThrough sum32 room_of user_of (Session-Reach (heard accepts client message on s))).0
        client,
  )
    where
      open_ : contains client h.closed ≡ false
      open_ = Session-open s

      own :
          (a : Outcome) (b : Bool)
          → contains client h.closed ≡ b
          → let out : Result Outcome × RoomHub = if b then (err panic, h) else (ok a, h) in
            out ≡ (ok a, h)
      own a true e = let this = open_ in cc
      own a false e = refl

      chat :
          (out : Result (List ℕ) × RoomHub) {receivers : List ℕ}
          → out.0 ≡ ok receivers
          → RunsThrough sum32 room_of user_of accepts (room_of client) h out
          → (receivers : List ℕ) × ((chat_sent out).0 ≡ ok (chatted receivers))
            × RunsThrough sum32 room_of user_of accepts
                (room_of client)
                h
                (ok receivers, (chat_sent out).1)
      chat (ok receivers, g) e runs = (receivers, refl, runs)
      chat (err x, g) e runs = cc

      sent :
          let out = chat_sent (broadcast_to_room sum32 user_of accepts (room_of client) h) in
          (receivers : List ℕ) × (out.0 ≡ ok (chatted receivers))
          × RunsThrough sum32 room_of user_of accepts (room_of client) h (ok receivers, out.1)
      sent =
          let runs =
            (Reach-RunsThrough sum32 room_of user_of (Session-Reach s)).1 accepts
              (room_of client) in
          chat (broadcast_to_room sum32 user_of accepts (room_of client) h) runs.0.1 runs

      typed :
          (ping chats : Bool)
          → let out : Result Outcome × RoomHub =
              if ping
              then write_answer client pong h
              else if chats
              then chat_sent (broadcast_to_room sum32 user_of accepts (room_of client) h)
              else write_answer client unknown_type h in
            IsAnswered accepts client
              (if ping then pong else unknown_type)
              h
              out
              (chats && not ping)
      typed true true = own pong (contains client h.closed) refl
      typed true false = own pong (contains client h.closed) refl
      typed false true = sent
      typed false false = own unknown_type (contains client h.closed) refl

      go :
          (m : Option Str)
          → IsAnswered accepts client
              (own_answer m)
              h
              (read_message sum32 room_of user_of accepts client m h)
              (is_chat m)
      go none = own bad_json (contains client h.closed) refl
      go (some type) = typed (type == codes "ping") (type == codes "chat")
