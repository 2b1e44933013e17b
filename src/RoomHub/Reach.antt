-- ===== src/RoomHub/Reach.antt =====
-- The hub of the rooms over any sequence of joins, departures and broadcasts.
use go_lobby.Prelude.{nat_eq, ℕ, List, [], ◌∷◌, Bool, true, false, Option, none, some, arith}
use go_lobby.Prelude.{lookup, delete, contains, Result, ok, err, ==-refl}
use go_lobby.Prelude.{◌≡◌, refl, sym, ap, ◌∙◌, subst, IsMap, values, ◌==◌}
use go_lobby.Prelude.{delete-IsMap, inl, inr, Bool-cases}
use go_lobby.Prelude.Text.{Str, str_eq}
use go_lobby.Prelude.{panic}
use go_lobby.MapHub.{entries, prepend}
use go_lobby.MapHub.Receivers.{AreReceivers}
use go_lobby.Workers.{is_worker}
use go_lobby.RoomHub.{RoomHub, Members, new_room_hub, put_members, room_segment, set_segment}
use go_lobby.RoomHub.{join_room, leave_room, send_all}
use go_lobby.RoomHub.{after_send, broadcast_found, broadcast_to_room}
use go_lobby.RoomHub.Members.{members, members-put}
use go_lobby.RoomHub.Sending.{Fit, Sent, staying, kept-staying, staying-eq-some, send_all-Sent}
use go_lobby.RoomHub.Placed.{Inv, IsPlaced, written, init-Inv, join-Inv}
use go_lobby.RoomHub.Leave.{row-IsPlaced, is_worker-eq-true, leave-Inv}

module _ (user_of : ℕ → ℕ) where
  -- A row of clients under their users, with open channels.
  pub row-Fit :
      (row : Members) (closed : List ℕ)
      → IsMap row
      → ((u c : ℕ) → lookup u row ≡ some c → (user_of c ≡ u) × (contains c closed ≡ false))
      → Fit user_of row closed
  unfolding Fit IsMap lookup
  row-Fit [] closed i h = tt
  row-Fit ((u, c) ∷ row) closed (new, i) h =
      let first = h u c (ground (arith, ==-refl u)) in
      (
        first.0,
        first.1,
        new,
        row-Fit row closed i (λ v d e. h v d (ground (arith, new, e, lookup_other u v row))),
      )
    where
      lookup_other : (u v : ℕ) (row : Members) → (u ≡ v) → lookup u row ≡ lookup v row
      lookup_other u v row e = ap (λ k. lookup k row) e

  pub send_all-IsMap :
      (accepts : ℕ → Bool) (rest row : Members) (closed : List ℕ)
      → IsMap row
      → IsMap ((send_all user_of accepts rest row closed).1)
  unfolding send_all
  send_all-IsMap accepts [] row closed i = i
  send_all-IsMap accepts ((user, client) ∷ rest) row closed i =
      go (contains client closed) (accepts client) (send_all-IsMap accepts rest row closed i) (
        send_all-IsMap accepts rest (delete (user_of client) row) (client ∷ closed)
          (delete-IsMap (user_of client) row i))
    where
      go :
          (b c : Bool)
          → IsMap ((send_all user_of accepts rest row closed).1)
          → IsMap
              ((send_all user_of accepts rest (delete (user_of client) row) (client ∷ closed)).1)
          → let r : Result (List ℕ) × Members × List ℕ = elim b [
            | true ↦ (err panic, row, closed)
            | false ↦ elim c [
              | true ↦
                  let r = send_all user_of accepts rest row closed in (prepend client r.0, r.1, r.2)
              | false ↦
                  send_all user_of accepts rest (delete (user_of client) row) (client ∷ closed)
            ]
          ] in
            IsMap r.1
      go true c one two = i
      go false true one two = one
      go false false one two = two

module _ (sum32 : Str → ℕ) (room_of : ℕ → Str) (user_of : ℕ → ℕ) where
  -- What a broadcast does: it runs through, the members that took the message are its receivers and
  -- stay, the others of the room are gone, and the other rooms are as they were.
  abbrev pub RunsThrough : (ℕ → Bool) → Str → RoomHub → Result (List ℕ) × RoomHub → Type 0
  RunsThrough accepts room h out =
      ((receivers : List ℕ) × (out.0 ≡ ok receivers)
        × AreReceivers accepts (values (members sum32 room h)) receivers)
      × ((u : ℕ)
          → lookup u (members sum32 room out.1) ≡ staying accepts (lookup u (members sum32 room h)))
      × ((r : Str) → (room == r) ≡ false → members sum32 r out.1 ≡ members sum32 r h)

  after_send-RunsThrough :
      (accepts : ℕ → Bool) (room : Str) (row : Members) (h : RoomHub)
      (r : Result (List ℕ) × Members × List ℕ)
      → members sum32 room h ≡ row
      → Sent user_of accepts row row h.closed r
      → IsMap r.1
      → Inv sum32 room_of user_of h
      → let out = after_send sum32 room h r in
        RunsThrough accepts room h out × Inv sum32 room_of user_of out.1
  unfolding after_send members
  after_send-RunsThrough accepts room row h (err x, row', closed) is s m i = cc
  after_send-RunsThrough accepts room row h (ok rs, row', closed) is
        ((receivers, same, are), kept_, shut) m i =
      (
        (
          (receivers, same, subst (λ m. AreReceivers accepts (values m) receivers) (sym is) are),
          λ u.
              ap (λ m. lookup u m) (members-put sum32 room room row' h ∙ rw (==-refl room) refl)
              ∙ kept_ u
              ∙ kept-staying accepts (lookup u row)
              ∙ ap (λ m. staying accepts (lookup u m)) (sym is),
          λ r other. members-put sum32 room r row' h ∙ rw other refl,
        ),
        written sum32 room_of user_of room row' h
            (record (set_segment sum32 room (put_members room row' (room_segment sum32 room h)) h) {
              closed = closed;
            })
            (λ r. members-put sum32 room r row' h) m in_row others i,
      )
    where
      in_row : (u c : ℕ) → lookup u row' ≡ some c → IsPlaced sum32 room_of user_of closed room u c
      in_row u c e =
          let here =
            staying-eq-some accepts (lookup u row)
              (sym (kept_ u ∙ kept-staying accepts (lookup u row)) ∙ e) in
          let p = row-IsPlaced sum32 room_of user_of room row h is i u c here.0 in
          (p.0, p.1, shut c ∙ ground (arith, p.2, here.1))

      others :
          (c : ℕ)
          → (room == room_of c) ≡ false
          → contains c h.closed ≡ false
          → contains c closed ≡ false
      others c other still = elim (Bool-cases (is_worker (lookup (user_of c) row) c)) [
        | inl me ↦
            let p =
              row-IsPlaced sum32 room_of user_of room row h is i (user_of c) c
                (is_worker-eq-true sum32 room_of user_of (lookup (user_of c) row) c me) in
            ground (arith, other, (str_eq.beq_iff room (room_of c)).1 (sym p.0))
        | inr away ↦ shut c ∙ ground (arith, still, away)
      ]

  broadcast-Inv :
      (accepts : ℕ → Bool) (room : Str) (h : RoomHub)
      → Inv sum32 room_of user_of h
      → let out = broadcast_to_room sum32 user_of accepts room h in
        RunsThrough accepts room h out × Inv sum32 room_of user_of out.1
  unfolding broadcast_to_room broadcast_found members lookup
  broadcast-Inv accepts room h i = go (lookup room (room_segment sum32 room h)) refl
    where
      go :
          (o : Option Members)
          → lookup room (room_segment sum32 room h) ≡ o
          → let out = broadcast_found sum32 user_of accepts room h o in
            RunsThrough accepts room h out × Inv sum32 room_of user_of out.1
      go none e =
          let empty : members sum32 room h ≡ [] = ap (λ o. entries o) e in
          (
            (
              (
                [],
                refl,
                subst (λ m. AreReceivers accepts (values m) []) (sym empty)
                    (λ c. (λ m. absurd m, λ m. m.0)),
              ),
              λ u. subst (λ m. lookup u m ≡ staying accepts (lookup u m)) (sym empty) refl,
              λ r other. refl,
            ),
            i,
          )
      go (some row) e =
          let is : members sum32 room h ≡ row = ap (λ o. entries o) e in
          let m : IsMap row = subst (λ m. IsMap m) is (i.one room) in
          after_send-RunsThrough accepts room row h (send_all user_of accepts row row h.closed) is
            (send_all-Sent user_of accepts row row h.closed (
              row-Fit user_of row h.closed m (λ u c f.
                let p = row-IsPlaced sum32 room_of user_of room row h is i u c f in (p.1, p.2))))
            (send_all-IsMap user_of accepts row row h.closed m) i

  -- A client joins before its channel is closed; it may leave at any time.
  pub data Reach : RoomHub → Type 0 where
    start : Reach new_room_hub
    join :
        {h : RoomHub} (client : ℕ)
        → contains client h.closed ≡ false
        → Reach h
        → Reach (join_room sum32 room_of user_of client h)
    leave :
        {h : RoomHub} (client : ℕ) → Reach h → Reach (leave_room sum32 room_of user_of client h).1
    broadcast :
        {h : RoomHub} (accepts : ℕ → Bool) (room : Str)
        → Reach h
        → Reach (broadcast_to_room sum32 user_of accepts room h).1

  pub Reach-Inv : {h : RoomHub} → Reach h → Inv sum32 room_of user_of h
  Reach-Inv start = init-Inv sum32 room_of user_of
  Reach-Inv (join {h} client open_ r) = join-Inv sum32 room_of user_of client h open_ (Reach-Inv r)
  Reach-Inv (leave {h} client r) =
      let k = leave-Inv sum32 room_of user_of client h (Reach-Inv r) in k.1
  Reach-Inv (broadcast {h} accepts room r) =
      let k = broadcast-Inv accepts room h (Reach-Inv r) in k.1

  -- In every reachable state of the hub, whatever the hash, no channel is closed twice and none is
  -- written after its close: a client leaves without a panic, and a broadcast to a room runs
  -- through, reaches exactly the members that take the message, keeps these, drops the others, and
  -- leaves every other room as it was.
  pub Reach-RunsThrough :
      {h : RoomHub}
      → Reach h
      → ((client : ℕ) → (leave_room sum32 room_of user_of client h).0 ≡ ok tt)
        × ((accepts : ℕ → Bool) (room : Str)
            → RunsThrough accepts room h (broadcast_to_room sum32 user_of accepts room h))
  Reach-RunsThrough {h} r = (
    λ client. let k = leave-Inv sum32 room_of user_of client h (Reach-Inv r) in k.0,
    λ accepts room. let k = broadcast-Inv accepts room h (Reach-Inv r) in k.0,
  )
