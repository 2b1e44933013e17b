-- ===== src/RoomHub/Leave.antt =====
-- A client leaves, which closes its channel once.
use go_lobby.Prelude.{nat_eq, ℕ, List, ◌∷◌, Bool, true, false, Option, none, some, arith}
use go_lobby.Prelude.{lookup, delete, contains, if◌then◌else◌, Result, ok, eqb, eqb_iff}
use go_lobby.Prelude.{◌≡◌, refl, sym, ap, ◌∙◌, subst, IsMap, ◌⊎◌, lookup-delete, ◌==◌}
use go_lobby.Prelude.{delete-IsMap, inl, inr, Bool-cases}
use go_lobby.Prelude.Text.{Str, str_eq}
use go_lobby.Prelude.Effect.{Done}
use go_lobby.MapHub.{entries}
use go_lobby.Workers.{is_worker}
use go_lobby.RoomHub.{RoomHub, Members, put_members, room_segment, set_segment}
use go_lobby.RoomHub.{leave_room, leave_found, leave_closed, close_channel}
use go_lobby.RoomHub.Members.{members, members-put}
use go_lobby.RoomHub.Placed.{Inv, IsPlaced, written}

-- A channel stays open when another one is closed.
pub still_open :
    (client c : ℕ) (closed : List ℕ)
    → (client ≡ c → ⊥)
    → contains c closed ≡ false
    → contains c (client ∷ closed) ≡ false
still_open client c closed other open_ = ground (arith, other, open_)

module _ (sum32 : Str → ℕ) (room_of : ℕ → Str) (user_of : ℕ → ℕ) where
  pub row-IsPlaced :
      (room : Str) (row : Members) (h : RoomHub)
      → members sum32 room h ≡ row
      → Inv sum32 room_of user_of h
      → (u c : ℕ) → lookup u row ≡ some c
      → IsPlaced sum32 room_of user_of h.closed room u c
  row-IsPlaced room row h is i u c e = i.placed room u c (ap (λ m. lookup u m) is ∙ e)

  pub is_worker-eq-true : (o : Option ℕ) (c : ℕ) → is_worker o c ≡ true → o ≡ some c
  is_worker-eq-true none c e = cc
  is_worker-eq-true (some d) c e = ap (λ x. some x) ((eqb_iff d c).0 e)

  left_closed :
      (client : ℕ) (row : Members) (h : RoomHub)
      → members sum32 (room_of client) h ≡ row
      → lookup (user_of client) row ≡ some client
      → Inv sum32 room_of user_of h
      → let out = leave_closed sum32 room_of user_of client row h (close_channel client h.closed) in
        (out.0 ≡ ok tt) × Inv sum32 room_of user_of out.1
  unfolding leave_closed close_channel members
  left_closed client row h is there i = rw (p.2) (
    refl,
    written sum32 room_of user_of room (delete (user_of client) row) h
        (record (set_segment sum32 room
          (put_members room (delete (user_of client) row) (room_segment sum32 room h)) h) {
            closed = client ∷ h.closed;
          })
        (λ r. members-put sum32 room r (delete (user_of client) row) h)
        (delete-IsMap (user_of client) row (subst (λ m. IsMap m) is (i.one room)))
        (λ u c e.
          in_row u c (Bool-cases (eqb (user_of client) u))
            (sym (lookup-delete (user_of client) u row) ∙ e))
        (λ c other still. still_open client c h.closed (λ same. no_room c other same) still) i,
  )
    where
      room : Str
      room = room_of client

      p : IsPlaced sum32 room_of user_of h.closed (room_of client) (user_of client) client
      p = row-IsPlaced (room_of client) row h is i (user_of client) client there

      no_room : (c : ℕ) → (room_of client == room_of c) ≡ false → client ≡ c → ⊥
      no_room c other same =
          let at = ap room_of same in
          ground (arith, other, (str_eq.beq_iff (room_of client) (room_of c)).1 at)

      in_row :
          (u c : ℕ)
          → (eqb (user_of client) u ≡ true) ⊎ (eqb (user_of client) u ≡ false)
          → (if eqb (user_of client) u then none else lookup u row) ≡ some c
          → IsPlaced sum32 room_of user_of (client ∷ h.closed) room u c
      in_row u c (inl same) e = ground (arith, same, e)
      in_row u c (inr other) e =
          let q = row-IsPlaced (room_of client) row h is i u c (ground (arith, other, e)) in
          (
            q.0,
            q.1,
            still_open client c h.closed
                (λ same. let at = ap user_of same in ground (arith, other, at, q.1)) q.2,
          )

  pub leave-Inv :
      (client : ℕ) (h : RoomHub)
      → Inv sum32 room_of user_of h
      → let out = leave_room sum32 room_of user_of client h in
        (out.0 ≡ ok tt) × Inv sum32 room_of user_of out.1
  unfolding leave_room leave_found members
  leave-Inv client h i =
      found (lookup (room_of client) (room_segment sum32 (room_of client) h)) refl
    where
      room : Str
      room = room_of client

      here :
          (row : Members) (b : Bool)
          → members sum32 (room_of client) h ≡ row
          → is_worker (lookup (user_of client) row) client ≡ b
          → let out : Result Done × RoomHub =
              if b
              then leave_closed sum32 room_of user_of client row h (close_channel client h.closed)
              else (
                ok tt,
                set_segment sum32 room (put_members room row (room_segment sum32 room h)) h,
              ) in
            (out.0 ≡ ok tt) × Inv sum32 room_of user_of out.1
      here row true is me =
          left_closed client row h is (is_worker-eq-true (lookup (user_of client) row) client me) i
      here row false is me = (
        refl,
        written sum32 room_of user_of room row h
            (set_segment sum32 room (put_members room row (room_segment sum32 room h)) h)
            (λ r. members-put sum32 room r row h) (subst (λ m. IsMap m) is (i.one room))
            (row-IsPlaced room row h is i) (λ c other still. still) i,
      )

      found :
          (o : Option Members)
          → lookup (room_of client) (room_segment sum32 (room_of client) h) ≡ o
          → let out = leave_found sum32 room_of user_of client h o in
            (out.0 ≡ ok tt) × Inv sum32 room_of user_of out.1
      found none e = (refl, i)
      found (some row) e =
          here row (is_worker (lookup (user_of client) row) client) (ap (λ o. entries o) e) refl
