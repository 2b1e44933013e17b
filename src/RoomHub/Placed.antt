-- ===== src/RoomHub/Placed.antt =====
-- Each client stands in its room under its user with an open channel: the invariant, and a join.
use go_lobby.Prelude.{nat_eq, ℕ, List, true, false, some, arith}
use go_lobby.Prelude.{lookup, insert, contains, if◌then◌else◌}
use go_lobby.Prelude.{◌≡◌, sym, subst, IsMap, ◌⊎◌, lookup-insert, ◌==◌}
use go_lobby.Prelude.{insert-IsMap, inl, inr, Bool-cases}
use go_lobby.Prelude.Text.{Str, str_eq}
use go_lobby.RoomHub.{RoomHub, Members, new_room_hub, room_segment, set_segment}
use go_lobby.RoomHub.{join_room}
use go_lobby.RoomHub.Members.{members, members-insert}

module _ (sum32 : Str → ℕ) (room_of : ℕ → Str) (user_of : ℕ → ℕ) where
  -- A client belongs where it stands, and its channel is open.
  abbrev pub IsPlaced : List ℕ → Str → ℕ → ℕ → Type 0
  IsPlaced closed r u c = (room_of c ≡ r) × (user_of c ≡ u) × (contains c closed ≡ false)

  -- Every room has one client for a user.
  pub record Inv (h : RoomHub) : Type 0 where
    pub one : (r : Str) → IsMap (members sum32 r h)
    pub placed :
        (r : Str) (u c : ℕ) → lookup u (members sum32 r h) ≡ some c → IsPlaced h.closed r u c

  -- A row in the place of that of a room.
  abbrev pub row_at : Str → Members → RoomHub → Str → Members
  row_at room row h r = if room == r then row else members sum32 r h

  -- An operation writes one room and may close channels of its members alone.
  pub written :
      (room : Str) (row : Members) (h h' : RoomHub)
      → ((r : Str) → members sum32 r h' ≡ row_at room row h r)
      → IsMap row
      → ((u c : ℕ) → lookup u row ≡ some c → IsPlaced h'.closed room u c)
      → ((c : ℕ)
          → (room == room_of c) ≡ false
          → contains c h.closed ≡ false
          → contains c h'.closed ≡ false)
      → Inv h
      → Inv h'
  written room row h h' rows is_map in_row others i = record {
    one = λ r. subst (λ m. IsMap m) (sym (rows r)) (one_at r (Bool-cases (room == r)));
    placed = λ r u c e.
        placed_at r u c (Bool-cases (room == r)) (subst (λ m. lookup u m ≡ some c) (rows r) e);
  }
    where
      one_at :
          (r : Str) → ((room == r) ≡ true) ⊎ ((room == r) ≡ false) → IsMap (row_at room row h r)
      one_at r (inl same) = rw same is_map
      one_at r (inr other) = rw other (i.one r)

      placed_at :
          (r : Str) (u c : ℕ)
          → ((room == r) ≡ true) ⊎ ((room == r) ≡ false)
          → lookup u (row_at room row h r) ≡ some c
          → IsPlaced h'.closed r u c
      placed_at r u c (inl same) e =
          subst (λ q. IsPlaced h'.closed q u c) ((str_eq.beq_iff room r).0 same)
            (in_row u c
              (subst (λ b. lookup u (if b then row else members sum32 r h) ≡ some c) same e))
      placed_at r u c (inr other) e =
          let p =
            i.placed r u c
              (subst (λ b. lookup u (if b then row else members sum32 r h) ≡ some c) other e) in
          (p.0, p.1, others c (subst (λ q. (room == q) ≡ false) (sym p.0) other) p.2)

  pub init-Inv : Inv new_room_hub
  unfolding new_room_hub members room_segment lookup IsMap
  init-Inv = record { one = λ r. tt; placed = λ r u c e. cc }

  pub join-Inv :
      (client : ℕ) (h : RoomHub)
      → contains client h.closed ≡ false
      → Inv h
      → Inv (join_room sum32 room_of user_of client h)
  unfolding join_room members room_segment set_segment
  join-Inv client h open_ i =
      written room row h (join_room sum32 room_of user_of client h)
        (λ r. members-insert sum32 room r row h)
        (insert-IsMap (user_of client) client (members sum32 room h) (i.one room))
        (λ u c e. ground (
          arith,
          i.placed room u c,
          open_,
          e,
          lookup-insert (user_of client) u client (members sum32 room h),
        ))
        (λ c other still. still) i
    where
      room : Str
      room = room_of client

      row : Members
      row = insert (user_of client) client (members sum32 room h)
