-- ===== src/RoomHub/Members.antt =====
-- What the segments hold as one map from rooms to members, and the loop of a broadcast.
use go_lobby.Prelude.{nat_eq, ℕ, [], ◌∷◌, arith}
use go_lobby.Prelude.{lookup, insert, if◌then◌else◌}
use go_lobby.Prelude.{◌≡◌, lookup-insert, lookup-delete, ◌==◌}
use go_lobby.Prelude.Text.{Str, str_eq}
use go_lobby.MapHub.{entries}
use go_lobby.RoomHub.{RoomHub, Members, put_members, room_hub_segment_index, room_segment}
use go_lobby.RoomHub.{set_segment}

module _ (sum32 : Str → ℕ) where
  unfoldable pub members : Str → RoomHub → Members
  unfolding room_segment room_hub_segment_index
  members room h = entries (lookup room (room_segment sum32 room h))

  -- A room that is written leaves the rooms alone, also those of its segment.
  pub members-put :
      (room r : Str) (row : Members) (h : RoomHub)
      → members r (set_segment sum32 room (put_members room row (room_segment sum32 room h)) h)
        ≡ (if room == r then row else members r h)
  unfolding members room_segment set_segment put_members room_hub_segment_index
  members-put room r [] h =
      ground (arith, lookup-delete room r (room_segment sum32 room h), str_eq.beq_iff room r)
  members-put room r (m ∷ ms) h =
      ground
        (arith, lookup-insert room r (m ∷ ms) (room_segment sum32 room h), str_eq.beq_iff room r)

  pub members-insert :
      (room r : Str) (row : Members) (h : RoomHub)
      → members r (set_segment sum32 room (insert room row (room_segment sum32 room h)) h)
        ≡ (if room == r then row else members r h)
  unfolding members room_segment set_segment room_hub_segment_index
  members-insert room r row h =
      ground (arith, lookup-insert room r row (room_segment sum32 room h), str_eq.beq_iff room r)
