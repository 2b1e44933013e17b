-- ===== src/Tests/Areas.antt =====
-- The opening of an area.
use go_lobby.Prelude.{ℕ, refl, ◌≡◌, Bool, ok, if◌then◌else◌, eqb, ltb, ◌&&◌, ◌≤◌, ◌<◌}
use go_lobby.Prelude.{true, false, none, some}
use go_lobby.Prelude.Int.{pos, pos_part}
use go_lobby.Prelude.Text.{codes}
use go_lobby.ChunkState.{MineChunkState, new_mine_chunk_state, next_version}
use go_lobby.ZeroArea.{Cell, open_zero_area}
use go_lobby.ZeroArea.Invariant.{Opens}
use go_lobby.ZeroArea.Loop.{open_zero_area-Opens}
use go_lobby.ChunkService.Reopen.{reopening, reopening_lem, closure_end}

abbrev fresh : MineChunkState
fresh = new_mine_chunk_state 1 (codes "cn:6:0:0")

-- One mine, at (1, 1).
abbrev one_mine : Cell → Bool
one_mine (x, y) = eqb (pos_part x) 1 && eqb (pos_part y) 1

abbrev near_one : Cell → ℕ
near_one (x, y) = if ltb (pos_part x) 3 && ltb (pos_part y) 3 then 1 else 0

open_zero_area-Opens_example :
    Opens one_mine near_one 7 100 fresh
      (pos 9, pos 9)
      (open_zero_area
        (λ x y. ok (one_mine (x, y)))
        (λ x y. ok (near_one (x, y)))
        7
        100
        fresh
        (pos 9)
        (pos 9))
open_zero_area-Opens_example =
    open_zero_area-Opens (λ x y. ok (one_mine (x, y))) (λ x y. ok (near_one (x, y))) 7 100 one_mine
      near_one (λ x y h. refl) (λ x y h. refl) fresh (pos 9, pos 9)

abbrev shut : MineChunkState
shut = record fresh { closed = true; closed_by = 7; closed_at = some 40; closed_until = some 90 }

reopening_lem_example :
    let r = reopening 50 100 shut in
    let until = closure_end 50 100 shut.closed_until shut.closed_at in
    (r.state.opened_cells ≡ shut.opened_cells)
    × (r.state.flagged_by ≡ shut.flagged_by)
    × (shut.closed ≡ false → (r.state ≡ shut) × (r.changed ≡ false))
    × (shut.closed ≡ true
        → until ≤ 100
        → (r.changed ≡ true)
          × (r.state.closed ≡ false)
          × (r.state.closed_until ≡ none)
          × (r.state.version ≡ next_version shut.version))
    × (shut.closed ≡ true
        → 100 < until
        → (r.state.closed ≡ true)
          × (r.state.closed_until ≡ some until)
          × (r.state.closed_by ≡ shut.closed_by)
          × (r.state.version ≡ shut.version)
          × (r.changed ≡ false → r.state ≡ shut))
reopening_lem_example = reopening_lem 50 100 shut
