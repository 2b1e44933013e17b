-- ===== src/ZeroArea.antt =====
-- `openZeroArea` of internal/service/chunk_service.go: the breadth-first opening of the cells
-- around a cell with no mine near. The generator, at the season and the chunk of the call, is a
-- pair of functions of the cell.
pub mod Region
pub mod Visit
pub mod Invariant
pub mod Loop
use go_lobby.Prelude.{
  nat_eq, ℕ, zero, suc, List, [], ◌∷◌, ◌++◌, Bool, Result, ok, err, ◌>>=◌, or_error,
}
use go_lobby.Prelude.{if◌then◌else◌, eqb, contains, lookup, has_value, invalid_chunk_id, stuck}
use go_lobby.Prelude.Int.{ℤ, ◌+ℤ◌, wrap64}
use go_lobby.Chunk.{chunk_size, off_grid, chunk_cell_index}
use go_lobby.Mine.{offsets}
use go_lobby.ChunkState.{MineChunkState, open_cell_in_state}

abbrev pub Cell : Type 0
Cell = ℤ × ℤ

-- The two nested loops that append the neighbours of a cell.
unfoldable pub shifted : ℤ → ℤ → List (ℤ × ℤ) → List Cell
shifted x y [] = []
shifted x y ((dx, dy) ∷ os) = (wrap64 (x +ℤ dx), wrap64 (y +ℤ dy)) ∷ shifted x y os

unfoldable pub neighbours : ℤ → ℤ → List Cell
unfolding shifted offsets
neighbours x y = shifted x y offsets

module _ (is_mine : ℤ → ℤ → Result Bool) (adjacent_mines : ℤ → ℤ → Result ℕ)
    (user opened_at : ℕ) where
  -- One round: the indices visited, the state, and the cells that are appended to the queue.
  unfoldable pub visit :
      Cell → List ℕ → MineChunkState → Result (List ℕ × MineChunkState × List Cell)
  visit (x, y) visited state =
      if off_grid chunk_size x y
      then ok (visited, state, [])
      else or_error (chunk_cell_index x y) invalid_chunk_id >>= λ index.
          if contains index visited
          then ok (visited, state, [])
          else if has_value (lookup index state.flagged_by)
          then ok (index ∷ visited, state, [])
          else if has_value (lookup index state.opened_cells)
          then ok (index ∷ visited, state, [])
          else is_mine x y >>= λ mine.
              if mine
              then ok (index ∷ visited, state, [])
              else adjacent_mines x y >>= λ adjacent. ok (
                index ∷ visited,
                open_cell_in_state state x y index user opened_at adjacent,
                if eqb adjacent 0 then neighbours x y else [],
              )

  unfoldable pub zero_loop : ℕ → List Cell → List ℕ → MineChunkState → Result MineChunkState
  zero_loop fuel [] visited state = ok state
  zero_loop zero (c ∷ queue) visited state = err stuck
  zero_loop (suc fuel) (c ∷ queue) visited state =
      visit c visited state >>= λ r. zero_loop fuel (queue ++ r.2) r.0 r.1

  -- Each of the 128 * 128 cells of the chunk is visited once and appends eight cells at most.
  unfoldable pub open_zero_area : MineChunkState → ℤ → ℤ → Result MineChunkState
  unfolding zero_loop visit
  open_zero_area state start_x start_y = zero_loop 131073 ((start_x, start_y) ∷ []) [] state
