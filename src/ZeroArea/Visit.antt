-- ===== src/ZeroArea/Visit.antt =====
-- What one round of `openZeroArea` does to a cell, where the generator answers every cell of the
-- chunk.
use go_lobby.Prelude.{nat_eq, ℕ, ◌≡◌, List, [], ◌∷◌, Bool, true, false, none, ok}
use go_lobby.Prelude.{Result, inl, inr, arith, contains, lookup, has_value, Bool-cases, eqb}
use go_lobby.Prelude.{if◌then◌else◌}
use go_lobby.Prelude.Int.{ℤ}
use go_lobby.Chunk.{chunk_size, off_grid}
use go_lobby.Chunk.Cells.{Inside, off_grid-Inside, off_grid-Inside'}
use go_lobby.Mine.World.{around}
use go_lobby.ChunkState.{MineChunkState, open_cell_in_state}
use go_lobby.ZeroArea.{Cell, visit}
use go_lobby.ZeroArea.Region.{InChunk, index_of, chunk_cell_index-Inside, neighbours-eq-around}

-- The cell is opened, and its neighbours wait if there is no mine among them.
abbrev pub opened :
    (Cell → ℕ) → ℕ → ℕ → Cell → List ℕ → MineChunkState → List ℕ × MineChunkState × List Cell
opened adjacent user at (x, y) visited state = (
  index_of (x, y) ∷ visited,
  open_cell_in_state state x y (index_of (x, y)) user at (adjacent (x, y)),
  if eqb (adjacent (x, y)) 0 then around x y else [],
)

-- Whether a cell of the chunk that was not visited is to be opened.
pub record CanOpen (mine : Cell → Bool) (c : Cell) (state : MineChunkState) : Type 0 where
  pub unflagged : lookup (index_of c) state.flagged_by ≡ none
  pub unopened : lookup (index_of c) state.opened_cells ≡ none
  pub safe : mine c ≡ false

module _ (is_mine : ℤ → ℤ → Result Bool) (adjacent_mines : ℤ → ℤ → Result ℕ) (user at : ℕ)
    (mine : Cell → Bool) (adjacent : Cell → ℕ)
    (mine_known : (x y : ℤ) → Inside chunk_size x y → is_mine x y ≡ ok (mine (x, y)))
    (adjacent_known : (x y : ℤ)
      → Inside chunk_size x y
      → adjacent_mines x y ≡ ok (adjacent (x, y))) where
  pub data Visited (c : Cell) (visited : List ℕ) (state : MineChunkState)
      (r : Result (List ℕ × MineChunkState × List Cell)) : Type 0 where
    skipped :
        (InChunk c → contains (index_of c) visited ≡ true)
        → r ≡ ok (visited, state, [])
        → Visited c visited state r
    refused :
        InChunk c
        → contains (index_of c) visited ≡ false
        → ¬ CanOpen mine c state
        → r ≡ ok (index_of c ∷ visited, state, [])
        → Visited c visited state r
    opens :
        InChunk c
        → contains (index_of c) visited ≡ false
        → CanOpen mine c state
        → r ≡ ok (opened adjacent user at c visited state)
        → Visited c visited state r

  visit_safe :
      (x y : ℤ) (v : List ℕ) (s : MineChunkState)
      → Inside chunk_size x y
      → contains (index_of (x, y)) v ≡ false
      → has_value (lookup (index_of (x, y)) s.flagged_by) ≡ false
      → has_value (lookup (index_of (x, y)) s.opened_cells) ≡ false
      → Visited (x, y) v s (visit is_mine adjacent_mines user at (x, y) v s)
  unfolding visit
  visit_safe x y v s h new unflagged unopened = elim (Bool-cases (mine (x, y))) [
    | inl mined ↦
        refused h new (λ c. cc c.safe)
          (rw (
            off_grid-Inside' chunk_size x y h,
            chunk_cell_index-Inside x y h,
            new,
            unflagged,
            unopened,
            mine_known x y h,
            mined,
          ))
    | inr safe ↦
        opens h new (record { unflagged = ground arith; unopened = ground arith; safe = safe })
          (rw (
            off_grid-Inside' chunk_size x y h,
            chunk_cell_index-Inside x y h,
            new,
            unflagged,
            unopened,
            mine_known x y h,
            safe,
            adjacent_known x y h,
            neighbours-eq-around x y h,
          ))
  ]

  visit_new :
      (x y : ℤ) (v : List ℕ) (s : MineChunkState)
      → Inside chunk_size x y
      → contains (index_of (x, y)) v ≡ false
      → Visited (x, y) v s (visit is_mine adjacent_mines user at (x, y) v s)
  unfolding visit
  visit_new x y v s h new = elim (Bool-cases (has_value (lookup (index_of (x, y)) s.flagged_by))) [
    | inl flagged ↦
        refused h new (λ c. ground (arith, c.unflagged))
          (rw (off_grid-Inside' chunk_size x y h, chunk_cell_index-Inside x y h, new, flagged))
    | inr unflagged ↦ elim (Bool-cases (has_value (lookup (index_of (x, y)) s.opened_cells))) [
      | inl open_cell ↦
          refused h new (λ c. ground (arith, c.unopened))
            (rw (
              off_grid-Inside' chunk_size x y h,
              chunk_cell_index-Inside x y h,
              new,
              unflagged,
              open_cell,
            ))
      | inr unopened ↦ visit_safe x y v s h new unflagged unopened
    ]
  ]

  -- A round skips the cell, marks it, or marks and opens it, and never fails.
  pub visit-Visited :
      (c : Cell) (v : List ℕ) (s : MineChunkState)
      → Visited c v s (visit is_mine adjacent_mines user at c v s)
  unfolding visit
  visit-Visited (x, y) v s = elim (Bool-cases (off_grid chunk_size x y)) [
    | inl off ↦ skipped (λ h. ground (arith, off_grid-Inside' chunk_size x y h)) (rw off)
    | inr on ↦
        let h = off_grid-Inside chunk_size x y on in
        elim (Bool-cases (contains (index_of (x, y)) v)) [
          | inl old ↦ skipped (λ _. old) (rw (on, chunk_cell_index-Inside x y h, old))
          | inr new ↦ visit_new x y v s h new
        ]
  ]
