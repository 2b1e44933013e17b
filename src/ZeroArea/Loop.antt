-- ===== src/ZeroArea/Loop.antt =====
-- The loop of `openZeroArea`: that the fuel lasts, and that it opens the region.
use go_lobby.Prelude.{nat_eq, ℕ, zero, suc, ◌+◌, ◌*◌, ◌≤◌, ◌≡◌, refl, sym, ap, List, [], ◌∷◌}
use go_lobby.Prelude.{◌++◌, Bool, ok, Result, arith, subst}
use go_lobby.Prelude.{length, length-append}
use go_lobby.Prelude.{eqb, if◌then◌else◌}
use go_lobby.Prelude.Int.{ℤ}
use mathlib.Core.List.{append-nil}
use go_lobby.Chunk.{chunk_size}
use go_lobby.Chunk.Cells.{Inside}
use go_lobby.Mine.World.{around}
use go_lobby.ChunkState.{MineChunkState}
use go_lobby.ZeroArea.{Cell, visit, zero_loop, open_zero_area}
use go_lobby.ZeroArea.Region.{index_of, index_of-lt}
use go_lobby.ZeroArea.Region.{count_free, count_free-cons, count_free-le}
use go_lobby.ZeroArea.Visit.{opened, Visited, skipped, refused, opens, visit-Visited}
use go_lobby.ZeroArea.Invariant.{
  CanOpen-iff-Eligible, Inv-mark, Inv-open, Inv-init, Inv-skip, Inv-Opens, Inv, Opens,
}

module _ (is_mine : ℤ → ℤ → Result Bool) (adjacent_mines : ℤ → ℤ → Result ℕ) (user at : ℕ)
    (mine : Cell → Bool) (adjacent : Cell → ℕ)
    (mine_known : (x y : ℤ) → Inside chunk_size x y → is_mine x y ≡ ok (mine (x, y)))
    (adjacent_known : (x y : ℤ) → Inside chunk_size x y → adjacent_mines x y ≡ ok (adjacent (x, y)))
    (orig : MineChunkState) (start : Cell) where
  length-more : (n : ℕ) (cell : Cell) → length (if eqb n 0 then around cell.0 cell.1 else []) ≤ 8
  unfolding around
  length-more n cell = ground arith

  round :
      (c : Cell) (v : List ℕ) (state : MineChunkState)
      → Visited is_mine adjacent_mines user at mine adjacent mine_known adjacent_known c v state
          (visit is_mine adjacent_mines user at c v state)
  round c v state =
      visit-Visited is_mine adjacent_mines user at mine adjacent mine_known adjacent_known c v state

  -- Each round lowers 8 * (cells not visited) + (length of the queue).
  zero_loop-Opens :
      (fuel : ℕ) (queue : List Cell) (v : List ℕ) (state : MineChunkState)
      → Inv mine adjacent user at orig start queue v state
      → 8 * count_free 16384 v + length queue ≤ fuel
      → Opens mine adjacent user at orig start
          (zero_loop is_mine adjacent_mines user at fuel queue v state)
  unfolding zero_loop
  zero_loop-Opens zero [] v state i f = Inv-Opens mine adjacent user at orig start i refl
  zero_loop-Opens (suc fuel) [] v state i f = Inv-Opens mine adjacent user at orig start i refl
  zero_loop-Opens zero (c ∷ queue) v state i f = absurd (omega arith)
  zero_loop-Opens (suc fuel) (c ∷ queue) v state i f = elim (round c v state) [
    | skipped old e ↦ rw e (
        zero_loop-Opens fuel (queue ++ []) v state
          (subst (λ q. Inv mine adjacent user at orig start q v state) (sym (append-nil queue))
            (Inv-skip mine adjacent user at orig start i old))
          (omega (arith, ap length (append-nil queue))))
    | refused h new shut e ↦
        let fewer = count_free-cons 16384 (index_of c) v (index_of-lt c h) new in
        let tests = CanOpen-iff-Eligible mine adjacent user at orig start i new h in
        rw e (
          zero_loop-Opens fuel (queue ++ []) (index_of c ∷ v) state
            (Inv-mark mine adjacent user at orig start i new h (λ k. shut (tests.1 k)))
            (omega (arith, ap length (append-nil queue))))
    | opens h new can e ↦
        let fewer = count_free-cons 16384 (index_of c) v (index_of-lt c h) new in
        let tests = CanOpen-iff-Eligible mine adjacent user at orig start i new h in
        let next = opened adjacent user at c v state in
        rw e (
          zero_loop-Opens fuel (queue ++ next.2) (index_of c ∷ v) next.1
            (Inv-open mine adjacent user at orig start i new h (tests.0 can))
            (omega (arith, length-append queue next.2, length-more (adjacent c) c)))
  ]

  -- Where the generator answers every cell of the chunk, opening a zero area ends, and newly opens
  -- exactly the cells of the region of the start, each with its own count and the player and time of
  -- the call; at any other index nothing changes, and the flags and the rest of the state stay.
  pub open_zero_area-Opens :
      Opens mine adjacent user at orig start
        (open_zero_area is_mine adjacent_mines user at orig start.0 start.1)
  unfolding open_zero_area
  open_zero_area-Opens =
      zero_loop-Opens 131073 (start ∷ []) [] orig (Inv-init mine adjacent user at orig start)
        (omega (arith, count_free-le 16384 []))
