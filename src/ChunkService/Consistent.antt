-- ===== src/ChunkService/Consistent.antt =====
-- What the stored cells of a chunk say about the minefield.
use go_lobby.Prelude.{nat_eq, ℕ, Bool, true, false, none, some, ◌≡◌, refl, sym, ◌∙◌, ap, subst}
use go_lobby.Prelude.{Result, ok, lookup, delete, lookup-insert, lookup-delete, eqb, eqb_iff}
use go_lobby.Prelude.{if◌then◌else◌, ◌==◌, inl, inr}
use go_lobby.Prelude.Int.{ℤ}
use go_lobby.Chunk.{ChunkId, chunk_size}
use go_lobby.Chunk.Cells.{Inside, IsPlayable, place}
use go_lobby.Mine.{External, MineSeason, is_mine, adjacent_mine_count, invalid_mine_rate}
use go_lobby.Mine.World.{mine_at, mines_of, around, is_mine_inside, adjacent_mine_count_lem}
use go_lobby.ChunkState.{MineChunkState, OpenedCell, open_cell_in_state, player_has_opened_cell}
use go_lobby.ZeroArea.{Cell, open_zero_area}
use go_lobby.ZeroArea.Region.{InChunk, index_of, Reach-Eligible}
use go_lobby.ZeroArea.Invariant.{Opens, snapshot}
use go_lobby.ZeroArea.Loop.{open_zero_area-Opens}
use go_lobby.ChunkService.{
  Effect, protected, changed, open_mine, open_counted, open_answered, open_fresh,
}
use go_lobby.ChunkService.{area_effect}

module _ (mine : Cell → Bool) (adjacent : Cell → ℕ) where
  -- An entry stands under the index of its cell, which is no mine and bears no flag, and it shows
  -- the number of mines around.
  abbrev pub Shows : MineChunkState → ℕ → OpenedCell → Type 0
  Shows state i c =
      InChunk (c.x, c.y)
      × (i ≡ index_of (c.x, c.y))
      × (c.index ≡ i)
      × (mine (c.x, c.y) ≡ false)
      × (c.adjacent_mines ≡ adjacent (c.x, c.y))
      × (lookup i state.flagged_by ≡ none)

  abbrev pub IsConsistent : MineChunkState → Type 0
  IsConsistent state =
      (i : ℕ) (c : OpenedCell) → lookup i state.opened_cells ≡ some c → Shows state i c

  snapshot-Shows :
      (state : MineChunkState) (user at : ℕ) (d : Cell) (i : ℕ) (c : OpenedCell)
      → snapshot adjacent user at d ≡ c
      → InChunk d
      → i ≡ index_of d
      → mine d ≡ false
      → lookup i state.flagged_by ≡ none
      → Shows state i c
  snapshot-Shows state user at d i c same h e safe flags =
      subst (Shows state i) same (h, e, sym e, safe, refl, flags)

  open_cell_in_state-IsConsistent :
      (state : MineChunkState) (user at : ℕ) (x y : ℤ)
      → IsConsistent state
      → InChunk (x, y)
      → mine (x, y) ≡ false
      → IsConsistent (open_cell_in_state state x y (index_of (x, y)) user at (adjacent (x, y)))
  unfolding open_cell_in_state
  open_cell_in_state-IsConsistent state user at x y sound h safe i c found =
      go (index_of (x, y) == i) refl (
        sym
          (lookup-insert (index_of (x, y)) i (snapshot adjacent user at (x, y)) state.opened_cells)
        ∙ found)
    where
      flags :
          (b : Bool)
          → (index_of (x, y) == i) ≡ b
          → (if b then none else lookup i state.flagged_by) ≡ none
          → lookup i (delete (index_of (x, y)) state.flagged_by) ≡ none
      flags b e n = lookup-delete (index_of (x, y)) i state.flagged_by ∙ rw e n

      go :
          (b : Bool)
          → (index_of (x, y) == i) ≡ b
          → (if b then some (snapshot adjacent user at (x, y)) else lookup i state.opened_cells)
            ≡ some c
          → Shows (open_cell_in_state state x y (index_of (x, y)) user at (adjacent (x, y))) i c
      go true same e =
          snapshot-Shows (open_cell_in_state state x y (index_of (x, y)) user at (adjacent (x, y)))
            user at (x, y) i c (cc e) h (sym ((eqb_iff (index_of (x, y)) i).0 same)) safe
            (flags true same refl)
      go false other e =
          let (inside, index, own, safe', shown, unflagged) = sound i c e in
          (inside, index, own, safe', shown, flags false other unflagged)

  opened_area-IsConsistent :
      (state : MineChunkState) (user at : ℕ) (start : Cell) (r : Result MineChunkState)
      → IsConsistent state
      → (o : Opens mine adjacent user at state start r) → IsConsistent o.out
  opened_area-IsConsistent state user at start r sound o i c found = elim (o.grown i) [
    | inl same ↦
        let (inside, index, own, safe, shown, unflagged) = sound i c (sym same ∙ found) in
        (inside, index, own, safe, shown, flags ∙ unflagged)
    | inr (d, reached, index, open_cell) ↦
        let e = Reach-Eligible mine adjacent state start reached in
        snapshot-Shows o.out user at d i c
          (cc (
            sym (
              subst (λ j. lookup j o.out.opened_cells ≡ some (snapshot adjacent user at d))
                (sym index) open_cell)
            ∙ found))
          e.in_chunk index e.safe
          (flags ∙ subst (λ j. lookup j state.flagged_by ≡ none) (sym index) e.unflagged)
  ]
    where
      flags : lookup i o.out.flagged_by ≡ lookup i state.flagged_by
      flags = ap (λ (st : MineChunkState). lookup i st.flagged_by) o.frame

-- An effect leaves a consistent state.
abbrev pub EffectOn : (MineChunkState → Type 0) → Effect → Type 0
EffectOn P protected = Unit {0}
EffectOn P (changed mine adjacent state) = P state

module _ (ext : External) (s : MineSeason) (valid : invalid_mine_rate ext s.mine_rate ≡ false)
    (id : ChunkId) (p : IsPlayable id) (closure user now : ℕ) (state : MineChunkState) where
  abbrev pub mine_in : Cell → Bool
  mine_in (x, y) = mine_at ext s (place id.x x) (place id.y y)

  abbrev pub mines_around : Cell → ℕ
  mines_around (x, y) = mines_of ext s (around (place id.x x) (place id.y y))

  abbrev Sound : Effect → Type 0
  Sound = EffectOn (IsConsistent mine_in mines_around)

  either : {X : Type 0} (P : X → Type 0) (b : Bool) (a c : X) → P a → P c → P (if b then a else c)
  either P true a c h k = h
  either P false a c h k = k

  -- Closing the chunk leaves the cells alone.
  open_mine-Sound :
      IsConsistent mine_in mines_around state → Sound (open_mine ext closure user now s id state)
  unfolding open_mine
  open_mine-Sound sound = either Sound (player_has_opened_cell state user) _ _ sound tt

  module _ (x y : ℤ) (h : Inside chunk_size x y)
      (sound : IsConsistent mine_in mines_around state) where
    abbrev generator : ℤ → ℤ → Result Bool
    generator = is_mine ext (some s) id

    abbrev counter : ℤ → ℤ → Result ℕ
    counter = adjacent_mine_count ext (some s) id

    area :
        Opens mine_in mines_around user now state
          (x, y)
          (open_zero_area generator counter user now state x y)
    area =
        open_zero_area-Opens generator counter user now mine_in mines_around
          (λ a b i. is_mine_inside ext s valid id p a b i)
          (λ a b i. adjacent_mine_count_lem ext s valid id p a b i) state (x, y)

    abbrev SoundResult : Result Effect → Type 0
    SoundResult r = (e : Effect) × (r ≡ ok e) × Sound e

    open_counted-Sound :
        mine_in (x, y) ≡ false
        → SoundResult (
            open_counted ext closure user now s id state x y
              (index_of (x, y))
              (ok (mines_around (x, y))))
    unfolding open_counted
    open_counted-Sound safe =
        either SoundResult (eqb (mines_around (x, y)) 0) _ _
          (
            changed false (mines_around (x, y)) area.out,
            ap (area_effect ext closure user now s id (mines_around (x, y))) area.returns,
            opened_area-IsConsistent mine_in mines_around state user now (x, y) _ sound area,
          )
          (
            _,
            refl,
            open_cell_in_state-IsConsistent mine_in mines_around state user now x y sound h safe,
          )

    open_answered-Sound :
        (b : Bool)
        → mine_in (x, y) ≡ b
        → SoundResult (open_answered ext closure user now s id state x y (index_of (x, y)) (ok b))
    unfolding open_answered
    open_answered-Sound true m =
        (open_mine ext closure user now s id state, refl, open_mine-Sound sound)
    open_answered-Sound false m =
        subst
          (λ r. SoundResult (open_counted ext closure user now s id state x y (index_of (x, y)) r))
          (sym (adjacent_mine_count_lem ext s valid id p x y h)) (open_counted-Sound m)

    -- Opening a cell of a playable chunk, with a valid rate of mines, has an effect, and leaves the
    -- chunk consistent if it was: each opened cell is no mine, bears no flag, and shows the number
    -- of mines around it.
    pub open_fresh-IsConsistent :
        (e : Effect) × (open_fresh ext closure user now s id state x y (index_of (x, y)) ≡ ok e)
        × EffectOn (IsConsistent mine_in mines_around) e
    unfolding open_fresh
    open_fresh-IsConsistent =
        subst
          (λ r. SoundResult (open_answered ext closure user now s id state x y (index_of (x, y)) r))
          (sym (is_mine_inside ext s valid id p x y h)) (open_answered-Sound (mine_in (x, y)) refl)
