-- ===== src/MineMatch/Contract.antt =====
-- What `findAndLockCleanChunk` of internal/service/mine_match_service.go relies on: a contract on the
-- locks and the states of the chunks of a season.
use go_lobby.Prelude.{
  nat_eq, ℕ, ◌<◌, List, [], ◌∷◌, Bool, true, false, Option, none, some, if◌then◌else◌,
}
use go_lobby.Prelude.{Error, ok, err, ◌==◌, eqb, length, not, ◌&&◌}
use go_lobby.Prelude.{◌≡◌, ◌≢◌, refl, ◌⊎◌, arith}
use go_lobby.Prelude.Int.{two63}
use go_lobby.Prelude.Text.{Str, str_eq}
use go_lobby.ChunkState.{MineChunkState, OpenedCell}
use go_lobby.MineMatch.States.{MineMatchStore, MineChunkStateStore}

-- What `GetChunkLock` answers for a lock.
abbrev pub lock_number : Option ℕ → ℕ
lock_number none = 0
lock_number (some m) = m

-- The contract. A command that fails changes nothing, but an unlock may fail halfway.
pub record KeepsLocks {W : Type 0} (locks : MineMatchStore W) (states : MineChunkStateStore W)
    (season : ℕ) : Type 0 where
  pub lock : W → Str → Option ℕ
  pub state : W → Str → Option MineChunkState
  pub locked :
      (c : Str) (w : W)
      → (locks.get_chunk_lock season c w ≡ (ok (lock_number (lock w c)), w))
        ⊎ ((e : Error) × (locks.get_chunk_lock season c w ≡ (err e, w)))
  pub read :
      (c : Str) (w : W)
      → (states.get_state season c w ≡ (ok (state w c), w))
        ⊎ ((e : Error) × (states.get_state season c w ≡ (err e, w)))
  pub tried :
      (c : Str) (m : ℕ) (w : W)
      → m < two63
      → ((w' : W) × (locks.try_lock_chunk season c m w ≡ (ok true, w'))
          × (lock w c ≡ none)
          × ((d : Str) → lock w' d ≡ (if c == d then some m else lock w d))
          × ((d : Str) → state w' d ≡ state w d))
        ⊎ (((w' : W) × (locks.try_lock_chunk season c m w ≡ (ok false, w'))
              × (lock w c ≢ none)
              × ((d : Str) → lock w' d ≡ lock w d)
              × ((d : Str) → state w' d ≡ state w d))
            ⊎ ((e : Error) × (locks.try_lock_chunk season c m w ≡ (err e, w))))
  pub unlocked :
      (c : Str) (m : ℕ) (w : W)
      → let w' = (locks.unlock_chunk season c m w).1 in
        ((d : Str) → (c == d) ≡ false → lock w' d ≡ lock w d) × ((d : Str) → state w' d ≡ state w d)

-- A chunk without a state, or one that is open and has no cell opened and no flag.
abbrev pub IsUntouched : Option MineChunkState → Type 0
IsUntouched none = Unit {0}
IsUntouched (some state) =
    (state.closed ≡ false) × (state.opened_cells ≡ []) × (state.flagged_by ≡ [])

pub fields_clean :
    (closed : Bool) (cells : List (ℕ × OpenedCell)) (flags : List (ℕ × ℕ))
    → (not closed && eqb (length cells) 0 && eqb (length flags) 0) ≡ true
    → (closed ≡ false) × (cells ≡ []) × (flags ≡ [])
fields_clean false [] [] h = (refl, refl, refl)
fields_clean false [] (f ∷ flags) h = absurd (ground (arith, h))
fields_clean false (c ∷ cells) flags h = absurd (ground (arith, h))
fields_clean true cells flags h = cc
