-- ===== src/ChunkService/Reopen.antt =====
-- `reopenExpiredChunk` of internal/service/chunk_service.go, as a function of the state, the time
-- and the closure time.
use go_lobby.Prelude.{ℕ, ◌+◌, ◌≤◌, ◌<◌, ◌≡◌, Bool, true, false, Option, none, some, ltb, arith}
use go_lobby.Prelude.{if◌then◌else◌}
use go_lobby.ChunkState.{MineChunkState, next_version}

-- Whether the state has to be saved, and the state.
pub record Reopening : Type 0 where
  pub changed : Bool
  pub state : MineChunkState

abbrev reopened : MineChunkState → MineChunkState
reopened state = record state {
  closed = false;
  closed_by = 0;
  closed_at = none;
  closed_until = none;
  version = next_version state.version;
}

-- With the end of the closure known: `changed` says that it was filled in.
reopen_at : ℕ → ℕ → Bool → MineChunkState → Reopening
reopen_at now until changed state =
    if ltb now until
    then record { changed = changed; state = state }
    else record { changed = true; state = reopened state }

abbrev filled : ℕ → Option ℕ → ℕ
filled now none = now
filled now (some at) = at

reopen_closed : ℕ → ℕ → Option ℕ → MineChunkState → Reopening
unfolding reopen_at
reopen_closed closure now (some until) state = reopen_at now until false state
reopen_closed closure now none state =
    let at = filled now state.closed_at in
    reopen_at now (at + closure) true
      (record state { closed_at = some at; closed_until = some (at + closure) })

unfoldable pub reopening : ℕ → ℕ → MineChunkState → Reopening
unfolding reopen_closed
reopening closure now state =
    if state.closed
    then reopen_closed closure now state.closed_until state
    else record { changed = false; state = state }

-- The end of a closure: the one that is written down, or the closure time after its start, which is now
-- if it is not written down.
abbrev pub closure_end : ℕ → ℕ → Option ℕ → Option ℕ → ℕ
closure_end closure now (some until) at = until
closure_end closure now none at = filled now at + closure

-- A chunk that is not closed stays as it is. A closed chunk is open again exactly from the end of
-- its closure on, with a new version; before, it stays closed with the same version and player,
-- and its end is written down. The cells and the flags stay.
pub reopening_lem :
    (closure now : ℕ) (s : MineChunkState)
    → let r = reopening closure now s in
      let until = closure_end closure now s.closed_until s.closed_at in
      (r.state.opened_cells ≡ s.opened_cells)
      × (r.state.flagged_by ≡ s.flagged_by)
      × (s.closed ≡ false → (r.state ≡ s) × (r.changed ≡ false))
      × (s.closed ≡ true
          → until ≤ now
          → (r.changed ≡ true)
            × (r.state.closed ≡ false)
            × (r.state.closed_until ≡ none)
            × (r.state.version ≡ next_version s.version))
      × (s.closed ≡ true
          → now < until
          → (r.state.closed ≡ true)
            × (r.state.closed_until ≡ some until)
            × (r.state.closed_by ≡ s.closed_by)
            × (r.state.version ≡ s.version)
            × (r.changed ≡ false → r.state ≡ s))
unfolding reopening
reopening_lem closure now s = ground arith
