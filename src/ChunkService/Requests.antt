-- ===== src/ChunkService/Requests.antt =====
-- OpenCell and FlagCell of internal/service/chunk_service.go: a request is checked, and then an
-- operation of the worker of its chunk. What becomes of the operation depends on when the context
-- of the request ends.
use go_lobby.Prelude.{ℕ, Bool, Option, some, err, no_active_season, context_done}
use go_lobby.Prelude.Int.{ℤ}
use go_lobby.Prelude.Text.{Str}
use go_lobby.Prelude.Effect.{M, fail, lift, ◌>>=◌}
use go_lobby.Mine.{External, MineSeason}
use go_lobby.MineMatch.States.{MineChunkStateStore}
use go_lobby.Responses.{OpenMineCellResponse, FlagMineCellResponse}
use go_lobby.ChunkService.{ChunkService, parse_playable_chunk_id, open_cell_in_worker}
use go_lobby.ChunkService.{flag_cell_in_worker}

-- The context ended before the operation was queued, or before the worker took it up, or while the
-- worker ran it for a caller who did not wait; or it lasted.
pub data Fate : Type 0 where
  unsent skipped abandoned served : Fate

unfoldable pub enqueue_chunk_operation : {W A : Type 0} → Fate → M W A → M W A
enqueue_chunk_operation unsent op = fail context_done
enqueue_chunk_operation skipped op = fail context_done
enqueue_chunk_operation abandoned op = λ w. (err context_done, (op w).1)
enqueue_chunk_operation served op = op

module _ {W : Type 0} (s : ChunkService W) where
  -- `hasMineDeps`: without a reader of seasons or a store of chunks nothing is done.
  with_mine_deps :
      {A : Type 0}
      → Option (M W (Option MineSeason))
      → Option (MineChunkStateStore W)
      → (M W (Option MineSeason) → MineChunkStateStore W → M W A)
      → M W A
  with_mine_deps (some reader) (some store) f = f reader store
  with_mine_deps _ _ f = fail no_active_season

  unfoldable pub open_cell : External → Fate → ℕ → Str → ℤ → ℤ → M W OpenMineCellResponse
  unfolding with_mine_deps enqueue_chunk_operation
  open_cell ext fate user raw x y = with_mine_deps s.season_reader s.state_store λ reader store. do
    id ← lift (parse_playable_chunk_id raw)
    enqueue_chunk_operation fate (open_cell_in_worker ext s store user id x y reader)

  unfoldable pub flag_cell : External → Fate → ℕ → Str → ℤ → ℤ → Bool → M W FlagMineCellResponse
  unfolding with_mine_deps enqueue_chunk_operation
  flag_cell ext fate user raw x y flagged =
      with_mine_deps s.season_reader s.state_store λ reader store. do
        id ← lift (parse_playable_chunk_id raw)
        enqueue_chunk_operation fate (flag_cell_in_worker ext s store user id x y reader flagged)
