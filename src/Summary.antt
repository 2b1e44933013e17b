-- ===== src/Summary.antt =====
-- What a client reads of a chunk: GetChunkSummary and GetChunkSnapshot of
-- internal/service/chunk_service.go with the functions that build them, and ChunkBoundsFor of
-- internal/model/chunk.go. Floating-point numbers are a parameter, a float64 is its bit pattern. A
-- chunk that comes this far is on the grid, so that nothing wraps and no coordinate is negative.
pub mod Views
pub mod Demo
pub mod Leaves
pub mod Window
pub mod Listing
use go_lobby.Prelude.{nat_eq, ℕ, zero, suc, ◌+◌, ◌-◌, ◌*◌, ◌/◌, ◌%◌, List, [], ◌∷◌, ◌++◌, map}
use go_lobby.Prelude.{Bool, true, false, ◌&&◌, ◌||◌, not, Option, none, some, if◌then◌else◌}
use go_lobby.Prelude.{Result, ok, err, values, length, eqb, ltb, ◌==◌, invalid_chunk_id}
use go_lobby.Prelude.{coord_out_of_range}
use go_lobby.Prelude.Int.{ℤ, pos, pos_part, ◌+ℤ◌, int_eq}
use go_lobby.Prelude.Text.{Str, codes}
use go_lobby.Prelude.Effect.{M, pure, fail, lift, ◌>>=◌, ◌>>◌}
use go_lobby.Chunk.{
  ChunkId, chunk_grid_size, chunk_id_string, chunk_max_level, chunk_size, off_grid,
}
use go_lobby.ChunkState.{MineChunkState, OpenedCell}
use go_lobby.MineMatch.{season_or_fail}
use go_lobby.MineMatch.States.{MineChunkStateStore}
use go_lobby.Mine.{MineSeason}
use go_lobby.ChunkService.{ChunkService, parse_demo_chunk_id, reopen_expired_chunk}
use Views.{
  Floats, ChunkBounds, SummaryState, ChunkSummary, OpenedCellResponse, FlaggedCellResponse,
  ChunkSnapshot, apply_mine_state_to_summary, state_of_counts, opened_cell_response, flagged_cell,
  build_snapshot_from_state, normal, opening, closing, closed, hot,
}
use Demo.{demo_chunk_state, build_demo_opened_cells, demo_opened_count}
use Leaves.{total_leaf_count_for_level, count_closed_leaves}

-- The reopening of a state that is there.
unfoldable pub reopen_found :
    {W : Type 0}
    → ChunkService W
    → MineChunkStateStore W
    → Option MineChunkState
    → ℕ
    → M W (Option MineChunkState)
reopen_found s store none now = pure none
reopen_found s store (some state) now =
    reopen_expired_chunk s store state now >>= λ state'. pure (some state')

module _ (fl : Floats) where
  unfoldable pub bounds_on_grid : ℤ → ℤ → ℕ → Result ChunkBounds
  bounds_on_grid x y size =
      let cell = fl.divide (fl.of_int (pos 1)) (fl.of_int (pos size)) in
      if off_grid size x y
      then err coord_out_of_range
      else ok (record {
        min_x = fl.multiply (fl.of_int x) cell;
        min_y = fl.multiply (fl.of_int y) cell;
        max_x = fl.multiply (fl.of_int (x +ℤ pos 1)) cell;
        max_y = fl.multiply (fl.of_int (y +ℤ pos 1)) cell;
      })

  unfoldable pub chunk_bounds_for : ℤ → ℤ → ℤ → Result ChunkBounds
  unfolding chunk_grid_size bounds_on_grid
  chunk_bounds_for level x y = elim (chunk_grid_size level) [
    | err e ↦ err e
    | ok size ↦ bounds_on_grid x y size
  ]

  unfoldable pub build_base_chunk_summary : ChunkId → Result ChunkSummary
  unfolding chunk_bounds_for
  build_base_chunk_summary id = elim (chunk_bounds_for id.z id.x id.y) [
    | err e ↦ err invalid_chunk_id
    | ok bounds ↦ ok (record {
      chunk_id = chunk_id_string id;
      region = id.region;
      level = id.z;
      x = id.x;
      y = id.y;
      bounds = bounds;
      state = normal;
      is_closed = false;
      closed_at = none;
      closed_until = none;
      version = 1;
      opened_count = 0;
      closed_leaf_count = 0;
      total_leaf_count = total_leaf_count_for_level id.z;
      closed_ratio = fl.float_zero;
    })
  ]

  abbrev is_closed_state : SummaryState → Bool
  is_closed_state closed = true
  is_closed_state _ = false

  abbrev as_demo : ChunkId → Result ChunkSummary → Result ChunkSummary
  as_demo id (err e) = err e
  as_demo id (ok summary) = ok (record summary {
    state = demo_chunk_state id;
    is_closed = is_closed_state (demo_chunk_state id);
    version = 1 + pos_part id.z * 10000 + pos_part id.y * 100 + pos_part id.x;
    opened_count = demo_opened_count id;
  })

  unfoldable pub build_demo_chunk_summary : ChunkId → Result ChunkSummary
  unfolding build_base_chunk_summary
  build_demo_chunk_summary id = as_demo id (build_base_chunk_summary id)

  unfoldable pub apply_closed_leaf_aggregate : ChunkSummary → ChunkId → List Str → ChunkSummary
  unfolding state_of_counts
  apply_closed_leaf_aggregate summary id leaves =
      let total = total_leaf_count_for_level id.z in
      let count = count_closed_leaves id leaves in
      record summary {
        total_leaf_count = total;
        closed_leaf_count = count;
        closed_ratio =
            if ltb 0 total
            then fl.divide (fl.of_int (pos count)) (fl.of_int (pos total))
            else summary.closed_ratio;
        is_closed =
            if id.z == pos chunk_max_level
            then summary.is_closed || eqb count 1
            else summary.is_closed;
        state = state_of_counts count total summary.opened_count;
      }

  module _ {W : Type 0} (s : ChunkService W) where
    unfoldable pub load_reopened : MineChunkStateStore W → ℕ → Str → M W (Option MineChunkState)
    unfolding reopen_found
    load_reopened store season_id chunk_id = do
      found ← store.get_state season_id chunk_id
      now ← s.now
      reopen_found s store found now

    unfoldable pub with_leaf_state :
        MineChunkStateStore W → ℕ → ChunkId → ChunkSummary → M W ChunkSummary
    unfolding load_reopened
    with_leaf_state store season_id id summary =
        if id.z == pos chunk_max_level
        then (load_reopened store season_id (chunk_id_string id) >>= λ state.
            pure (apply_mine_state_to_summary summary state))
        else pure summary

    unfoldable pub summary_of_id : ChunkId → M W ChunkSummary
    unfolding with_leaf_state build_base_chunk_summary build_demo_chunk_summary
    summary_of_id id = elim s.season_reader [
      | none ↦ lift (build_demo_chunk_summary id)
      | some get_active_season ↦ elim s.state_store [
        | none ↦ lift (build_demo_chunk_summary id)
        | some store ↦ do
          summary ← lift (build_base_chunk_summary id)
          active ← get_active_season
          season ← season_or_fail active
          summary' ← with_leaf_state store season.id id summary
          leaves ← store.list_closed_leaf_chunk_ids season.id
          pure (apply_closed_leaf_aggregate summary' id leaves)
      ]
    ]

    unfoldable pub get_chunk_summary : Str → M W ChunkSummary
    unfolding summary_of_id
    get_chunk_summary raw = do id ← lift (parse_demo_chunk_id raw); summary_of_id id

    abbrev demo_snapshot : ChunkId → List OpenedCellResponse → ChunkSummary → ChunkSnapshot
    demo_snapshot id cells summary = record {
      chunk_id = chunk_id_string id;
      is_closed = summary.is_closed;
      closed_at = none;
      closed_until = none;
      version = summary.version;
      opened_cells = cells;
      flagged_cells = [];
    }

    unfoldable pub leaf_snapshot :
        M W (Option MineSeason) → MineChunkStateStore W → ChunkId → M W ChunkSnapshot
    unfolding load_reopened
    leaf_snapshot get_active_season store id = do
      active ← get_active_season
      season ← season_or_fail active
      state ← load_reopened store season.id (chunk_id_string id)
      pure (build_snapshot_from_state id state)

    -- With the stores: above the leaves made-up values are shown as well.
    unfoldable pub snapshot_with :
        M W (Option MineSeason) → MineChunkStateStore W → ChunkId → M W ChunkSnapshot
    unfolding build_demo_chunk_summary leaf_snapshot
    snapshot_with get_active_season store id = lift (build_demo_chunk_summary id) >>= λ summary.
        if id.z == pos chunk_max_level
        then leaf_snapshot get_active_season store id
        else pure (demo_snapshot id [] summary)

    unfoldable pub snapshot_of_id : ChunkId → M W ChunkSnapshot
    unfolding snapshot_with build_demo_chunk_summary
    snapshot_of_id id = elim s.season_reader [
      | none ↦ lift (build_demo_chunk_summary id) >>= λ summary.
          pure (demo_snapshot id (build_demo_opened_cells id) summary)
      | some get_active_season ↦ elim s.state_store [
        | none ↦ lift (build_demo_chunk_summary id) >>= λ summary.
            pure (demo_snapshot id (build_demo_opened_cells id) summary)
        | some store ↦ snapshot_with get_active_season store id
      ]
    ]

    unfoldable pub get_chunk_snapshot : Str → M W ChunkSnapshot
    unfolding snapshot_of_id
    get_chunk_snapshot raw = do id ← lift (parse_demo_chunk_id raw); snapshot_of_id id
