-- ===== src/Summary/Listing.antt =====
-- `ListChunks` of internal/service/chunk_service.go. A leaf that has no state is listed with none.
pub mod Places
pub mod Single
use go_lobby.Prelude.{nat_eq, ℕ, List, [], ◌∷◌, Option, none, some, if◌then◌else◌, ◌==◌}
use go_lobby.Prelude.{Result, ok, err, lookup, insert, invalid_chunk_id, panic}
use go_lobby.Prelude.Int.{ℤ, pos, sub_ℕ, ◌*ℤ◌, ltb_ℤ, int_eq}
use go_lobby.Prelude.Text.{Str, str_eq}
use go_lobby.Prelude.{Bool, ◌+◌}
use go_lobby.Prelude.Effect.{M, Done, pure, lift, stop_if, ◌>>=◌, ◌>>◌}
use go_lobby.Chunk.{ChunkId, cn, chunk_id_string, chunk_max_level}
use go_lobby.ChunkState.{MineChunkState}
use go_lobby.Mine.{MineSeason}
use go_lobby.MineMatch.{season_or_fail}
use go_lobby.MineMatch.States.{MineChunkStateStore}
use go_lobby.ChunkService.{ChunkService}
use go_lobby.Summary.Views.{Floats, ChunkBounds, ChunkSummary, apply_mine_state_to_summary}
use go_lobby.Summary.Window.{ChunkRange, visible_chunk_range, window_ids}
use go_lobby.Summary.{
  build_base_chunk_summary, build_demo_chunk_summary, apply_closed_leaf_aggregate, reopen_found,
}

pub record ChunkListResponse : Type 0 where
  pub region : Str
  pub level : ℤ
  pub bbox : ChunkBounds
  pub chunks : List ChunkSummary

-- `leafStates`, in which a leaf without a state is nil.
abbrev pub LeafStates : Type 0
LeafStates = List (Str × Option MineChunkState)

-- `leafStates[id]`: nil for a leaf that is not there.
leaf_state : Str → LeafStates → Option MineChunkState
leaf_state id states = elim (lookup id states) [ none ↦ none | some state ↦ state ]

-- `make` panics on a negative capacity.
unfoldable pub is_negative_capacity : ChunkRange → Bool
is_negative_capacity r = ltb_ℤ (sub_ℕ (r.max_x + 1) r.min_x *ℤ sub_ℕ (r.max_y + 1) r.min_y) (pos 0)

module _ (fl : Floats) where
  with_leaf : ℤ → LeafStates → ChunkSummary → ChunkSummary
  unfolding leaf_state
  with_leaf level states summary =
      if level == pos chunk_max_level
      then apply_mine_state_to_summary summary (leaf_state summary.chunk_id states)
      else summary

  -- One round of the loop. Without the stores the values are made up.
  unfoldable pub listed_summary : ℤ → Option (LeafStates × List Str) → ChunkId → Result ChunkSummary
  unfolding build_demo_chunk_summary with_leaf
  listed_summary level none id = build_demo_chunk_summary fl id
  listed_summary level (some (states, leaves)) id = elim (build_demo_chunk_summary fl id) [
    | err e ↦ err e
    | ok _ ↦ elim (build_base_chunk_summary fl id) [
      | err e ↦ err e
      | ok summary ↦ ok (apply_closed_leaf_aggregate fl (with_leaf level states summary) id leaves)
    ]
  ]

  abbrev joined : ChunkSummary → Result (List ChunkSummary) → Result (List ChunkSummary)
  joined chunk (err e) = err e
  joined chunk (ok chunks) = ok (chunk ∷ chunks)

  unfoldable pub list_summaries :
      ℤ → Option (LeafStates × List Str) → List ChunkId → Result (List ChunkSummary)
  unfolding listed_summary
  list_summaries level stored [] = ok []
  list_summaries level stored (id ∷ ids) =
      let rest = list_summaries level stored ids in
      elim (listed_summary level stored id) [ err e ↦ err e | ok chunk ↦ joined chunk rest ]

  module _ {W : Type 0} (s : ChunkService W) where
    unfoldable pub load_leaf_states :
        MineChunkStateStore W → ℕ → ℕ → List ChunkId → LeafStates → M W LeafStates
    load_leaf_states store season_id now [] states = pure states
    load_leaf_states store season_id now (id ∷ ids) states = do
      found ← store.get_state season_id (chunk_id_string id)
      state ← reopen_found s store found now
      load_leaf_states store season_id now ids (insert (chunk_id_string id) state states)

    unfoldable pub leaf_states_of : MineChunkStateStore W → ℕ → ℤ → ChunkRange → M W LeafStates
    unfolding load_leaf_states
    leaf_states_of store season_id level r =
        if level == pos chunk_max_level
        then (s.now >>= λ now. load_leaf_states store season_id now (window_ids level r) [])
        else pure []

    unfoldable pub read_stores :
        M W (Option MineSeason)
        → MineChunkStateStore W
        → ℤ
        → ChunkRange
        → M W (Option (LeafStates × List Str))
    unfolding leaf_states_of
    read_stores get_active_season store level r = do
      active ← get_active_season
      season ← season_or_fail active
      states ← leaf_states_of store season.id level r
      leaves ← store.list_closed_leaf_chunk_ids season.id
      pure (some (states, leaves))

    unfoldable pub stored_for : ℤ → ChunkRange → M W (Option (LeafStates × List Str))
    unfolding read_stores
    stored_for level r = elim s.season_reader [
      | none ↦ pure none
      | some get_active_season ↦ elim s.state_store [
        | none ↦ pure none
        | some store ↦ read_stores get_active_season store level r
      ]
    ]

    unfoldable pub list_range : ℤ → ChunkBounds → ChunkRange → M W ChunkListResponse
    unfolding stored_for list_summaries is_negative_capacity
    list_range level bounds r = do
      stored ← stored_for level r
      stop_if (is_negative_capacity r) panic
      chunks ← lift (list_summaries level stored (window_ids level r))
      pure (record { region = cn; level = level; bbox = bounds; chunks = chunks })

    unfoldable pub list_chunks : ℤ → ChunkBounds → M W ChunkListResponse
    unfolding list_range
    list_chunks level bounds = elim (visible_chunk_range fl level bounds) [
      | err _ ↦ λ w. (err invalid_chunk_id, w)
      | ok r ↦ list_range level bounds r
    ]
