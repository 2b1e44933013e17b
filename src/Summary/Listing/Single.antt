-- ===== src/Summary/Listing/Single.antt =====
-- An entry of `ListChunks` beside what `GetChunkSummary` answers for the same chunk.
use go_lobby.Prelude.{
  nat_eq, ℕ, ◌≤◌, List, [], ◌∷◌, true, false, Option, none, some, if◌then◌else◌, ok, Result-cases,
  All-map, All-always,
}
use go_lobby.Prelude.{◌==◌, ==-refl, lookup, insert, lookup-insert, All, Bool-cases, subst}
use go_lobby.Prelude.{◌≡◌, refl, ap, sym, ◌∙◌, inl, inr, arith}
use native.Mathlib.Nat.{pow-le-pow_right}
use go_lobby.Prelude.Int.{ℤ, pos, negsuc, int_eq}
use go_lobby.Prelude.Text.{Str, str_eq}
use go_lobby.Prelude.Effect.{M}
use go_lobby.Chunk.{ChunkId, cn, chunk_grid_size, chunk_id_string, chunk_max_level}
use go_lobby.ChunkState.{MineChunkState}
use go_lobby.Mine.{MineSeason}
use go_lobby.MineMatch.{season_or_fail}
use go_lobby.MineMatch.States.{MineChunkStateStore}
use go_lobby.ChunkService.{ChunkService, reopen_expired_chunk, parse_demo_chunk_id}
use go_lobby.ChunkService.Reopen.{reopening}
use go_lobby.Summary.Views.{Floats, ChunkBounds, ChunkSummary, apply_mine_state_to_summary}
use go_lobby.Summary.{
  get_chunk_summary, summary_of_id, with_leaf_state, reopen_found, load_reopened,
  build_demo_chunk_summary, apply_closed_leaf_aggregate,
}
use go_lobby.Summary.Listing.Places.{base-OnGrid, list-OnGrid}
use go_lobby.Chunk.Parse.{IsCanonical, IsCoord, parse_chunk_id-chunk_id_string}
use go_lobby.Summary.Window.{ChunkRange, visible_chunk_range, window_ids}
use go_lobby.Summary.Window.Cover.{OnGrid, window_ids-OnGrid, visible_chunk_range-IsWithin}
use go_lobby.Summary.Listing.{
  LeafStates, leaf_state, with_leaf, listed_summary, load_leaf_states, list_summaries,
  leaf_states_of, stored_for, list_chunks, is_negative_capacity,
}

-- What a read finds in a chunk: its state, open again if it is due.
abbrev seen : ℕ → ℕ → Option MineChunkState → Option MineChunkState
seen closure now none = none
seen closure now (some state) = some (reopening closure now state).state

module _ {W : Type 0} (s : ChunkService W) where
  -- A world in which every read succeeds and changes nothing, and no chunk is to be reopened.
  pub record IsQuiet (store : MineChunkStateStore W) (season_id : ℕ) (w : W) : Type 0 where
    pub state_of : Str → Option MineChunkState
    pub time : ℕ
    pub found : (k : Str) → store.get_state season_id k w ≡ (ok (state_of k), w)
    pub clock : s.now w ≡ (ok time, w)
    pub settled :
        (k : Str) (state : MineChunkState)
        → state_of k ≡ some state
        → (reopening s.closure_duration time state).changed ≡ false

  module _ (store : MineChunkStateStore W) (season_id : ℕ) (w : W)
      (quiet : IsQuiet store season_id w) where
    open quiet use {state_of, time, found, clock, settled}

    abbrev shown : Str → Option MineChunkState
    shown k = seen s.closure_duration time (state_of k)

    reopen_quiet : (k : Str) → reopen_found s store (state_of k) time w ≡ (ok (shown k), w)
    unfolding reopen_found reopen_expired_chunk
    reopen_quiet k = go (state_of k) refl
      where
        go :
            (o : Option MineChunkState)
            → state_of k ≡ o
            → reopen_found s store o time w ≡ (ok (seen s.closure_duration time o), w)
        go none e = refl
        go (some state) e = ground (arith, settled k state e)

    load_quiet :
        (fl : Floats) (k : Str) → load_reopened fl s store season_id k w ≡ (ok (shown k), w)
    unfolding load_reopened
    load_quiet fl k = ground (arith, found k, clock, reopen_quiet k)

    -- The leaves of a list are read as they are.
    leaf_states_quiet :
        (fl : Floats) (ids : List ChunkId) (states : LeafStates)
        → (loaded : LeafStates) × (load_leaf_states fl s store season_id time ids states w
            ≡ (ok loaded, w))
          × ((k : Str) → lookup k states ≡ some (shown k) → lookup k loaded ≡ some (shown k))
          × All (λ id. lookup (chunk_id_string id) loaded ≡ some (shown (chunk_id_string id))) ids
    unfolding load_leaf_states
    leaf_states_quiet fl [] states = (states, refl, λ k e. e, tt)
    leaf_states_quiet fl (id ∷ ids) states =
        let key = chunk_id_string id in
        let (loaded, e, kept, all) = leaf_states_quiet fl ids (insert key (shown key) states) in
        (
          loaded,
          ground (arith, found key, reopen_quiet key, e),
          λ k there. kept k (lookup-insert key k (shown key) states ∙ at key k there),
          (kept key (lookup-insert key key (shown key) states ∙ rw (==-refl key) refl), all),
        )
      where
        at :
            (key k : Str)
            → lookup k states ≡ some (shown k)
            → (if key == k then some (shown key) else lookup k states) ≡ some (shown k)
        at key k there = elim (Bool-cases (key == k)) [
          | inl same ↦ rw same (ap (λ j. some (shown j)) ((str_eq.beq_iff key k).0 same))
          | inr other ↦ rw other there
        ]

chunk_grid_size-le : (level : ℤ) {size : ℕ} → chunk_grid_size level ≡ ok size → size ≤ 64
unfolding chunk_grid_size
chunk_grid_size-le (negsuc n) e = cc
chunk_grid_size-le (pos n) e =
    ground (arith, e, λ (h : n ≤ 6). pow-le-pow_right {n = 2} (omega arith) {i = n} {j = 6} h)

level-IsCoord : (level : ℤ) {size : ℕ} → chunk_grid_size level ≡ ok size → IsCoord level
unfolding chunk_grid_size
level-IsCoord (negsuc n) e = cc
level-IsCoord (pos n) e = ground (arith, e)

canonical :
    (level : ℤ) (size : ℕ) (id : ChunkId)
    → chunk_grid_size level ≡ ok size
    → OnGrid level size id
    → IsCanonical id
canonical level size id sized g = record {
  region_some = rw g.region_cn (λ e. cc);
  region_plain = rw g.region_cn (omega arith);
  z_coord = rw g.of_level (level-IsCoord level sized);
  x_coord = rw g.at_column (omega (arith, g.column_fits, chunk_grid_size-le level sized));
  y_coord = rw g.at_row (omega (arith, g.row_fits, chunk_grid_size-le level sized));
}

parsed :
    (level : ℤ) (size : ℕ) (id : ChunkId)
    → chunk_grid_size level ≡ ok size
    → OnGrid level size id
    → parse_demo_chunk_id (chunk_id_string id) ≡ ok id
unfolding parse_demo_chunk_id
parsed level size id sized g = ground (
  arith,
  parse_chunk_id-chunk_id_string id (canonical level size id sized g),
  ap chunk_grid_size g.of_level ∙ sized,
  g.region_cn,
  ==-refl cn,
  g.at_column,
  g.at_row,
  g.column_fits,
  g.row_fits,
)

module _ (fl : Floats) {W : Type 0} (s : ChunkService W) (store : MineChunkStateStore W)
    (season : MineSeason) (reader : M W (Option MineSeason)) (leaves : List Str) (w : W)
    (stored : s.state_store ≡ some store) (reads : s.season_reader ≡ some reader)
    (active : reader w ≡ (ok (some season), w))
    (closed : store.list_closed_leaf_chunk_ids season.id w ≡ (ok leaves, w))
    (quiet : IsQuiet s store season.id w) where
  -- A single summary is the entry of a list.
  single_entry :
      (size : ℕ) (states : LeafStates) (id : ChunkId) {c : ChunkSummary}
      → chunk_grid_size id.z ≡ ok size
      → OnGrid id.z size id
      → ((id.z == pos chunk_max_level) ≡ true
          → lookup (chunk_id_string id) states
            ≡ some (shown s store season.id w quiet (chunk_id_string id)))
      → listed_summary fl id.z (some (states, leaves)) id ≡ ok c
      → (c.chunk_id ≡ chunk_id_string id) × (summary_of_id fl s id w ≡ (ok c, w))
  unfolding summary_of_id season_or_fail with_leaf_state listed_summary build_demo_chunk_summary
      with_leaf leaf_state apply_closed_leaf_aggregate apply_mine_state_to_summary
  single_entry size states id {c} sized g known listed =
      let (base, e, place, key) = base-OnGrid fl id.z size id sized g in
      elim (Bool-cases (id.z == pos chunk_max_level)) [
        | inl leaf ↦ ground (
          arith,
          stored,
          reads,
          active,
          closed,
          leaf,
          e,
          key,
          listed,
          known leaf,
          load_quiet s store season.id w quiet fl (chunk_id_string id),
        )
        | inr above ↦ ground (arith, stored, reads, active, closed, above, e, key, listed)
      ]

  Known : ℤ → LeafStates → ChunkId → Type 0
  Known level states id =
      (level == pos chunk_max_level) ≡ true
      → lookup (chunk_id_string id) states
        ≡ some (shown s store season.id w quiet (chunk_id_string id))

  module _ (level : ℤ) (size : ℕ) (sized : chunk_grid_size level ≡ ok size)
      (states : LeafStates) where
    IsSingle : ChunkSummary → Type 0
    IsSingle c = get_chunk_summary fl s c.chunk_id w ≡ (ok c, w)

    entry :
        (id : ChunkId) {c : ChunkSummary}
        → OnGrid level size id
        → Known level states id
        → listed_summary fl level (some (states, leaves)) id ≡ ok c
        → IsSingle c
    unfolding get_chunk_summary IsSingle Known
    entry id {c} g known listed =
        let same : id.z ≡ level = g.of_level in
        let (key, single) =
          single_entry size states id (ap chunk_grid_size same ∙ sized)
            (subst (λ z. OnGrid z size id) (sym same) g)
            (λ leaf. known (ap (λ z. z == pos chunk_max_level) (sym same) ∙ leaf))
            (ap (λ z. listed_summary fl z (some (states, leaves)) id) same ∙ listed) in
        ground (arith, key, single, parsed level size id sized g)

    entries :
        (ids : List ChunkId) {chunks : List ChunkSummary}
        → All (OnGrid level size) ids
        → All (Known level states) ids
        → list_summaries fl level (some (states, leaves)) ids ≡ ok chunks
        → All IsSingle chunks
    unfolding list_summaries
    entries [] {chunks} gs ks e = let same : [] ≡ chunks = cc in subst (All IsSingle) same tt
    entries (id ∷ ids) {chunks} (g, gs) (k, ks) e =
        elim (Result-cases (listed_summary fl level (some (states, leaves)) id)) [
          | inr (x, failed) ↦ absurd (ground (arith, e, failed))
          | inl (c, listed) ↦
              elim (Result-cases (list_summaries fl level (some (states, leaves)) ids)) [
                | inr (x, failed) ↦ absurd (ground (arith, e, failed, listed))
                | inl (cs, rest) ↦
                    let same : c ∷ cs ≡ chunks = ground (arith, e, rest, listed) in
                    subst (All IsSingle) same (entry id g k listed, entries ids gs ks rest)
              ]
        ]

  -- What the list reads from the stores.
  stored_quiet :
      (level : ℤ) (r : ChunkRange)
      → (states : LeafStates) × (stored_for fl s level r w ≡ (ok (some (states, leaves)), w))
        × All (Known level states) (window_ids level r)
  unfolding stored_for season_or_fail leaf_states_of Known
  stored_quiet level r = elim (Bool-cases (level == pos chunk_max_level)) [
    | inl leaf ↦
        let (states, e, _, known) =
          leaf_states_quiet s store season.id w quiet fl (window_ids level r) [] in
        (
          states,
          ground (arith, stored, reads, active, closed, leaf, quiet.clock, e),
          All-map _ _ (λ id known. λ _. known) (window_ids level r) known,
        )
    | inr above ↦ (
      [],
      ground (arith, stored, reads, active, closed, above),
      All-always (Known level []) (λ id leaf. absurd (ground (arith, leaf, above)))
          (window_ids level r),
    )
  ]

  -- In a world in which every read succeeds and changes nothing and no chunk is due to be reopened,
  -- `ListChunks` of bounds with a window whose capacity is not negative succeeds, and each of its
  -- entries is what `GetChunkSummary` answers for the chunk.
  pub list_chunks-get_chunk_summary :
      (level : ℤ) (b : ChunkBounds) (r : ChunkRange)
      → visible_chunk_range fl level b ≡ ok r
      → is_negative_capacity r ≡ false
      → (chunks : List ChunkSummary) × (list_chunks fl s level b w
          ≡ (ok (record { region = cn; level = level; bbox = b; chunks = chunks }), w))
        × All (λ c. get_chunk_summary fl s c.chunk_id w ≡ (ok c, w)) chunks
  unfolding list_chunks IsSingle
  list_chunks-get_chunk_summary level b r visible capacity =
      let (size, sized, within) = visible_chunk_range-IsWithin fl level b visible in
      let on_grid = window_ids-OnGrid level size r within in
      let (states, read, known) = stored_quiet level r in
      let (chunks, listed, _) =
        list-OnGrid fl level size sized (some (states, leaves)) (window_ids level r) on_grid in
      (
        chunks,
        ground (arith, visible, read, capacity, listed),
        entries level size sized states (window_ids level r) on_grid known listed,
      )
