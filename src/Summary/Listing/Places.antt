-- ===== src/Summary/Listing/Places.antt =====
-- Which chunks `ListChunks` lists.
use go_lobby.Prelude.{
  nat_eq, ℕ, ◌+◌, ◌-◌, ◌*◌, List, [], ◌∷◌, map, ◌&&◌, Option, some, none, if◌then◌else◌, ok, err,
  Result-cases, panic,
}
use go_lobby.Prelude.{leb, length, All, Bool-cases, ◌≡◌, refl, ap, ◌∙◌, inl, inr, arith}
use go_lobby.Prelude.Int.{ℤ, int_eq}
use go_lobby.Prelude.Text.{Str, str_eq}
use go_lobby.Chunk.{ChunkId, cn, chunk_grid_size, chunk_id_string}
use go_lobby.ChunkService.{ChunkService}
use go_lobby.Summary.Views.{Floats, ChunkBounds, ChunkSummary, apply_mine_state_to_summary}
use go_lobby.Summary.{
  build_base_chunk_summary, build_demo_chunk_summary, apply_closed_leaf_aggregate, chunk_bounds_for,
  bounds_on_grid, as_demo,
}
use go_lobby.Summary.Window.{ChunkRange, visible_chunk_range, window_ids}
use go_lobby.Summary.Window.Cover.{
  OnGrid, OnGrid-off_grid, IsWithin, count_at, count_at-window_ids, window_ids-OnGrid,
  length-window_ids, visible_chunk_range-IsWithin,
}
use go_lobby.Summary.Listing.{
  LeafStates, with_leaf, listed_summary, list_summaries, list_range, list_chunks, stored_for,
  is_negative_capacity,
}

abbrev pub id_of : ChunkSummary → ChunkId
id_of c = record { region = c.region; z = c.level; x = c.x; y = c.y }

module _ (fl : Floats) where
  bounds_of :
      (level : ℤ) (size : ℕ) (id : ChunkId)
      → chunk_grid_size id.z ≡ ok size
      → OnGrid level size id
      → (b : ChunkBounds) × (chunk_bounds_for fl id.z id.x id.y ≡ ok b)
  unfolding chunk_bounds_for bounds_on_grid
  bounds_of level size id sized g = elim (Result-cases (chunk_bounds_for fl id.z id.x id.y)) [
    | inl found ↦ found
    | inr (e, failed) ↦ absurd (ground (arith, failed, sized, OnGrid-off_grid level size id g))
  ]

  -- The first summary of a chunk on the grid.
  pub base-OnGrid :
      (level : ℤ) (size : ℕ) (id : ChunkId)
      → chunk_grid_size level ≡ ok size
      → OnGrid level size id
      → (c : ChunkSummary) × (build_base_chunk_summary fl id ≡ ok c)
        × (id_of c ≡ id)
        × (c.chunk_id ≡ chunk_id_string id)
  unfolding build_base_chunk_summary
  base-OnGrid level size id sized g = elim (Result-cases (build_base_chunk_summary fl id)) [
    | inl (c, e) ↦ (c, e, ground (arith, e), ground (arith, e))
    | inr (e, failed) ↦
        absurd (
          ground (arith, failed, bounds_of level size id (ap chunk_grid_size g.of_level ∙ sized) g))
  ]

  module _ (level : ℤ) (size : ℕ) (sized : chunk_grid_size level ≡ ok size) where
    listed-OnGrid :
        (stored : Option (LeafStates × List Str)) (id : ChunkId)
        → OnGrid level size id
        → (c : ChunkSummary) × (listed_summary fl level stored id ≡ ok c) × (id_of c ≡ id)
    unfolding listed_summary build_demo_chunk_summary apply_closed_leaf_aggregate with_leaf
        apply_mine_state_to_summary
    listed-OnGrid none id g =
        let (c, e, place, _) = base-OnGrid level size id sized g in (_, ap (as_demo fl id) e, place)
    listed-OnGrid (some (states, leaves)) id g =
        let (c, e, place, _) = base-OnGrid level size id sized g in
        (
          apply_closed_leaf_aggregate fl (with_leaf fl level states c) id leaves,
          ground (arith, e),
          ground (arith, place),
        )

    pub list-OnGrid :
        (stored : Option (LeafStates × List Str)) (ids : List ChunkId)
        → All (OnGrid level size) ids
        → (chunks : List ChunkSummary) × (list_summaries fl level stored ids ≡ ok chunks)
          × (map id_of chunks ≡ ids)
    unfolding list_summaries
    list-OnGrid stored [] g = ([], refl, refl)
    list-OnGrid stored (id ∷ ids) (g, gs) =
        let (c, e, place) = listed-OnGrid stored id g in
        let (cs, es, places) = list-OnGrid stored ids gs in
        (c ∷ cs, rw (e, list_summaries) (rw es refl), cc)

-- A list holds each chunk of a window on the grid of a level once, and nothing else.
pub record IsWindow (level : ℤ) (size : ℕ) (r : ChunkRange) (ids : List ChunkId) : Type 0 where
  pub on_grid : All (OnGrid level size) ids
  pub as_many : length ids ≡ (r.max_y + 1 - r.min_y) * (r.max_x + 1 - r.min_x)
  pub once :
      (x y : ℕ)
      → count_at x y ids
        ≡ (if leb r.min_x x && leb x r.max_x && leb r.min_y y && leb y r.max_y then 1 else 0)

pub window_ids-IsWindow :
    (level : ℤ) (size : ℕ) (r : ChunkRange)
    → IsWithin size r
    → IsWindow level size r (window_ids level r)
window_ids-IsWindow level size r w = record {
  on_grid = window_ids-OnGrid level size r w;
  as_many = length-window_ids level r;
  once = λ x y. count_at-window_ids level size x y r w;
}

-- Once the stores are read, `ListChunks` of bounds that have a window on the grid of the level
-- panics exactly if the capacity of its list is negative, and otherwise lists each chunk of the
-- window once and nothing else.
pub list_chunks-IsWindow :
    {W : Type 0} (fl : Floats) (s : ChunkService W) (level : ℤ) (b : ChunkBounds) (r : ChunkRange)
    (w w' : W) {stored : Option (LeafStates × List Str)}
    → visible_chunk_range fl level b ≡ ok r
    → stored_for fl s level r w ≡ (ok stored, w')
    → (if is_negative_capacity r
        then list_chunks fl s level b w ≡ (err panic, w')
        else ((size : ℕ) × (chunks : List ChunkSummary) × (chunk_grid_size level ≡ ok size)
            × (list_chunks fl s level b w
                ≡ (ok (record { region = cn; level = level; bbox = b; chunks = chunks }), w'))
            × IsWindow level size r (map id_of chunks)))
unfolding list_chunks list_range
list_chunks-IsWindow fl s level b r w w' {stored} visible read =
    let (size, sized, within) = visible_chunk_range-IsWithin fl level b visible in
    let (chunks, listed, places) =
      list-OnGrid fl level size sized stored (window_ids level r)
        (window_ids-OnGrid level size r within) in
    elim (Bool-cases (is_negative_capacity r)) [
      | inl bad ↦ rw bad (ground (arith, visible, read, bad))
      | inr good ↦ rw good (
        size,
        chunks,
        sized,
        ground (arith, visible, read, good, listed),
        rw places (window_ids-IsWindow level size r within),
      )
    ]
