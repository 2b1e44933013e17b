-- ===== src/Summary/Leaves.antt =====
-- Counting the closed leaves below a chunk: countClosedLeaves, leafRangeForChunk and
-- totalLeafCountForLevel of internal/service/chunk_service.go. A chunk is on the grid of a level from
-- 0 to 6, so that nothing wraps.
use go_lobby.Prelude.{
  nat_eq, ℕ, suc, ◌+◌, ◌-◌, ◌*◌, ◌^◌, ◌<◌, List, [], ◌∷◌, Bool, true, false, ◌&&◌,
}
use go_lobby.Prelude.{if◌then◌else◌, Result, ok, err, ◌==◌, ◌≡◌, refl, ap, ◌∙◌, arith}
use native.Mathlib.Omega.{pow_step}
use go_lobby.Prelude.Int.{ℤ, pos, negsuc, ◌+ℤ◌, ◌*ℤ◌, pos_part, ltb_ℤ, leb_ℤ, int_eq}
use go_lobby.Prelude.Text.{Str, str_eq}
use go_lobby.Chunk.{ChunkId, parse_chunk_id, chunk_max_level}

-- `1 << (ChunkMaxLevel - level)`
unfoldable pub leaf_scale : ℤ → ℕ
leaf_scale level = 2 ^ (chunk_max_level - pos_part level)

pub record LeafRange : Type 0 where
  pub min_x : ℤ
  pub min_y : ℤ
  pub max_x : ℤ
  pub max_y : ℤ

unfoldable pub leaf_range_for_chunk : ChunkId → LeafRange
unfolding leaf_scale
leaf_range_for_chunk id =
    let scale : ℤ = pos (leaf_scale id.z) in
    record {
      min_x = id.x *ℤ scale;
      min_y = id.y *ℤ scale;
      max_x = (id.x +ℤ pos 1) *ℤ scale;
      max_y = (id.y +ℤ pos 1) *ℤ scale;
    }

unfoldable pub total_leaf_count_for_level : ℤ → ℕ
unfolding leaf_scale
total_leaf_count_for_level level = leaf_scale level * leaf_scale level

unfoldable pub in_range : LeafRange → ChunkId → Bool
in_range r leaf =
    leb_ℤ r.min_x leaf.x && ltb_ℤ leaf.x r.max_x && leb_ℤ r.min_y leaf.y && ltb_ℤ leaf.y r.max_y

unfoldable pub is_leaf_of : ChunkId → Result ChunkId → Bool
unfolding in_range leaf_range_for_chunk
is_leaf_of id (err e) = false
is_leaf_of id (ok leaf) =
    leaf.region == id.region
    && (leaf.z == pos chunk_max_level)
    && in_range (leaf_range_for_chunk id) leaf

-- Over the keys of the map, an empty one included.
unfoldable pub count_closed_leaves : ChunkId → List Str → ℕ
unfolding is_leaf_of
count_closed_leaves id [] = 0
count_closed_leaves id (raw ∷ rest) =
    let n = count_closed_leaves id rest in if is_leaf_of id (parse_chunk_id raw) then suc n else n

-- The chunk at a place of a level; it consists of four of the next one.
abbrev pub chunk_at : Str → ℕ → ℕ → ℕ → ChunkId
chunk_at region z x y = record { region = region; z = pos z; x = pos x; y = pos y }

half : (z : ℕ) → z < 6 → 2 ^ (6 - z) ≡ 2 * 2 ^ (6 - (z + 1))
half z h = ap (λ n. 2 ^ n) (split_off z h) ∙ pow_step 2 (6 - (z + 1))
  where
    split_off : (z : ℕ) → z < 6 → 6 - z ≡ suc (6 - (z + 1))
    split_off z h = omega arith

abbrev one_if : Bool → ℕ
one_if true = 1
one_if false = 0

-- Along one axis: the range of a chunk falls into those of its halves.
abbrev between : ℤ → ℕ → ℕ → Bool
between v x s = leb_ℤ (pos x *ℤ pos s) v && ltb_ℤ v ((pos x +ℤ pos 1) *ℤ pos s)

pos-mul : (a s : ℕ) → pos a *ℤ pos s ≡ pos (a * s)
unfolding ◌*ℤ◌
pos-mul a s = ground arith

pos-next : (a : ℕ) → pos a +ℤ pos 1 ≡ pos (a + 1)
unfolding ◌+ℤ◌
pos-next a = ground arith

axis :
    (v : ℤ) (x s : ℕ)
    → one_if (between v x (2 * s)) ≡ one_if (between v (2 * x) s) + one_if (between v (2 * x + 1) s)
axis v x s =
    rw
      (
        pos-next x,
        pos-next (2 * x),
        pos-next (2 * x + 1),
        pos-mul x (2 * s),
        pos-mul (2 * x) s,
        pos-mul (2 * x + 1) s,
        pos-mul (x + 1) (2 * s),
        pos-mul (2 * x + 1 + 1) s,
      )
      (halves v (x * s) (x * (2 * s)) ((x + 1) * (2 * s)) ((2 * x) * s) ((2 * x + 1) * s)
        ((2 * x + 1 + 1) * s) (omega arith) (omega arith) (omega arith) (omega arith) (omega arith))
  where
    halves :
        (v : ℤ) (p a b c d e : ℕ)
        → a ≡ 2 * p
        → b ≡ 2 * p + 2 * s
        → c ≡ 2 * p
        → d ≡ 2 * p + s
        → e ≡ 2 * p + 2 * s
        → one_if (leb_ℤ (pos a) v && ltb_ℤ v (pos b))
          ≡ one_if (leb_ℤ (pos c) v && ltb_ℤ v (pos d))
            + one_if (leb_ℤ (pos d) v && ltb_ℤ v (pos e))
    halves (pos v) p a b c d e ha hb hc hd he = ground (arith, ha, hb, hc, hd, he)
    halves (negsuc v) p a b c d e ha hb hc hd he = ground (arith, ha, hb, hc, hd, he)

-- Both axes at once: a place lies in one of the four quarters, if it lies in the square.
square :
    (g x x0 x1 y y0 y1 : Bool)
    → one_if x ≡ one_if x0 + one_if x1
    → one_if y ≡ one_if y0 + one_if y1
    → one_if (g && (x && y))
      ≡ one_if (g && (x0 && y0))
        + one_if (g && (x1 && y0))
        + one_if (g && (x0 && y1))
        + one_if (g && (x1 && y1))
square g x x0 x1 y y0 y1 hx hy = ground (arith, hx, hy)

regroup :
    (g h a b c d : Bool)
    → ((g && h) && (((a && b) && c) && d)) ≡ ((g && h) && ((a && b) && (c && d)))
regroup g h a b c d = ground arith

grouped :
    (region : Str) (z x y : ℕ) (leaf : ChunkId)
    → is_leaf_of (chunk_at region z x y) (ok leaf) ≡ (
        (leaf.region == region && (leaf.z == pos chunk_max_level))
        && (between leaf.x x (2 ^ (6 - z)) && between leaf.y y (2 ^ (6 - z))))
unfolding is_leaf_of in_range leaf_range_for_chunk leaf_scale
grouped region z x y leaf =
    let r = leaf_range_for_chunk (chunk_at region z x y) in
    regroup (leaf.region == region) (leaf.z == pos chunk_max_level) (leb_ℤ r.min_x leaf.x)
      (ltb_ℤ leaf.x r.max_x) (leb_ℤ r.min_y leaf.y) (ltb_ℤ leaf.y r.max_y)

in_quarters :
    (region : Str) (z x y : ℕ) (leaf : Result ChunkId)
    → z < 6
    → one_if (is_leaf_of (chunk_at region z x y) leaf)
      ≡ one_if (is_leaf_of (chunk_at region (z + 1) (2 * x) (2 * y)) leaf)
        + one_if (is_leaf_of (chunk_at region (z + 1) (2 * x + 1) (2 * y)) leaf)
        + one_if (is_leaf_of (chunk_at region (z + 1) (2 * x) (2 * y + 1)) leaf)
        + one_if (is_leaf_of (chunk_at region (z + 1) (2 * x + 1) (2 * y + 1)) leaf)
unfolding is_leaf_of
in_quarters region z x y (err e) h = refl
in_quarters region z x y (ok leaf) h =
    let s = 2 ^ (6 - (z + 1)) in
    rw
      (
        grouped region z x y leaf,
        grouped region (z + 1) (2 * x) (2 * y) leaf,
        grouped region (z + 1) (2 * x + 1) (2 * y) leaf,
        grouped region (z + 1) (2 * x) (2 * y + 1) leaf,
        grouped region (z + 1) (2 * x + 1) (2 * y + 1) leaf,
        half z h,
      )
      (square (leaf.region == region && (leaf.z == pos chunk_max_level)) (between leaf.x x (2 * s))
        (between leaf.x (2 * x) s) (between leaf.x (2 * x + 1) s) (between leaf.y y (2 * s))
        (between leaf.y (2 * y) s) (between leaf.y (2 * y + 1) s) (axis leaf.x x s)
        (axis leaf.y y s))

counted : (b : Bool) (n : ℕ) → (if b then suc n else n) ≡ one_if b + n
counted true n = omega arith
counted false n = omega arith

-- Above the leaves, a chunk has as many closed leaves as the four chunks of the next level that it
-- consists of have together, whatever texts stand in the set of the closed leaves.
pub count_closed_leaves_lem :
    (region : Str) (z x y : ℕ) (closed : List Str)
    → z < 6
    → count_closed_leaves (chunk_at region z x y) closed
      ≡ count_closed_leaves (chunk_at region (z + 1) (2 * x) (2 * y)) closed
        + count_closed_leaves (chunk_at region (z + 1) (2 * x + 1) (2 * y)) closed
        + count_closed_leaves (chunk_at region (z + 1) (2 * x) (2 * y + 1)) closed
        + count_closed_leaves (chunk_at region (z + 1) (2 * x + 1) (2 * y + 1)) closed
unfolding count_closed_leaves
count_closed_leaves_lem region z x y [] h = refl
count_closed_leaves_lem region z x y (raw ∷ rest) h =
    let leaf = parse_chunk_id raw in
    let with_leaf = λ (id : ChunkId). counted (is_leaf_of id leaf) (count_closed_leaves id rest) in
    omega (
      arith,
      in_quarters region z x y leaf h,
      count_closed_leaves_lem region z x y rest h,
      with_leaf (chunk_at region z x y),
      with_leaf (chunk_at region (z + 1) (2 * x) (2 * y)),
      with_leaf (chunk_at region (z + 1) (2 * x + 1) (2 * y)),
      with_leaf (chunk_at region (z + 1) (2 * x) (2 * y + 1)),
      with_leaf (chunk_at region (z + 1) (2 * x + 1) (2 * y + 1)),
    )
