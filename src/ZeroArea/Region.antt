-- ===== src/ZeroArea/Region.antt =====
-- The region that a zero cell opens, described by paths of neighbouring cells.
use go_lobby.Prelude.{nat_eq, ℕ, zero, suc, ◌+◌, ◌*◌, ◌≤◌, ◌<◌, ◌≡◌, refl, List, ◌∷◌}
use go_lobby.Prelude.{Bool, false, none, ok, inl, inr, arith, ◌∈◌, contains}
use go_lobby.Prelude.{if◌then◌else◌, lookup}
use go_lobby.Prelude.Int.{ℤ, pos, negsuc, pos_part, ◌+ℤ◌, wrap64}
use go_lobby.Chunk.{chunk_size, chunk_cell_index}
use go_lobby.Chunk.Cells.{Inside, Inside-inv, off_grid-Inside'}
use go_lobby.Mine.World.{around, IsStep, step-IsNear, +ℤ-zero}
use go_lobby.ChunkState.{MineChunkState}
use go_lobby.ZeroArea.{Cell, neighbours}

abbrev pub InChunk : Cell → Type 0
InChunk (x, y) = Inside chunk_size x y

unfoldable pub index_of : Cell → ℕ
index_of (x, y) = pos_part y * chunk_size + pos_part x

pub chunk_cell_index-Inside :
    (x y : ℤ) → Inside chunk_size x y → chunk_cell_index x y ≡ ok (index_of (x, y))
unfolding chunk_cell_index index_of
chunk_cell_index-Inside x y h = rw (off_grid-Inside' chunk_size x y h)

pub index_of-lt : (c : Cell) → InChunk c → index_of c < 16384
unfolding index_of
index_of-lt (x, y) h =
    let (a, b, ex, ey, ha, hb) = Inside-inv chunk_size x y h in rw (ex, ey) (omega arith)

pub index_of_inj : (c d : Cell) → InChunk c → InChunk d → index_of c ≡ index_of d → c ≡ d
unfolding index_of
index_of_inj (pos a, pos b) (pos c, pos d) h k e =
    let ea : a ≡ c = omega arith in let eb : b ≡ d = omega arith in rw (ea, eb)
index_of_inj (pos a, pos b) (pos c, negsuc d) h k e = absurd k
index_of_inj (pos a, pos b) (negsuc c, d) h k e = absurd k
index_of_inj (pos a, negsuc b) d h k e = absurd h
index_of_inj (negsuc a, b) d h k e = absurd h

unwrapped :
    {cell : ℤ} {c : ℕ} (d : ℤ) → cell ≡ pos c → c < 128 → IsStep d → wrap64 (cell +ℤ d) ≡ cell +ℤ d
unwrapped d e h s = (step-IsNear {a = 0} d refl e (omega arith) h s).0

-- From a cell of the chunk no coordinate wraps around.
pub neighbours-eq-around : (x y : ℤ) → Inside chunk_size x y → neighbours x y ≡ around x y
unfolding neighbours IsStep around
neighbours-eq-around x y h =
    let (a, b, ex, ey, ha, hb) = Inside-inv chunk_size x y h in
    rw (
      unwrapped (negsuc 0) ex ha (inl refl),
      unwrapped (pos 0) ex ha (inr (inl refl)),
      unwrapped (pos 1) ex ha (inr (inr refl)),
      unwrapped (negsuc 0) ey hb (inl refl),
      unwrapped (pos 0) ey hb (inr (inl refl)),
      unwrapped (pos 1) ey hb (inr (inr refl)),
      +ℤ-zero x,
      +ℤ-zero y,
    )

-- How many of the indices below `n` are not in the list.
pub count_free : ℕ → List ℕ → ℕ
count_free zero v = 0
count_free (suc n) v = (if contains n v then 0 else 1) + count_free n v

pub count_free-le : (n : ℕ) (v : List ℕ) → count_free n v ≤ n
unfolding count_free
count_free-le zero v = omega arith
count_free-le (suc n) v = ground (arith, count_free-le n v)

count_free_above : (n i : ℕ) (v : List ℕ) → n ≤ i → count_free n (i ∷ v) ≡ count_free n v
unfolding count_free
count_free_above zero i v h = refl
count_free_above (suc n) i v h = ground (arith, count_free_above n i v)

pub count_free-cons :
    (n i : ℕ) (v : List ℕ)
    → i < n
    → contains i v ≡ false
    → count_free n (i ∷ v) + 1 ≡ count_free n v
unfolding count_free
count_free-cons zero i v h e = absurd (omega arith)
count_free-cons (suc n) i v h e = ground (arith, count_free-cons n i v, count_free_above n i v)

module _ (mine : Cell → Bool) (adjacent : Cell → ℕ) (state : MineChunkState) (start : Cell) where
  -- In the chunk, not flagged, not open yet, and no mine.
  pub record Eligible (c : Cell) : Type 0 where
    pub in_chunk : InChunk c
    pub unflagged : lookup (index_of c) state.flagged_by ≡ none
    pub unopened : lookup (index_of c) state.opened_cells ≡ none
    pub safe : mine c ≡ false

  -- The region: from the start, through cells with no mine around them.
  pub data Reach : Cell → Type 0 where
    here : Eligible start → Reach start
    step : {c d : Cell} → Reach c → adjacent c ≡ 0 → d ∈ around c.0 c.1 → Eligible d → Reach d

  pub Reach-Eligible : {c : Cell} → Reach c → Eligible c
  Reach-Eligible (here e) = e
  Reach-Eligible (step r z m e) = e
