-- ===== src/ZeroArea/Invariant.antt =====
-- The invariant of the loop of `openZeroArea`, and that it says what is opened when the queue is empty.
use go_lobby.Prelude.{nat_eq, ℕ, zero, suc, ◌≡◌, refl, sym, ap, ◌∙◌, List, [], ◌∷◌}
use go_lobby.Prelude.{◌++◌, Bool, true, false, some, ok, Result, inl, inr, ◌⊎◌, arith, subst}
use go_lobby.Prelude.{◌∈◌, contains, lookup}
use go_lobby.Prelude.{lookup-insert, delete_absent, eqb, if◌then◌else◌, Bool-cases, ◌==◌}
use go_lobby.Prelude.{mem-append, mem-append_left, mem-append_right, ==-refl}
use go_lobby.Mine.World.{around}
use go_lobby.ChunkState.{MineChunkState, OpenedCell, open_cell_in_state}
use go_lobby.ZeroArea.{Cell}
use go_lobby.ZeroArea.Region.{InChunk, index_of, index_of_inj, Eligible, Reach, here}
use go_lobby.ZeroArea.Region.{step, Reach-Eligible}
use go_lobby.ZeroArea.Visit.{opened, CanOpen}

-- What an opened cell of the region looks like.
abbrev pub snapshot : (Cell → ℕ) → ℕ → ℕ → Cell → OpenedCell
snapshot adjacent user at (x, y) = record {
  x = x;
  y = y;
  index = index_of (x, y);
  opened_by = user;
  opened_at = at;
  adjacent_mines = adjacent (x, y);
}

pub more_next :
    (n : ℕ) (cells : List Cell) (d : Cell)
    → d ∈ (if eqb n 0 then cells else [])
    → (n ≡ 0) × (d ∈ cells)
more_next zero cells d m = (refl, m)
more_next (suc n) cells d m = ground arith

pub next_more :
    {n : ℕ} (cells : List Cell) (d : Cell) → n ≡ 0 → d ∈ cells → d ∈ (if eqb n 0 then cells else [])
next_more cells d z m = rw z m

module _ (mine : Cell → Bool) (adjacent : Cell → ℕ) (user at : ℕ) (orig : MineChunkState)
    (start : Cell) where
  abbrev Seen : List Cell → List ℕ → Cell → Type 0
  Seen queue v c = (contains (index_of c) v ≡ true) ⊎ (c ∈ queue)

  abbrev IsOpen : MineChunkState → Cell → Type 0
  IsOpen state c = lookup (index_of c) state.opened_cells ≡ some (snapshot adjacent user at c)

  pub record Inv (queue : List Cell) (v : List ℕ) (state : MineChunkState) : Type 0 where
    pub frame : state ≡ record orig { opened_cells = state.opened_cells }
    pub waiting :
        (c : Cell)
        → c ∈ queue
        → Eligible mine adjacent orig start c
        → Reach mine adjacent orig start c
    pub grown :
        (i : ℕ)
        → (lookup i state.opened_cells ≡ lookup i orig.opened_cells)
          ⊎ ((c : Cell) × Reach mine adjacent orig start c × (i ≡ index_of c) × IsOpen state c)
    pub untouched :
        (i : ℕ) → contains i v ≡ false → lookup i state.opened_cells ≡ lookup i orig.opened_cells
    pub marked :
        (c : Cell)
        → Eligible mine adjacent orig start c
        → contains (index_of c) v ≡ true
        → IsOpen state c
    pub begun : InChunk start → Seen queue v start
    pub closed :
        (c d : Cell)
        → Eligible mine adjacent orig start c
        → contains (index_of c) v ≡ true
        → adjacent c ≡ 0
        → d ∈ around c.0 c.1
        → InChunk d
        → Seen queue v d

  pub Inv-init : Inv (start ∷ []) [] orig
  Inv-init = record {
    frame = refl;
    waiting = λ c. elim [ inl e ↦ λ h. rw e (here (rw e at h)) | inr nowhere ↦ absurd nowhere ];
    grown = λ i. inl refl;
    untouched = λ i e. refl;
    marked = λ c h e. cc;
    begun = λ _. inr (inl refl);
    closed = λ c d h e. cc;
  }

  -- The head of the queue is seen still once it is marked.
  Seen-pop :
      {c : Cell} (queue : List Cell) (v : List ℕ) (d : Cell)
      → (InChunk c → contains (index_of c) v ≡ true)
      → InChunk d
      → Seen (c ∷ queue) v d
      → Seen queue v d
  Seen-pop queue v d old h (inl m) = inl m
  Seen-pop queue v d old h (inr (inl e)) = inl (rw e (old (rw e at h)))
  Seen-pop queue v d old h (inr (inr m)) = inr m

  pub Inv-skip :
      {c : Cell} {queue : List Cell} {v : List ℕ} {state : MineChunkState}
      → Inv (c ∷ queue) v state
      → (InChunk c → contains (index_of c) v ≡ true)
      → Inv queue v state
  Inv-skip {c} {queue} {v} i old = record {
    frame = i.frame;
    waiting = λ d m. i.waiting d (inr m);
    grown = i.grown;
    untouched = i.untouched;
    marked = i.marked;
    begun = λ h. Seen-pop queue v start old h (i.begun h);
    closed = λ a d ha ma z n h. Seen-pop queue v d old h (i.closed a d ha ma z n h);
  }

  -- Marking the head, and appending to the queue, keeps what was seen.
  Seen-mark :
      (c : Cell) (queue : List Cell) (v : List ℕ) (more : List Cell) (d : Cell)
      → Seen (c ∷ queue) v d
      → Seen (queue ++ more) (index_of c ∷ v) d
  Seen-mark c queue v more d (inl m) = inl (ground arith)
  Seen-mark c queue v more d (inr (inl e)) = inl (rw e (ground arith))
  Seen-mark c queue v more d (inr (inr m)) = inr (mem-append_left d queue more m)

  module _ {c : Cell} {queue : List Cell} {v : List ℕ} {state : MineChunkState}
      (i : Inv (c ∷ queue) v state) (new : contains (index_of c) v ≡ false) (h : InChunk c) where
    -- The tests of a round on the current state are those on the first one.
    pub CanOpen-iff-Eligible :
        (CanOpen mine c state → Eligible mine adjacent orig start c)
        × (Eligible mine adjacent orig start c → CanOpen mine c state)
    CanOpen-iff-Eligible =
        let flags : state.flagged_by ≡ orig.flagged_by =
          ap (λ (s : MineChunkState). s.flagged_by) i.frame in
        let cells = i.untouched (index_of c) new in
        (
          λ k. record {
            in_chunk = h;
            unflagged = rw flags at k.unflagged;
            unopened = rw cells at k.unopened;
            safe = k.safe;
          },
          λ e. record {
            unflagged = rw flags e.unflagged;
            unopened = rw cells e.unopened;
            safe = e.safe;
          },
        )

    same_or_old :
        (d : Cell)
        → InChunk d
        → contains (index_of d) (index_of c ∷ v) ≡ true
        → (c ≡ d) ⊎ (contains (index_of d) v ≡ true)
    same_or_old d hd m = elim (Bool-cases (eqb (index_of c) (index_of d))) [
      | inl e ↦ inl (index_of_inj c d h hd (ground arith))
      | inr e ↦ inr (ground arith)
    ]

    pub Inv-mark : ¬ Eligible mine adjacent orig start c → Inv (queue ++ []) (index_of c ∷ v) state
    Inv-mark closed_cell = record {
      frame = i.frame;
      waiting = λ d m. elim (mem-append d queue [] m) [
        | inl l ↦ i.waiting d (inr l)
        | inr nowhere ↦ absurd nowhere
      ];
      grown = i.grown;
      untouched = λ k e. i.untouched k (ground arith);
      marked = λ d e m. elim (same_or_old d e.in_chunk m) [
        | inl same ↦ absurd (closed_cell (rw same e))
        | inr old ↦ i.marked d e old
      ];
      begun = λ hs. Seen-mark c queue v [] start (i.begun hs);
      closed = λ a d e m z n hd. elim (same_or_old a e.in_chunk m) [
        | inl same ↦ absurd (closed_cell (rw same e))
        | inr old ↦ Seen-mark c queue v [] d (i.closed a d e old z n hd)
      ];
    }

    module _ (e : Eligible mine adjacent orig start c) where
      abbrev after : MineChunkState
      after = (opened adjacent user at c v state).1

      abbrev more : List Cell
      more = (opened adjacent user at c v state).2

      reached : Reach mine adjacent orig start c
      reached = i.waiting c (inl refl) e

      after_lookup :
          (k : ℕ)
          → lookup k after.opened_cells ≡ (
              if index_of c == k
              then some (snapshot adjacent user at c)
              else lookup k state.opened_cells)
      unfolding open_cell_in_state
      after_lookup k = lookup-insert (index_of c) k _ state.opened_cells

      after-IsOpen : IsOpen after c
      after-IsOpen = after_lookup (index_of c) ∙ rw (==-refl (index_of c))

      -- What is open stays so.
      after_keeps : (d : Cell) → InChunk d → IsOpen state d → IsOpen after d
      after_keeps d hd o = elim (Bool-cases (index_of c == index_of d)) [
        | inl same ↦
            let cd : c ≡ d = index_of_inj c d h hd (ground arith) in
            subst (λ x. IsOpen after x) cd after-IsOpen
        | inr other ↦ after_lookup (index_of d) ∙ rw other o
      ]

      after_frame : after ≡ record orig { opened_cells = after.opened_cells }
      unfolding open_cell_in_state
      after_frame =
          let cells = i.untouched (index_of c) new in
          let flags : state.flagged_by ≡ orig.flagged_by =
            ap (λ (s : MineChunkState). s.flagged_by) i.frame in
          let kept = delete_absent (index_of c) state.flagged_by (rw flags e.unflagged) in
          ground (arith, kept, cells, flags)

      after_grown :
          (k : ℕ)
          → (lookup k after.opened_cells ≡ lookup k orig.opened_cells)
            ⊎ ((d : Cell) × Reach mine adjacent orig start d × (k ≡ index_of d) × IsOpen after d)
      after_grown k = elim (Bool-cases (index_of c == k)) [
        | inl same ↦ inr (c, reached, ground arith, after-IsOpen)
        | inr other ↦ elim (i.grown k) [
          | inl old ↦ inl (after_lookup k ∙ rw other old)
          | inr (d, r, ed, od) ↦
              inr (d, r, ed, after_keeps d (Reach-Eligible mine adjacent orig start r).in_chunk od)
        ]
      ]

      pub Inv-open : Inv (queue ++ more) (index_of c ∷ v) after
      Inv-open = record {
        frame = after_frame;
        waiting = λ d m hd. elim (mem-append d queue more m) [
          | inl l ↦ i.waiting d (inr l) hd
          | inr r ↦ let (z, n) = more_next (adjacent c) _ d r in step reached z n hd
        ];
        grown = after_grown;
        untouched = λ k u. after_lookup k ∙ ground (arith, i.untouched k);
        marked = λ d hd m. elim (same_or_old d hd.in_chunk m) [
          | inl same ↦ subst (λ x. IsOpen after x) same after-IsOpen
          | inr old ↦ after_keeps d hd.in_chunk (i.marked d hd old)
        ];
        begun = λ hs. Seen-mark c queue v more start (i.begun hs);
        closed = λ a d ha m z n hd. elim (same_or_old a ha.in_chunk m) [
          | inl same ↦ inr (
              mem-append_right d queue more (
                next_more _ d (ap adjacent same ∙ z)
                  (subst (λ (x : Cell). d ∈ around x.0 x.1) (sym same) n)))
          | inr old ↦ Seen-mark c queue v more d (i.closed a d ha old z n hd)
        ];
      }

  Seen-empty : (v : List ℕ) (c : Cell) → Seen [] v c → contains (index_of c) v ≡ true
  Seen-empty v c (inl m) = m
  Seen-empty v c (inr nowhere) = absurd nowhere

  -- When the queue is empty every cell of the region is marked, and so it is open.
  Reach-marked :
      {v : List ℕ} {out : MineChunkState} {c : Cell}
      → Inv [] v out
      → Reach mine adjacent orig start c
      → contains (index_of c) v ≡ true
  Reach-marked {v} i (here e) = Seen-empty v start (i.begun e.in_chunk)
  Reach-marked {v} i (step {c} {d} r z n e) =
      Seen-empty v d
        (i.closed c d (Reach-Eligible mine adjacent orig start r) (Reach-marked i r) z n e.in_chunk)

  -- `r` returns a state in which exactly the region is newly open.
  pub record Opens (r : Result MineChunkState) : Type 0 where
    pub out : MineChunkState
    pub returns : r ≡ ok out
    pub frame : out ≡ record orig { opened_cells = out.opened_cells }
    pub region : (c : Cell) → Reach mine adjacent orig start c → IsOpen out c
    pub grown :
        (i : ℕ)
        → (lookup i out.opened_cells ≡ lookup i orig.opened_cells)
          ⊎ ((c : Cell) × Reach mine adjacent orig start c × (i ≡ index_of c) × IsOpen out c)

  pub Inv-Opens :
      {v : List ℕ} {out : MineChunkState} {r : Result MineChunkState}
      → Inv [] v out
      → r ≡ ok out
      → Opens r
  Inv-Opens {v} {out} i e = record {
    out = out;
    returns = e;
    frame = i.frame;
    region = λ c r. i.marked c (Reach-Eligible mine adjacent orig start r) (Reach-marked i r);
    grown = i.grown;
  }
