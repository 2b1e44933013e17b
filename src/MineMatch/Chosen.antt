-- ===== src/MineMatch/Chosen.antt =====
-- Which chunk a match gets: `findAndLockCleanChunk` of internal/service/mine_match_service.go, over
-- every store that keeps the contract on the locks and the states of the chunks of a season.
use go_lobby.Prelude.{
  nat_eq, ℕ, ◌*◌, ◌<◌, List, [], ◌∷◌, ◌++◌, Bool, true, false, Option, none, some, if◌then◌else◌,
}
use go_lobby.Prelude.{Error, Result, ok, err, no_clean_chunk, ◌==◌, All, All-map, Bool-cases}
use go_lobby.Prelude.{◌≡◌, refl, sym, ap, ◌∙◌, ◌⊎◌, inl, inr, subst, arith}
use go_lobby.Prelude.Int.{two63}
use go_lobby.Prelude.Text.{Str, str_eq}
use go_lobby.ChunkState.{MineChunkState}
use go_lobby.MineMatch.Contract.{KeepsLocks, lock_number, IsUntouched, fields_clean}
use go_lobby.MineMatch.{
  untouched_state, is_clean_chunk, is_clean_unlocked_chunk, recheck, try_chunk, leaf_chunk,
  try_chunks, find_and_lock_clean_chunk,
}
use go_lobby.MineMatch.States.{MineMatchService}

module _ {W : Type 0} (s : MineMatchService W) (season : ℕ)
    (keeps : KeepsLocks s.match_store s.chunk_store season) (m : ℕ) (small : m < two63) where
  open keeps use {lock, state, locked, read, tried, unlocked}

  -- Nobody has the chunk, and it is neither closed nor touched.
  abbrev pub IsFree : W → Str → Type 0
  IsFree w c = (lock w c ≡ none) × IsUntouched (state w c)

  clean_of : (o : Option MineChunkState) → IsUntouched o → untouched_state s o ≡ true
  clean_of none h = refl
  clean_of (some state) (open_, cells, flags) = rw open_ (rw cells (rw flags refl))

  of_clean : (o : Option MineChunkState) → untouched_state s o ≡ true → IsUntouched o
  of_clean none h = tt
  of_clean (some state) h = fields_clean state.closed state.opened_cells state.flagged_by h

  abbrev pub SameViews : W → W → Type 0
  SameViews w w' = ((d : Str) → lock w' d ≡ lock w d) × ((d : Str) → state w' d ≡ state w d)

  -- The match has got the chunk and nothing else has changed.
  abbrev pub Taken : W → W → Str → Type 0
  Taken w w' c =
      ((d : Str) → lock w' d ≡ (if c == d then some m else lock w d))
      × ((d : Str) → state w' d ≡ state w d)

  -- A lock that was there stays, and so do the states.
  abbrev pub Undisturbed : W → W → Type 0
  Undisturbed w w' =
      ((d : Str) (owner : ℕ) → lock w d ≡ some owner → lock w' d ≡ some owner)
      × ((d : Str) → state w' d ≡ state w d)

  -- The error is one that a store gave.
  abbrev pub FromStore : Error → Type 0
  FromStore e =
      (u : W) × (c : Str) × ((s.match_store.get_chunk_lock season c u ≡ (err e, u))
        ⊎ ((s.chunk_store.get_state season c u ≡ (err e, u))
            ⊎ (s.match_store.try_lock_chunk season c m u ≡ (err e, u))))

  abbrev pub Failed : W → Result Str × W → Type 0
  Failed w out = (e : Error) × (w' : W) × (out ≡ (err e, w')) × FromStore e × Undisturbed w w'

  -- One round of the loop.
  abbrev Round : W → Str → Result (Option Str) × W → Type 0
  Round w c out =
      ((w' : W) × (out ≡ (ok none, w')) × ¬ IsFree w c × SameViews w w')
      ⊎ (((w' : W) × (out ≡ (ok (some c), w')) × IsFree w c × Taken w w' c)
          ⊎ ((e : Error) × (w' : W) × (out ≡ (err e, w')) × FromStore e × Undisturbed w w'))

  another :
      (c d : Str) (w : W) {owner : ℕ} → lock w c ≡ none → lock w d ≡ some owner → (c == d) ≡ false
  another c d w {owner} here there = elim (Bool-cases (c == d)) [
    | inr other ↦ other
    | inl same ↦
        absurd (
          let equal : lock w c ≡ lock w d = ap (lock w) ((str_eq.beq_iff c d).0 same) in
          clash equal)
  ]
    where
      clash : lock w c ≡ lock w d → ⊥
      clash equal = ground (arith, equal, here, there)

  Taken-Undisturbed : (c : Str) (w w' : W) → IsFree w c → Taken w w' c → Undisturbed w w'
  Taken-Undisturbed c w w' free taken =
      (λ d owner held. taken.0 d ∙ rw (another c d w free.0 held) held, taken.1)

  -- With the lock of the match, the chunk is looked at again.
  rechecked :
      (c : Str) (w w' : W)
      → IsFree w c
      → Taken w w' c
      → Round w c (recheck s season m c (is_clean_chunk s season c w'))
  unfolding recheck is_clean_chunk
  rechecked c w w' free taken = elim (read c w') [
    | inl e ↦
        inr (inl (w', rw e (rw (taken.1 c) (rw (clean_of (state w c) free.1) refl)), free, taken))
    | inr (x, e) ↦
        let (locks', states') = unlocked c m w' in
        inr (
          inr (
            x,
            (s.match_store.unlock_chunk season c m w').1,
            rw e refl,
            (w', c, inr (inl e)),
            (
              λ d owner held.
                  let other = another c d w free.0 held in
                  locks' d other ∙ taken.0 d ∙ rw other held,
              λ d. states' d ∙ taken.1 d,
            ),
          ))
  ]

  -- What the first look at a chunk says.
  looked :
      (c : Str) (w : W)
      → ((b : Bool) × (is_clean_unlocked_chunk s season c w ≡ (ok b, w))
          × (b ≡ false → ¬ IsFree w c)
          × (b ≡ true → untouched_state s (state w c) ≡ true))
        ⊎ ((e : Error) × (is_clean_unlocked_chunk s season c w ≡ (err e, w)) × FromStore e)
  unfolding is_clean_unlocked_chunk is_clean_chunk
  looked c w = elim (locked c w) [
    | inr (x, e) ↦ inr (x, rw e refl, (w, c, inl e))
    | inl e ↦ elim (Bool-cases (lock_number (lock w c) == 0)) [
      | inr held ↦
          inl (false, rw e (rw held refl), λ _. λ free. ground (arith, held, free.0), λ t. cc)
      | inl open_ ↦ elim (read c w) [
        | inr (x, f) ↦ inr (x, rw e (rw open_ (rw f refl)), (w, c, inr (inl f)))
        | inl f ↦ inl (
          untouched_state s (state w c),
          rw e (rw open_ (rw f refl)),
          λ no_ free. ground (arith, no_, clean_of (state w c) free.1),
          λ yes_. yes_,
        )
      ]
    ]
  ]

  -- With the lock tried after a clean look.
  tried-Round :
      (c : Str) (w : W)
      → is_clean_unlocked_chunk s season c w ≡ (ok true, w)
      → untouched_state s (state w c) ≡ true
      → Round w c (try_chunk s season m c w)
  unfolding try_chunk
  tried-Round c w look clean = elim (tried c m w small) [
    | inr (inr (x, e)) ↦
        inr
          (inr (x, w, rw look (rw e refl), (w, c, inr (inr e)), (λ d owner held. held, λ d. refl)))
    | inr (inl (w', e, taken, locks', states')) ↦
        inl (w', rw look (rw e refl), λ free. taken free.0, (locks', states'))
    | inl (w', e, free, locks', states') ↦
        rw look (rw e (rechecked c w w' (free, of_clean (state w c) clean) (locks', states')))
  ]

  round : (c : Str) (w : W) → Round w c (try_chunk s season m c w)
  unfolding try_chunk
  round c w = elim (looked c w) [
    | inr (x, e, from) ↦ inr (inr (x, w, rw e refl, from, (λ d owner held. held, λ d. refl)))
    | inl (false, e, busy, _) ↦ inl (w, rw e refl, busy refl, (λ d. refl, λ d. refl))
    | inl (true, e, _, clean) ↦ tried-Round c w e (clean refl)
  ]

  abbrev pub Busy : W → ℕ → Type 0
  Busy w v = ¬ IsFree w (leaf_chunk s v)

  -- The first free chunk in the order is chosen and locked for the match.
  pub record IsChosen (w : W) (order : List ℕ) (out : Result Str × W) : Type 0 where
    pub before : List ℕ
    pub value : ℕ
    pub after : List ℕ
    pub world : W
    pub in_order : order ≡ before ++ value ∷ after
    pub answer : out ≡ (ok (leaf_chunk s value), world)
    pub all_busy : All (Busy w) before
    pub was_free : IsFree w (leaf_chunk s value)
    pub taken : Taken w world (leaf_chunk s value)

  abbrev pub NoneLeft : W → List ℕ → Result Str × W → Type 0
  NoneLeft w order out =
      (w' : W) × (out ≡ (err no_clean_chunk, w')) × All (Busy w) order × SameViews w w'

  abbrev pub Choice : W → List ℕ → Result Str × W → Type 0
  Choice w order out = IsChosen w order out ⊎ (NoneLeft w order out ⊎ Failed w out)

  still-Busy : (w w' : W) → SameViews w w' → (v : ℕ) → Busy w' v → Busy w v
  still-Busy w w' (locks', states') v busy free =
      busy (
        locks' (leaf_chunk s v) ∙ free.0,
        subst IsUntouched (sym (states' (leaf_chunk s v))) free.1,
      )

  -- A round that chose nothing does not change what comes after it.
  skipped :
      (w w' : W) (v : ℕ) (order : List ℕ) {out : Result Str × W}
      → SameViews w w'
      → Busy w v
      → Choice w' order out
      → Choice w (v ∷ order) out
  skipped w w' v order same busy (inl c) = inl (record {
    before = v ∷ c.before;
    value = c.value;
    after = c.after;
    world = c.world;
    in_order = ap (λ l. v ∷ l) c.in_order;
    answer = c.answer;
    all_busy = (busy, All-map _ _ (still-Busy w w' same) c.before c.all_busy);
    was_free = (
      sym (same.0 (leaf_chunk s c.value)) ∙ c.was_free.0,
      subst IsUntouched (same.1 (leaf_chunk s c.value)) c.was_free.1,
    );
    taken = (
      λ d. c.taken.0 d ∙ ap (λ o. if leaf_chunk s c.value == d then some m else o) (same.0 d),
      λ d. c.taken.1 d ∙ same.1 d,
    );
  })
  skipped w w' v order same busy (inr (inl (u, e, all, same'))) = inr (
      inl (
        u,
        e,
        (busy, All-map _ _ (still-Busy w w' same) order all),
        (λ d. same'.0 d ∙ same.0 d, λ d. same'.1 d ∙ same.1 d),
      ))
  skipped w w' v order same busy (inr (inr (x, u, e, from, kept))) = inr (
      inr (
        x,
        u,
        e,
        from,
        (λ d owner held. kept.0 d owner (same.0 d ∙ held), λ d. kept.1 d ∙ same.1 d),
      ))

  tried_order : (order : List ℕ) (w : W) → Choice w order (try_chunks s season m order w)
  unfolding try_chunks
  tried_order [] w = inr (inl (w, refl, tt, (λ d. refl, λ d. refl)))
  tried_order (v ∷ order) w = elim (round (leaf_chunk s v) w) [
    | inl (w', e, busy, same) ↦ rw e (skipped w w' v order same busy (tried_order order w'))
    | inr (inl (w', e, free, taken)) ↦ inl (record {
      before = [];
      value = v;
      after = order;
      world = w';
      in_order = refl;
      answer = rw e refl;
      all_busy = tt;
      was_free = free;
      taken = taken;
    })
    | inr (inr (x, w', e, from, kept)) ↦ inr (inr (x, w', rw e refl, from, kept))
  ]

  -- Over stores that keep the contract, in the world that drawing an order leaves: a match gets the
  -- first chunk of the order that is free, neither closed nor touched and locked by nobody, and
  -- its lock is the only thing that changes; if there is none, the answer says so and nothing
  -- changes; any other error is one that a store gave, and then no lock of anybody is lost.
  pub find_and_lock_clean_chunk-Choice :
      (order : List ℕ) (start w : W)
      → s.rand_perm (64 * 64) start ≡ (ok order, w)
      → Choice w order (find_and_lock_clean_chunk s season m start)
  unfolding find_and_lock_clean_chunk
  find_and_lock_clean_chunk-Choice order start w drawn = rw drawn (tried_order order w)
