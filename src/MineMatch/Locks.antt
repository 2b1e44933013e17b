-- ===== src/MineMatch/Locks.antt =====
-- internal/repository/mine_match_repository.go: the locks of the chunks in Redis. A lock is the
-- number of its match.
use go_lobby.Prelude.{
  nat_eq, ℕ, ◌<◌, ◌∷◌, ◌++◌, Bool, true, false, not, Option, none, some, has_value,
}
use go_lobby.Prelude.{
  if◌then◌else◌, Error, Result, ok, err, eqb, ◌==◌, ==-refl, ◌≡◌, refl, sym, ap, ◌∙◌, ◌⊎◌, inl, inr,
  arith,
}
use go_lobby.Prelude.Int.{ℤ, pos, two63, eqb_ℤ, int_eq}
use go_lobby.Prelude.Text.{Str, codes, str_eq}
use go_lobby.Prelude.Effect.{M, Done, pure, fail, ◌>>=◌}
use go_lobby.Redis.{Redis, IsRedis}
use go_lobby.Chunk.Numbers.{itoa, atoi, atoi-itoa}

-- `fmt.Sprintf("go_lobby:mine_chunk_lock:%d:%s", …)`
unfoldable pub mine_chunk_lock_key : ℕ → Str → Str
mine_chunk_lock_key season_id chunk_id =
    codes "go_lobby:mine_chunk_lock:" ++ (itoa (pos season_id) ++ (b':' ∷ chunk_id))

module _ {W : Type 0} (rdb : Redis W) where
  abbrev as_lock : Result ℤ → M W ℤ
  as_lock (err e) = fail e
  as_lock (ok id) = pure id

  -- 0 without a lock.
  unfoldable pub lock_of : Option Str → M W ℤ
  lock_of none = pure (pos 0)
  lock_of (some raw) = as_lock (atoi raw)

  unfoldable pub get_chunk_lock : ℕ → Str → M W ℤ
  unfolding mine_chunk_lock_key lock_of
  get_chunk_lock season_id chunk_id = rdb.get (mine_chunk_lock_key season_id chunk_id) >>= lock_of

  unfoldable pub try_lock_chunk : ℕ → Str → ℕ → M W Bool
  unfolding mine_chunk_lock_key
  try_lock_chunk season_id chunk_id match_id =
      rdb.set_nx (mine_chunk_lock_key season_id chunk_id) (itoa (pos match_id))

  unfoldable pub unlock_if_own : Str → ℕ → Result ℤ → M W Done
  unlock_if_own key match_id (err e) = fail e
  unlock_if_own key match_id (ok locked) =
      if not (locked == pos match_id) then pure tt else rdb.del key

  unfoldable pub unlock_found : Str → ℕ → Option Str → M W Done
  unfolding unlock_if_own
  unlock_found key match_id none = pure tt
  unlock_found key match_id (some raw) = unlock_if_own key match_id (atoi raw)

  unfoldable pub unlock_chunk : ℕ → Str → ℕ → M W Done
  unfolding mine_chunk_lock_key unlock_found
  unlock_chunk season_id chunk_id match_id =
      rdb.get (mine_chunk_lock_key season_id chunk_id)
      >>= unlock_found (mine_chunk_lock_key season_id chunk_id) match_id

module _ {W : Type 0} (rdb : Redis W) (stored : W → Str → Option Str)
    (is : IsRedis rdb stored) where
  -- A lock belongs to a match.
  abbrev pub Locked : W → ℕ → Str → ℕ → Type 0
  Locked w season chunk m = stored w (mine_chunk_lock_key season chunk) ≡ some (itoa (pos m))

  same_key :
      (j k : Str) (w : W) {r : Str} → (j == k) ≡ true → stored w k ≡ some r → stored w j ≡ some r
  same_key j k w same held = ap (stored w) ((str_eq.beq_iff j k).0 same) ∙ held

  tried_kept :
      (k j v : Str) (w : W) {r : Str} → stored w k ≡ some r → stored (rdb.set_nx j v w).1 k ≡ some r
  tried_kept k j v w {r} held = elim (is.taken j v w) [
    | inl (w', e, at) ↦ rw e (at k ∙ go (j == k) refl)
    | inr (x, e) ↦ rw e held
  ]
    where
      go :
          (b : Bool)
          → (j == k) ≡ b
          → (if b then (if has_value (stored w j) then stored w j else some v) else stored w k)
            ≡ some r
      go true same = rw (same_key j k w same held) refl
      go false other = held

  module _ (k j : Str) (mine owner : ℕ) (small : owner < two63)
      (differ : eqb owner mine ≡ false) where
    deleted_kept :
        (locked : ℤ) (w : W)
        → ((j == k) ≡ true → locked ≡ pos owner)
        → (b : Bool) → eqb_ℤ locked (pos mine) ≡ b
        → stored w k ≡ some (itoa (pos owner))
        → stored ((if not b then pure tt else rdb.del j) w).1 k ≡ some (itoa (pos owner))
    deleted_kept locked w own false e held = held
    deleted_kept locked w own true e held = elim (is.deleted j w) [
      | inl (w', d, at) ↦ rw d (at k ∙ elsewhere (j == k) refl)
      | inr (x, d) ↦ rw d held
    ]
      where
        elsewhere :
            (b : Bool) → (j == k) ≡ b → (if b then none else stored w k) ≡ some (itoa (pos owner))
        elsewhere true same = let mistaken = own same in absurd (go mistaken)
          where
            go : locked ≡ pos owner → ⊥
            go l = ground (arith, l, e, differ)
        elsewhere false other = held

    unlocked_kept :
        (w : W) (o : Option Str)
        → stored w j ≡ o
        → stored w k ≡ some (itoa (pos owner))
        → stored (unlock_found rdb j mine o w).1 k ≡ some (itoa (pos owner))
    unfolding unlock_found unlock_if_own
    unlocked_kept w none at held = held
    unlocked_kept w (some raw) at held = go (atoi raw) refl
      where
        go :
            (r : Result ℤ)
            → atoi raw ≡ r
            → stored (unlock_if_own rdb j mine r w).1 k ≡ some (itoa (pos owner))
        go (err x) e = held
        go (ok locked) e =
            deleted_kept locked w (λ same. number (same_key j k w same held))
              (eqb_ℤ locked (pos mine)) refl held
          where
            number : stored w j ≡ some (itoa (pos owner)) → locked ≡ pos owner
            number there =
                let text : raw ≡ itoa (pos owner) = cc in
                let read : ok locked ≡ ok (pos owner) =
                  sym e ∙ ap atoi text ∙ atoi-itoa owner small in
                cc

  -- When Redis is a map whose failing commands change nothing: whatever chunk a match tries to lock
  -- or unlocks, the lock that another match with an id below 2^63 has on a chunk stays.
  pub try_lock_chunk-Locked :
      (season season' : ℕ) (chunk chunk' : Str) (mine owner : ℕ) (w : W)
      → owner < two63
      → eqb owner mine ≡ false
      → Locked w season chunk owner
      → Locked (try_lock_chunk rdb season' chunk' mine w).1 season chunk owner
        × Locked (unlock_chunk rdb season' chunk' mine w).1 season chunk owner
  unfolding try_lock_chunk unlock_chunk mine_chunk_lock_key
  try_lock_chunk-Locked season season' chunk chunk' mine owner w small differ held = (
    tried_kept (mine_chunk_lock_key season chunk) (mine_chunk_lock_key season' chunk')
        (itoa (pos mine)) w held,
    elim (is.got (mine_chunk_lock_key season' chunk') w) [
      | inl e ↦ rw e (
          unlocked_kept (mine_chunk_lock_key season chunk) (mine_chunk_lock_key season' chunk') mine
            owner small differ w (stored w (mine_chunk_lock_key season' chunk')) refl held)
      | inr (x, e) ↦ rw e held
    ],
  )

  -- When Redis is a map whose failing commands change nothing: a match with an id below 2^63 that
  -- got a lock has it, and reads its own id from it if the read does not fail.
  pub get_chunk_lock-try_lock_chunk :
      (season : ℕ) (chunk : Str) (m : ℕ) (w : W) {w' : W}
      → m < two63
      → try_lock_chunk rdb season chunk m w ≡ (ok true, w')
      → Locked w' season chunk m
        × ((get_chunk_lock rdb season chunk w' ≡ (ok (pos m), w'))
            ⊎ ((e : Error) × (get_chunk_lock rdb season chunk w' ≡ (err e, w'))))
  unfolding try_lock_chunk get_chunk_lock lock_of mine_chunk_lock_key
  get_chunk_lock-try_lock_chunk season chunk m w {w'} small done = (
    has,
    elim (is.got key w') [
      | inl e ↦ inl (rw (e, has, atoi-itoa m small) refl)
      | inr (x, e) ↦ inr (x, rw e refl)
    ],
  )
    where
      key : Str
      key = mine_chunk_lock_key season chunk

      go :
          (b : Bool) (w'' : W) (found : Option Str)
          → (let r : Result Bool × W = (ok (not (has_value found)), w'') in r ≡ (ok true, w'))
          → stored w'' key ≡ (if has_value found then found else some (itoa (pos m)))
          → stored w' key ≡ some (itoa (pos m))
      go b w'' none e at = let same : w'' ≡ w' = cc in ap (λ u. stored u key) (sym same) ∙ at
      go b w'' (some v) e at = cc

      has : stored w' key ≡ some (itoa (pos m))
      has = elim (is.taken key (itoa (pos m)) w) [
        | inl (w'', e, at) ↦
            go true w'' (stored w key) (sym e ∙ done) (at key ∙ rw (==-refl key) refl)
        | inr (x, e) ↦ absurd (failing x (sym e ∙ done))
      ]
        where
          failing : (x : Error) → (let r : Result Bool × W = (err x, w) in r ≡ (ok true, w')) → ⊥
          failing x e = cc
