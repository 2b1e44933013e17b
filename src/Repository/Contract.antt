-- ===== src/Repository/Contract.antt =====
-- The repositories of the matches and of the chunks keep the contract on locks and states that
-- MineMatch/Contract states.
use go_lobby.Prelude.{
  nat_eq, ℕ, ◌∷◌, ◌++◌, ◌<◌, true, false, Option, none, some, has_value, if◌then◌else◌,
}
use go_lobby.Prelude.{Error, Result, ok, err, Result-cases, Option-cases, Bool-cases, ◌==◌}
use go_lobby.Prelude.{◌≡◌, ◌≢◌, refl, sym, ap, ◌∙◌, ◌⊎◌, inl, inr, arith}
use go_lobby.Prelude.Int.{ℤ, pos, two63, int_eq}
use go_lobby.Prelude.Text.{Str, codes, str_eq, str_beq, str_beq-append}
use go_lobby.Chunk.Numbers.{itoa, atoi, atoi-itoa}
use go_lobby.Prelude.Effect.{pure, ◌>>=◌}
use go_lobby.ChunkState.{MineChunkState}
use go_lobby.MineMatch.States.{MineMatchState}
use go_lobby.MineMatch.Locks.{
  mine_chunk_lock_key, lock_of, get_chunk_lock, try_lock_chunk, unlock_if_own, unlock_found,
  unlock_chunk,
}
use go_lobby.MineMatch.Contract.{KeepsLocks, lock_number}
use go_lobby.Redis.{Redis, IsRedis}
use go_lobby.Repository.{Json}
use go_lobby.Repository.Chunks.{mine_chunk_state_key, decoded_state, get_state, chunk_states}
use go_lobby.Repository.Matches.{id_of_int, mine_matches}

pub lock_key_eq :
    (season : ℕ) (c d : Str)
    → str_beq (mine_chunk_lock_key season c) (mine_chunk_lock_key season d) ≡ str_beq c d
unfolding mine_chunk_lock_key str_beq
lock_key_eq season c d =
    str_beq-append (codes "go_lobby:mine_chunk_lock:") (itoa (pos season) ++ (b':' ∷ c))
      (itoa (pos season) ++ (b':' ∷ d))
    ∙ str_beq-append (itoa (pos season)) (b':' ∷ c) (b':' ∷ d)
    ∙ ground arith

pub lock_key_ne_state_key :
    (season season' : ℕ) (c d : Str)
    → str_beq (mine_chunk_lock_key season c) (mine_chunk_state_key season' d) ≡ false
unfolding mine_chunk_lock_key mine_chunk_state_key str_beq
lock_key_ne_state_key season season' c d = refl

-- The number of a stored lock; what is no number is locked by no match.
abbrev pub number_or_zero : Result ℤ → ℕ
number_or_zero (ok id) = id_of_int id
number_or_zero (err e) = 0

abbrev pub lock_in : Option Str → Option ℕ
lock_in none = none
lock_in (some raw) = some (number_or_zero (atoi raw))

abbrev pub known : Result MineChunkState → Option MineChunkState
known (ok state) = some state
known (err e) = none

module _ {W : Type 0} (rdb : Redis W) (stored : W → Str → Option Str) (is : IsRedis rdb stored)
    (matches : Json MineMatchState) (chunks : Json MineChunkState) (season : ℕ) where
  abbrev pub state_in : Option Str → Option MineChunkState
  state_in none = none
  state_in (some raw) = known (chunks.decode raw)

  abbrev pub lock_at : W → Str → Option ℕ
  lock_at w c = lock_in (stored w (mine_chunk_lock_key season c))

  abbrev pub state_at : W → Str → Option MineChunkState
  state_at w c = state_in (stored w (mine_chunk_state_key season c))

  found_lock :
      (o : Option Str) (w : W)
      → ((lock_of rdb o >>= λ id. pure (id_of_int id)) w ≡ (ok (lock_number (lock_in o)), w))
        ⊎ ((e : Error) × ((lock_of rdb o >>= λ id. pure (id_of_int id)) w ≡ (err e, w)))
  unfolding lock_of
  found_lock none w = inl refl
  found_lock (some raw) w = elim (Result-cases (atoi raw)) [
    | inl (id, e) ↦ inl (rw e refl)
    | inr (x, e) ↦ inr (x, rw e refl)
  ]

  pub locked_at :
      (c : Str) (w : W)
      → ((mine_matches rdb matches).get_chunk_lock season c w ≡ (ok (lock_number (lock_at w c)), w))
        ⊎ ((e : Error) × ((mine_matches rdb matches).get_chunk_lock season c w ≡ (err e, w)))
  unfolding get_chunk_lock
  locked_at c w = elim (is.got (mine_chunk_lock_key season c) w) [
    | inl e ↦ rw e (found_lock (stored w (mine_chunk_lock_key season c)) w)
    | inr (x, e) ↦ inr (x, rw e refl)
  ]

  found_state :
      (o : Option Str) (w : W)
      → (decoded_state rdb chunks o w ≡ (ok (state_in o), w))
        ⊎ ((e : Error) × (decoded_state rdb chunks o w ≡ (err e, w)))
  unfolding decoded_state
  found_state none w = inl refl
  found_state (some raw) w = elim (Result-cases (chunks.decode raw)) [
    | inl (state, e) ↦ inl (rw e refl)
    | inr (x, e) ↦ inr (x, rw e refl)
  ]

  pub read_at :
      (c : Str) (w : W)
      → (get_state rdb chunks season c w ≡ (ok (state_at w c), w))
        ⊎ ((e : Error) × (get_state rdb chunks season c w ≡ (err e, w)))
  unfolding get_state
  read_at c w = elim (is.got (mine_chunk_state_key season c) w) [
    | inl e ↦ rw e (found_state (stored w (mine_chunk_state_key season c)) w)
    | inr (x, e) ↦ inr (x, rw e refl)
  ]

  -- An unlock changes at most the lock that it is asked for.
  pub unlocked_else :
      (c : Str) (m : ℕ) (w : W) (j : Str)
      → (mine_chunk_lock_key season c == j) ≡ false
      → stored (unlock_chunk rdb season c m w).1 j ≡ stored w j
  unfolding unlock_chunk
  unlocked_else c m w j other = elim (is.got (mine_chunk_lock_key season c) w) [
    | inr (x, e) ↦ rw e refl
    | inl e ↦ rw e (found (stored w (mine_chunk_lock_key season c)))
  ]
    where
      key : Str
      key = mine_chunk_lock_key season c

      own : (r : Result ℤ) → stored (unlock_if_own rdb key m r w).1 j ≡ stored w j
      own (err x) = refl
      own (ok id) = elim (Bool-cases (id == pos m)) [
        | inr another ↦ rw another refl
        | inl same ↦ elim (is.deleted key w) [
          | inl (w', e, at) ↦ rw same (rw e (at j ∙ rw other refl))
          | inr (x, e) ↦ rw same (rw e refl)
        ]
      ]

      found : (o : Option Str) → stored (unlock_found rdb key m o w).1 j ≡ stored w j
      found none = refl
      found (some raw) = own (atoi raw)

  -- A lock that is there is left as it is.
  kept_all :
      (c raw v : Str) (w w' : W)
      → stored w (mine_chunk_lock_key season c) ≡ some raw
      → ((j : Str)
          → stored w' j ≡ (
              if mine_chunk_lock_key season c == j
              then (if has_value (stored w (mine_chunk_lock_key season c))
                  then stored w (mine_chunk_lock_key season c)
                  else some v)
              else stored w j))
      → (j : Str) → stored w' j ≡ stored w j
  kept_all c raw v w w' held at j = elim (Bool-cases (mine_chunk_lock_key season c == j)) [
    | inr other ↦ at j ∙ rw other refl
    | inl same ↦
        at j
        ∙ rw same (
            rw held
              (sym held ∙ ap (stored w) ((str_eq.beq_iff (mine_chunk_lock_key season c) j).0 same)))
  ]

  -- A lock that is free is taken.
  taken_lock :
      (c : Str) (m : ℕ) (w w' : W)
      → m < two63
      → stored w (mine_chunk_lock_key season c) ≡ none
      → rdb.set_nx (mine_chunk_lock_key season c) (itoa (pos m)) w ≡ (ok true, w')
      → ((j : Str)
          → stored w' j
            ≡ (if mine_chunk_lock_key season c == j then some (itoa (pos m)) else stored w j))
      → (w'' : W) × (try_lock_chunk rdb season c m w ≡ (ok true, w''))
        × (lock_at w c ≡ none)
        × ((d : Str) → lock_at w'' d ≡ (if c == d then some m else lock_at w d))
        × ((d : Str) → state_at w'' d ≡ state_at w d)
  unfolding try_lock_chunk
  taken_lock c m w w' small free e at = (
    w',
    e,
    ap lock_in free,
    λ d. ap lock_in (at (mine_chunk_lock_key season d)) ∙ locked_as d,
    λ d.
        ap state_in
          (at (mine_chunk_state_key season d) ∙ rw (lock_key_ne_state_key season season c d) refl),
  )
    where
      locked_as :
          (d : Str)
          → lock_in (
              if mine_chunk_lock_key season c == mine_chunk_lock_key season d
              then some (itoa (pos m))
              else stored w (mine_chunk_lock_key season d))
            ≡ (if c == d then some m else lock_at w d)
      locked_as d = rw (lock_key_eq season c d) (elim (Bool-cases (c == d)) [
        | inl same ↦ rw same (rw (atoi-itoa m small) refl)
        | inr other ↦ rw other refl
      ])

  -- What taking a lock does to the locks of the season and to the states.
  pub tried_at :
      (c : Str) (m : ℕ) (w : W)
      → m < two63
      → ((w' : W) × (try_lock_chunk rdb season c m w ≡ (ok true, w'))
          × (lock_at w c ≡ none)
          × ((d : Str) → lock_at w' d ≡ (if c == d then some m else lock_at w d))
          × ((d : Str) → state_at w' d ≡ state_at w d))
        ⊎ (((w' : W) × (try_lock_chunk rdb season c m w ≡ (ok false, w'))
              × (lock_at w c ≢ none)
              × ((d : Str) → lock_at w' d ≡ lock_at w d)
              × ((d : Str) → state_at w' d ≡ state_at w d))
            ⊎ ((e : Error) × (try_lock_chunk rdb season c m w ≡ (err e, w))))
  unfolding try_lock_chunk
  tried_at c m w small = elim (is.taken (mine_chunk_lock_key season c) (itoa (pos m)) w) [
    | inr (x, e) ↦ inr (inr (x, e))
    | inl (w', e, at) ↦ elim (Option-cases (stored w (mine_chunk_lock_key season c))) [
      | inl free ↦ inl (taken_lock c m w w' small free (rw free at e) (λ j. rw free at (at j)))
      | inr (raw, held) ↦ inr (
          inl (
            w',
            rw held at e,
            λ free. ground (arith, free, held),
            λ d.
                ap lock_in
                  (kept_all c raw (itoa (pos m)) w w' held at (mine_chunk_lock_key season d)),
            λ d.
                ap state_in
                  (kept_all c raw (itoa (pos m)) w w' held at (mine_chunk_state_key season d)),
          ))
    ]
  ]

  -- A lock is there exactly if the key of the chunk is, with the number that is written under it,
  -- and a state is what is decoded.
  abbrev pub redis_keeps : KeepsLocks (mine_matches rdb matches) (chunk_states rdb chunks) season
  redis_keeps = record {
    lock = lock_at;
    state = state_at;
    locked = locked_at;
    read = read_at;
    tried = tried_at;
    unlocked = λ c m w. (
      λ d other.
          ap lock_in
            (unlocked_else c m w (mine_chunk_lock_key season d) (lock_key_eq season c d ∙ other)),
      λ d. ap state_in (
          unlocked_else c m w (mine_chunk_state_key season d)
            (lock_key_ne_state_key season season c d)),
    );
  }
