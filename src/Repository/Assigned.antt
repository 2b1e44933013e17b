-- ===== src/Repository/Assigned.antt =====
-- A match that got a chunk, over the repositories in Redis: `AssignChunkForMatch` and
-- `AuthorizeChunkOperation` of internal/service/mine_match_service.go.
use go_lobby.Prelude.{nat_eq, ℕ, ◌*◌, ◌<◌, List, keys, Option, none, some, ◌∈◌}
use go_lobby.Prelude.{Error, ok, err, wrong_chunk, chunk_occupied, ==-refl, ==_of_ne}
use go_lobby.Prelude.{Result-cases, ◌≡◌, ◌≢◌, refl, sym, ap, ◌∙◌, ◌⊎◌, inl, inr, subst, arith}
use go_lobby.Prelude.Int.{pos, two63}
use go_lobby.Prelude.Text.{Str, str_eq}
use go_lobby.Prelude.Effect.{M}
use go_lobby.Chunk.Numbers.{itoa, atoi-itoa}
use go_lobby.ChunkState.{MineChunkState}
use go_lobby.Mine.{MineSeason}
use go_lobby.Match.{MatchService, ongoing}
use go_lobby.Responses.{MatchedTeam}
use go_lobby.MineMatch.{
  season_or_fail, unlock_on_error, find_and_lock_clean_chunk, assign_chunk_for_match,
  authorize_chunk_operation, authorize_without_match, leaf_chunk,
}
use go_lobby.MineMatch.States.{MineMatchState, MineMatchService, build_mine_match_state}
use go_lobby.MineMatch.Locks.{mine_chunk_lock_key}
use go_lobby.MineMatch.Members.{users_of, build_mine_match_state_lem}
use go_lobby.MineMatch.Chosen.{find_and_lock_clean_chunk-Choice}
use go_lobby.Redis.{Redis, IsRedis, IsWritten, string_after}
use go_lobby.Repository.{Json}
use go_lobby.Repository.Chunks.{chunk_states}
use go_lobby.Repository.Matches.{
  mine_match_key, mine_match_user_key, mine_matches, save_match_state, set_active_match_for_users,
  get_active_match_by_user, match_of, match_numbered, get_match_state, decoded_match, if_ongoing,
}
use go_lobby.Repository.Users.{
  puts, puts_else, puts_at, user_key_ne_match_key, user_key_ne_lock_key, match_key_ne_lock_key,
}
use go_lobby.Repository.Contract.{redis_keeps, lock_in, lock_at, locked_at}

-- The service over Redis, with a match service, a clock and a source of randomness.
abbrev pub redis_service :
    {W : Type 0}
    → Redis W
    → Json MineMatchState
    → Json MineChunkState
    → M W (Option MineSeason)
    → Option (MatchService W)
    → M W ℕ
    → (ℕ → M W (List ℕ))
    → MineMatchService W
redis_service rdb matches chunks get_active_season match_service now rand_perm = record {
  get_active_season = get_active_season;
  chunk_store = chunk_states rdb chunks;
  match_store = mine_matches rdb matches;
  match_service = match_service;
  now = now;
  rand_perm = rand_perm;
}

module _ {W : Type 0} (rdb : Redis W) (stored : W → Str → Option Str) (is : IsRedis rdb stored)
    (written : IsWritten rdb stored) (matches : Json MineMatchState) (chunks : Json MineChunkState)
    (season : MineSeason) (m : ℕ) (small : m < two63) (room_id : Str)
    (teams : List MatchedTeam) where
  abbrev state_of : Str → ℕ → MineMatchState
  state_of c t = build_mine_match_state m room_id season.id c teams t

  abbrev lock_of_chunk : W → Str → Option ℕ
  lock_of_chunk = lock_at rdb stored is matches chunks season.id

  -- What is stored for the match once it has its chunk.
  pub record IsAssigned (w : W) (c : Str) (t : ℕ) : Type 0 where
    pub text : Str
    pub has_lock : lock_of_chunk w c ≡ some m
    pub decodes : matches.decode text ≡ ok (state_of c t)
    pub at_match : stored w (mine_match_key (pos m)) ≡ some text
    pub at_users :
        (u : ℕ) → u ∈ users_of teams → stored w (mine_match_user_key u) ≡ some (itoa (pos m))

  -- A user of the match is active on its chunk.
  pub active_user :
      (w : W) (c : Str) (t : ℕ) (u : ℕ)
      → IsAssigned w c t
      → u ∈ users_of teams
      → (get_active_match_by_user rdb matches u w ≡ (ok (some (state_of c t)), w))
        ⊎ ((e : Error) × (get_active_match_by_user rdb matches u w ≡ (err e, w)))
  unfolding get_active_match_by_user match_of match_numbered get_match_state decoded_match
      if_ongoing
  active_user w c t u a there = elim (is.got (mine_match_user_key u) w) [
    | inr (x, e) ↦ inr (x, rw e refl)
    | inl e ↦ elim (is.got (mine_match_key (pos m)) w) [
      | inr (x, f) ↦ inr (x, rw e (rw (a.at_users u there) (rw (atoi-itoa m small) (rw f refl))))
      | inl f ↦ inl (
          rw e (
            rw (a.at_users u there) (
              rw (atoi-itoa m small)
                (rw f (rw a.at_match (rw a.decodes (played (state_of c t) w still)))))))
    ]
  ]
    where
      still : (build_mine_match_state m room_id season.id c teams t).status ≡ ongoing
      still = let facts = build_mine_match_state_lem m room_id season.id c teams t in facts.2

      played :
          (state : MineMatchState) (w : W)
          → state.status ≡ ongoing
          → if_ongoing rdb matches (some state) w ≡ (ok (some state), w)
      played state w playing = ground (arith, playing)

  -- Saving the state and the users, after the lock is taken.
  written_out :
      (w : W) (c : Str) (t : ℕ)
      → lock_of_chunk w c ≡ some m
      → ((raw : Str)
          → matches.encode (state_of c t) ≡ ok raw
          → matches.decode raw ≡ ok (state_of c t))
      → ((e : Error) × (w' : W) × (save_match_state rdb matches (state_of c t) w ≡ (err e, w')))
        ⊎ ((w₁ : W) × (save_match_state rdb matches (state_of c t) w ≡ (ok tt, w₁))
            × (((e : Error) × (w' : W) × (set_active_match_for_users rdb matches (state_of c t) w₁
                    ≡ (err e, w')))
                ⊎ ((w₂ : W) × (set_active_match_for_users rdb matches (state_of c t) w₁
                      ≡ (ok tt, w₂))
                    × IsAssigned w₂ c t)))
  unfolding save_match_state set_active_match_for_users
  written_out w c t has faithful = elim (Result-cases (matches.encode state)) [
    | inr (x, e) ↦ inl (x, w, rw e refl)
    | inl (raw, e) ↦ elim (written.put_done match_key raw w) [
      | inr (x, f) ↦ inl (x, w, rw e (rw f refl))
      | inl (w₁, f, put_at) ↦ inr (
        w₁,
        rw e (rw f refl),
        elim (written.ran (puts mine_match_user_key (itoa (pos state.match_id)) users) w₁) [
          | inr (x, g) ↦ inl (x, w₁, g)
          | inl (w₂, g, ran_at) ↦ inr (
            w₂,
            g,
            record {
              text = raw;
              has_lock =
                  ap lock_in (
                    ran_at lock_key
                    ∙ untouched_lock w₁
                    ∙ put_at lock_key
                    ∙ rw (match_key_ne_lock_key state.match_id season.id c) refl)
                  ∙ has;
              decodes = faithful raw e;
              at_match =
                  ap (λ n. stored w₂ (mine_match_key (pos n))) (sym same_match)
                  ∙ ran_at match_key
                  ∙ untouched_match w₁
                  ∙ put_at match_key
                  ∙ rw (==-refl match_key) refl;
              at_users = λ u there.
                  ran_at (mine_match_user_key u)
                  ∙ puts_at mine_match_user_key (itoa (pos state.match_id)) users (stored w₁) u
                      (belongs u there)
                  ∙ ap (λ n. some (itoa (pos n))) same_match;
            },
          )
        ],
      )
    ]
  ]
    where
      state : MineMatchState
      state = state_of c t

      users : List ℕ
      users = keys state.user_teams

      match_key : Str
      match_key = mine_match_key (pos state.match_id)

      lock_key : Str
      lock_key = mine_chunk_lock_key season.id c

      same_match : (build_mine_match_state m room_id season.id c teams t).match_id ≡ m
      same_match = let facts = build_mine_match_state_lem m room_id season.id c teams t in facts.0

      belongs :
          (u : ℕ)
          → u ∈ users_of teams
          → u ∈ keys (build_mine_match_state m room_id season.id c teams t).user_teams
      belongs = let facts = build_mine_match_state_lem m room_id season.id c teams t in facts.3

      untouched_lock :
          (v : W)
          → string_after
              (puts mine_match_user_key (itoa (pos state.match_id)) users)
              (stored v)
              lock_key
            ≡ stored v lock_key
      untouched_lock v =
          puts_else mine_match_user_key (itoa (pos state.match_id)) users (stored v) lock_key
            (λ u. user_key_ne_lock_key u season.id c)

      untouched_match :
          (v : W)
          → string_after
              (puts mine_match_user_key (itoa (pos state.match_id)) users)
              (stored v)
              match_key
            ≡ stored v match_key
      untouched_match v =
          puts_else mine_match_user_key (itoa (pos state.match_id)) users (stored v) match_key
            (λ u. user_key_ne_match_key u state.match_id)

  module _ (get_active_season : M W (Option MineSeason)) (match_service : Option (MatchService W))
      (now : M W ℕ) (rand_perm : ℕ → M W (List ℕ)) where
    abbrev service : MineMatchService W
    service = redis_service rdb matches chunks get_active_season match_service now rand_perm

    -- Who may open and flag where once the match has its chunk.
    pub record IsGuarded (w : W) (c : Str) : Type 0 where
      pub own :
          (u : ℕ)
          → u ∈ users_of teams
          → ((state : MineMatchState) × (state.chunk_id ≡ c)
              × (authorize_chunk_operation service u season.id c w ≡ (ok (some state), w)))
            ⊎ ((e : Error) × (get_active_match_by_user rdb matches u w ≡ (err e, w)))
      pub elsewhere :
          (u : ℕ) (d : Str)
          → u ∈ users_of teams
          → c ≢ d
          → (e : Error) × (authorize_chunk_operation service u season.id d w ≡ (err e, w))
      pub others :
          (u : ℕ)
          → get_active_match_by_user rdb matches u w ≡ (ok none, w)
          → (e : Error) × (authorize_chunk_operation service u season.id c w ≡ (err e, w))

    assigned-IsGuarded : (w : W) (c : Str) (t : ℕ) → 0 < m → IsAssigned w c t → IsGuarded w c
    unfolding authorize_chunk_operation authorize_without_match
    assigned-IsGuarded w c t positive a = record {
      own = λ u there. elim (active_user w c t u a there) [
        | inr (x, e) ↦ inr (x, e)
        | inl e ↦ inl (state_of c t, same_chunk, rw e (rw same_chunk (rw (==-refl c) refl)))
      ];
      elsewhere = λ u d there differ. elim (active_user w c t u a there) [
        | inr (x, e) ↦ (x, rw e refl)
        | inl e ↦ (wrong_chunk, rw e (rw same_chunk (rw (==_of_ne c d differ) refl)))
      ];
      others = λ u idle. elim (locked_at rdb stored is matches chunks season.id c w) [
        | inr (x, e) ↦ (x, rw idle (rw e refl))
        | inl e ↦ (chunk_occupied, rw idle (rw e (rw a.has_lock (rw (==_of_ne m 0 not_zero) refl))))
      ];
    }
      where
        same_chunk : (build_mine_match_state m room_id season.id c teams t).chunk_id ≡ c
        same_chunk = let facts = build_mine_match_state_lem m room_id season.id c teams t in facts.1

        not_zero : m ≢ 0
        not_zero = λ zero_. omega (arith, positive, zero_)

    -- What follows the lock in `AssignChunkForMatch`.
    after_lock :
        (w w₁ : W) (d : Str) (t : ℕ) {c : Str} {w' : W}
        → get_active_season w ≡ (ok (some season), w)
        → find_and_lock_clean_chunk service season.id m w ≡ (ok d, w₁)
        → now w₁ ≡ (ok t, w₁)
        → lock_of_chunk w₁ d ≡ some m
        → ((raw : Str)
            → matches.encode (state_of d t) ≡ ok raw
            → matches.decode raw ≡ ok (state_of d t))
        → assign_chunk_for_match service m room_id teams w ≡ (ok c, w')
        → (t : ℕ) × IsAssigned w' c t
    unfolding assign_chunk_for_match season_or_fail unlock_on_error
    after_lock w w₁ d t {c} {w'} active found clock has faithful done =
        elim (written_out w₁ d t has faithful) [
          | inl (x, v, e) ↦ absurd (ground (arith, done, active, found, clock, e))
          | inr (w₂, e, rest) ↦ elim rest [
            | inl (x, v, f) ↦ absurd (ground (arith, done, active, found, clock, e, f))
            | inr (w₃, f, assigned) ↦
                let same_chunk : d ≡ c = ground (arith, done, active, found, clock, e, f) in
                let same_world : w₃ ≡ w' = ground (arith, done, active, found, clock, e, f) in
                (
                  t,
                  subst (λ v. IsAssigned v c t) same_world
                      (subst (λ k. IsAssigned w₃ k t) same_chunk assigned),
                )
          ]
        ]

    -- When Redis is a map whose failing commands change nothing, the text of the new state is read
    -- back, and the season, the clock and the order of the chunks are read without touching
    -- Redis: if a match with an id between 0 and 2^63 is assigned a chunk, every user of its teams
    -- is let in on this chunk as an active user of a match on it unless reading that match fails,
    -- is refused on every other chunk, and whoever has no active match is refused on this chunk.
    pub assign_chunk_for_match-IsGuarded :
        (order : List ℕ) (w : W) (time : W → ℕ) {c : Str} {w' : W}
        → 0 < m
        → get_active_season w ≡ (ok (some season), w)
        → rand_perm (64 * 64) w ≡ (ok order, w)
        → ((v : W) → now v ≡ (ok (time v), v))
        → ((d : Str) (t : ℕ) (raw : Str)
            → matches.encode (state_of d t) ≡ ok raw
            → matches.decode raw ≡ ok (state_of d t))
        → assign_chunk_for_match service m room_id teams w ≡ (ok c, w')
        → IsGuarded w' c
    unfolding assign_chunk_for_match season_or_fail unlock_on_error
    assign_chunk_for_match-IsGuarded order w time {c} {w'} positive active drawn clock faithful
          done =
        elim (find_and_lock_clean_chunk-Choice service season.id
          (redis_keeps rdb stored is matches chunks season.id) m small order w w drawn) [
            | inl chosen ↦
                let (t, assigned) =
                  after_lock w chosen.world _ (time chosen.world) active chosen.answer
                    (clock chosen.world)
                    (chosen.taken.0 _ ∙ rw (==-refl (leaf_chunk service chosen.value)) refl)
                    (faithful _ (time chosen.world)) done in
                assigned-IsGuarded w' c t positive assigned
            | inr (inl (v, e, _, _)) ↦ absurd (ground (arith, done, active, e))
            | inr (inr (x, v, e, _, _)) ↦ absurd (ground (arith, done, active, e))
          ]
