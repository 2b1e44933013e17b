-- ===== src/Repository/Saved.antt =====
-- The stored states of the chunks beside the set of the closed ones:
-- internal/repository/mine_chunk_state_repository.go.
use go_lobby.Prelude.{List, [], ◌∷◌, ◌++◌, ℕ, Bool, true, false, Option, none, some, if◌then◌else◌}
use go_lobby.Prelude.{Error, ok, err, Result-cases, Bool-cases, ◌==◌, ==-refl}
use go_lobby.Prelude.{◌≡◌, refl, sym, ap, subst, ◌∙◌, ◌⊎◌, inl, inr}
use go_lobby.Prelude.Int.{pos}
use go_lobby.Prelude.Text.{Str, codes, str_eq, str_beq, str_beq-append}
use go_lobby.Chunk.Numbers.{itoa}
use go_lobby.ChunkState.{MineChunkState}
use go_lobby.Redis.{
  Redis, IsShared, HasRun, Command, put, add_member, remove_member, string_after, member_after,
}
use go_lobby.Repository.{Json}
use go_lobby.Repository.Chunks.{
  mine_chunk_state_key, mine_closed_chunk_set_key, save_commands, save_state,
}
use go_lobby.Repository.Contract.{known}

state_key_eq :
    (season : ℕ) (c d : Str)
    → str_beq (mine_chunk_state_key season c) (mine_chunk_state_key season d) ≡ str_beq c d
unfolding mine_chunk_state_key
state_key_eq season c d =
    str_beq-append (codes "go_lobby:mine:season:") (itoa (pos season) ++ (codes ":chunk:" ++ c))
      (itoa (pos season) ++ (codes ":chunk:" ++ d))
    ∙ str_beq-append (itoa (pos season)) (codes ":chunk:" ++ c) (codes ":chunk:" ++ d)
    ∙ str_beq-append (codes ":chunk:") c d

-- The commands that save a state, with the set left open.
abbrev commands : Str → Str → Str → Str → Bool → List Command
commands key set chunk raw closed =
    put key raw ∷ (if closed then add_member set chunk else remove_member set chunk) ∷ []

string_after-commands :
    (key set chunk raw : Str) (closed : Bool) (strings : Str → Option Str) (j : Str)
    → string_after (commands key set chunk raw closed) strings j
      ≡ (if key == j then some raw else strings j)
string_after-commands key set chunk raw true strings j = refl
string_after-commands key set chunk raw false strings j = refl

member_after-commands :
    (key set chunk raw : Str) (closed : Bool) (members : Str → Str → Bool) (c : Str)
    → member_after (commands key set chunk raw closed) members set c
      ≡ (if chunk == c then closed else members set c)
member_after-commands key set chunk raw true members c = rw (==-refl set) refl
member_after-commands key set chunk raw false members c = rw (==-refl set) refl

abbrev is_closed : Option MineChunkState → Bool
is_closed none = false
is_closed (some state) = state.closed

module _ {W : Type 0} (rdb : Redis W) (stored : W → Str → Option Str)
    (members : W → Str → Str → Bool) (is : IsShared rdb stored members) (json : Json MineChunkState)
    (season : ℕ) where
  abbrev decoded : Option Str → Option MineChunkState
  decoded none = none
  decoded (some raw) = known (json.decode raw)

  -- The state of a chunk of the season as it is stored.
  abbrev pub stored_state : W → Str → Option MineChunkState
  stored_state w c = decoded (stored w (mine_chunk_state_key season c))

  -- The set of the closed chunks holds exactly the chunks that are stored as closed.
  pub record IsAgreed (w : W) : Type 0 where
    pub agrees :
        (c : Str) → members w (mine_closed_chunk_set_key season) c ≡ is_closed (stored_state w c)

  -- A state that is saved is the one that is stored, and the others stay.
  abbrev pub Saved : MineChunkState → W → W → Type 0
  Saved state w w' =
      (c : Str) → stored_state w' c ≡ (if state.chunk_id == c then some state else stored_state w c)

  module _ (state : MineChunkState) (of_season : state.season_id ≡ season)
      (faithful : (raw : Str) → json.encode state ≡ ok raw → json.decode raw ≡ ok state) where
    Saved-string :
        (w w' : W) (raw : Str)
        → json.encode state ≡ ok raw
        → ((j : Str) → stored w' j ≡ string_after (save_commands rdb json state raw) (stored w) j)
        → Saved state w w'
    unfolding save_commands
    Saved-string w w' raw e at c =
        ap decoded (
          at (mine_chunk_state_key season c)
          ∙ string_after-commands (mine_chunk_state_key state.season_id state.chunk_id)
              (mine_closed_chunk_set_key state.season_id) state.chunk_id raw state.closed (stored w)
              (mine_chunk_state_key season c))
        ∙ here
      where
        same_key :
            str_beq
              (mine_chunk_state_key state.season_id state.chunk_id)
              (mine_chunk_state_key season c)
            ≡ str_beq state.chunk_id c
        same_key =
            ap
              (λ n. str_beq (mine_chunk_state_key n state.chunk_id) (mine_chunk_state_key season c))
              of_season
            ∙ state_key_eq season state.chunk_id c

        here :
            decoded (
              if mine_chunk_state_key state.season_id state.chunk_id
                == mine_chunk_state_key season c
              then some raw
              else stored w (mine_chunk_state_key season c))
            ≡ (if state.chunk_id == c then some state else stored_state w c)
        here = rw same_key (elim (Bool-cases (state.chunk_id == c)) [
          | inl same ↦ rw same (rw (faithful raw e) refl)
          | inr other ↦ rw other refl
        ])

    Saved-member :
        (w w' : W) (raw : Str)
        → ((j x : Str)
            → members w' j x ≡ member_after (save_commands rdb json state raw) (members w) j x)
        → (c : Str)
        → members w' (mine_closed_chunk_set_key season) c ≡ (
            if state.chunk_id == c
            then state.closed
            else members w (mine_closed_chunk_set_key season) c)
    unfolding save_commands
    Saved-member w w' raw at c =
        ap (λ n. members w' (mine_closed_chunk_set_key n) c) (sym of_season)
        ∙ at (mine_closed_chunk_set_key state.season_id) c
        ∙ member_after-commands (mine_chunk_state_key state.season_id state.chunk_id)
            (mine_closed_chunk_set_key state.season_id) state.chunk_id raw state.closed (members w)
            c
        ∙ ap
            (λ n.
              if state.chunk_id == c
              then state.closed
              else members w (mine_closed_chunk_set_key n) c)
            of_season

    -- What a transaction that ran makes of an agreement.
    ran-IsAgreed :
        (w w' : W) (raw : Str)
        → json.encode state ≡ ok raw
        → HasRun stored members (save_commands rdb json state raw) w w'
        → IsAgreed w
        → IsAgreed w' × Saved state w w'
    ran-IsAgreed w w' raw e (strings, sets) agreed = (
      record {
        agrees = λ c.
            Saved-member w w' raw sets c
            ∙ both c (agreed.agrees c)
            ∙ ap is_closed (sym (Saved-string w w' raw e strings c));
      },
      Saved-string w w' raw e strings,
    )
      where
        both :
            (c : Str)
            → members w (mine_closed_chunk_set_key season) c ≡ is_closed (stored_state w c)
            → (if state.chunk_id == c
                then state.closed
                else members w (mine_closed_chunk_set_key season) c)
              ≡ is_closed (if state.chunk_id == c then some state else stored_state w c)
        both c before = elim (Bool-cases (state.chunk_id == c)) [
          | inl same ↦ rw same refl
          | inr other ↦ rw other before
        ]

    -- When a transaction runs as a whole or not at all, also one with an error, the members of sets
    -- are what was added and not removed, and the text of the state is read back: saving a state of a
    -- season stores exactly this state beside the others if it succeeds, and does so or changes
    -- nothing if it fails; in every case the set of the closed chunks of the season, if it held
    -- exactly the chunks stored as closed before, does so afterwards.
    pub save_state-IsAgreed :
        (w : W)
        → IsAgreed w
        → let out = save_state rdb json state w in
          IsAgreed out.1
          × (((out.0 ≡ ok tt) × Saved state w out.1)
              ⊎ ((e : Error) × (out.0 ≡ err e) × (Saved state w out.1 ⊎ (out.1 ≡ w))))
    unfolding save_state
    save_state-IsAgreed w agreed = elim (Result-cases (json.encode state)) [
      | inr (x, e) ↦ rw e (agreed, inr (x, refl, inr refl))
      | inl (raw, e) ↦ elim (is.shared (save_commands rdb json state raw) w) [
        | inl (w', f, ran) ↦
            let done = ran-IsAgreed w w' raw e ran agreed in
            rw e (rw f (done.0, inl (refl, done.1)))
        | inr (x, w', f, inr ran) ↦
            let done = ran-IsAgreed w w' raw e ran agreed in
            rw e (rw f (done.0, inr (x, refl, inl done.1)))
        | inr (x, w', f, inl same) ↦
            rw e (rw f (subst IsAgreed (sym same) agreed, inr (x, refl, inr same)))
      ]
    ]
