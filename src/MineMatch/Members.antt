-- ===== src/MineMatch/Members.antt =====
-- The users of a new match: `buildMineMatchState` of internal/service/mine_match_service.go.
use go_lobby.Prelude.{nat_eq, ℕ, List, [], ◌∷◌, ◌++◌, true, has_value, keys}
use go_lobby.Prelude.{lookup, insert, lookup-insert, ◌∈◌, mem-append, ◌==◌, Bool-cases}
use go_lobby.Prelude.{◌≡◌, refl, inl, inr, arith}
use go_lobby.Prelude.Int.{ℤ}
use go_lobby.Prelude.Text.{Str}
use go_lobby.Responses.{MatchedTeam}
use go_lobby.Match.{ongoing}
use go_lobby.MineMatch.States.{
  MineMatchState, add_users, add_team, add_teams, build_mine_match_state,
}

abbrev pub users_of : List MatchedTeam → List ℕ
users_of [] = []
users_of (team ∷ teams) = team.user_ids ++ users_of teams

abbrev Has : ℕ → List (ℕ × ℤ) → Type 0
Has user m = has_value (lookup user m) ≡ true

insert-Has : (user other : ℕ) (v : ℤ) (m : List (ℕ × ℤ)) → Has user m → Has user (insert other v m)
insert-Has user other v m h = rw (lookup-insert other user v m) (ground (arith, h))

insert-Has_self : (user : ℕ) (v : ℤ) (m : List (ℕ × ℤ)) → Has user (insert user v m)
insert-Has_self user v m = rw (lookup-insert user user v m) (ground arith)

add_users-Has_kept :
    (v : ℤ) (users : List ℕ) (user : ℕ) (m : List (ℕ × ℤ))
    → Has user m
    → Has user (add_users v users m)
unfolding add_users
add_users-Has_kept v [] user m h = h
add_users-Has_kept v (u ∷ users) user m h =
    add_users-Has_kept v users user (insert u v m) (insert-Has user u v m h)

add_users-Has :
    (v : ℤ) (users : List ℕ) (user : ℕ) (m : List (ℕ × ℤ))
    → user ∈ users
    → Has user (add_users v users m)
unfolding add_users
add_users-Has v (u ∷ users) user m (inl same) =
    add_users-Has_kept v users user (insert u v m) (rw same (insert-Has_self u v m))
add_users-Has v (u ∷ users) user m (inr later) = add_users-Has v users user (insert u v m) later
add_users-Has v [] user m h = absurd h

add_teams-Has_kept :
    (state : MineMatchState) (teams : List MatchedTeam) (user : ℕ)
    → Has user state.user_teams
    → Has user (add_teams state teams).user_teams
unfolding add_teams
add_teams-Has_kept state [] user h = h
add_teams-Has_kept state (team ∷ teams) user h =
    add_teams-Has_kept (add_team state team) teams user
      (add_users-Has_kept team.team_id team.user_ids user state.user_teams h)

add_teams-Has :
    (state : MineMatchState) (teams : List MatchedTeam) (user : ℕ)
    → user ∈ users_of teams
    → Has user (add_teams state teams).user_teams
unfolding add_teams
add_teams-Has state [] user h = absurd h
add_teams-Has state (team ∷ teams) user h =
    elim (mem-append user team.user_ids (users_of teams) h) [
      | inl here ↦
          add_teams-Has_kept (add_team state team) teams user
            (add_users-Has team.team_id team.user_ids user state.user_teams here)
      | inr later ↦ add_teams-Has (add_team state team) teams user later
    ]

add_teams-same :
    (state : MineMatchState) (teams : List MatchedTeam)
    → let built = add_teams state teams in
      (built.match_id ≡ state.match_id)
      × (built.chunk_id ≡ state.chunk_id)
      × (built.status ≡ state.status)
unfolding add_teams
add_teams-same state [] = (refl, refl, refl)
add_teams-same state (team ∷ teams) = add_teams-same (add_team state team) teams

Has-mem : (user : ℕ) (m : List (ℕ × ℤ)) → Has user m → user ∈ keys m
unfolding lookup
Has-mem user [] h = cc
Has-mem user ((j, v) ∷ m) h = elim (Bool-cases (j == user)) [
  | inl same ↦ inl (ground (arith, same))
  | inr other ↦ inr (Has-mem user m (rw other at h))
]

-- A new match is played, on its chunk, and every user of the teams belongs to it.
pub build_mine_match_state_lem :
    (match_id : ℕ) (room_id : Str) (season_id : ℕ) (chunk_id : Str) (teams : List MatchedTeam)
    (started_at : ℕ)
    → let built = build_mine_match_state match_id room_id season_id chunk_id teams started_at in
      (built.match_id ≡ match_id)
      × (built.chunk_id ≡ chunk_id)
      × (built.status ≡ ongoing)
      × ((user : ℕ) → user ∈ users_of teams → user ∈ keys built.user_teams)
unfolding build_mine_match_state
build_mine_match_state_lem match_id room_id season_id chunk_id teams started_at =
    let (same_match, same_chunk, same_status) = add_teams-same _ teams in
    (
      same_match,
      same_chunk,
      same_status,
      λ user there. Has-mem user _ (add_teams-Has _ teams user there),
    )
