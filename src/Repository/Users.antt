-- ===== src/Repository/Users.antt =====
-- The keys of internal/repository/mine_match_repository.go that are written for the users of a match,
-- in one pipeline.
use go_lobby.Prelude.{nat_eq, ℕ, List, [], ◌∷◌, map, false, Option, some, if◌then◌else◌, ◌∈◌}
use go_lobby.Prelude.{◌==◌, ==-refl}
use go_lobby.Prelude.{◌≡◌, refl, ◌∙◌, inl, inr, arith}
use go_lobby.Prelude.Int.{pos}
use go_lobby.Prelude.Text.{Str, str_eq, str_beq}
use go_lobby.MineMatch.Locks.{mine_chunk_lock_key}
use go_lobby.Redis.{Command, put, string_after}
use go_lobby.Repository.Matches.{mine_match_key, mine_match_user_key}

-- A pipeline that writes one value for each user.
abbrev pub puts : (ℕ → Str) → Str → List ℕ → List Command
puts key v users = map (λ u. put (key u) v) users

pub puts_else :
    (key : ℕ → Str) (v : Str) (users : List ℕ) (strings : Str → Option Str) (j : Str)
    → ((u : ℕ) → (key u == j) ≡ false)
    → string_after (puts key v users) strings j ≡ strings j
puts_else key v [] strings j h = refl
puts_else key v (u ∷ users) strings j h =
    puts_else key v users (λ i. if key u == i then some v else strings i) j h ∙ rw (h u) refl

puts_kept :
    (key : ℕ → Str) (v : Str) (users : List ℕ) (strings : Str → Option Str) (j : Str)
    → strings j ≡ some v
    → string_after (puts key v users) strings j ≡ some v
puts_kept key v [] strings j h = h
puts_kept key v (u ∷ users) strings j h =
    puts_kept key v users (λ i. if key u == i then some v else strings i) j (ground (arith, h))

pub puts_at :
    (key : ℕ → Str) (v : Str) (users : List ℕ) (strings : Str → Option Str) (user : ℕ)
    → user ∈ users
    → string_after (puts key v users) strings (key user) ≡ some v
puts_at key v [] strings user h = absurd h
puts_at key v (u ∷ users) strings user (inl same) =
    puts_kept key v users (λ i. if key u == i then some v else strings i) (key user)
      (rw same (rw (==-refl (key u)) refl))
puts_at key v (u ∷ users) strings user (inr later) =
    puts_at key v users (λ i. if key u == i then some v else strings i) user later

pub user_key_ne_match_key :
    (user m : ℕ) → str_beq (mine_match_user_key user) (mine_match_key (pos m)) ≡ false
unfolding mine_match_user_key mine_match_key str_beq
user_key_ne_match_key user m = refl

pub user_key_ne_lock_key :
    (user season : ℕ) (c : Str)
    → str_beq (mine_match_user_key user) (mine_chunk_lock_key season c) ≡ false
unfolding mine_match_user_key mine_chunk_lock_key str_beq
user_key_ne_lock_key user season c = refl

pub match_key_ne_lock_key :
    (m season : ℕ) (c : Str)
    → str_beq (mine_match_key (pos m)) (mine_chunk_lock_key season c) ≡ false
unfolding mine_match_key mine_chunk_lock_key str_beq
match_key_ne_lock_key m season c = refl
