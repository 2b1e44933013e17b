-- ===== src/Repository/Leaderboard.antt =====
-- internal/repository/leaderboard_repository.go: the scores of the players of a mode in a sorted set
-- of Redis. The sorted sets and the conversions between int and float64 are parameters.
use go_lobby.Prelude.{nat_eq, ℕ, zero, suc, ◌<◌, List, [], ◌∷◌, ◌++◌, map, take, All, length, leb}
use go_lobby.Prelude.{
  Bool, true, false, Result, ok, err, Error, external, if◌then◌else◌, arith, ==_of_ne,
}
use go_lobby.Prelude.{◌≡◌, ◌≢◌, refl, sym, ap, ◌⊎◌, inl, inr}
use go_lobby.Prelude.Int.{ℤ, pos, negsuc, ◌+ℤ◌, wrap64, two63}
use go_lobby.Prelude.Text.{Str, codes, str_eq}
use go_lobby.Prelude.Effect.{M, Done, lift, pure, and_then, ◌>>=◌}
use go_lobby.Chunk.Numbers.{itoa, atoi, atoi-itoa}
use go_lobby.Rank.{LeaderboardItem, clamp_limit, ranked_from, get_leaderboard}
use go_lobby.Prelude.{Option, none, some, lookup, ◌==◌, ◌∙◌}
use go_lobby.Repository.Fifo.{same_text}
use go_lobby.Repository.Matches.{id_of_int}

-- ZADD of one member, and ZREVRANGE with the scores between two places, both included.
pub record SortedSets (W F : Type 0) : Type 0 where
  pub z_add : Str → F → Str → M W Done
  pub z_rev_range : Str → ℤ → ℤ → M W (List (Str × F))

pub record Float64 (F : Type 0) : Type 0 where
  pub of_int : ℤ → F
  pub to_int : F → ℤ

-- A world has a board for every key, the highest score first; a part of it is read without a change.
pub record IsRanked {W F : Type 0} (z : SortedSets W F) (board : W → Str → List (Str × F))
    : Type 0 where
  pub ranged :
      (k : Str) (n : ℕ) (w : W)
      → (z.z_rev_range k (pos 0) (pos n) w ≡ (ok (take (suc n) (board w k)), w))
        ⊎ ((e : Error) × (z.z_rev_range k (pos 0) (pos n) w ≡ (err e, w)))
  pub added :
      (k : Str) (score : F) (member : Str) (w : W)
      → ((w' : W) × (z.z_add k score member w ≡ (ok tt, w'))
          × ((x : Str)
              → lookup x (board w' k) ≡ (if member == x then some score else lookup x (board w k))))
        ⊎ ((e : Error) × (z.z_add k score member w ≡ (err e, w)))

abbrev mapped : {A B : Type 0} → (A → B) → Option A → Option B
mapped f none = none
mapped f (some a) = some (f a)

-- `fmt.Sprintf("go_lobby:leaderboard:mode:%s", mode)`
unfoldable pub leaderboard_key : Str → Str
leaderboard_key mode = codes "go_lobby:leaderboard:mode:" ++ mode

-- How many players are asked for.
abbrev pub top : ℤ → ℕ
top (negsuc n) = 20
top (pos zero) = 20
top (pos (suc n)) = if leb n 99 then suc n else 100

clamp_limit-top :
    (limit : ℤ) → (n : ℕ) × (clamp_limit limit ≡ pos (suc n)) × (n < 100) × (suc n ≡ top limit)
unfolding clamp_limit
clamp_limit-top (negsuc n) = (19, ground arith, omega arith, refl)
clamp_limit-top (pos zero) = (19, refl, omega arith, refl)
clamp_limit-top (pos (suc n)) = go (leb n 99) refl
  where
    go :
        (b : Bool)
        → leb n 99 ≡ b
        → (m : ℕ) × (clamp_limit (pos (suc n)) ≡ pos (suc m))
          × (m < 100)
          × (suc m ≡ (if b then suc n else 100))
    go true e = (n, ground (arith, e), ground (arith, e), refl)
    go false e = (99, ground (arith, e), omega arith, refl)

one_less : (n : ℕ) → n < 100 → wrap64 (pos (suc n) +ℤ negsuc 0) ≡ pos n
unfolding wrap64 ◌+ℤ◌
one_less n h = ground arith

abbrev pub player_of : LeaderboardItem → ℕ × ℤ
player_of i = (i.user_id, i.score)

abbrev pub place_of : LeaderboardItem → ℕ
place_of i = i.rank

-- So many numbers, one after the other.
abbrev pub numbers : ℕ → ℕ → List ℕ
numbers n zero = []
numbers n (suc k) = n ∷ numbers (suc n) k

ranked_from-players :
    (n : ℕ) (players : List (ℕ × ℤ)) → map player_of (ranked_from n players) ≡ players
unfolding ranked_from
ranked_from-players n [] = refl
ranked_from-players n (p ∷ players) = ap (λ l. p ∷ l) (ranked_from-players (suc n) players)

ranked_from-places :
    (n : ℕ) (players : List (ℕ × ℤ))
    → map place_of (ranked_from n players) ≡ numbers n (length players)
unfolding ranked_from
ranked_from-places n [] = refl
ranked_from-places n (p ∷ players) = ap (λ l. n ∷ l) (ranked_from-places (suc n) players)

-- The first players in their order, with the places from 1 on.
abbrev pub IsTop : List (ℕ × ℤ) → List LeaderboardItem → Type 0
IsTop players items =
    (map player_of items ≡ players) × (map place_of items ≡ numbers 1 (length players))

module _ {W F : Type 0} (z : SortedSets W F) (float : Float64 F) where
  unfoldable pub set_player_score : Str → ℕ → ℤ → M W Done
  unfolding leaderboard_key
  set_player_score mode user_id score =
      z.z_add (leaderboard_key mode) (float.of_int score) (itoa (pos user_id))

  -- The loop of `ListTopN`.
  unfoldable pub ranks_of : List (Str × F) → Result (List (ℕ × ℤ))
  ranks_of [] = ok []
  ranks_of ((member, score) ∷ values) =
      let rest = ranks_of values in
      elim (atoi member) [
        | err _ ↦ err external
        | ok id ↦ elim rest [
          | err e ↦ err e
          | ok ranks ↦ ok ((id_of_int id, float.to_int score) ∷ ranks)
        ]
      ]

  unfoldable pub list_top_n : Str → ℤ → M W (List (ℕ × ℤ))
  unfolding leaderboard_key ranks_of
  list_top_n mode limit =
      z.z_rev_range (leaderboard_key mode) (pos 0) (wrap64 (limit +ℤ negsuc 0)) >>= λ values.
      lift (ranks_of values)

  abbrev entry : ℕ × ℤ → Str × F
  entry p = (itoa (pos p.0), float.of_int p.1)

  -- The id is an int64 and the score is one that float64 holds exactly.
  abbrev pub IsExact : ℕ × ℤ → Type 0
  IsExact p = (p.0 < two63) × (float.to_int (float.of_int p.1) ≡ p.1)

  ranks_of-entries :
      (players : List (ℕ × ℤ)) → All IsExact players → ranks_of (map entry players) ≡ ok players
  unfolding ranks_of
  ranks_of-entries [] s = refl
  ranks_of-entries ((u, score) ∷ players) ((small, exact), ss) =
      rw (ranks_of, atoi-itoa u small)
        (rw (ranks_of-entries players ss) (ap (λ s. ok ((u, s) ∷ players)) exact))

  take-entries :
      (n : ℕ) (players : List (ℕ × ℤ)) → take n (map entry players) ≡ map entry (take n players)
  take-entries zero players = refl
  take-entries (suc n) [] = refl
  take-entries (suc n) (p ∷ players) = ap (λ l. entry p ∷ l) (take-entries n players)

  take-IsExact :
      (n : ℕ) (players : List (ℕ × ℤ)) → All IsExact players → All IsExact (take n players)
  take-IsExact zero players s = tt
  take-IsExact (suc n) [] s = tt
  take-IsExact (suc n) (p ∷ players) (s, ss) = (s, take-IsExact n players ss)

  -- What is read of the board of a mode.
  list_top_n-players :
      (board : W → Str → List (Str × F))
      → IsRanked z board
      → (mode : Str) (n : ℕ) (players : List (ℕ × ℤ)) (w : W) → n < 100
      → All IsExact players
      → board w (leaderboard_key mode) ≡ map entry players
      → (list_top_n mode (pos (suc n)) w ≡ (ok (take (suc n) players), w))
        ⊎ ((e : Error) × (list_top_n mode (pos (suc n)) w ≡ (err e, w)))
  unfolding list_top_n
  list_top_n-players board is mode n players w small exact on =
      rw (one_less n small) (elim (is.ranged (leaderboard_key mode) n w) [
        | inl read ↦ inl (
            rw read (
              rw
                (
                  on,
                  take-entries (suc n) players,
                  ranks_of-entries (take (suc n) players) (take-IsExact (suc n) players exact),
                )
                refl))
        | inr (e, failed) ↦ inr (e, rw failed refl)
      ])

  -- A leaderboard of a named mode is what is listed, with places.
  get_leaderboard-listed :
      (list : Str → ℤ → M W (List (ℕ × ℤ))) (mode : Str) (limit : ℤ) (w : W)
      → mode ≢ []
      → get_leaderboard list mode limit w
        ≡ and_then (list mode (clamp_limit limit) w) (λ items. pure (ranked_from 1 items))
  unfolding get_leaderboard
  get_leaderboard-listed list mode limit w named = rw (==_of_ne mode [] named) refl

  -- When the sorted sets of Redis are as documented: on the board of a mode whose members are the
  -- players with ids below 2^63 and with scores that float64 holds exactly, the leaderboard of the
  -- mode is the first players of the board in order, 20 of them for a limit that is not positive and
  -- at most 100, with the places from 1 on; or reading fails. Nothing is changed.
  pub get_leaderboard-IsTop :
      (board : W → Str → List (Str × F))
      → IsRanked z board
      → (mode : Str) (limit : ℤ) (players : List (ℕ × ℤ)) (w : W) → mode ≢ []
      → All IsExact players
      → board w (leaderboard_key mode) ≡ map entry players
      → ((items : List LeaderboardItem) × (get_leaderboard list_top_n mode limit w ≡ (ok items, w))
          × IsTop (take (top limit) players) items)
        ⊎ ((e : Error) × (get_leaderboard list_top_n mode limit w ≡ (err e, w)))
  get_leaderboard-IsTop board is mode limit players w named exact on =
      let (n, clamped, small, asked) = clamp_limit-top limit in
      rw (get_leaderboard-listed list_top_n mode limit w named, clamped, sym asked)
        (elim (list_top_n-players board is mode n players w small exact on) [
          | inl read ↦ inl (
            ranked_from 1 (take (suc n) players),
            rw read refl,
            (
              ranked_from-players 1 (take (suc n) players),
              ranked_from-places 1 (take (suc n) players),
            ),
          )
          | inr (e, failed) ↦ inr (e, rw failed refl)
        ])

  lookup-entries :
      (u : ℕ) (players : List (ℕ × ℤ))
      → u < two63
      → All IsExact players
      → lookup (itoa (pos u)) (map entry players) ≡ mapped float.of_int (lookup u players)
  unfolding lookup
  lookup-entries u [] small s = refl
  lookup-entries u ((v, score) ∷ players) small ((small', exact), ss) =
      rw (same_text v u small' small) (go (v == u) (lookup-entries u players small ss))
    where
      go :
          (b : Bool)
          → lookup (itoa (pos u)) (map entry players) ≡ mapped float.of_int (lookup u players)
          → (if b then some (float.of_int score) else lookup (itoa (pos u)) (map entry players))
            ≡ mapped float.of_int (if b then some score else lookup u players)
      go true later = refl
      go false later = later

  lookup-IsExact :
      (u : ℕ) (players : List (ℕ × ℤ))
      → All IsExact players
      → mapped float.to_int (mapped float.of_int (lookup u players)) ≡ lookup u players
  unfolding lookup
  lookup-IsExact u [] s = refl
  lookup-IsExact u ((v, score) ∷ players) ((small, exact), ss) =
      go (v == u) (lookup-IsExact u players ss)
    where
      go :
          (b : Bool)
          → mapped float.to_int (mapped float.of_int (lookup u players)) ≡ lookup u players
          → mapped float.to_int (mapped float.of_int (if b then some score else lookup u players))
            ≡ (if b then some score else lookup u players)
      go true later = ap (λ n. some n) exact
      go false later = later

  -- A score that is stored stands on the board of the mode, and the other players keep theirs.
  pub set_player_score-lookup :
      (board : W → Str → List (Str × F))
      → IsRanked z board
      → (mode : Str) (user : ℕ) (score : ℤ) (players players' : List (ℕ × ℤ)) (w w' : W)
      → IsExact (user, score)
      → All IsExact players
      → All IsExact players'
      → board w (leaderboard_key mode) ≡ map entry players
      → board w' (leaderboard_key mode) ≡ map entry players'
      → set_player_score mode user score w ≡ (ok tt, w')
      → (u : ℕ) → u < two63
      → lookup u players' ≡ (if user == u then some score else lookup u players)
  unfolding set_player_score
  set_player_score-lookup board is mode user score players players' w w' (small, exact) s s' on on'
        done u su =
      elim (is.added (leaderboard_key mode) (float.of_int score) (itoa (pos user)) w) [
        | inl (v, stored, shown) ↦
            let same : v ≡ w' = cc in
            let read = shown (itoa (pos u)) in
            let moved : lookup (itoa (pos u)) (map entry players') ≡ (
                if user == u
                then some (float.of_int score)
                else lookup (itoa (pos u)) (map entry players)) =
              ap (λ l. lookup (itoa (pos u)) l) (sym on')
              ∙ ap (λ x. lookup (itoa (pos u)) (board x (leaderboard_key mode))) (sym same)
              ∙ read
              ∙ rw (same_text user u small su, on) refl in
            sym (lookup-IsExact u players' s')
            ∙ ap (mapped float.to_int) (
                sym (lookup-entries u players' su s')
                ∙ moved
                ∙ ap (λ o. if user == u then some (float.of_int score) else o)
                    (lookup-entries u players su s))
            ∙ kept (user == u)
        | inr (e, failed) ↦ cc
      ]
    where
      kept :
          (b : Bool)
          → mapped float.to_int
              (if b then some (float.of_int score) else mapped float.of_int (lookup u players))
            ≡ (if b then some score else lookup u players)
      kept true = ap (λ n. some n) exact
      kept false = lookup-IsExact u players s
