-- ===== src/Tests/Boards.antt =====
-- The leaderboard over sorted sets in memory.
use go_lobby.Prelude.{suc, List, [], ◌∷◌, take, ok, err, Error, refl, ◌≡◌, ◌≢◌, ◌⊎◌, inl}
use go_lobby.Prelude.{arith, All}
use go_lobby.Prelude.{insert, lookup-insert}
use go_lobby.Prelude.Int.{ℤ, pos, negsuc, pos_part}
use go_lobby.Prelude.Text.{Str, codes, str_eq}
use go_lobby.Chunk.Numbers.{itoa}
use go_lobby.Rank.{LeaderboardItem, get_leaderboard}
use go_lobby.Repository.Leaderboard.{SortedSets, Float64, IsRanked, IsTop, get_leaderboard-IsTop}
use go_lobby.Repository.Leaderboard.{list_top_n, IsExact}

-- Every mode has the same board, and a member keeps its place in it.
abbrev Board : Type 0
Board = List (Str × ℤ)

abbrev sorted : SortedSets Board ℤ
sorted = record {
  z_add = λ k score member w. (ok tt, insert member score w);
  z_rev_range = λ k from to w. (ok (take (suc (pos_part to)) w), w);
}

abbrev same_numbers : Float64 ℤ
same_numbers = record { of_int = λ n. n; to_int = λ n. n }

sorted-IsRanked : IsRanked sorted (λ w k. w)
sorted-IsRanked = record {
  ranged = λ k n w. inl refl;
  added =
      λ k score member w. inl (insert member score w, refl, λ x. lookup-insert member x score w);
}

abbrev three : Board
three = (itoa (pos 12), pos 30) ∷ (itoa (pos 7), pos 10) ∷ (itoa (pos 9), negsuc 4) ∷ []

get_leaderboard-IsTop_example :
    ((items : List LeaderboardItem) × (get_leaderboard
          (list_top_n sorted same_numbers)
          (codes "1v1")
          (pos 2)
          three
        ≡ (ok items, three))
      × IsTop ((12, pos 30) ∷ (7, pos 10) ∷ []) items)
    ⊎ ((e : Error) × (get_leaderboard (list_top_n sorted same_numbers) (codes "1v1") (pos 2) three
          ≡ (err e, three)))
get_leaderboard-IsTop_example =
    get_leaderboard-IsTop sorted same_numbers (λ w k. w) sorted-IsRanked (codes "1v1") (pos 2)
      ((12, pos 30) ∷ (7, pos 10) ∷ (9, negsuc 4) ∷ []) three named exact refl
  where
    named : codes "1v1" ≢ []
    named e = cc

    exact : All (IsExact sorted same_numbers) ((12, pos 30) ∷ (7, pos 10) ∷ (9, negsuc 4) ∷ [])
    exact = ((ground arith, refl), ((ground arith, refl), ((ground arith, refl), tt)))
