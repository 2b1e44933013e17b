-- ===== src/Tests/Matches.antt =====
-- The winner of a match.
use go_lobby.Prelude.{ℕ, ◌≡◌, ◌≢◌, refl, inl, inr, List, [], ◌∷◌, ok, ◌∈◌, arith, lookup}
use go_lobby.Prelude.Int.{ℤ, pos, wrap64, ◌+ℤ◌}
use go_lobby.MineMatch.Score.{score_winner_team, tally_team, takes_over}
use go_lobby.MineMatch.Winner.{Beats, AreKeys, score_winner_team-Beats, score_winner_team_order}

abbrev red : ℤ × List ℕ
red = (pos 0, 11 ∷ [])

abbrev blue : ℤ × List ℕ
blue = (pos 1, 12 ∷ [])

abbrev scores : List (ℕ × ℤ)
scores = (11, pos 4) ∷ (12, pos 4) ∷ []

abbrev times : List (ℕ × ℤ)
times = (11, pos 900) ∷ (12, pos 800) ∷ []

earlier_wins : score_winner_team (red ∷ blue ∷ []) scores times ≡ ok (pos 1)
unfolding score_winner_team takes_over wrap64 ◌+ℤ◌ lookup
earlier_wins = refl

teams-AreKeys : AreKeys (red ∷ blue ∷ [])
teams-AreKeys = (
  λ f. elim [ inl e ↦ λ h. different f e h | inr nowhere ↦ absurd nowhere ],
  ((λ f m. absurd m), tt),
)
  where
    different : (f : ℤ × List ℕ) → f ≡ blue → f.0 ≢ pos 0
    different f e h = ground arith

reversed-AreKeys : AreKeys (blue ∷ red ∷ [])
reversed-AreKeys = (
  λ f. elim [ inl e ↦ λ h. different f e h | inr nowhere ↦ absurd nowhere ],
  ((λ f m. absurd m), tt),
)
  where
    different : (f : ℤ × List ℕ) → f ≡ red → f.0 ≢ pos 1
    different f e h = ground arith

swapped : (a b e : ℤ × List ℕ) → e ∈ a ∷ b ∷ [] → e ∈ b ∷ a ∷ []
swapped a b e (inl h) = inr (inl h)
swapped a b e (inr (inl h)) = inl h
swapped a b e (inr (inr nowhere)) = absurd nowhere

score_winner_team_order_example :
    score_winner_team (red ∷ blue ∷ []) scores times
    ≡ score_winner_team (blue ∷ red ∷ []) scores times
score_winner_team_order_example =
    score_winner_team_order scores times (red ∷ blue ∷ []) (blue ∷ red ∷ []) teams-AreKeys
      reversed-AreKeys (swapped red blue) (swapped blue red)

score_winner_team-Beats_example :
    (w : ℤ × List ℕ) × (w ∈ red ∷ blue ∷ [])
    × (score_winner_team (red ∷ blue ∷ []) scores times ≡ ok w.0)
    × ((u : ℤ × List ℕ)
        → u ∈ red ∷ blue ∷ []
        → u.0 ≢ w.0
        → Beats (tally_team scores times w) (tally_team scores times u))
score_winner_team-Beats_example = score_winner_team-Beats scores times red (blue ∷ []) teams-AreKeys
