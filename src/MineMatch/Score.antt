-- ===== src/MineMatch/Score.antt =====
-- `scoreWinnerTeam` of internal/service/mine_match_service.go.
use go_lobby.Prelude.{nat_eq, ℕ, zero, suc, List, [], ◌∷◌, Bool, ◌||◌, ◌&&◌, Option, none, some}
use go_lobby.Prelude.{Result, ok, err, lookup, if◌then◌else◌, eqb, ltb, no_winner}
use go_lobby.Prelude.Int.{ℤ, pos, negsuc, ◌+ℤ◌, wrap64, ltb_ℤ, eqb_ℤ}

-- A team with its score, and the first time that one of its players last scored, 0 for none.
pub record Tally : Type 0 where
  pub team : ℤ
  pub score : ℤ
  pub last : ℕ

abbrev pub value_or_zero : Option ℤ → ℤ
value_or_zero none = pos 0
value_or_zero (some v) = v

-- `if lastScoreAt > 0 && (team == 0 || lastScoreAt < team)`
abbrev earlier : ℤ → ℕ → ℕ
earlier (pos zero) best = best
earlier (pos (suc t)) best = if eqb best 0 || ltb (suc t) best then suc t else best
earlier (negsuc t) best = best

unfoldable pub tally_users : List (ℕ × ℤ) → List (ℕ × ℤ) → List ℕ → Tally → Tally
tally_users scores times [] t = t
tally_users scores times (user ∷ users) t = tally_users scores times users (record t {
  score = wrap64 (t.score +ℤ value_or_zero (lookup user scores));
  last = earlier (value_or_zero (lookup user times)) t.last;
})

unfoldable pub tally_team : List (ℕ × ℤ) → List (ℕ × ℤ) → ℤ × List ℕ → Tally
unfolding tally_users
tally_team scores times (team, users) =
    tally_users scores times users (record { team = team; score = pos 0; last = 0 })

unfoldable pub tally_teams : List (ℕ × ℤ) → List (ℕ × ℤ) → List (ℤ × List ℕ) → List Tally
unfolding tally_team
tally_teams scores times [] = []
tally_teams scores times (t ∷ ts) = tally_team scores times t ∷ tally_teams scores times ts

-- The condition of the loop, for a winner that is set.
unfoldable pub takes_over : Tally → Tally → Bool
takes_over t w =
    ltb_ℤ w.score t.score
    || (eqb_ℤ t.score w.score && ltb 0 t.last && (eqb w.last 0 || ltb t.last w.last))
    || (eqb_ℤ t.score w.score && eqb t.last w.last && ltb_ℤ t.team w.team)

unfoldable pub pick : List Tally → Option Tally → Option Tally
pick [] winner = winner
pick (t ∷ ts) none = pick ts (some t)
pick (t ∷ ts) (some w) = pick ts (some (if takes_over t w then t else w))

unfoldable pub winner_team : Option Tally → Result ℤ
winner_team none = err no_winner
winner_team (some t) = ok t.team

unfoldable pub score_winner_team : List (ℤ × List ℕ) → List (ℕ × ℤ) → List (ℕ × ℤ) → Result ℤ
unfolding tally_teams pick winner_team
score_winner_team teams scores times = winner_team (pick (tally_teams scores times teams) none)
