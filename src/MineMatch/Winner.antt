-- ===== src/MineMatch/Winner.antt =====
-- The winner of a match does not depend on the order in which Go walks the map of the teams.
use go_lobby.Prelude.{ℕ, ◌+◌, ◌<◌, ◌≡◌, refl, sym, ◌∙◌, ap, subst, List, [], ◌∷◌, true, false, some}
use go_lobby.Prelude.{ok, ◌⊎◌, inl, inr, ◌∈◌, arith, Bool-cases, ◌≢◌}
use go_lobby.Prelude.Int.{ℤ, pos_part, neg_part, eqb_ℤ_iff}
use go_lobby.MineMatch.Score.{
  Tally, takes_over, pick, tally_teams, score_winner_team, tally_team, tally_users,
}

abbrev ◌<ℤ◌ : ℤ → ℤ → Type 0
◌<ℤ◌ a b = pos_part a + neg_part b < pos_part b + neg_part a

-- More points; at the same points the earlier last score, where 0 is none; then the lower number.
pub Beats : Tally → Tally → Type 0
Beats t w =
    ◌<ℤ◌ w.score t.score
    ⊎ (t.score ≡ w.score) × (0 < t.last) × ((w.last ≡ 0) ⊎ (t.last < w.last))
    ⊎ (t.score ≡ w.score) × (t.last ≡ w.last) × ◌<ℤ◌ t.team w.team

takes_over-Beats : (t w : Tally) → takes_over t w ≡ true → Beats t w
unfolding takes_over Beats
takes_over-Beats t w e = ground (arith, eqb_ℤ_iff t.score w.score)

Beats-trans : (a b c : Tally) → Beats a b → Beats b c → Beats a c
unfolding Beats
Beats-trans a b c h k = ground arith

-- Of two teams with different numbers one beats the other.
not_takes_over-Beats : (t w : Tally) → takes_over t w ≡ false → t.team ≢ w.team → Beats w t
unfolding takes_over Beats
not_takes_over-Beats t w e ne = ground (arith, eqb_ℤ_iff t.score w.score, eqb_ℤ_iff t.team w.team)

Beats-irrefl : (a : Tally) → ¬ Beats a a
unfolding Beats
Beats-irrefl a h = ground arith

-- Different team numbers, as the keys of a map have.
abbrev AreDistinct : List Tally → Type 0
AreDistinct [] = Unit {0}
AreDistinct (t ∷ ts) = ((u : Tally) → u ∈ ts → u.team ≢ t.team) × AreDistinct ts

-- One of the list that beats every other.
record Best (ts : List Tally) (t : Tally) : Type 0 where
  member : t ∈ ts
  beats : (u : Tally) → u ∈ ts → (u ≡ t) ⊎ Beats t u

Best-unique :
    {ts us : List Tally} (t u : Tally)
    → Best ts t
    → Best us u
    → ((x : Tally) → x ∈ ts → x ∈ us)
    → ((x : Tally) → x ∈ us → x ∈ ts)
    → t ≡ u
Best-unique t u b c there back = elim (c.beats t (there t b.member)) [
  | inl e ↦ e
  | inr h ↦ elim (b.beats u (back u c.member)) [
    | inl e ↦ sym e
    | inr k ↦ absurd (Beats-irrefl t (Beats-trans t u t k h))
  ]
]

-- What an element beats, a better one beats.
Beats-on : (b w u : Tally) → (w ≡ b) ⊎ Beats b w → Beats w u → Beats b u
Beats-on b w u (inl e) h = subst (λ x. Beats x u) e h
Beats-on b w u (inr k) h = Beats-trans b w u k h

pick-Best :
    (ts : List Tally) (w : Tally)
    → AreDistinct (w ∷ ts)
    → (t : Tally) × (pick ts (some w) ≡ some t) × Best (w ∷ ts) t
unfolding pick
pick-Best [] w d = (
  w,
  refl,
  record { member = inl refl; beats = λ u. elim [ inl e ↦ inl e | inr nowhere ↦ absurd nowhere ] },
)
pick-Best (t ∷ ts) w d = elim (Bool-cases (takes_over t w)) [
  | inl over ↦
      let (b, e, best) = pick-Best ts t d.1 in
      (
        b,
        rw over e,
        record {
          member = inr best.member;
          beats = λ u. elim [
            | inl eu ↦ inr (
                subst (Beats b) (sym eu)
                  (Beats-on b t w (best.beats t (inl refl)) (takes_over-Beats t w over)))
            | inr m ↦ best.beats u m
          ];
        },
      )
  | inr stays ↦
      let (b, e, best) = pick-Best ts w ((λ u m. d.0 u (inr m)), d.1.1) in
      let beaten = not_takes_over-Beats t w stays (d.0 t (inl refl)) in
      (
        b,
        rw stays e,
        record {
          member = elim best.member [ inl m ↦ inl m | inr m ↦ inr (inr m) ];
          beats = λ u. elim [
            | inl eu ↦ best.beats u (inl eu)
            | inr (inl eu) ↦
                inr (subst (Beats b) (sym eu) (Beats-on b w t (best.beats w (inl refl)) beaten))
            | inr (inr m) ↦ best.beats u (inr m)
          ];
        },
      )
]

tally_users-team :
    (scores times : List (ℕ × ℤ)) (users : List ℕ) (t : Tally)
    → (tally_users scores times users t).team ≡ t.team
unfolding tally_users
tally_users-team scores times [] t = refl
tally_users-team scores times (user ∷ users) t = tally_users-team scores times users _

module _ (scores times : List (ℕ × ℤ)) where
  abbrev tally : ℤ × List ℕ → Tally
  tally = tally_team scores times

  tally-team : (e : ℤ × List ℕ) → (tally e).team ≡ e.0
  unfolding tally_team
  tally-team (team, users) = tally_users-team scores times users _

  mem-tally_teams :
      (x : Tally) (teams : List (ℤ × List ℕ))
      → x ∈ tally_teams scores times teams
      → (e : ℤ × List ℕ) × (e ∈ teams) × (x ≡ tally e)
  unfolding tally_teams
  mem-tally_teams x [] m = absurd m
  mem-tally_teams x (e ∷ teams) (inl h) = (e, inl refl, h)
  mem-tally_teams x (e ∷ teams) (inr m) =
      let (f, mf, h) = mem-tally_teams x teams m in (f, inr mf, h)

  tally_teams-mem :
      (e : ℤ × List ℕ) (teams : List (ℤ × List ℕ))
      → e ∈ teams
      → tally e ∈ tally_teams scores times teams
  unfolding tally_teams
  tally_teams-mem e [] m = absurd m
  tally_teams-mem e (f ∷ teams) (inl h) = inl (ap tally h)
  tally_teams-mem e (f ∷ teams) (inr m) = inr (tally_teams-mem e teams m)

-- The keys of the map of the teams are different.
abbrev pub AreKeys : List (ℤ × List ℕ) → Type 0
AreKeys [] = Unit {0}
AreKeys (e ∷ teams) = ((f : ℤ × List ℕ) → f ∈ teams → f.0 ≢ e.0) × AreKeys teams

AreKeys-AreDistinct :
    (scores times : List (ℕ × ℤ)) (teams : List (ℤ × List ℕ))
    → AreKeys teams
    → AreDistinct (tally_teams scores times teams)
unfolding tally_teams
AreKeys-AreDistinct scores times [] k = tt
AreKeys-AreDistinct scores times (e ∷ teams) k = (
  λ u m same.
      let (f, mf, h) = mem-tally_teams scores times u teams m in
      k.0 f mf (
        sym (tally-team scores times f)
        ∙ sym (ap (λ (x : Tally). x.team) h)
        ∙ same
        ∙ tally-team scores times e),
  AreKeys-AreDistinct scores times teams k.1,
)

Best-of :
    (scores times : List (ℕ × ℤ)) (first : ℤ × List ℕ) (teams : List (ℤ × List ℕ))
    → AreKeys (first ∷ teams)
    → (b : Tally) × (score_winner_team (first ∷ teams) scores times ≡ ok b.team)
      × Best (tally_teams scores times (first ∷ teams)) b
unfolding score_winner_team
Best-of scores times first teams k =
    let (b, e, best) =
      pick-Best (tally_teams scores times teams) (tally scores times first)
        (AreKeys-AreDistinct scores times (first ∷ teams) k) in
    (b, rw e, best)

-- With at least one team there is a winner: one of the teams, which beats every other.
pub score_winner_team-Beats :
    (scores times : List (ℕ × ℤ)) (first : ℤ × List ℕ) (teams : List (ℤ × List ℕ))
    → AreKeys (first ∷ teams)
    → (w : ℤ × List ℕ) × (w ∈ first ∷ teams)
      × (score_winner_team (first ∷ teams) scores times ≡ ok w.0)
      × ((u : ℤ × List ℕ)
          → u ∈ first ∷ teams
          → u.0 ≢ w.0
          → Beats (tally_team scores times w) (tally_team scores times u))
score_winner_team-Beats scores times first teams k =
    let (b, e, best) = Best-of scores times first teams k in
    let (w, mw, bw) = mem-tally_teams scores times b (first ∷ teams) best.member in
    let name : b.team ≡ w.0 = ap (λ (x : Tally). x.team) bw ∙ tally-team scores times w in
    (
      w,
      mw,
      e ∙ ap ok name,
      λ u mu ne. elim (best.beats _ (tally_teams-mem scores times u (first ∷ teams) mu)) [
        | inl same ↦
            absurd (ne (sym (tally-team scores times u) ∙ ap (λ (x : Tally). x.team) same ∙ name))
        | inr h ↦ subst (λ x. Beats x (tally scores times u)) bw h
      ],
    )

-- Two walks over the same teams, in any order, give the same winner.
pub score_winner_team_order :
    (scores times : List (ℕ × ℤ)) (teams other : List (ℤ × List ℕ))
    → AreKeys teams
    → AreKeys other
    → ((e : ℤ × List ℕ) → e ∈ teams → e ∈ other)
    → ((e : ℤ × List ℕ) → e ∈ other → e ∈ teams)
    → score_winner_team teams scores times ≡ score_winner_team other scores times
score_winner_team_order scores times [] [] k l there back = refl
score_winner_team_order scores times (t ∷ ts) [] k l there back = absurd (there t (inl refl))
score_winner_team_order scores times [] (u ∷ us) k l there back = absurd (back u (inl refl))
score_winner_team_order scores times (t ∷ ts) (u ∷ us) k l there back =
    let (b, e, best) = Best-of scores times t ts k in
    let (c, f, other_best) = Best-of scores times u us l in
    e
    ∙ ap (λ (x : Tally). ok x.team)
        (Best-unique b c best other_best (moved (t ∷ ts) (u ∷ us) there)
          (moved (u ∷ us) (t ∷ ts) back))
    ∙ sym f
  where
    moved :
        (teams other : List (ℤ × List ℕ))
        → ((e : ℤ × List ℕ) → e ∈ teams → e ∈ other)
        → (x : Tally) → x ∈ tally_teams scores times teams
        → x ∈ tally_teams scores times other
    moved teams other h x m =
        let (e, me, h') = mem-tally_teams scores times x teams m in
        subst (λ y. y ∈ tally_teams scores times other) (sym h')
          (tally_teams-mem scores times e other (h e me))
