-- ===== src/Rank/Settle.antt =====
-- What a settlement does to the committed tables: all of it once, or nothing.
use go_lobby.Prelude.{
  nat_eq, ℕ, List, [], ◌∷◌, Bool, true, false, Option, none, some, ◌≡◌, refl, sym,
}
use go_lobby.Prelude.{◌∙◌, ap, subst, ◌⊎◌, inl, inr, Result, ok, err, external}
use go_lobby.Prelude.{==-refl, ◌==◌, ◌||◌, if◌then◌else◌, arith}
use go_lobby.Prelude.Int.{int_eq}
use go_lobby.Prelude.Text.{Str, str_eq}
use go_lobby.Prelude.Effect.{M, Done, Ensures, Keeps, Keeps-bind, Keeps-pure, and_then}
use go_lobby.Match.{MatchPlayer, MatchResultFinishedEvent}
use go_lobby.Rank.{PlayerRank, RankEvent, Tables, Db, statement, statement_with, begin_tx, commit}
use go_lobby.Rank.{rollback, add_rank_event, updated_rank, set_rank, rank_of, update_player_rank}
use go_lobby.Rank.{get_player_rank, set_player_score, score_delta, one_if, settle_player}
use go_lobby.Rank.{settle_players, sync_rank, sync_players, roll_back_on_error, after_event}
use go_lobby.Rank.{settle_match_result, is_duplicate, Fault, works, refused, lost}

-- The tables with the event and with one change for each player, in their order.
abbrev pub row : MatchResultFinishedEvent → RankEvent
row evt = record { event_id = evt.event_id; match_id = evt.match_id; status = 1 }

abbrev pub with_event : MatchResultFinishedEvent → Tables → Tables
with_event evt t = record t { events = row evt ∷ t.events }

abbrev change : Bool → Option PlayerRank → PlayerRank
change won r = updated_rank (score_delta won) (one_if won) (if won then 0 else 1) r

unfoldable pub settled_ranks : MatchResultFinishedEvent → List MatchPlayer → Tables → Tables
settled_ranks evt [] t = t
settled_ranks evt (p ∷ ps) t = settled_ranks evt ps (
    set_rank evt.mode p.user_id
      (change (p.team_no == evt.win_team_no) (rank_of evt.mode p.user_id t)) t)

abbrev pub settled : MatchResultFinishedEvent → List MatchPlayer → Tables → Tables
settled evt ps t = settled_ranks evt ps (with_event evt t)

statement_lem :
    {A : Type 0} (P : Result A × Db → Type 0) (m : M Db A) (db : Db)
    → ((f : List Fault) → P (err external, record db { faults = f }))
    → ((f : List Fault) → P (err external, (m (record db { faults = f })).1))
    → ((f : List Fault) → P (m (record db { faults = f })))
    → P (statement m db)
unfolding statement statement_with
statement_lem P m db bad half good = go db.faults
  where
    go : (f : List Fault) → P (statement_with f m db)
    go [] = good []
    go (works ∷ f) = good f
    go (refused ∷ f) = bad f
    go (lost ∷ f) = half f

-- The transaction changes its own view alone.
abbrev Settles : MatchResultFinishedEvent → List MatchPlayer → Db → Result Done × Db → Type 0
Settles evt ps db r =
    (r.1.committed ≡ db.committed) × Ensures (λ _. r.1.tables ≡ settled_ranks evt ps db.tables) r.0

abbrev SettlesOne : MatchResultFinishedEvent → MatchPlayer → Db → Result Done × Db → Type 0
SettlesOne evt p db r = Settles evt (p ∷ []) db r

settle_player-SettlesOne :
    (evt : MatchResultFinishedEvent) (p : MatchPlayer) (db : Db)
    → SettlesOne evt p db (settle_player evt p db)
unfolding settle_player update_player_rank settled_ranks
settle_player-SettlesOne evt p db =
    statement_lem (SettlesOne evt p db) _ db (λ f. (refl, tt)) (λ f. (refl, tt)) (λ f. (refl, refl))

settle_players-Settles :
    (evt : MatchResultFinishedEvent) (ps : List MatchPlayer) (db : Db)
    → Settles evt ps db (settle_players evt ps db)
unfolding settle_players settled_ranks
settle_players-Settles evt [] db = (refl, refl)
settle_players-Settles evt (p ∷ ps) db =
    go (settle_players-Settles evt ps) (settle_player evt p db) (settle_player-SettlesOne evt p db)
  where
    go :
        ((db' : Db) → Settles evt ps db' (settle_players evt ps db'))
        → (r : Result Done × Db) → SettlesOne evt p db r
        → Settles evt (p ∷ ps) db (and_then r λ _. settle_players evt ps)
    go later (err e, db') (same, _) = (same, tt)
    go later (ok _, db') (same, one) =
        let rest = later db' in
        (
          rest.0 ∙ same,
          subst
              (λ t.
                Ensures (λ _. (settle_players evt ps db').1.tables ≡ settled_ranks evt ps t)
                  (settle_players evt ps db').0)
              one rest.1,
        )

pub settled_ranks_events :
    (evt : MatchResultFinishedEvent) (ps : List MatchPlayer) (t : Tables)
    → (settled_ranks evt ps t).events ≡ t.events
unfolding settled_ranks set_rank
settled_ranks_events evt [] t = refl
settled_ranks_events evt (p ∷ ps) t = settled_ranks_events evt ps _

-- Some row passes a test.
abbrev pub some_row : (RankEvent → Bool) → List RankEvent → Bool
some_row test [] = false
some_row test (r ∷ rows) = test r || some_row test rows

-- The event was recorded, or another event of its match.
abbrev pub settled_before : MatchResultFinishedEvent → Tables → Bool
settled_before evt t =
    some_row (λ r. r.event_id == evt.event_id) t.events
    || some_row (λ r. r.match_id == evt.match_id) t.events

-- Either of the two unique keys makes a duplicate.
is_duplicate-some_row :
    (e : RankEvent) (rows : List RankEvent)
    → is_duplicate e rows ≡ (
        some_row (λ r. r.event_id == e.event_id) rows
        || some_row (λ r. r.match_id == e.match_id) rows)
unfolding is_duplicate
is_duplicate-some_row e [] = refl
is_duplicate-some_row e (r ∷ rows) = ground (arith, is_duplicate-some_row e rows)

settled-settled_before :
    (evt : MatchResultFinishedEvent) (ps : List MatchPlayer) (t : Tables)
    → settled_before evt (settled evt ps t) ≡ true
settled-settled_before evt ps t =
    rw (settled_ranks_events evt ps (with_event evt t), ==-refl evt.event_id) refl

-- The leaderboard is brought up to date outside the transaction.
sync_rank-Keeps :
    (c : Tables) (mode : Str) (user : ℕ) (r : Option PlayerRank)
    → Keeps (λ db. db.committed ≡ c) (λ _. Unit {0}) (sync_rank mode user r)
unfolding Keeps sync_rank set_player_score
sync_rank-Keeps c mode user none db h = (h, tt)
sync_rank-Keeps c mode user (some r) db h =
    statement_lem (λ out. (out.1.committed ≡ c) × Ensures (λ _. Unit {0}) out.0) _ db (λ f. (h, tt))
      (λ f. (h, tt)) (λ f. (h, tt))

get_player_rank-Keeps :
    (c : Tables) (mode : Str) (user : ℕ)
    → Keeps (λ db. db.committed ≡ c) (λ _. Unit {0}) (get_player_rank mode user)
unfolding Keeps get_player_rank
get_player_rank-Keeps c mode user db h =
    statement_lem (λ out. (out.1.committed ≡ c) × Ensures (λ _. Unit {0}) out.0) _ db (λ f. (h, tt))
      (λ f. (h, tt)) (λ f. (h, tt))

sync_players-Keeps :
    (c : Tables) (mode : Str) (ps : List MatchPlayer)
    → Keeps (λ db. db.committed ≡ c) (λ _. Unit {0}) (sync_players mode ps)
unfolding sync_players
sync_players-Keeps c mode [] = Keeps-pure (λ db. db.committed ≡ c) (λ _. Unit {0}) tt tt
sync_players-Keeps c mode (p ∷ ps) =
    let I : Db → Type 0 = λ db. db.committed ≡ c in
    Keeps-bind I (λ _. Unit {0}) (λ _. Unit {0}) (get_player_rank mode p.user_id) _
      (get_player_rank-Keeps c mode p.user_id)
      (λ r _.
        Keeps-bind I (λ _. Unit {0}) (λ _. Unit {0}) (sync_rank mode p.user_id r) _
          (sync_rank-Keeps c mode p.user_id r) (λ _ _. sync_players-Keeps c mode ps))

-- The committed tables are as before, or settled where they were not; after a success they hold
-- the event or another one of its match.
abbrev pub Outcome :
    MatchResultFinishedEvent → List MatchPlayer → Tables → Result Done × Db → Type 0
Outcome evt ps t r =
    ((r.1.committed ≡ t) ⊎ ((settled_before evt t ≡ false) × (r.1.committed ≡ settled evt ps t)))
    × Ensures (λ _. settled_before evt r.1.committed ≡ true) r.0

module _ (evt : MatchResultFinishedEvent) (ps : List MatchPlayer) (t : Tables)
    (new : settled_before evt t ≡ false) where
  synced-Outcome :
      (r : Result Done × Db)
      → (r.1.committed ≡ settled evt ps t) × Ensures (λ _. Unit {0}) r.0
      → Outcome evt ps t r
  synced-Outcome (err e, db) (c, _) = (inr (new, c), tt)
  synced-Outcome (ok _, db) (c, _) =
      (inr (new, c), ap (settled_before evt) c ∙ settled-settled_before evt ps t)

  committed-Outcome :
      (db : Db)
      → db.committed ≡ t
      → db.tables ≡ settled evt ps t
      → Outcome evt ps t (and_then (commit db) λ _. sync_players evt.mode ps)
  unfolding commit Keeps
  committed-Outcome db c done =
      statement_lem (λ out. Outcome evt ps t (and_then out λ _. sync_players evt.mode ps)) _ db
        (λ f. (inl c, tt)) (λ f. (inr (new, done), tt))
        (λ f.
          let db' : Db = record db { committed = db.tables; faults = f } in
          synced-Outcome (sync_players evt.mode ps db')
            (sync_players-Keeps (settled evt ps t) evt.mode ps db' done))

  rolled_back-Outcome :
      (db : Db) (r : Result Done × Db)
      → db.committed ≡ t
      → db.tables ≡ with_event evt t
      → Settles evt ps db r
      → Outcome evt ps t (
          and_then
            (roll_back_on_error r)
            λ _ db'. and_then (commit db') λ _. sync_players evt.mode ps)
  unfolding roll_back_on_error rollback
  rolled_back-Outcome db (err e, db') c v (same, _) = (inl (same ∙ c), tt)
  rolled_back-Outcome db (ok _, db') c v (same, done) =
      committed-Outcome db' (same ∙ c) (done ∙ ap (settled_ranks evt ps) v)

-- A duplicate is rolled back, another event is settled.
after_event-Outcome :
    (evt : MatchResultFinishedEvent) (ps : List MatchPlayer) (t : Tables) (db : Db)
    (duplicate : Bool)
    → settled_before evt t ≡ duplicate
    → db.committed ≡ t
    → db.tables ≡ (if duplicate then t else with_event evt t)
    → Outcome evt ps t (after_event evt ps duplicate db)
unfolding after_event rollback
after_event-Outcome evt ps t db true old c v = (inl c, ap (settled_before evt) c ∙ old)
after_event-Outcome evt ps t db false new c v =
    rolled_back-Outcome evt ps t new db (settle_players evt ps db) c v
      (settle_players-Settles evt ps db)

-- The insertion of the event, in a transaction that sees the committed tables.
event_added-Outcome :
    (evt : MatchResultFinishedEvent) (ps : List MatchPlayer) (t : Tables) (db : Db)
    → db.committed ≡ t
    → db.tables ≡ t
    → Outcome evt ps t
        (and_then (roll_back_on_error (add_rank_event (row evt) db)) (after_event evt ps))
unfolding add_rank_event roll_back_on_error rollback
event_added-Outcome evt ps t db c v =
    statement_lem (λ out. Outcome evt ps t (and_then (roll_back_on_error out) (after_event evt ps)))
      _ db (λ f. (inl c, tt)) (λ f. half f (is_duplicate (row evt) db.tables.events))
      (λ f.
        go f (is_duplicate (row evt) db.tables.events)
          (sym (is_duplicate-some_row (row evt) db.tables.events)))
  where
    half :
        (f : List Fault) (old : Bool)
        → let out : Result Bool × Db =
            if old
            then (ok true, record db { faults = f })
            else (ok false, record db { faults = f; tables = with_event evt db.tables }) in
          Outcome evt ps t
            (and_then (roll_back_on_error (err external, out.1)) (after_event evt ps))
    half f true = (inl c, tt)
    half f false = (inl c, tt)

    go :
        (f : List Fault) (old : Bool)
        → settled_before evt db.tables ≡ old
        → Outcome evt ps t (
            and_then
              (roll_back_on_error (
                if old
                then (ok true, record db { faults = f })
                else (ok false, record db { faults = f; tables = with_event evt db.tables })))
              (after_event evt ps))
    go f true old =
        after_event-Outcome evt ps t (record db { faults = f }) true
          (ap (settled_before evt) (sym v) ∙ old) c v
    go f false new =
        after_event-Outcome evt ps t (record db { faults = f; tables = with_event evt db.tables })
          false (ap (settled_before evt) (sym v) ∙ new) c (ap (with_event evt) v)

-- Once the players of the match are read, and whatever statements are refused or lose their answers,
-- a settlement commits the event with all changes of the ranks or nothing, and nothing if the event
-- or another event of its match is recorded already; after a success one of these is recorded.
pub settle_match_result-Outcome :
    (get_match_players : M Db (List MatchPlayer)) (evt : MatchResultFinishedEvent)
    (ps : List MatchPlayer) (db : Db)
    → get_match_players db ≡ (ok ps, db)
    → Outcome evt ps db.committed (settle_match_result get_match_players evt db)
unfolding settle_match_result begin_tx
settle_match_result-Outcome get_match_players evt ps db read = rw read (
    statement_lem
      (λ out. Outcome evt ps db.committed (
        and_then out λ _ db'.
          and_then (roll_back_on_error (add_rank_event (row evt) db')) (after_event evt ps)))
      _ db (λ f. (inl refl, tt)) (λ f. (inl refl, tt))
      (λ f. event_added-Outcome evt ps db.committed _ refl refl))
