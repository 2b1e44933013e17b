-- ===== src/Rank/Consumer.antt =====
-- cmd/worker/main.go: the loop over the deliveries of the broker. A body that is no event is refused,
-- an event that fails comes back, and a settled one is acknowledged. `unmarshal` is json.Unmarshal;
-- connecting, declaring the queue and the loss of the connection are left out, an error of `Ack` or
-- `Nack` is dropped by the code.
use go_lobby.Prelude.{
  nat_eq, ℕ, List, [], ◌∷◌, ◌++◌, Bool, true, false, Option, none, some, ◌≡◌, refl, sym,
}
use go_lobby.Prelude.{◌∙◌, ap, subst, ◌⊎◌, inl, inr, Result, ok, err, Error}
use go_lobby.Prelude.{arith}
use go_lobby.Prelude.Text.{Str, str_eq}
use go_lobby.Prelude.Effect.{M, Done}
use go_lobby.Match.{MatchPlayer, MatchResultFinishedEvent}
use go_lobby.Rank.{Tables, Db, settle_match_result}
use go_lobby.Rank.Settle.{Outcome, with_event, settled, settled_ranks_events}
use go_lobby.Rank.Settle.{settled_before, settle_match_result-Outcome}

pub data Reply : Type 0 where
  ack : Reply
  nack : (requeue : Bool) → Reply

abbrev reply_of : Result Done × Db → Reply × Db
reply_of (ok _, db) = (Reply.ack, db)
reply_of (err e, db) = (Reply.nack true, db)

module _ (unmarshal : Str → Option MatchResultFinishedEvent)
    (get_match_players : ℕ → M Db (List MatchPlayer)) where
  unfoldable pub handle_event : Option MatchResultFinishedEvent → Db → Reply × Db
  unfolding settle_match_result
  handle_event none db = (Reply.nack false, db)
  handle_event (some evt) db =
      reply_of (settle_match_result (get_match_players evt.match_id) evt db)

  unfoldable pub consume : List Str → Db → List (Str × Reply) × Db
  unfolding handle_event
  consume [] db = ([], db)
  consume (body ∷ bodies) db =
      let r = handle_event (unmarshal body) db in
      let rest = consume bodies r.1 in ((body, r.0) ∷ rest.0, rest.1)

-- Events settled one after the other, each of them with a new id and a new match when its turn comes.
unfoldable pub settled_all :
    (ℕ → List MatchPlayer) → List MatchResultFinishedEvent → Tables → Tables
settled_all players [] t = t
settled_all players (evt ∷ evts) t = settled_all players evts (settled evt (players evt.match_id) t)

unfoldable pub EachNew : (ℕ → List MatchPlayer) → List MatchResultFinishedEvent → Tables → Type 0
EachNew players [] t = Unit {0}
EachNew players (evt ∷ evts) t =
    (settled_before evt t ≡ false) × EachNew players evts (settled evt (players evt.match_id) t)

-- What a reply says of the decoded body.
abbrev pub Promise : Tables → Option MatchResultFinishedEvent → Reply → Type 0
Promise t o Reply.ack =
    (evt : MatchResultFinishedEvent) × (o ≡ some evt) × (settled_before evt t ≡ true)
Promise t o (Reply.nack true) = (evt : MatchResultFinishedEvent) × (o ≡ some evt)
Promise t o (Reply.nack false) = o ≡ none

unfoldable pub AllKept :
    (Str → Option MatchResultFinishedEvent) → Tables → List (Str × Reply) → Type 0
AllKept unmarshal t [] = Unit {0}
AllKept unmarshal t ((body, reply) ∷ ds) = Promise t (unmarshal body) reply × AllKept unmarshal t ds

-- The tables come from a serial settlement of events, and every reply keeps its promise.
abbrev pub Consumed :
    (ℕ → List MatchPlayer)
    → (Str → Option MatchResultFinishedEvent)
    → Tables
    → List (Str × Reply) × Db
    → Type 0
Consumed players unmarshal t r =
    (evts : List MatchResultFinishedEvent) × EachNew players evts t
    × (r.1.committed ≡ settled_all players evts t)
    × AllKept unmarshal r.1.committed r.0

-- The players of a match are read, or the read fails and changes nothing.
abbrev pub Reads : (ℕ → List MatchPlayer) → (ℕ → M Db (List MatchPlayer)) → Type 0
Reads players get =
    (m : ℕ) (db : Db) → (get m db ≡ (ok (players m), db)) ⊎ ((e : Error) × (get m db ≡ (err e, db)))

still_settled :
    (f evt : MatchResultFinishedEvent) (ps : List MatchPlayer) (t : Tables)
    → settled_before f t ≡ true
    → settled_before f (settled evt ps t) ≡ true
still_settled f evt ps t h = rw (settled_ranks_events evt ps (with_event evt t)) ground (arith, h)

module _ (players : ℕ → List MatchPlayer) where
  still_settled_all :
      (f : MatchResultFinishedEvent) (evts : List MatchResultFinishedEvent) (t : Tables)
      → settled_before f t ≡ true
      → settled_before f (settled_all players evts t) ≡ true
  unfolding settled_all
  still_settled_all f [] t h = h
  still_settled_all f (evt ∷ evts) t h =
      still_settled_all f evts (settled evt (players evt.match_id) t)
        (still_settled f evt (players evt.match_id) t h)

  settled_all-append :
      (xs ys : List MatchResultFinishedEvent) (t : Tables)
      → settled_all players (xs ++ ys) t ≡ settled_all players ys (settled_all players xs t)
  unfolding settled_all
  settled_all-append [] ys t = refl
  settled_all-append (x ∷ xs) ys t = settled_all-append xs ys (settled x (players x.match_id) t)

  append-EachNew :
      (xs ys : List MatchResultFinishedEvent) (t : Tables)
      → EachNew players xs t
      → EachNew players ys (settled_all players xs t)
      → EachNew players (xs ++ ys) t
  unfolding settled_all EachNew
  append-EachNew [] ys t n m = m
  append-EachNew (x ∷ xs) ys t (new, n) m =
      (new, append-EachNew xs ys (settled x (players x.match_id) t) n m)

  kept-Promise :
      (o : Option MatchResultFinishedEvent) (reply : Reply) (t : Tables)
      (evts : List MatchResultFinishedEvent)
      → Promise t o reply
      → Promise (settled_all players evts t) o reply
  kept-Promise o Reply.ack t evts (evt, e, h) = (evt, e, still_settled_all evt evts t h)
  kept-Promise o (Reply.nack true) t evts p = p
  kept-Promise o (Reply.nack false) t evts p = p

  abbrev Delivered : Option MatchResultFinishedEvent → Tables → Reply × Db → Type 0
  Delivered o t r =
      (evts : List MatchResultFinishedEvent) × EachNew players evts t
      × (r.1.committed ≡ settled_all players evts t)
      × Promise r.1.committed o r.0

  reply_of-Delivered :
      (evt : MatchResultFinishedEvent) (t : Tables) (r : Result Done × Db)
      → Outcome evt (players evt.match_id) t r
      → Delivered (some evt) t (reply_of r)
  unfolding settled_all EachNew
  reply_of-Delivered evt t (ok _, db) (inl same, done) = ([], tt, same, (evt, refl, done))
  reply_of-Delivered evt t (ok _, db) (inr (new, all), done) =
      (evt ∷ [], (new, tt), all, (evt, refl, done))
  reply_of-Delivered evt t (err e, db) (inl same, done) = ([], tt, same, (evt, refl))
  reply_of-Delivered evt t (err e, db) (inr (new, all), done) =
      (evt ∷ [], (new, tt), all, (evt, refl))

  module _ (unmarshal : Str → Option MatchResultFinishedEvent)
      (get_match_players : ℕ → M Db (List MatchPlayer))
      (reads : Reads players get_match_players) where
    handle_event-Delivered :
        (o : Option MatchResultFinishedEvent) (db : Db)
        → Delivered o db.committed (handle_event unmarshal get_match_players o db)
    unfolding handle_event settle_match_result settled_all EachNew
    handle_event-Delivered none db = ([], tt, refl, refl)
    handle_event-Delivered (some evt) db = elim (reads evt.match_id db) [
      | inl read ↦ reply_of-Delivered evt db.committed _ (
          settle_match_result-Outcome (get_match_players evt.match_id) evt (players evt.match_id) db
            read)
      | inr (e, failed) ↦ rw failed ([], tt, refl, (evt, refl))
    ]

    -- When the reads of players give the players of the match or fail without an effect, and
    -- whatever statements are refused or lose their answers and however often events come again:
    -- the committed tables become those of some events settled one after the other, each of them
    -- with an id and a match that no row has when its turn comes; for every acknowledged body a row
    -- has the id or the match of its event, a body is refused for good exactly when it is no event,
    -- and it is asked back only if it is one.
    pub consume-Consumed :
        (bodies : List Str) (db : Db)
        → Consumed players unmarshal db.committed (consume unmarshal get_match_players bodies db)
    unfolding consume settled_all EachNew AllKept
    consume-Consumed [] db = ([], tt, refl, tt)
    consume-Consumed (body ∷ bodies) db =
        go (handle_event unmarshal get_match_players (unmarshal body) db)
          (handle_event-Delivered (unmarshal body) db) (consume-Consumed bodies)
      where
        go :
            (r : Reply × Db)
            → Delivered (unmarshal body) db.committed r
            → ((db' : Db)
                → Consumed players unmarshal db'.committed
                    (consume unmarshal get_match_players bodies db'))
            → let rest = consume unmarshal get_match_players bodies r.1 in
              Consumed players unmarshal db.committed ((body, r.0) ∷ rest.0, rest.1)
        go (reply, db') (xs, n, e, p) later =
            let l = later db' in
            (
              xs ++ l.0,
              append-EachNew xs l.0 db.committed n (subst (λ t. EachNew players l.0 t) e l.1),
              l.2 ∙ ap (settled_all players l.0) e ∙ sym (settled_all-append xs l.0 db.committed),
              (
                subst (λ t. Promise t (unmarshal body) reply) (sym l.2)
                    (kept-Promise (unmarshal body) reply db'.committed l.0 p),
                l.3,
              ),
            )
