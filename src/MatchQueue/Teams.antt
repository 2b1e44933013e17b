-- ===== src/MatchQueue/Teams.antt =====
-- The queue's promises: the teams of a group are its users in their order, a user who waits or
-- plays does not enter twice, and only one who waits can cancel.
use go_lobby.Prelude.{ℕ, ◌≤◌, ◌<◌, List, [], ◌∷◌, ◌++◌, Bool, true, false, ◌≢◌, ==_of_ne, some, ◌≡◌}
use go_lobby.Prelude.{refl, length, ok, err, if◌then◌else◌, ◌==◌, arith, ltb, leb}
use go_lobby.Prelude.{ap, not_cancellable}
use go_lobby.Prelude.Int.{pos}
use go_lobby.Prelude.Text.{Str, codes, str_eq}
use go_lobby.Chunk.Numbers.{itoa}
use go_lobby.Responses.{MatchedTeam}
use go_lobby.MatchQueue.Entries.{MatchQueueService, QueueUserState, QueueStatus}
use go_lobby.MatchQueue.{find_match_group}
use go_lobby.MatchQueue.Entries.{get_player_count, build_teams, two_teams, two_pairs}
use go_lobby.MatchQueue.{join, join_mode, join_with, is_active}
use go_lobby.MatchQueue.Entries.{trim_space, build_join_response}
use go_lobby.MatchQueue.{cancel, cancel_state, cancel_waiting, is_matching, status_response}
use go_lobby.MatchQueue.{form_group, enter_queue, answer, start_group}
use go_lobby.MatchQueue.Entries.{JoinMatchQueueResponse, join_response}
use go_lobby.Prelude.{Result, empty_mode}
use go_lobby.Prelude.Effect.{M, stop_if, pure, ◌>>◌, and_then-eq-ok}
use go_lobby.Prelude.{Option, none, sym, ◌∙◌, ◌⊎◌, inl, inr}
use go_lobby.MatchQueue.Entries.{
  init, matching, matched, cancelled, unknown, StatusMatchQueueResponse,
}

-- Two teams of one size, numbered from 0, that are the users in their order.
abbrev pub IsSplit : List ℕ → List MatchedTeam → Type 0
IsSplit users teams =
    (first : MatchedTeam) × (second : MatchedTeam) × (teams ≡ first ∷ second ∷ [])
    × (first.team_id ≡ pos 0)
    × (second.team_id ≡ pos 1)
    × (length first.user_ids ≡ length second.user_ids)
    × (first.user_ids ++ second.user_ids ≡ users)

two_teams-IsSplit :
    (users : List ℕ)
    → length users ≡ 2
    → (teams : List MatchedTeam) × (two_teams users ≡ ok teams) × IsSplit users teams
unfolding two_teams
two_teams-IsSplit [] h = absurd (omega (arith, h))
two_teams-IsSplit (a ∷ []) h = absurd (omega (arith, h))
two_teams-IsSplit (a ∷ b ∷ []) h = (_, refl, (_, _, refl, refl, refl, refl, refl))
two_teams-IsSplit (a ∷ b ∷ c ∷ l) h = absurd (omega (arith, h))

two_pairs-IsSplit :
    (users : List ℕ)
    → length users ≡ 4
    → (teams : List MatchedTeam) × (two_pairs users ≡ ok teams) × IsSplit users teams
unfolding two_pairs
two_pairs-IsSplit [] h = absurd (omega (arith, h))
two_pairs-IsSplit (a ∷ []) h = absurd (omega (arith, h))
two_pairs-IsSplit (a ∷ b ∷ []) h = absurd (omega (arith, h))
two_pairs-IsSplit (a ∷ b ∷ c ∷ []) h = absurd (omega (arith, h))
two_pairs-IsSplit (a ∷ b ∷ c ∷ d ∷ []) h = (_, refl, (_, _, refl, refl, refl, refl, refl))
two_pairs-IsSplit (a ∷ b ∷ c ∷ d ∷ e ∷ l) h = absurd (omega (arith, h))

build_teams-IsSplit :
    (mode : Str) (users : List ℕ)
    → 0 < get_player_count mode
    → length users ≡ get_player_count mode
    → (teams : List MatchedTeam) × (build_teams mode users ≡ ok teams) × IsSplit users teams
unfolding build_teams get_player_count
build_teams-IsSplit mode users some_players enough =
    go (mode == codes "1v1") (mode == codes "2v2") some_players enough
  where
    go :
        (b c : Bool)
        → 0 < (if b then 2 else if c then 4 else 0)
        → length users ≡ (if b then 2 else if c then 4 else 0)
        → (teams : List MatchedTeam) × ((if b
              then two_teams users
              else if c
              then two_pairs users
              else ok [])
            ≡ ok teams)
          × IsSplit users teams
    go true c h e = two_teams-IsSplit users e
    go false true h e = two_pairs-IsSplit users e
    go false false h e = absurd (omega (arith, h))

module _ {W : Type 0} (s : MatchQueueService W) where
  open s use {repo, now}

  -- With enough players in the queue of a mode, of which the store removes as many as it is asked
  -- for, a group of all of them is found: two equal teams with the users in their order.
  pub find_match_group_lem :
      (mode : Str) (n t : ℕ) (users : List ℕ) (w w1 w2 w3 : W)
      → 0 < get_player_count mode
      → get_player_count mode ≤ n
      → repo.queue_len mode w ≡ (ok n, w1)
      → repo.dequeue_batch mode (get_player_count mode) w1 ≡ (ok users, w2)
      → length users ≡ get_player_count mode
      → now w2 ≡ (ok t, w3)
      → (teams : List MatchedTeam) × (find_match_group s mode w
          ≡ (ok (some (teams, codes "r_" ++ itoa (pos t))), w3))
        × IsSplit users teams
  unfolding find_match_group form_group
  find_match_group_lem mode n t users w w1 w2 w3 some_players enough len batch all clock =
      let positive : leb (get_player_count mode) 0 ≡ false = ground arith in
      let low : ltb n (get_player_count mode) ≡ false = ground arith in
      let (teams, built, split) = build_teams-IsSplit mode users some_players all in
      (teams, rw (positive, len, low, batch, clock, built) refl, split)

  -- To read what is stored for a user changes nothing.
  abbrev pub ReadsStatus : Type 0
  ReadsStatus = (user : ℕ) (w : W) → (repo.get_user_status user w).1 ≡ w

  -- The answer is that of the state that is stored for the user.
  abbrev Stored : ℕ → JoinMatchQueueResponse → W → Type 0
  Stored user resp w =
      (state : QueueUserState) × (repo.get_user_status user w ≡ (ok (some state), w))
      × (build_join_response state ≡ resp)

  -- Whoever waits or plays already is given the state that is stored; nothing changes.
  pub join-is_active :
      (user : ℕ) (mode : Str) (state : QueueUserState) (w : W)
      → trim_space mode ≢ []
      → repo.get_user_status user w ≡ (ok (some state), w)
      → is_active s state.status ≡ true
      → join s user (some mode) w ≡ (ok (build_join_response state), w)
  unfolding join join_mode join_with
  join-is_active user mode state w named stored active =
      rw (==_of_ne (trim_space mode) [] named, stored, active) refl

  -- What a join answers with is the state that is stored at its end.
  answer-Stored :
      (user : ℕ) (w w' : W) {resp : JoinMatchQueueResponse}
      → ReadsStatus
      → answer s user w ≡ (ok resp, w')
      → Stored user resp w'
  unfolding answer join_response
  answer-Stored user w w' {resp} reads e =
      let (found, w1, read, said) = and_then-eq-ok (repo.get_user_status user w) join_response e in
      go found w1 read said
    where
      go :
          (found : Option QueueUserState) (w1 : W)
          → repo.get_user_status user w ≡ (ok found, w1)
          → join_response found w1 ≡ (ok resp, w')
          → Stored user resp w'
      go none w1 read said = cc
      go (some state) w1 read said =
          let here : w1 ≡ w =
            ap (λ (r : Result (Option QueueUserState) × W). r.1) (sym read) ∙ reads user w in
          let there : w1 ≡ w' = cc in
          let given : build_join_response state ≡ resp = cc in (state, cc, given)

  enter_queue-Stored :
      (user : ℕ) (mode : Str) (w w' : W) {resp : JoinMatchQueueResponse}
      → ReadsStatus
      → enter_queue s user mode w ≡ (ok resp, w')
      → Stored user resp w'
  unfolding enter_queue
  enter_queue-Stored user mode w w' reads e =
      let (t, w1, _, e1) = and_then-eq-ok (now w) _ e in
      let (ticket, w2, _, e2) = and_then-eq-ok (now w1) _ e1 in
      let (_, w3, _, e3) = and_then-eq-ok (repo.set_user_status _ w2) _ e2 in
      let (_, w4, _, e4) = and_then-eq-ok (repo.enqueue mode user w3) _ e3 in
      let (group, w5, _, e5) = and_then-eq-ok (find_match_group s mode w4) _ e4 in
      let (_, w6, _, e6) = and_then-eq-ok (start_group s mode group w5) _ e5 in
      answer-Stored user w6 w' reads e6

  join-Stored :
      (user : ℕ) (request : Option Str) (w w' : W) {resp : JoinMatchQueueResponse}
      → ReadsStatus
      → join s user request w ≡ (ok resp, w')
      → Stored user resp w'
  unfolding join join_mode join_with answer join_response
  join-Stored user none w w' reads e = cc
  join-Stored user (some mode) w w' {resp} reads e =
      let (_, w1, _, e1) = and_then-eq-ok (stop_if (trim_space mode == []) empty_mode w) _ e in
      let (found, w2, read, e2) = and_then-eq-ok (repo.get_user_status user w1) _ e1 in
      go found w1 w2 read e2
    where
      go :
          (found : Option QueueUserState) (w1 w2 : W)
          → repo.get_user_status user w1 ≡ (ok found, w2)
          → join_with s user (trim_space mode) found w2 ≡ (ok resp, w')
          → Stored user resp w'
      go none w1 w2 read e2 = enter_queue-Stored user (trim_space mode) w2 w' reads e2
      go (some state) w1 w2 read e2 = active (is_active s state.status) e2
        where
          active :
              (b : Bool)
              → (let next : M W JoinMatchQueueResponse =
                    if b
                    then pure (build_join_response state)
                    else (repo.delete_user_status user >> enter_queue s user (trim_space mode)) in
                  next w2 ≡ (ok resp, w'))
              → Stored user resp w'
          active true said = answer-Stored user w1 w' reads (rw read said)
          active false said =
              let (_, w3, _, e3) = and_then-eq-ok (repo.delete_user_status user w2) _ said in
              enter_queue-Stored user (trim_space mode) w3 w' reads e3

  active_status :
      (status : QueueStatus) → (status ≡ matching) ⊎ (status ≡ matched) → is_active s status ≡ true
  active_status status (inl e) = rw e refl
  active_status status (inr e) = rw e refl

  -- When a read of the stored state changes nothing: whoever joined with success, and was told to wait
  -- or to be matched, and joins again in any mode that is not blank, gets the same answer once
  -- more, and nothing changes.
  pub join-join :
      (user : ℕ) (request : Option Str) (again : Str) (w : W) {w' : W}
      {resp : JoinMatchQueueResponse}
      → ReadsStatus
      → trim_space again ≢ []
      → join s user request w ≡ (ok resp, w')
      → (resp.queue_status ≡ matching) ⊎ (resp.queue_status ≡ matched)
      → join s user (some again) w' ≡ (ok resp, w')
  unfolding build_join_response
  join-join user request again w {w'} {resp} reads named e told =
      let (state, stored, same) = join-Stored user request w w' reads e in
      let status : state.status ≡ resp.queue_status =
        ap (λ (r : JoinMatchQueueResponse). r.queue_status) same in
      join-is_active user again state w' named stored
        (ap (is_active s) status ∙ active_status resp.queue_status told)
      ∙ ap (λ (r : JoinMatchQueueResponse). (ok r, w')) same

  -- Who does not wait cannot cancel, and nothing changes.
  pub cancel_refused :
      (user : ℕ) (state : QueueUserState) (w : W)
      → repo.get_user_status user w ≡ (ok (some state), w)
      → state.status ≢ matching
      → cancel s user w ≡ (err not_cancellable, w)
  unfolding cancel cancel_state
  cancel_refused user state w stored busy = rw (stored, not_matching state.status busy) refl
    where
      not_matching : (status : QueueStatus) → status ≢ matching → is_matching s status ≡ false
      not_matching init h = refl
      not_matching matching h = absurd (h refl)
      not_matching matched h = refl
      not_matching cancelled h = refl
      not_matching (unknown text) h = refl

  -- Who waits leaves the queue of the mode that is stored, before the state is stored as
  -- cancelled with the rest as it was.
  pub cancel_lem :
      (user t : ℕ) (state : QueueUserState) (w w1 w2 w3 : W)
      → repo.get_user_status user w ≡ (ok (some state), w)
      → state.status ≡ matching
      → repo.remove_from_queue state.mode user w ≡ (ok tt, w1)
      → now w1 ≡ (ok t, w2)
      → repo.set_user_status (record state { status = cancelled; updated_at = t }) w2 ≡ (ok tt, w3)
      → (out : StatusMatchQueueResponse) × (cancel s user w ≡ (ok out, w3))
        × (out.status ≡ cancelled)
        × (out.match_id ≡ 0)
  unfolding cancel cancel_state cancel_waiting
  cancel_lem user t state w w1 w2 w3 stored waits removed clock saved = (
    status_response s user 0 (record state { status = cancelled; updated_at = t }),
    rw (stored, ap (is_matching s) waits, removed, clock, saved) refl,
    refl,
    refl,
  )
