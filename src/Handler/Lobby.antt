-- ===== src/Handler/Lobby.antt =====
-- The handlers of the queue, the matches and the leaderboard: match_queue_handler.go,
-- match_handler.go and leaderboard_handler.go. Log lines are left out.
use go_lobby.Prelude.{nat_eq, ℕ, List, Option, none, some}
use go_lobby.Prelude.{Error, Result, ok, err}
use go_lobby.Prelude.{suc, ◌-◌, ◌^◌}
use go_lobby.Prelude.Int.{ℤ, pos, negsuc}
use go_lobby.Prelude.Text.{Str, codes, str_eq}
use go_lobby.Prelude.Effect.{M, Done}
use go_lobby.Chunk.Numbers.{atoi}
use go_lobby.Match.{MatchService, MatchRecord, MatchPlayer, set_match_result, get_match_info}
use go_lobby.MatchQueue.{join, status, cancel}
use go_lobby.MatchQueue.Entries.{MatchQueueService}
use go_lobby.MatchQueue.Entries.{JoinMatchQueueResponse, StatusMatchQueueResponse}
use go_lobby.Rank.{LeaderboardItem, get_leaderboard}
use go_lobby.Handler.{CtxValue, Response, answered, plain, refused, respond, with_user}
use go_lobby.Handler.{with_body, done, of_error, of_status, joined, no_status}
use go_lobby.Handler.{no_cancel, cancelled}
use go_lobby.Handler.{bad_match_id, bad_limit}

abbrev failed : {B : Type 0} → ℕ → Error → Response B
failed status e = refused status (of_error e)

module _ {W : Type 0} (s : MatchQueueService W) (user : Option CtxValue) where
  -- The body is bound before the user is read.
  unfoldable pub join_handler : Option Str → M W (Response JoinMatchQueueResponse)
  join_handler body = with_body body λ mode.
      with_user user
        λ user_id w. respond (failed 500) (answered joined) (join s user_id (some mode) w)

  unfoldable pub status_handler : M W (Response StatusMatchQueueResponse)
  status_handler = with_user user λ user_id w.
      respond (λ e. refused 500 no_status)
        (λ (r : StatusMatchQueueResponse). answered (of_status r.status) r) (status s user_id w)

  unfoldable pub cancel_handler : M W (Response StatusMatchQueueResponse)
  cancel_handler =
      with_user user
        λ user_id w. respond (λ e. refused 500 no_cancel) (answered cancelled) (cancel s user_id w)

-- An int64 by its bit pattern.
abbrev bits : ℤ → ℕ
bits (pos n) = n
bits (negsuc n) = 2 ^ 64 - suc n

module _ {W : Type 0} (s : MatchService W) where
  -- The body is the id and the team.
  unfoldable pub set_match_result_handler : Option (ℕ × ℤ) → M W (Response Done)
  set_match_result_handler body =
      with_body body λ req w. respond (failed 500) (λ _. plain) (set_match_result s req.0 req.1 w)

  unfoldable pub get_match_found : Result ℤ → M W (Response (MatchRecord × List MatchPlayer))
  get_match_found (err e) w = (ok (refused 400 bad_match_id), w)
  get_match_found (ok id) w = respond (failed 500) (answered done) (get_match_info s (bits id) w)

  -- The id in the path is read by strconv.ParseInt.
  unfoldable pub get_match_info_handler : Str → M W (Response (MatchRecord × List MatchPlayer))
  unfolding get_match_found
  get_match_info_handler raw = get_match_found (atoi raw)

module _ {W : Type 0} (list_top_n : Str → ℤ → M W (List (ℕ × ℤ))) where
  unfoldable pub top_within : Str → Result ℤ → M W (Response (List LeaderboardItem))
  top_within mode (err e) w = (ok (refused 400 bad_limit), w)
  top_within mode (ok limit) w =
      respond (failed 400) (answered done) (get_leaderboard list_top_n mode limit w)

  abbrev or_default : Option Str → Str
  or_default none = codes "20"
  or_default (some limit) = limit

  unfoldable pub top_handler : Str → Option Str → M W (Response (List LeaderboardItem))
  unfolding top_within
  top_handler mode limit = top_within mode (atoi (or_default limit))
