-- ===== src/Repository/Queue.antt =====
-- internal/repository/match_queue_repository.go.
use go_lobby.Prelude.{ℕ, List, [], ◌∷◌, ◌++◌, Option, none, some, Result, ok, err, external}
use go_lobby.Prelude.Int.{pos}
use go_lobby.Prelude.Text.{Str, codes}
use go_lobby.Prelude.Effect.{M, Done, pure, lift, ◌>>=◌}
use go_lobby.Chunk.Numbers.{itoa, atoi}
use go_lobby.MatchQueue.Entries.{QueueUserState, MatchQueueRepository}
use go_lobby.Redis.{Redis}
use go_lobby.Repository.{Json}
use go_lobby.Repository.Matches.{id_of_int}

-- `fmt.Sprintf("go_lobby:queue_user:%d", …)`
unfoldable pub queue_user_key : ℕ → Str
queue_user_key user_id = codes "go_lobby:queue_user:" ++ itoa (pos user_id)

unfoldable pub queue_key : Str → Str
queue_key mode = codes "go_lobby:queue:" ++ mode

-- The loop of `DequeueBatch`; its own error tells of the text that is no number.
unfoldable pub parse_user_ids : List Str → Result (List ℕ)
parse_user_ids [] = ok []
parse_user_ids (raw ∷ raws) =
    let rest = parse_user_ids raws in
    elim (atoi raw) [
      | err _ ↦ err external
      | ok id ↦ elim rest [ err e ↦ err e | ok ids ↦ ok (id_of_int id ∷ ids) ]
    ]

module _ {W : Type 0} (rdb : Redis W) (json : Json QueueUserState) where
  unfoldable pub enqueue : Str → ℕ → M W Done
  unfolding queue_key
  enqueue mode user_id = rdb.r_push (queue_key mode) (itoa (pos user_id))

  unfoldable pub queue_len : Str → M W ℕ
  unfolding queue_key
  queue_len mode = rdb.l_len (queue_key mode)

  unfoldable pub dequeued : Option (List Str) → M W (List ℕ)
  unfolding parse_user_ids
  dequeued none = pure []
  dequeued (some raws) = lift (parse_user_ids raws)

  unfoldable pub dequeue_batch : Str → ℕ → M W (List ℕ)
  unfolding queue_key dequeued
  dequeue_batch mode count = rdb.l_pop_count (queue_key mode) count >>= dequeued

  unfoldable pub remove_from_queue : Str → ℕ → M W Done
  unfolding queue_key
  remove_from_queue mode user_id = rdb.l_rem_all (queue_key mode) (itoa (pos user_id))

  unfoldable pub decoded_status : Option Str → M W (Option QueueUserState)
  decoded_status none = pure none
  decoded_status (some raw) = lift (json.decode raw) >>= λ state. pure (some state)

  unfoldable pub get_user_status : ℕ → M W (Option QueueUserState)
  unfolding queue_user_key decoded_status
  get_user_status user_id = rdb.get (queue_user_key user_id) >>= decoded_status

  unfoldable pub set_user_status : QueueUserState → M W Done
  unfolding queue_user_key
  set_user_status state =
      lift (json.encode state) >>= λ raw. rdb.set (queue_user_key state.user_id) raw

  unfoldable pub delete_user_status : ℕ → M W Done
  unfolding queue_user_key
  delete_user_status user_id = rdb.del (queue_user_key user_id)

  -- `NewMatchQueueRepository`, as the service sees it.
  abbrev pub match_queues : MatchQueueRepository W
  match_queues = record {
    enqueue = enqueue;
    queue_len = queue_len;
    dequeue_batch = dequeue_batch;
    remove_from_queue = remove_from_queue;
    get_user_status = get_user_status;
    set_user_status = set_user_status;
    delete_user_status = delete_user_status;
  }
