-- ===== src/Tests/Assigned.antt =====
-- Chunks of matches, over the Redis in memory.
use go_lobby.Prelude.{
  true, ◌<◌, ℕ, zero, suc, ◌*◌, List, [], ◌∷◌, Option, none, some, Result, ok, err, external,
}
use go_lobby.Prelude.{Error, ◌≡◌, ◌⊎◌, refl, arith, insert, ap}
use go_lobby.Prelude.Int.{pos, two63}
use go_lobby.Prelude.Text.{Str, codes, str_eq, str_beq}
use go_lobby.Prelude.Effect.{M}
use go_lobby.Chunk.{chunk_id_string}
use go_lobby.Chunk.Numbers.{itoa}
use go_lobby.ChunkState.{MineChunkState, new_mine_chunk_state}
use go_lobby.Mine.{MineSeason}
use go_lobby.Responses.{MatchedTeam}
use go_lobby.MineMatch.{find_and_lock_clean_chunk, assign_chunk_for_match}
use go_lobby.MineMatch.States.{MineMatchState, MineMatchService, build_mine_match_state}
use go_lobby.MineMatch.Chosen.{Choice, find_and_lock_clean_chunk-Choice}
use go_lobby.Repository.{Json}
use go_lobby.Repository.Contract.{redis_keeps}
use go_lobby.Repository.Assigned.{redis_service, IsGuarded, assign_chunk_for_match-IsGuarded}
use go_lobby.Repository.Saved.{IsAgreed, Saved, save_state-IsAgreed}
use go_lobby.Repository.Chunks.{save_state, get_state, decoded_state, mine_chunk_state_key}
use go_lobby.Repository.Matches.{save_match_state, set_active_match_for_users}
use go_lobby.MineMatch.Locks.{mine_chunk_lock_key, lock_of, get_chunk_lock, try_lock_chunk}
use go_lobby.Tests.Stores.{
  Memory, memory, string_at, member_at, memory-IsRedis, memory-IsWritten, memory-IsShared,
}

abbrev empty : Memory
empty = record { strings = λ k. none; sets = λ k. []; lists = λ k. [] }

abbrev season_one : MineSeason
season_one = record {
  id = 1;
  code = codes "s1";
  seed = codes "seed";
  mine_rate = 150;
  algorithm_version = pos 1;
}

abbrev room : Str
room = codes "r1"

abbrev two : List MatchedTeam
two =
    record { team_id = pos 0; user_ids = 10 ∷ [] }
    ∷ record { team_id = pos 1; user_ids = 11 ∷ [] }
    ∷ []

-- The states of match 5 as texts: their start and their chunk.
abbrev parse_match : Str → Result MineMatchState
parse_match [] = err external
parse_match (at ∷ chunk) = ok (build_mine_match_state 5 room 1 chunk two at)

abbrev match_json : Json MineMatchState
match_json = record { encode = λ s. ok (s.started_at ∷ s.chunk_id); decode = parse_match }

abbrev untouched : MineChunkState
untouched = new_mine_chunk_state 1 (codes "cn:6:9:19")

abbrev closed_one : MineChunkState
closed_one = record untouched { closed = true; closed_at = some 3 }

abbrev chunk_json : Json MineChunkState
chunk_json = record { encode = λ s. ok []; decode = λ raw. ok closed_one }

abbrev reader : M Memory (Option MineSeason)
reader w = (ok (some season_one), w)

abbrev clock : M Memory ℕ
clock w = (ok 9, w)

count_up : ℕ → ℕ → List ℕ
count_up zero from = []
count_up (suc left) from = let rest = count_up left (suc from) in from ∷ rest

abbrev order_of : ℕ → M Memory (List ℕ)
order_of n w = (ok (count_up n 0), w)

abbrev service : MineMatchService Memory
service = redis_service memory match_json chunk_json reader none clock order_of

five_small : 5 < two63
five_small = omega arith

find_and_lock_clean_chunk-Choice_example :
    Choice service 1
      (redis_keeps memory string_at memory-IsRedis match_json chunk_json 1)
      5
      five_small
      empty
      (count_up (64 * 64) 0)
      (find_and_lock_clean_chunk service 1 5 empty)
find_and_lock_clean_chunk-Choice_example =
    find_and_lock_clean_chunk-Choice service 1
      (redis_keeps memory string_at memory-IsRedis match_json chunk_json 1) 5 five_small
      (count_up (64 * 64) 0) empty empty refl

-- Match 5 gets the chunk 0, 0.
abbrev north_west : Str
north_west = codes "cn:6:0:0"

assigned : (assign_chunk_for_match service 5 room two empty).0 ≡ ok north_west
unfolding assign_chunk_for_match find_and_lock_clean_chunk count_up get_chunk_lock lock_of
    try_lock_chunk get_state decoded_state save_match_state set_active_match_for_users
    build_mine_match_state chunk_id_string itoa mine_chunk_lock_key mine_chunk_state_key str_beq
assigned = refl

read_back :
    (d : Str) (t : ℕ) (raw : Str)
    → match_json.encode (build_mine_match_state 5 room 1 d two t) ≡ ok raw
    → parse_match raw ≡ ok (build_mine_match_state 5 room 1 d two t)
unfolding build_mine_match_state insert
read_back d t raw e = ground (arith, e)

abbrev after : Memory
after = (assign_chunk_for_match service 5 room two empty).1

assign_chunk_for_match-IsGuarded_example :
    IsGuarded memory string_at memory-IsRedis memory-IsWritten match_json chunk_json season_one 5
      five_small room two reader none clock order_of after north_west
assign_chunk_for_match-IsGuarded_example =
    assign_chunk_for_match-IsGuarded memory string_at memory-IsRedis memory-IsWritten match_json
      chunk_json season_one 5 five_small room two reader none clock order_of (count_up (64 * 64) 0)
      empty (λ w. 9) (omega arith) refl refl (λ w. refl) read_back (ap (λ r. (r, after)) assigned)

empty-IsAgreed : IsAgreed memory string_at member_at memory-IsShared chunk_json 1 empty
empty-IsAgreed = record { agrees = λ c. refl }

save_state-IsAgreed_example :
    let out = save_state memory chunk_json closed_one empty in
    IsAgreed memory string_at member_at memory-IsShared chunk_json 1 out.1
    × (((out.0 ≡ ok tt)
          × Saved memory string_at member_at memory-IsShared chunk_json 1 closed_one empty out.1)
        ⊎ ((e : Error) × (out.0 ≡ err e)
            × (Saved memory string_at member_at memory-IsShared chunk_json 1 closed_one empty out.1
                ⊎ (out.1 ≡ empty))))
unfolding new_mine_chunk_state
save_state-IsAgreed_example =
    save_state-IsAgreed memory string_at member_at memory-IsShared chunk_json 1 closed_one refl
      (λ raw e. refl) empty empty-IsAgreed
