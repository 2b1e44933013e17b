-- ===== src/Tests/Locks.antt =====
-- The locks of chunks, over a Redis that never fails.
use go_lobby.Prelude.{[], nat_eq, none, some}
use go_lobby.Prelude.{Error, ok, err, ◌≡◌, refl, ◌⊎◌, arith}
use go_lobby.Prelude.Int.{pos}
use go_lobby.Prelude.Text.{Str, codes, str_eq, str_beq}
use go_lobby.Chunk.Numbers.{itoa}
use go_lobby.Workers.{update}
use go_lobby.Tests.Stores.{Memory, memory, string_at, memory-IsRedis}
use go_lobby.MineMatch.Locks.{Locked, mine_chunk_lock_key, get_chunk_lock}
use go_lobby.MineMatch.Locks.{try_lock_chunk, unlock_chunk, try_lock_chunk-Locked}
use go_lobby.MineMatch.Locks.{get_chunk_lock-try_lock_chunk}

abbrev west : Str
west = codes "cn:6:0:1"

-- Match 5 has the chunk.
abbrev locked : Memory
locked = record {
  strings = update (mine_chunk_lock_key 1 west) (some (itoa (pos 5))) (λ k. none);
  sets = λ k. [];
  lists = λ k. [];
}

abbrev empty : Memory
empty = record { strings = λ k. none; sets = λ k. []; lists = λ k. [] }

try_lock_chunk-Locked_example :
    Locked memory string_at memory-IsRedis (try_lock_chunk memory 1 west 6 locked).1 1 west 5
    × Locked memory string_at memory-IsRedis (unlock_chunk memory 1 west 6 locked).1 1 west 5
unfolding mine_chunk_lock_key itoa str_beq
try_lock_chunk-Locked_example =
    try_lock_chunk-Locked memory string_at memory-IsRedis 1 1 west west 6 5 locked (omega arith)
      refl refl

read_own_lock :
    Locked memory string_at memory-IsRedis locked 1 west 5
    × ((get_chunk_lock memory 1 west locked ≡ (ok (pos 5), locked))
        ⊎ ((e : Error) × (get_chunk_lock memory 1 west locked ≡ (err e, locked))))
unfolding try_lock_chunk
read_own_lock =
    get_chunk_lock-try_lock_chunk memory string_at memory-IsRedis 1 west 5 empty (omega arith) refl
