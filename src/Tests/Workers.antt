-- ===== src/Tests/Workers.antt =====
-- The workers of chunks.
use go_lobby.Prelude.{nat_eq, ℕ, ◌<◌, [], ◌++◌, true, ◌≡◌, refl, lookup, insert, ◌≢◌, arith}
use go_lobby.Prelude.Int.{pos}
use go_lobby.Prelude.Text.{Str, codes, str_eq, str_beq}
use go_lobby.Workers.{acquire_found, acquire_chunk_worker, no_workers, release_chunk_worker}
use go_lobby.Workers.{can_send, queue_size, send}
use go_lobby.Workers.Steps.{
  acquired, queued, released, System, Step, Reach, init, chunk_of, ops_of, runs, queue_of,
}
use go_lobby.Workers.Order.{Handling, Reach-runs_alone, Reach-in_order, Reach-drained}

abbrev west : Str
west = codes "cn:6:0:1"

-- A request waits with its operation 11 in the queue.
abbrev first : System ℕ
unfolding acquire_chunk_worker acquire_found no_workers send
first =
    let start : System ℕ = init in
    queued 0 11 (acquired (acquire_chunk_worker west start.pool) start)

-- Another one queues 12 and gives up.
abbrev both : System ℕ
unfolding acquire_chunk_worker acquire_found no_workers send release_chunk_worker
both = released 0 (queued 0 12 (acquired (acquire_chunk_worker west (first.pool)) first))

both-Reach : Reach (pos 2) both
unfolding acquire_chunk_worker acquire_found no_workers can_send queue_size send
    release_chunk_worker str_beq lookup insert
both-Reach =
    Reach.next
      (Reach.next
        (Reach.next
          (Reach.next (Reach.next Reach.start (Step.acquire west refl))
            (Step.queue 0 11 (omega arith) refl))
          (Step.acquire west refl))
        (Step.queue 0 12 (omega arith) refl))
      (Step.release 0 (omega arith))

Reach-runs_alone_example :
    ((v w : ℕ)
      → runs v both ≡ true
      → runs w both ≡ true
      → chunk_of v both ≡ chunk_of w both
      → v ≡ w)
    × ((w : ℕ) → 0 < both.held w → runs w both ≡ true)
    × ((w : ℕ) → ops_of w both ≢ [] → runs w both ≡ true)
Reach-runs_alone_example = Reach-runs_alone (pos 2) both-Reach

Reach-in_order_example :
    both.sent west ≡ both.handled west ++ queue_of (lookup west both.pool.workers) both
Reach-in_order_example = Reach-in_order (pos 2) west both-Reach

Reach-drained_example :
    (t : System ℕ) × Handling both t × Reach (pos 2) t × (t.handled west ≡ both.sent west)
Reach-drained_example = Reach-drained (pos 2) west both-Reach
