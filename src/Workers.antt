-- ===== src/Workers.antt =====
-- internal/service/chunk_service.go: the worker of a chunk, which runs the operations of the chunk
-- one after the other. Each function under `workersMu` is one step, and so is each send to and
-- receive from the queue of a worker. A worker is the number of its pointer.
pub mod Steps
pub mod Life
pub mod Order
use go_lobby.Prelude.{nat_eq, ℕ, suc, ◌+◌, ◌-◌, List, [], ◌∷◌, ◌++◌, Bool, true, false, ◌||◌}
use go_lobby.Prelude.{
  Option, none, some, lookup, insert, delete, length, if◌then◌else◌, ltb, eqb, not,
}
use go_lobby.Prelude.{◌==◌, Eq}
use go_lobby.Prelude.Int.{ℤ, pos, pos_part, leb_ℤ}
use go_lobby.Prelude.Text.{Str, str_eq}

-- `running` says whether the goroutine of the worker has not returned.
pub record ChunkWorker (A : Type 0) : Type 0 where
  pub chunk_id : Str
  pub ops : List A
  pub active_senders : ℕ
  pub running : Bool

pub record Pool (A : Type 0) : Type 0 where
  pub workers : List (Str × ℕ)
  pub store : ℕ → ChunkWorker A
  pub next : ℕ

-- `if queueSize <= 0`
unfoldable pub queue_size : ℤ → ℕ
queue_size configured = if leb_ℤ configured (pos 0) then 256 else pos_part configured

-- A function changed at one place.
abbrev pub update {ℓ κ} : {K : Type ℓ} {V : Type κ} ⦃e : Eq K⦄ → K → V → (K → V) → K → V
update k v f j = if k == j then v else f j

abbrev pub is_worker : Option ℕ → ℕ → Bool
is_worker none w = false
is_worker (some v) w = eqb v w

module _ {A : Type 0} where
  abbrev no_worker : ChunkWorker A
  no_worker = record { chunk_id = []; ops = []; active_senders = 0; running = false }

  unfoldable pub no_workers : Pool A
  no_workers = record { workers = []; store = λ w. no_worker; next = 0 }

  unfoldable pub acquire_found : Str → Pool A → Option ℕ → ℕ × Pool A
  acquire_found chunk p (some w) =
      let old : ChunkWorker A = p.store w in
      (
        w,
        record p {
          store = update w (record old { active_senders = old.active_senders + 1 }) p.store;
        },
      )
  acquire_found chunk p none = (
    p.next,
    record {
      workers = insert chunk p.next p.workers;
      store =
          update p.next (record { chunk_id = chunk; ops = []; active_senders = 1; running = true })
            p.store;
      next = suc p.next;
    },
  )

  unfoldable pub acquire_chunk_worker : Str → Pool A → ℕ × Pool A
  unfolding acquire_found
  acquire_chunk_worker chunk p = acquire_found chunk p (lookup chunk p.workers)

  -- `if worker.activeSenders > 0 { worker.activeSenders-- }`
  unfoldable pub release_chunk_worker : ℕ → Pool A → Pool A
  release_chunk_worker w p =
      let old : ChunkWorker A = p.store w in
      record p { store = update w (record old { active_senders = old.active_senders - 1 }) p.store }

  -- The send waits while the queue is full.
  unfoldable pub can_send : ℤ → ℕ → Pool A → Bool
  unfolding queue_size
  can_send configured w p =
      let old : ChunkWorker A = p.store w in ltb (length old.ops) (queue_size configured)

  unfoldable pub send : ℕ → A → Pool A → Pool A
  send w op p =
      let old : ChunkWorker A = p.store w in
      record p { store = update w (record old { ops = old.ops ++ (op ∷ []) }) p.store }

  -- The worker takes the first operation, and runs it before its next step.
  unfoldable pub receive : ℕ → List A → Pool A → Pool A
  receive w rest p =
      let old : ChunkWorker A = p.store w in
      record p { store = update w (record old { ops = rest }) p.store }

  unfoldable pub remove_idle_chunk_worker : ℕ → Pool A → Bool × Pool A
  remove_idle_chunk_worker w p =
      let old : ChunkWorker A = p.store w in
      if not (is_worker (lookup old.chunk_id p.workers) w)
      then (true, p)
      else if ltb 0 old.active_senders || ltb 0 (length old.ops)
      then (false, p)
      else (true, record p { workers = delete old.chunk_id p.workers })

  -- The goroutine returns if its worker is removed.
  unfoldable pub return_when : ℕ → Bool × Pool A → Pool A
  return_when w (true, p) =
      let old : ChunkWorker A = p.store w in
      record p { store = update w (record old { running = false }) p.store }
  return_when w (false, p) = p

  -- The idle timer of `runChunkWorker` fires.
  unfoldable pub idle : ℕ → Pool A → Pool A
  unfolding return_when remove_idle_chunk_worker
  idle w p = return_when w (remove_idle_chunk_worker w p)
