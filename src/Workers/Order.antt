-- ===== src/Workers/Order.antt =====
-- Every run of requests and workers: one worker for a chunk, no operation lost or out of order.
use go_lobby.Prelude.{nat_eq, ℕ, ◌<◌, List, [], ◌∷◌, ◌++◌, true}
use go_lobby.Prelude.{Option, none, some, ◌≡◌, refl, ap, sym, subst, ◌∙◌, lookup, ◌≢◌, arith}
use mathlib.Core.List.{append-nil}
use go_lobby.Prelude.Int.{ℤ}
use go_lobby.Prelude.Text.{Str, str_eq}
use go_lobby.Workers.{acquire_chunk_worker, acquire_found}
use go_lobby.Workers.{receive}
use go_lobby.Workers.Steps.{
  acquired, taken_up, System, Step, Reach, Inv, chunk_of, ops_of, runs, queue_of,
}
use go_lobby.Workers.Steps.{init-Inv, release-Inv, queue-Inv, handle-Inv, held_runs}
use go_lobby.Workers.Life.{joined-Inv, started-Inv, idle-Inv}

module _ {A : Type 0} where
  acquire-Inv :
      (chunk : Str) (s : System A) → Inv s → Inv (acquired (acquire_chunk_worker chunk s.pool) s)
  unfolding acquire_chunk_worker
  acquire-Inv chunk s i = go (lookup chunk s.pool.workers) refl
    where
      go :
          (o : Option ℕ)
          → lookup chunk s.pool.workers ≡ o
          → Inv (acquired (acquire_found chunk s.pool o) s)
      go none e = started-Inv chunk s e i
      go (some w) e = joined-Inv chunk w s e i

  Step-Inv : (configured : ℤ) {s t : System A} → Step configured s t → Inv s → Inv t
  Step-Inv configured {s} (Step.acquire chunk e) i =
      subst (λ r. Inv (acquired r s)) e (acquire-Inv chunk s i)
  Step-Inv configured {s} (Step.queue w op h e) i = queue-Inv w op s (held_runs w s i h) i
  Step-Inv configured {s} (Step.release w h) i = release-Inv w s h i
  Step-Inv configured {s} (Step.handle w op rest r e) i = handle-Inv w op rest s r e i
  Step-Inv configured {s} (Step.time_out w r) i = idle-Inv w s r i

  pub Reach-Inv : (configured : ℤ) {s : System A} → Reach configured s → Inv s
  Reach-Inv configured Reach.start = init-Inv
  Reach-Inv configured (Reach.next r st) = Step-Inv configured st (Reach-Inv configured r)

  -- In every reachable state two running workers of one chunk are the same one, and every worker
  -- that a request holds between its acquisition and its release, or in whose queue an operation
  -- stands, runs.
  pub Reach-runs_alone :
      (configured : ℤ) {s : System A}
      → Reach configured s
      → ((v w : ℕ) → runs v s ≡ true → runs w s ≡ true → chunk_of v s ≡ chunk_of w s → v ≡ w)
        × ((w : ℕ) → 0 < s.held w → runs w s ≡ true)
        × ((w : ℕ) → ops_of w s ≢ [] → runs w s ≡ true)
  Reach-runs_alone configured {s} r = (
    λ v w p q e. some_inj (sym (i.listed v p) ∙ ap (λ c. lookup c s.pool.workers) e ∙ i.listed w q),
    λ w h. held_runs w s i h,
    λ w h. ground (arith, i.stopped w),
  )
    where
      i : Inv s
      i = Reach-Inv configured r

      some_inj : {v w : ℕ} → some v ≡ some w → v ≡ w
      some_inj e = cc

  -- In every reachable state the operations that were queued for a chunk are those that its workers
  -- took up, in the order of their sends, followed by the queue of its listed worker.
  pub Reach-in_order :
      (configured : ℤ) {s : System A} (c : Str)
      → Reach configured s
      → s.sent c ≡ s.handled c ++ queue_of (lookup c s.pool.workers) s
  Reach-in_order configured c r = let i = Reach-Inv configured r in i.order c

  -- Workers go on while requests stand still.
  pub data Handling : System A → System A → Type 0 where
    done : {s : System A} → Handling s s
    more :
        {s u : System A} (w : ℕ) (op : A) (rest : List A)
        → runs w s ≡ true
        → ops_of w s ≡ op ∷ rest
        → Handling (taken_up w op rest s) u
        → Handling s u

  one_kept :
      (w : ℕ) (op : A) (rest : List A) (s : System A)
      → (runs w (taken_up w op rest s) ≡ runs w s)
        × (ops_of w (taken_up w op rest s) ≡ rest)
        × (chunk_of w (taken_up w op rest s) ≡ chunk_of w s)
  unfolding receive
  one_kept w op rest s = (ground arith, ground arith, ground arith)

  drained :
      (configured : ℤ) (l : List A) (w : ℕ) (c : Str) (s : System A)
      → runs w s ≡ true
      → ops_of w s ≡ l
      → chunk_of w s ≡ c
      → Reach configured s
      → (t : System A) × Handling s t × Reach configured t × (t.handled c ≡ s.sent c)
  drained configured [] w c s r e at reach =
      let i = Reach-Inv configured reach in
      (
        s,
        Handling.done,
        reach,
        sym (append-nil (s.handled c))
            ∙ ap (λ l. s.handled c ++ l) (sym e)
            ∙ ap (λ o. s.handled c ++ queue_of o s)
                (sym (i.listed w r) ∙ ap (λ d. lookup d s.pool.workers) at)
            ∙ sym (i.order c),
      )
  drained configured (op ∷ rest) w c s r e at reach =
      let kept = one_kept w op rest s in
      let tail =
        drained configured rest w c (taken_up w op rest s) (kept.0 ∙ r) kept.1 (kept.2 ∙ at)
          (Reach.next reach (Step.handle w op rest r e)) in
      (tail.0, Handling.more w op rest r e tail.1, tail.2, tail.3)

  -- From every reachable state and for each chunk the workers can go on by themselves to a state in
  -- which every operation that had been queued for the chunk is taken up, in the order of the sends.
  pub Reach-drained :
      (configured : ℤ) {s : System A} (c : Str)
      → Reach configured s
      → (t : System A) × Handling s t × Reach configured t × (t.handled c ≡ s.sent c)
  Reach-drained configured {s} c r = go (lookup c s.pool.workers) refl
    where
      i : Inv s
      i = Reach-Inv configured r

      go :
          (o : Option ℕ)
          → lookup c s.pool.workers ≡ o
          → (t : System A) × Handling s t × Reach configured t × (t.handled c ≡ s.sent c)
      go none e = (
        s,
        Handling.done,
        r,
        sym (append-nil (s.handled c))
            ∙ ap (λ o. s.handled c ++ queue_of o s) (sym e)
            ∙ sym (i.order c),
      )
      go (some w) e =
          let on = i.running c w e in drained configured (ops_of w s) w c s (on.0) refl (on.1) r
