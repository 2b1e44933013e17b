-- ===== src/Workers/Steps.antt =====
-- Requests and workers, interleaved in any order, and what holds in every state: a worker that a
-- request holds runs, and it is the one worker of its chunk.
use go_lobby.Prelude.{nat_eq, ℕ, ◌+◌, ◌-◌, ◌<◌, ◌≤◌, List, [], ◌∷◌, ◌++◌, Bool, true, false}
use go_lobby.Prelude.{Option, none, some, ◌≡◌, refl, ap, sym, subst, ◌∙◌, lookup, if◌then◌else◌}
use go_lobby.Prelude.{◌==◌, arith}
use mathlib.Core.List.{append_assoc}
use go_lobby.Prelude.Int.{ℤ}
use go_lobby.Prelude.Text.{Str, str_eq}
use go_lobby.Workers.{ChunkWorker, Pool, update, no_workers, acquire_chunk_worker}
use go_lobby.Workers.{release_chunk_worker, can_send, send, receive, idle}

-- `held w` is the number of requests between their acquisition and their release of `w`. For each
-- chunk, `sent` are the operations that were queued and `handled` those that a worker took up.
pub record System (A : Type 0) : Type 0 where
  pub pool : Pool A
  pub held : ℕ → ℕ
  pub sent : Str → List A
  pub handled : Str → List A

module _ {A : Type 0} where
  abbrev pub chunk_of : ℕ → System A → Str
  chunk_of w s = let old : ChunkWorker A = s.pool.store w in old.chunk_id

  abbrev pub ops_of : ℕ → System A → List A
  ops_of w s = let old : ChunkWorker A = s.pool.store w in old.ops

  abbrev pub runs : ℕ → System A → Bool
  runs w s = let old : ChunkWorker A = s.pool.store w in old.running

  abbrev pub active : ℕ → System A → ℕ
  active w s = let old : ChunkWorker A = s.pool.store w in old.active_senders

  abbrev pub init : System A
  init = record { pool = no_workers; held = λ w. 0; sent = λ c. []; handled = λ c. [] }

  abbrev pub acquired : ℕ × Pool A → System A → System A
  acquired (w, p) s = record s { pool = p; held = update w (s.held w + 1) s.held }

  abbrev pub queued : ℕ → A → System A → System A
  queued w op s = record s {
    pool = send w op s.pool;
    sent = update (chunk_of w s) (s.sent (chunk_of w s) ++ (op ∷ [])) s.sent;
  }

  abbrev pub released : ℕ → System A → System A
  released w s = record s {
    pool = release_chunk_worker w s.pool;
    held = update w (s.held w - 1) s.held;
  }

  abbrev pub taken_up : ℕ → A → List A → System A → System A
  taken_up w op rest s = record s {
    pool = receive w rest s.pool;
    handled = update (chunk_of w s) (s.handled (chunk_of w s) ++ (op ∷ [])) s.handled;
  }

  -- `enqueueChunkOperation` acquires, may send, and releases; its context may end at any point.
  pub data Step (configured : ℤ) (s : System A) : System A → Type 0 where
    acquire :
        (chunk : Str) {w : ℕ} {p : Pool A}
        → acquire_chunk_worker chunk s.pool ≡ (w, p)
        → Step configured s (acquired (w, p) s)
    queue :
        (w : ℕ) (op : A)
        → 0 < s.held w
        → can_send configured w s.pool ≡ true
        → Step configured s (queued w op s)
    release : (w : ℕ) → 0 < s.held w → Step configured s (released w s)
    handle :
        (w : ℕ) (op : A) (rest : List A)
        → runs w s ≡ true
        → ops_of w s ≡ op ∷ rest
        → Step configured s (taken_up w op rest s)
    time_out : (w : ℕ) → runs w s ≡ true → Step configured s (record s { pool = idle w s.pool })

  pub data Reach (configured : ℤ) : System A → Type 0 where
    start : Reach configured init
    next : {s t : System A} → Reach configured s → Step configured s t → Reach configured t

  abbrev pub queue_of : Option ℕ → System A → List A
  queue_of none s = []
  queue_of (some w) s = ops_of w s

  pub record Inv (s : System A) : Type 0 where
    pub listed : (w : ℕ) → runs w s ≡ true → lookup (chunk_of w s) s.pool.workers ≡ some w
    pub running :
        (c : Str) (w : ℕ)
        → lookup c s.pool.workers ≡ some w
        → (runs w s ≡ true) × (chunk_of w s ≡ c)
    pub counted : (w : ℕ) → active w s ≡ s.held w
    pub stopped : (w : ℕ) → runs w s ≡ false → (s.held w ≡ 0) × (ops_of w s ≡ [])
    pub fresh : (w : ℕ) → s.pool.next ≤ w → runs w s ≡ false
    pub order : (c : Str) → s.sent c ≡ s.handled c ++ queue_of (lookup c s.pool.workers) s

  pub init-Inv : Inv init
  unfolding no_workers lookup
  init-Inv = record {
    listed = λ w h. cc;
    running = λ c w h. cc;
    counted = λ w. refl;
    stopped = λ w h. (refl, refl);
    fresh = λ w h. refl;
    order = λ c. refl;
  }

  pub release-Inv : (w : ℕ) (s : System A) → 0 < s.held w → Inv s → Inv (released w s)
  unfolding release_chunk_worker
  release-Inv w s h i = record {
    listed = λ v r. ground (arith, i.listed v);
    running = λ c v e. ground (arith, i.running c v);
    counted = λ v. ground (arith, i.counted v);
    stopped = λ v r. ground (arith, i.stopped v);
    fresh = λ v n. ground (arith, i.fresh v n);
    order = λ c. i.order c ∙ ap (λ l. s.handled c ++ l) (kept (lookup c s.pool.workers));
  }
    where
      kept : (found : Option ℕ) → queue_of found s ≡ queue_of found (released w s)
      kept none = refl
      kept (some v) = ground arith

  -- A held worker runs.
  pub held_runs : (w : ℕ) (s : System A) → Inv s → 0 < s.held w → runs w s ≡ true
  held_runs w s i h = ground (arith, i.stopped w)

  pub queue-Inv : (w : ℕ) (op : A) (s : System A) → runs w s ≡ true → Inv s → Inv (queued w op s)
  unfolding send
  queue-Inv w op s r i = record {
    listed = λ v k. ground (arith, i.listed v);
    running = λ c v e. ground (arith, i.running c v);
    counted = λ v. ground (arith, i.counted v);
    stopped = λ v k. ground (arith, i.stopped v);
    fresh = λ v n. ground (arith, i.fresh v n);
    order = λ c. queued c (chunk_of w s == c) refl;
  }
    where
      after : System A
      after = queued w op s

      grown : ops_of w after ≡ ops_of w s ++ (op ∷ [])
      grown = ground arith

      others :
          (c : Str) (found : Option ℕ)
          → (chunk_of w s == c) ≡ false
          → lookup c s.pool.workers ≡ found
          → queue_of found s ≡ queue_of found after
      others c none other e = refl
      others c (some v) other e = ground (arith, i.running c v e, str_eq.beq_iff (chunk_of w s) c)

      queued :
          (c : Str) (b : Bool)
          → (chunk_of w s == c) ≡ b
          → (if b then s.sent (chunk_of w s) ++ (op ∷ []) else s.sent c)
            ≡ s.handled c ++ queue_of (lookup c s.pool.workers) after
      queued c true same =
          subst
            (λ d.
              s.sent (chunk_of w s) ++ (op ∷ [])
              ≡ s.handled d ++ queue_of (lookup d s.pool.workers) after)
            ((str_eq.beq_iff (chunk_of w s) c).0 same)
            (ap (λ l. l ++ (op ∷ []))
                (i.order (chunk_of w s)
                  ∙ ap (λ o. s.handled (chunk_of w s) ++ queue_of o s) (i.listed w r))
              ∙ append_assoc (s.handled (chunk_of w s)) (ops_of w s) (op ∷ [])
              ∙ ap (λ l. s.handled (chunk_of w s) ++ l) (sym grown)
              ∙ ap (λ o. s.handled (chunk_of w s) ++ queue_of o after) (sym (i.listed w r)))
      queued c false other =
          i.order c ∙ ap (λ l. s.handled c ++ l) (others c (lookup c s.pool.workers) other refl)

  pub handle-Inv :
      (w : ℕ) (op : A) (rest : List A) (s : System A)
      → runs w s ≡ true
      → ops_of w s ≡ op ∷ rest
      → Inv s
      → Inv (taken_up w op rest s)
  unfolding receive
  handle-Inv w op rest s r first i = record {
    listed = λ v k. ground (arith, i.listed v);
    running = λ c v e. ground (arith, i.running c v);
    counted = λ v. ground (arith, i.counted v);
    stopped = λ v k. ground (arith, i.stopped v);
    fresh = λ v n. ground (arith, i.fresh v n);
    order = λ c. taken c (chunk_of w s == c) refl;
  }
    where
      after : System A
      after = taken_up w op rest s

      shrunk : ops_of w after ≡ rest
      shrunk = ground arith

      others :
          (c : Str) (found : Option ℕ)
          → (chunk_of w s == c) ≡ false
          → lookup c s.pool.workers ≡ found
          → queue_of found s ≡ queue_of found after
      others c none other e = refl
      others c (some v) other e = ground (arith, i.running c v e, str_eq.beq_iff (chunk_of w s) c)

      taken :
          (c : Str) (b : Bool)
          → (chunk_of w s == c) ≡ b
          → s.sent c
            ≡ (if b then s.handled (chunk_of w s) ++ (op ∷ []) else s.handled c)
              ++ queue_of (lookup c s.pool.workers) after
      taken c true same =
          subst
            (λ d.
              s.sent d
              ≡ (s.handled (chunk_of w s) ++ (op ∷ [])) ++ queue_of (lookup d s.pool.workers) after)
            ((str_eq.beq_iff (chunk_of w s) c).0 same)
            (i.order (chunk_of w s)
              ∙ ap (λ o. s.handled (chunk_of w s) ++ queue_of o s) (i.listed w r)
              ∙ ap (λ l. s.handled (chunk_of w s) ++ l) first
              ∙ sym (append_assoc (s.handled (chunk_of w s)) (op ∷ []) rest)
              ∙ ap (λ l. (s.handled (chunk_of w s) ++ (op ∷ [])) ++ l) (sym shrunk)
              ∙ ap (λ o. (s.handled (chunk_of w s) ++ (op ∷ [])) ++ queue_of o after)
                  (sym (i.listed w r)))
      taken c false other =
          i.order c ∙ ap (λ l. s.handled c ++ l) (others c (lookup c s.pool.workers) other refl)
