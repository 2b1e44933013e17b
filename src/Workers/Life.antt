-- ===== src/Workers/Life.antt =====
-- The start of a worker on demand, and its end when it is idle.
use go_lobby.Prelude.{nat_eq, ℕ, List, [], ◌∷◌, ◌++◌, Bool, true, false}
use go_lobby.Prelude.{Option, none, some, ◌≡◌, refl, ap, sym, subst, ◌∙◌, lookup, delete, length}
use go_lobby.Prelude.{if◌then◌else◌, ltb, ◌==◌, arith, lookup-insert, lookup-delete}
use go_lobby.Prelude.{◌||◌, eqb_iff, ==-refl}
use go_lobby.Prelude.Text.{Str, str_eq}
use go_lobby.Workers.{ChunkWorker, Pool, acquire_found}
use go_lobby.Workers.{idle, remove_idle_chunk_worker, return_when}
use go_lobby.Workers.Steps.{acquired, System, Inv, chunk_of, ops_of, runs, active, queue_of}

absent_but_found : {v : ℕ} → none ≡ some v → ⊥
absent_but_found e = cc

unused_empty {ℓ} :
    {A : Type ℓ} (senders : ℕ) (l : List A) → (ltb 0 senders || ltb 0 (length l)) ≡ false → l ≡ []
unused_empty senders [] e = refl
unused_empty senders (x ∷ l) e = ground arith

module _ {A : Type 0} where
  pub joined-Inv :
      (chunk : Str) (w : ℕ) (s : System A)
      → lookup chunk s.pool.workers ≡ some w
      → Inv s
      → Inv (acquired (acquire_found chunk s.pool (some w)) s)
  unfolding acquire_found
  joined-Inv chunk w s found i = record {
    listed = λ v r. ground (arith, i.listed v);
    running = λ c v e. ground (arith, i.running c v);
    counted = λ v. ground (arith, i.counted v);
    stopped = λ v r. ground (arith, i.stopped v, i.running chunk w found);
    fresh = λ v n. ground (arith, i.fresh v n);
    order = λ c. i.order c ∙ ap (λ l. s.handled c ++ l) (kept (lookup c s.pool.workers));
  }
    where
      kept :
          (o : Option ℕ)
          → queue_of o s ≡ queue_of o (acquired (acquire_found chunk s.pool (some w)) s)
      kept none = refl
      kept (some v) = ground arith

  pub started-Inv :
      (chunk : Str) (s : System A)
      → lookup chunk s.pool.workers ≡ none
      → Inv s
      → Inv (acquired (acquire_found chunk s.pool none) s)
  unfolding acquire_found
  started-Inv chunk s absent i = record {
    listed = λ v r.
        lookup-insert chunk (chunk_of v after) s.pool.next s.pool.workers
        ∙ ground (arith, i.listed v, i.fresh v, str_eq.beq_iff chunk (chunk_of v s), ==-refl chunk);
    running = λ c v e. ground (
      arith,
      lookup-insert chunk c s.pool.next s.pool.workers,
      i.running c v,
      i.fresh v,
      str_eq.beq_iff chunk c,
    );
    counted = λ v. ground (arith, i.counted v, i.stopped v, i.fresh v);
    stopped = λ v r. ground (arith, i.stopped v);
    fresh = λ v n. ground (arith, i.fresh v);
    order = λ c.
        i.order c
        ∙ ap (λ l. s.handled c ++ l)
            (added c (chunk == c) (lookup c s.pool.workers) refl refl
              ∙ ap (λ o. queue_of o after)
                  (sym (lookup-insert chunk c s.pool.next s.pool.workers)));
  }
    where
      after : System A
      after = acquired (acquire_found chunk s.pool none) s

      added :
          (c : Str) (b : Bool) (found : Option ℕ)
          → (chunk == c) ≡ b
          → lookup c s.pool.workers ≡ found
          → queue_of found s ≡ queue_of (if b then some s.pool.next else found) after
      added c true none same e = ground (arith)
      added c true (some v) same e = absurd (
          absent_but_found
            (sym absent ∙ ap (λ d. lookup d s.pool.workers) ((str_eq.beq_iff chunk c).0 same) ∙ e))
      added c false none other e = refl
      added c false (some v) other e = ground (arith, i.running c v e, i.fresh v)

  -- A running worker that is not used is removed.
  abbrev is_used : ChunkWorker A → Bool
  is_used w = ltb 0 w.active_senders || ltb 0 (length w.ops)

  abbrev without : ℕ → Pool A → Pool A
  without w p =
      let old : ChunkWorker A = p.store w in record p { workers = delete old.chunk_id p.workers }

  remove_idle_lem :
      (w : ℕ) (s : System A)
      → lookup (chunk_of w s) s.pool.workers ≡ some w
      → remove_idle_chunk_worker w s.pool
        ≡ (if is_used (s.pool.store w) then (false, s.pool) else (true, without w s.pool))
  unfolding remove_idle_chunk_worker
  remove_idle_lem w s e = rw (e, (eqb_iff w w).1 refl) refl

  removed-Inv :
      (w : ℕ) (s : System A)
      → runs w s ≡ true
      → is_used (s.pool.store w) ≡ false
      → Inv s
      → Inv (record s { pool = return_when w (true, without w s.pool) })
  unfolding return_when
  removed-Inv w s r unused i = record {
    listed = λ v k.
        lookup-delete (chunk_of w s) (chunk_of v after) s.pool.workers
        ∙ ground (arith, i.listed v, i.listed w, str_eq.beq_iff (chunk_of w s) (chunk_of v s));
    running = λ c v e. ground (
      arith,
      lookup-delete (chunk_of w s) c s.pool.workers,
      i.running c v,
      i.listed w,
      str_eq.beq_iff (chunk_of w s) c,
    );
    counted = λ v. ground (arith, i.counted v);
    stopped = λ v k. ground (arith, i.stopped v, i.counted w, unused);
    fresh = λ v n. ground (arith, i.fresh v n);
    order = λ c.
        i.order c
        ∙ ap (λ l. s.handled c ++ l)
            (gone c (chunk_of w s == c) (lookup c s.pool.workers) refl refl
              ∙ ap (λ o. queue_of o after) (sym (lookup-delete (chunk_of w s) c s.pool.workers)));
  }
    where
      after : System A
      after = record s { pool = return_when w (true, without w s.pool) }

      empty : ops_of w s ≡ []
      empty = unused_empty (active w s) (ops_of w s) unused

      gone :
          (c : Str) (b : Bool) (found : Option ℕ)
          → (chunk_of w s == c) ≡ b
          → lookup c s.pool.workers ≡ found
          → queue_of found s ≡ queue_of (if b then none else found) after
      gone c true found same e =
          ap (λ o. queue_of o s)
            (sym e
              ∙ ap (λ d. lookup d s.pool.workers) (sym ((str_eq.beq_iff (chunk_of w s) c).0 same))
              ∙ i.listed w r)
          ∙ empty
      gone c false none other e = refl
      gone c false (some v) other e =
          ground (arith, i.running c v e, str_eq.beq_iff (chunk_of w s) c)

  pub idle-Inv :
      (w : ℕ) (s : System A) → runs w s ≡ true → Inv s → Inv (record s { pool = idle w s.pool })
  unfolding idle return_when
  idle-Inv w s r i =
      subst (λ o. Inv (record s { pool = return_when w o }))
        (sym (remove_idle_lem w s (i.listed w r))) (go (is_used (s.pool.store w)) refl)
    where
      go :
          (b : Bool)
          → is_used (s.pool.store w) ≡ b
          → Inv (record s {
            pool = return_when w (if b then (false, s.pool) else (true, without w s.pool));
          })
      go true used = i
      go false unused = removed-Inv w s r unused i
