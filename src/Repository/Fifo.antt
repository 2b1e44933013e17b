-- ===== src/Repository/Fifo.antt =====
-- The queue of a mode in Redis as a queue of users.
use go_lobby.Prelude.{ℕ, zero, suc, ◌<◌, List, [], ◌∷◌, ◌++◌, map, ok, err}
use go_lobby.Prelude.{
  Error, take, drop, length, All, nat_eq, ◌==◌, ==-refl, ==_of_ne, Bool-cases, false,
}
use go_lobby.Prelude.{◌≡◌, refl, sym, ap, ◌∙◌, ◌⊎◌, inl, inr, arith}
use go_lobby.Prelude.Int.{pos, two63}
use go_lobby.Prelude.Text.{Str, str_eq}
use go_lobby.Chunk.Numbers.{itoa, atoi, atoi-itoa}
use go_lobby.MatchQueue.Entries.{QueueUserState}
use go_lobby.Redis.{Redis, HasLists, without, popped}
use go_lobby.Repository.{Json}
use go_lobby.Repository.Queue.{
  queue_key, parse_user_ids, enqueue, queue_len, dequeued, dequeue_batch, remove_from_queue,
}

abbrev texts : List ℕ → List Str
texts = map (λ u. itoa (pos u))

abbrev Small : List ℕ → Type 0
Small = All (λ u. u < two63)

texts-append : (users more : List ℕ) → texts (users ++ more) ≡ texts users ++ texts more
texts-append [] more = refl
texts-append (u ∷ users) more = ap (λ l. itoa (pos u) ∷ l) (texts-append users more)

take-texts : (n : ℕ) (users : List ℕ) → take n (texts users) ≡ texts (take n users)
take-texts zero users = refl
take-texts (suc n) [] = refl
take-texts (suc n) (u ∷ users) = ap (λ l. itoa (pos u) ∷ l) (take-texts n users)

drop-texts : (n : ℕ) (users : List ℕ) → drop n (texts users) ≡ texts (drop n users)
drop-texts zero users = refl
drop-texts (suc n) [] = refl
drop-texts (suc n) (u ∷ users) = drop-texts n users

length-texts : (users : List ℕ) → length (texts users) ≡ length users
length-texts [] = refl
length-texts (u ∷ users) = ap suc (length-texts users)

take-Small : (n : ℕ) (users : List ℕ) → Small users → Small (take n users)
take-Small zero users s = tt
take-Small (suc n) [] s = tt
take-Small (suc n) (u ∷ users) (s, ss) = (s, take-Small n users ss)

itoa-inj : (u v : ℕ) → u < two63 → v < two63 → itoa (pos u) ≡ itoa (pos v) → u ≡ v
itoa-inj u v su sv e =
    let read : ok (pos u) ≡ ok (pos v) = sym (atoi-itoa u su) ∙ ap atoi e ∙ atoi-itoa v sv in cc

pub same_text : (u v : ℕ) → u < two63 → v < two63 → (itoa (pos u) == itoa (pos v)) ≡ (u == v)
same_text u v su sv = elim (Bool-cases (u == v)) [
  | inl same ↦
      rw same (let equal : u ≡ v = ground (arith, same) in rw equal (==-refl (itoa (pos v))))
  | inr other ↦
      rw other (==_of_ne (itoa (pos u)) (itoa (pos v)) (λ e. clash other (itoa-inj u v su sv e)))
]
  where
    clash : (u == v) ≡ false → u ≡ v → ⊥
    clash other e = ground (arith, other, e)

without-texts :
    (v : ℕ) (users : List ℕ)
    → v < two63
    → Small users
    → without (itoa (pos v)) (texts users) ≡ texts (without v users)
without-texts v [] sv s = refl
without-texts v (u ∷ users) sv (s, ss) = rw (same_text u v s sv) (elim (Bool-cases (u == v)) [
  | inl same ↦ rw same (without-texts v users sv ss)
  | inr other ↦ rw other (ap (λ l. itoa (pos u) ∷ l) (without-texts v users sv ss))
])

parse_user_ids-texts : (users : List ℕ) → Small users → parse_user_ids (texts users) ≡ ok users
unfolding parse_user_ids
parse_user_ids-texts [] s = refl
parse_user_ids-texts (u ∷ users) (s, ss) =
    rw (parse_user_ids, atoi-itoa u s) (rw (parse_user_ids-texts users ss) refl)

module _ {W : Type 0} (rdb : Redis W) (list : W → Str → List Str) (has : HasLists rdb list)
    (json : Json QueueUserState) (mode : Str) where
  -- The users that wait for a mode, the one who came first in front.
  abbrev pub Queued : W → List ℕ → Type 0
  Queued w users = list w (queue_key mode) ≡ texts users

  -- The operations are those of a queue, or fail and change nothing.
  pub record IsFifo (w : W) (users : List ℕ) : Type 0 where
    pub joined :
        (u : ℕ)
        → ((w' : W) × (enqueue rdb json mode u w ≡ (ok tt, w')) × Queued w' (users ++ u ∷ []))
          ⊎ ((e : Error) × (enqueue rdb json mode u w ≡ (err e, w)))
    pub measured :
        (queue_len rdb json mode w ≡ (ok (length users), w))
        ⊎ ((e : Error) × (queue_len rdb json mode w ≡ (err e, w)))
    pub served :
        (n : ℕ)
        → ((w' : W) × (dequeue_batch rdb json mode n w ≡ (ok (take n users), w'))
            × Queued w' (drop n users))
          ⊎ ((e : Error) × (dequeue_batch rdb json mode n w ≡ (err e, w)))
    pub left :
        (u : ℕ)
        → u < two63
        → ((w' : W) × (remove_from_queue rdb json mode u w ≡ (ok tt, w'))
            × Queued w' (without u users))
          ⊎ ((e : Error) × (remove_from_queue rdb json mode u w ≡ (err e, w)))

  read_off :
      (n : ℕ) (users : List ℕ) (w : W)
      → Small users
      → dequeued rdb json (popped n (texts users)) w ≡ (ok (take n users), w)
  unfolding dequeued
  read_off zero [] w s = refl
  read_off (suc n) [] w s = refl
  read_off n (u ∷ users) w s =
      rw (take-texts n (u ∷ users))
        (rw (parse_user_ids-texts (take n (u ∷ users)) (take-Small n (u ∷ users) s)) refl)

  -- When the lists of Redis are as documented and a failing command changes nothing: as long as
  -- the users that wait for a mode have ids below 2^63, joining puts one at the end, a batch is
  -- taken from the front in order, leaving removes every entry of a user, and the length is the
  -- number of entries.
  pub match_queues-IsFifo : (w : W) (users : List ℕ) → Small users → Queued w users → IsFifo w users
  unfolding enqueue queue_len dequeue_batch remove_from_queue
  match_queues-IsFifo w users small queued = record {
    joined = λ u. elim (has.pushed (queue_key mode) (itoa (pos u)) w) [
      | inl (w', e, at) ↦
          inl (
            w',
            e,
            at ∙ ap (λ l. l ++ itoa (pos u) ∷ []) queued ∙ sym (texts-append users (u ∷ [])),
          )
      | inr failed ↦ inr failed
    ];
    measured = elim (has.counted (queue_key mode) w) [
      | inl e ↦ inl (e ∙ ap (λ n. (ok n, w)) (ap length queued ∙ length-texts users))
      | inr failed ↦ inr failed
    ];
    served = λ n. elim (has.taken_off (queue_key mode) n w) [
      | inl (w', e, at) ↦ inl (
        w',
        rw e (rw queued (read_off n users w' small)),
        at ∙ ap (drop n) queued ∙ drop-texts n users,
      )
      | inr (x, e) ↦ inr (x, rw e refl)
    ];
    left = λ u fits. elim (has.removed (queue_key mode) (itoa (pos u)) w) [
      | inl (w', e, at) ↦
          inl (w', e, at ∙ ap (without (itoa (pos u))) queued ∙ without-texts u users fits small)
      | inr failed ↦ inr failed
    ];
  }
