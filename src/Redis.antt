-- ===== src/Redis.antt =====
-- Redis as the repositories use it through go-redis: a parameter. A missing key is `none`, and an
-- error is the client's.
use go_lobby.Prelude.{nat_eq, List, [], ◌∷◌, Bool, true, false, not, Option, none, some, has_value}
use go_lobby.Prelude.{
  ℕ, Eq, take, drop, length, ◌++◌, contains, if◌then◌else◌, Error, ok, err, ◌==◌, ◌&&◌, ◌≡◌, ◌⊎◌,
}
use go_lobby.Prelude.Text.{Str, str_eq}
use go_lobby.Prelude.Effect.{M, Done}

-- A command of a pipeline: SET, DEL, SADD and SREM.
pub data Command : Type 0 where
  put : Str → Str → Command
  drop_key : Str → Command
  add_member : Str → Str → Command
  remove_member : Str → Str → Command

-- `exec` runs a `TxPipeline`.
pub record Redis (W : Type 0) : Type 0 where
  pub get : Str → M W (Option Str)
  pub set : Str → Str → M W Done
  pub set_nx : Str → Str → M W Bool
  pub del : Str → M W Done
  pub exec : List Command → M W Done
  pub s_members : Str → M W (List Str)
  pub r_push : Str → Str → M W Done
  pub l_len : Str → M W ℕ
  pub l_pop_count : Str → ℕ → M W (Option (List Str))
  pub l_rem_all : Str → Str → M W Done  -- with a count of 0

-- Redis as a map that a world has: a command that fails changes nothing.
pub record IsRedis {W : Type 0} (rdb : Redis W) (stored : W → Str → Option Str) : Type 0 where
  pub got :
      (k : Str) (w : W)
      → (rdb.get k w ≡ (ok (stored w k), w)) ⊎ ((e : Error) × (rdb.get k w ≡ (err e, w)))
  pub taken :
      (k v : Str) (w : W)
      → ((w' : W) × (rdb.set_nx k v w ≡ (ok (not (has_value (stored w k))), w'))
          × ((j : Str)
              → stored w' j ≡ (
                  if k == j
                  then (if has_value (stored w k) then stored w k else some v)
                  else stored w j)))
        ⊎ ((e : Error) × (rdb.set_nx k v w ≡ (err e, w)))
  pub deleted :
      (k : Str) (w : W)
      → ((w' : W) × (rdb.del k w ≡ (ok tt, w'))
          × ((j : Str) → stored w' j ≡ (if k == j then none else stored w j)))
        ⊎ ((e : Error) × (rdb.del k w ≡ (err e, w)))

-- What the commands of a pipeline, one after the other, make of the strings and of the sets.
abbrev pub string_after : List Command → (Str → Option Str) → Str → Option Str
string_after [] strings k = strings k
string_after (put j v ∷ cs) strings k =
    string_after cs (λ i. if j == i then some v else strings i) k
string_after (drop_key j ∷ cs) strings k =
    string_after cs (λ i. if j == i then none else strings i) k
string_after (add_member j v ∷ cs) strings k = string_after cs strings k
string_after (remove_member j v ∷ cs) strings k = string_after cs strings k

abbrev pub member_after : List Command → (Str → Str → Bool) → Str → Str → Bool
member_after [] members k m = members k m
member_after (put j v ∷ cs) members k m = member_after cs members k m
member_after (drop_key j ∷ cs) members k m = member_after cs members k m
member_after (add_member j v ∷ cs) members k m =
    member_after cs (λ i n. if j == i && v == n then true else members i n) k m
member_after (remove_member j v ∷ cs) members k m =
    member_after cs (λ i n. if j == i && v == n then false else members i n) k m

-- SET and pipelines on the strings of the same map.
pub record IsWritten {W : Type 0} (rdb : Redis W) (stored : W → Str → Option Str) : Type 0 where
  pub put_done :
      (k v : Str) (w : W)
      → ((w' : W) × (rdb.set k v w ≡ (ok tt, w'))
          × ((j : Str) → stored w' j ≡ (if k == j then some v else stored w j)))
        ⊎ ((e : Error) × (rdb.set k v w ≡ (err e, w)))
  pub ran :
      (cs : List Command) (w : W)
      → ((w' : W) × (rdb.exec cs w ≡ (ok tt, w'))
          × ((j : Str) → stored w' j ≡ string_after cs (stored w) j))
        ⊎ ((e : Error) × (rdb.exec cs w ≡ (err e, w)))

-- What all commands of a pipeline make of the strings and the sets of a world.
abbrev pub HasRun :
    {W : Type 0} → (W → Str → Option Str) → (W → Str → Str → Bool) → List Command → W → W → Type 0
HasRun stored members cs w w' =
    ((j : Str) → stored w' j ≡ string_after cs (stored w) j)
    × ((j x : Str) → members w' j x ≡ member_after cs (members w) j x)

-- A transaction on the strings and on the sets, whose keys hold what the commands expect: it runs as
-- a whole or not at all, and its error may come after it ran. The members of a set come in some
-- order.
pub record IsShared {W : Type 0} (rdb : Redis W) (stored : W → Str → Option Str)
    (members : W → Str → Str → Bool) : Type 0 where
  pub shared :
      (cs : List Command) (w : W)
      → ((w' : W) × (rdb.exec cs w ≡ (ok tt, w')) × HasRun stored members cs w w')
        ⊎ ((e : Error) × (w' : W) × (rdb.exec cs w ≡ (err e, w'))
            × ((w' ≡ w) ⊎ HasRun stored members cs w w'))
  pub listed :
      (k : Str) (w : W)
      → ((xs : List Str) × (rdb.s_members k w ≡ (ok xs, w))
          × ((x : Str) → contains x xs ≡ members w k x))
        ⊎ ((e : Error) × (rdb.s_members k w ≡ (err e, w)))

-- A list without every copy of a value.
abbrev pub without {ℓ} : {A : Type ℓ} ⦃e : Eq A⦄ → A → List A → List A
without v [] = []
without v (x ∷ xs) = let rest = without v xs in if x == v then rest else x ∷ rest

-- An empty list is no list.
abbrev pub popped : ℕ → List Str → Option (List Str)
popped n [] = none
popped n (x ∷ xs) = some (take n (x ∷ xs))

-- The lists of the same map, a missing one empty.
pub record HasLists {W : Type 0} (rdb : Redis W) (list : W → Str → List Str) : Type 0 where
  pub pushed :
      (k v : Str) (w : W)
      → ((w' : W) × (rdb.r_push k v w ≡ (ok tt, w')) × (list w' k ≡ list w k ++ v ∷ []))
        ⊎ ((e : Error) × (rdb.r_push k v w ≡ (err e, w)))
  pub counted :
      (k : Str) (w : W)
      → (rdb.l_len k w ≡ (ok (length (list w k)), w)) ⊎ ((e : Error) × (rdb.l_len k w ≡ (err e, w)))
  pub taken_off :
      (k : Str) (n : ℕ) (w : W)
      → ((w' : W) × (rdb.l_pop_count k n w ≡ (ok (popped n (list w k)), w'))
          × (list w' k ≡ drop n (list w k)))
        ⊎ ((e : Error) × (rdb.l_pop_count k n w ≡ (err e, w)))
  pub removed :
      (k v : Str) (w : W)
      → ((w' : W) × (rdb.l_rem_all k v w ≡ (ok tt, w')) × (list w' k ≡ without v (list w k)))
        ⊎ ((e : Error) × (rdb.l_rem_all k v w ≡ (err e, w)))
