-- ===== src/Tests/Stores.antt =====
-- A Redis in memory that never fails, and what is documented of it.
use go_lobby.Prelude.{
  nat_eq, List, [], ◌∷◌, Bool, true, false, not, ◌&&◌, Option, none, some, has_value, if◌then◌else◌,
  contains,
}
use go_lobby.Prelude.{ok, ◌==◌, ◌≡◌, refl, ap, ◌∙◌, inl}
use go_lobby.Prelude.{arith, ==-refl, length, drop, ◌++◌}
use go_lobby.Prelude.Text.{Str, str_eq}
use go_lobby.Redis.{
  Command, put, drop_key, add_member, remove_member, Redis, IsRedis, IsWritten, IsShared,
  string_after, member_after, without, popped, HasLists,
}

pub record Memory : Type 0 where
  pub strings : Str → Option Str
  pub sets : Str → List Str
  pub lists : Str → List Str

abbrev run : Command → Memory → Memory
run (put k v) w = record w { strings = λ i. if k == i then some v else w.strings i }
run (drop_key k) w = record w { strings = λ i. if k == i then none else w.strings i }
run (add_member k v) w = record w { sets = λ i. if k == i then v ∷ w.sets i else w.sets i }
run (remove_member k v) w = record w {
  sets = λ i. if k == i then without v (w.sets i) else w.sets i;
}

abbrev run_all : List Command → Memory → Memory
run_all [] w = w
run_all (c ∷ cs) w = run_all cs (run c w)

abbrev write_list : Str → List Str → Memory → Memory
write_list k xs w = record w { lists = λ i. if k == i then xs else w.lists i }

abbrev pub string_at : Memory → Str → Option Str
string_at w = w.strings

abbrev pub member_at : Memory → Str → Str → Bool
member_at w k x = contains x (w.sets k)

abbrev pub lists_at : Memory → Str → List Str
lists_at w = w.lists

abbrev pub memory : Redis Memory
memory = record {
  get = λ k w. (ok (w.strings k), w);
  set = λ k v w. (ok tt, run (put k v) w);
  set_nx = λ k v w. (
    ok (not (has_value (w.strings k))),
    record w {
      strings = λ i.
          if k == i then (if has_value (w.strings k) then w.strings k else some v) else w.strings i;
    },
  );
  del = λ k w. (ok tt, run (drop_key k) w);
  exec = λ cs w. (ok tt, run_all cs w);
  s_members = λ k w. (ok (w.sets k), w);
  r_push = λ k v w. (ok tt, write_list k (w.lists k ++ v ∷ []) w);
  l_len = λ k w. (ok (length (w.lists k)), w);
  l_pop_count = λ k n w. (ok (popped n (w.lists k)), write_list k (drop n (w.lists k)) w);
  l_rem_all = λ k v w. (ok tt, write_list k (without v (w.lists k)) w);
}

pub memory-IsRedis : IsRedis memory string_at
memory-IsRedis = record {
  got = λ k w. inl refl;
  taken = λ k v w. inl (_, refl, λ j. refl);
  deleted = λ k w. inl (_, refl, λ j. refl);
}

strings_after :
    (cs : List Command) (w : Memory) (j : Str)
    → (run_all cs w).strings j ≡ string_after cs w.strings j
strings_after [] w j = refl
strings_after (put k v ∷ cs) w j = strings_after cs (run (put k v) w) j
strings_after (drop_key k ∷ cs) w j = strings_after cs (run (drop_key k) w) j
strings_after (add_member k v ∷ cs) w j = strings_after cs (run (add_member k v) w) j
strings_after (remove_member k v ∷ cs) w j = strings_after cs (run (remove_member k v) w) j

pub memory-IsWritten : IsWritten memory string_at
memory-IsWritten = record {
  put_done = λ k v w. inl (run (put k v) w, refl, λ j. refl);
  ran = λ cs w. inl (run_all cs w, refl, strings_after cs w);
}

contains-without :
    (v x : Str) (xs : List Str)
    → contains x (without v xs) ≡ (if v == x then false else contains x xs)
contains-without v x [] = ground arith
contains-without v x (y ∷ xs) =
    ground
      (arith, contains-without v x xs, str_eq.beq_iff y v, str_eq.beq_iff y x, str_eq.beq_iff v x)

added :
    (k v : Str) (w : Memory) (i n : Str)
    → member_at (run (add_member k v) w) i n ≡ (if k == i && v == n then true else member_at w i n)
added k v w i n = ground arith

removed :
    (k v : Str) (w : Memory) (i n : Str)
    → member_at (run (remove_member k v) w) i n
      ≡ (if k == i && v == n then false else member_at w i n)
removed k v w i n = ground (arith, contains-without v n (w.sets i))

sets_after :
    (cs : List Command) (w : Memory) (j x : Str)
    → member_at (run_all cs w) j x ≡ member_after cs (member_at w) j x
sets_after [] w j x = refl
sets_after (put k v ∷ cs) w j x = sets_after cs (run (put k v) w) j x
sets_after (drop_key k ∷ cs) w j x = sets_after cs (run (drop_key k) w) j x
sets_after (add_member k v ∷ cs) w j x =
    sets_after cs (run (add_member k v) w) j x
    ∙ ap (λ f. member_after cs f j x) (λ t i n. added k v w i n t)
sets_after (remove_member k v ∷ cs) w j x =
    sets_after cs (run (remove_member k v) w) j x
    ∙ ap (λ f. member_after cs f j x) (λ t i n. removed k v w i n t)

pub memory-IsShared : IsShared memory string_at member_at
memory-IsShared = record {
  shared = λ cs w. inl (run_all cs w, refl, (strings_after cs w, sets_after cs w));
  listed = λ k w. inl (w.sets k, refl, λ x. refl);
}

written_at : (k : Str) (xs : List Str) (w : Memory) → (write_list k xs w).lists k ≡ xs
written_at k xs w = rw (==-refl k) refl

pub memory-HasLists : HasLists memory lists_at
memory-HasLists = record {
  pushed = λ k v w. inl (_, refl, written_at k (w.lists k ++ v ∷ []) w);
  counted = λ k w. inl refl;
  taken_off = λ k n w. inl (_, refl, written_at k (drop n (w.lists k)) w);
  removed = λ k v w. inl (_, refl, written_at k (without v (w.lists k)) w);
}
