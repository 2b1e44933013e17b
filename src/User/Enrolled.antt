-- ===== src/User/Enrolled.antt =====
-- What a registration answers and what it leaves in the table, on every path.
use go_lobby.Prelude.{nat_eq, ℕ, suc, ◌<◌, List, [], ◌∷◌, ◌++◌, Bool, true, false, ◌&&◌, not}
use go_lobby.Prelude.{Option, none, some, has_value, if◌then◌else◌, eqb, arith}
use go_lobby.Prelude.{Error, Result, ok, err, ◌≡◌, refl, sym, subst, ◌⊎◌, inl, inr}
use go_lobby.Prelude.{external, user_exists}
use go_lobby.Prelude.Text.{Str, str_eq}
use go_lobby.Prelude.Effect.{M, and_then}
use go_lobby.User.{
  users_with, create_user, register_found, register_hashed, hash_password, with_id, new_user,
}
use go_lobby.User.{User, Users, Bcrypt, UserRegisterRequest, on_users, first_row, has_name}
use go_lobby.User.{is_deleted, find_by_user_name, register_user}
use go_lobby.User.Genuine.{OneEach, register_user-OneEach}

-- Whether the next statement fails, and what is left for the ones after it.
abbrev pub next_fails : List Bool → Bool
next_fails [] = false
next_fails (b ∷ faults) = b

abbrev later_faults : List Bool → List Bool
later_faults [] = []
later_faults (b ∷ faults) = faults

abbrev later_users : Users → Users
later_users db = record db { faults = later_faults db.faults }

on_users-if :
    {A : Type 0} (m : M Users A) (db : Users)
    → on_users m db
      ≡ (if next_fails db.faults then (err external, later_users db) else m (later_users db))
unfolding on_users users_with
on_users-if m db = go db.faults
  where
    go :
        (f : List Bool)
        → users_with f m db ≡ (
            if next_fails f
            then (err external, record db { faults = later_faults f })
            else m (record db { faults = later_faults f }))
    go [] = refl
    go (true ∷ f) = refl
    go (false ∷ f) = refl

module _ (collate : Str → Str) (bcrypt : Bcrypt) (req : UserRegisterRequest) where
  -- A row that a registration finds under the name.
  abbrev pub is_taken : User → Bool
  is_taken u = has_name collate req.user_name u && not (is_deleted u.status)

  -- One row was added for a name that no row has, with a hash of the password.
  abbrev Added : Users → Result User × Users → Type 0
  Added db out =
      (hash : Str) × (bcrypt.generate_from_password db.seed req.password ≡ ok hash)
      × (first_row (has_name collate req.user_name) db.rows ≡ none)
      × (let user : User = record (new_user req hash db.clock db.clock) { id = db.next_id } in
          (out.0 ≡ ok user) × (out.1.rows ≡ db.rows ++ (user ∷ [])))

  -- Under a taken name nobody is registered, and no password is hashed; otherwise a row is added, or
  -- there is an error and the rows are as before.
  abbrev pub Enrolled : Users → Bool → Result User × Users → Type 0
  Enrolled db true out =
      (out.0 ≡ err (if next_fails db.faults then external else user_exists))
      × (out.1.rows ≡ db.rows)
      × (out.1.next_id ≡ db.next_id)
      × (out.1.seed ≡ db.seed)
  Enrolled db false out = Added db out ⊎ ((e : Error) × (out.0 ≡ err e) × (out.1.rows ≡ db.rows))

  -- The insertion and what follows it, after a salt was taken.
  register_hashed-Enrolled :
      (hash : Str) (db : Users) (faults : List Bool) (seed : ℕ)
      → 0 < db.next_id
      → bcrypt.generate_from_password db.seed req.password ≡ ok hash
      → Enrolled db false
          (register_hashed collate req hash (record db { faults = faults; seed = seed }))
  unfolding register_hashed create_user with_id
  register_hashed-Enrolled hash db faults seed started made =
      subst (λ r. Enrolled db false (and_then r (with_id user))) (sym (on_users-if insertion w))
        (go (next_fails faults) (first_row (has_name collate req.user_name) db.rows) refl)
    where
      w : Users
      w = record db { faults = faults; seed = seed }

      user : User
      user = new_user req hash db.clock db.clock

      insertion : M Users ℕ
      insertion d =
          if has_value (first_row (has_name collate req.user_name) d.rows)
          then (err external, d)
          else (
            ok d.next_id,
            record d {
              rows = d.rows ++ (record user { id = d.next_id } ∷ []);
              next_id = suc d.next_id;
            },
          )

      positive : eqb db.next_id 0 ≡ false
      positive = ground arith

      go :
          (fails : Bool) (named : Option User)
          → first_row (has_name collate req.user_name) db.rows ≡ named
          → let r : Result ℕ × Users =
              if fails
              then (err external, later_users w)
              else if has_value named
              then (err external, later_users w)
              else (
                ok db.next_id,
                record (later_users w) {
                  rows = db.rows ++ (record user { id = db.next_id } ∷ []);
                  next_id = suc db.next_id;
                },
              ) in
            Enrolled db false (and_then r (with_id user))
      go true named e = inr (external, refl, refl)
      go false (some v) e = inr (external, refl, refl)
      go false none e = rw positive (inl (hash, made, e, (refl, refl)))

  -- After the read of the name.
  register_found-Enrolled :
      (db : Users) (found : Option User)
      → 0 < db.next_id
      → next_fails db.faults ≡ false
      → Enrolled db (has_value found) (register_found collate bcrypt req found (later_users db))
  unfolding register_found hash_password
  register_found-Enrolled db (some u) started works = rw works (refl, refl, refl, refl)
  register_found-Enrolled db none started works =
      go (bcrypt.generate_from_password db.seed req.password) refl
    where
      salted : Users
      salted = record (later_users db) { seed = suc db.seed }

      go :
          (r : Result Str)
          → bcrypt.generate_from_password db.seed req.password ≡ r
          → let pair : Result Str × Users = (r, salted) in
            Enrolled db false (and_then pair (register_hashed collate req))
      go (ok hash) made =
          register_hashed-Enrolled hash db (later_faults db.faults) (suc db.seed) started made
      go (err e) failed = inr (e, refl, refl)

  -- Whatever statements fail, with the ids counted from 1 and one row for every name before: if a row
  -- that is not deleted has the name, as the database compares names, the answer is that the user
  -- exists, or the error of the read if that fails, and neither the rows nor the next id nor the
  -- source of the salts change. Otherwise either the answer is the user with the next id and a hash
  -- of the password, no row had the name, not even a deleted one, and exactly this row was added;
  -- or there is an error and the rows are as before. Afterwards every name has one row.
  pub register_user-Enrolled :
      (db : Users)
      → 0 < db.next_id
      → OneEach collate db.rows
      → let out = register_user collate bcrypt req db in
        Enrolled db (has_value (first_row is_taken db.rows)) out × OneEach collate out.1.rows
  unfolding register_user find_by_user_name
  register_user-Enrolled db started one = (
    subst
        (λ r.
          Enrolled db (has_value (first_row is_taken db.rows))
            (and_then r (register_found collate bcrypt req)))
        (sym (on_users-if (λ d. (ok (first_row is_taken d.rows), d)) db))
        (go (next_fails db.faults) (first_row is_taken db.rows) refl),
    register_user-OneEach collate bcrypt req db one,
  )
    where
      go :
          (fails : Bool) (found : Option User)
          → next_fails db.faults ≡ fails
          → let r : Result (Option User) × Users =
              if fails then (err external, later_users db) else (ok found, later_users db) in
            Enrolled db (has_value found) (and_then r (register_found collate bcrypt req))
      go true none e = inr (external, refl, refl)
      go true (some u) e = rw e (refl, refl, refl, refl)
      go false found e = register_found-Enrolled db found started e
