-- ===== src/User/Login.antt =====
-- Registration, login and the token that a login hands out.
use go_lobby.Prelude.{nat_eq, ℕ, suc, ◌+◌, ◌<◌, List, [], ◌∷◌, ◌++◌, Bool, true, false, ◌&&◌, not}
use go_lobby.Prelude.{Option, none, some, has_value, if◌then◌else◌, eqb, ==-refl, arith}
use go_lobby.Prelude.{
  register_failed, user_exists, Result, ok, err, external, ◌≡◌, refl, sym, ◌∙◌, ap, subst,
}
use mathlib.Core.List.{append_assoc}
use go_lobby.Prelude.{◌≢◌}
use go_lobby.Prelude.Text.{Str, str_eq}
use go_lobby.Prelude.Effect.{M, pure, stop_if, and_then, and_then-eq-ok}
use go_lobby.User.{
  normal, User, Users, Bcrypt, Jwt, JwtManager, UserRegisterRequest, UserLoginRequest,
}
use go_lobby.User.{UserLoginResponse, UserClaims, users_with, on_users, first_row, has_name}
use go_lobby.User.{find_by_user_name, create_user, hash_password, check_password}
use go_lobby.User.{generate_token, key_for, valid_claims, parse_token, new_user, with_id}
use go_lobby.User.{
  register_user, register_found, register_hashed, login_found, login_user, is_deleted, claims_of,
}

-- A password matches the hashes made of it.
abbrev pub Matches : Bcrypt → Type 0
Matches bcrypt =
    (seed : ℕ) (password hash : Str)
    → bcrypt.generate_from_password seed password ≡ ok hash
    → bcrypt.compare_hash_and_password hash password ≡ true

-- Claims are signed by a token that is not empty, and until they expire the same key gives them back
-- as valid.
abbrev pub Signs : Jwt → Type 0
Signs jwt =
    (claims : UserClaims) (key : Str)
    → (token : Str) × (jwt.signed_string claims key ≡ ok token)
      × ((key_func : Bool → Result Str) (now : ℕ)
          → key_func true ≡ ok key
          → jwt.new_numeric_date now < claims.expires_at
          → jwt.parse_with_claims key_func now token ≡ ok (claims, true))
      × (token ≢ [])

first_row-append :
    (test : User → Bool) (us vs : List User)
    → first_row test us ≡ none
    → first_row test (us ++ vs) ≡ first_row test vs
unfolding first_row
first_row-append test [] vs e = refl
first_row-append test (u ∷ us) vs e = ground (arith, first_row-append test us vs)

first_row-and :
    (test more : User → Bool) (us : List User)
    → first_row test us ≡ none
    → first_row (λ u. test u && more u) us ≡ none
unfolding first_row
first_row-and test more [] e = refl
first_row-and test more (u ∷ us) e = ground (arith, first_row-and test more us)

-- A statement that succeeds did not fail.
pub on_users-eq-ok :
    {A : Type 0} (m : M Users A) (db : Users) {a : A} {db' : Users}
    → on_users m db ≡ (ok a, db')
    → (f : List Bool) × (m (record db { faults = f }) ≡ (ok a, db'))
unfolding on_users users_with
on_users-eq-ok {A} m db {a} {db'} e = go db.faults e
  where
    go :
        (f : List Bool)
        → users_with f m db ≡ (ok a, db')
        → (f' : List Bool) × (m (record db { faults = f' }) ≡ (ok a, db'))
    go [] e = ([], e)
    go (true ∷ f) e = cc
    go (false ∷ f) e = (f, e)

-- An insertion that succeeds adds one row, whose name is new.
pub created :
    (collate : Str → Str) (user : User) (db : Users) {id : ℕ} {db' : Users}
    → create_user collate user db ≡ (ok id, db')
    → (first_row (has_name collate user.user_name) db.rows ≡ none)
      × (db'.rows ≡ db.rows ++ (record user { id = id } ∷ []))
unfolding create_user
created collate user db {id} {db'} e =
    let r = on_users-eq-ok _ db e in
    go r.0 (first_row (has_name collate user.user_name) db.rows) r.1
  where
    go :
        (f : List Bool) (o : Option User)
        → (let out : Result ℕ × Users =
              if has_value o then (err external, record db { faults = f }) else (
                ok db.next_id,
                record db {
                  faults = f;
                  rows = db.rows ++ (record user { id = db.next_id } ∷ []);
                  next_id = suc db.next_id;
                },
              ) in
            out ≡ (ok id, db'))
        → (o ≡ none) × (db'.rows ≡ db.rows ++ (record user { id = id } ∷ []))
    go f none e = (refl, cc)
    go f (some u) e = cc

with_id-eq-ok :
    (user : User) (id : ℕ) (db : Users) {out : User} {db' : Users}
    → with_id user id db ≡ (ok out, db')
    → (out ≡ record user { id = id }) × (db' ≡ db)
unfolding with_id
with_id-eq-ok user id db {out} {db'} e = go (eqb id 0) e
  where
    go :
        (b : Bool)
        → and_then (stop_if b register_failed db) (λ _. pure (record user { id = id }))
          ≡ (ok out, db')
        → (out ≡ record user { id = id }) × (db' ≡ db)
    go true e = cc
    go false e = (cc, cc)

-- What a registration leaves behind: a hash of the password, in a new row at the end.
abbrev pub Registered : (Str → Str) → Bcrypt → UserRegisterRequest → User → Users → Type 0
Registered collate bcrypt req user db =
    (before : List User) × (seed created_at updated_at : ℕ) × (hash : Str)
    × (bcrypt.generate_from_password seed req.password ≡ ok hash)
    × (first_row (has_name collate req.user_name) before ≡ none)
    × (user ≡ record (new_user req hash created_at updated_at) { id = user.id })
    × (db.rows ≡ before ++ (user ∷ []))

pub register_user-Registered :
    (collate : Str → Str) (bcrypt : Bcrypt) (req : UserRegisterRequest) (db : Users) {user : User}
    {db' : Users}
    → register_user collate bcrypt req db ≡ (ok user, db')
    → Registered collate bcrypt req user db'
unfolding register_user register_found register_hashed hash_password
register_user-Registered collate bcrypt req db {user} {db'} e =
    let found =
      and_then-eq-ok (find_by_user_name collate req.user_name db)
        (register_found collate bcrypt req) e in
    let free =
      and_then-eq-ok (stop_if (has_value found.0) user_exists found.1)
        (λ _ w. and_then (hash_password bcrypt req.password w) (register_hashed collate req))
        found.3 in
    let hashed =
      and_then-eq-ok (hash_password bcrypt req.password free.1) (register_hashed collate req)
        free.3 in
    let user' = new_user req hashed.0 hashed.1.clock hashed.1.clock in
    let inserted = and_then-eq-ok (create_user collate user' hashed.1) (with_id user') hashed.3 in
    let out = with_id-eq-ok user' inserted.0 inserted.1 inserted.3 in
    let row = created collate user' hashed.1 inserted.2 in
    (
      hashed.1.rows,
      free.1.seed,
      hashed.1.clock,
      hashed.1.clock,
      hashed.0,
      ap (λ r. r.0) hashed.2,
      row.0,
      out.0 ∙ ap (λ u. record user' { id = u.id }) (sym out.0),
      ap (λ d. d.rows) out.1 ∙ row.1 ∙ ap (λ u. hashed.1.rows ++ (u ∷ [])) (sym out.0),
    )

abbrev pub login_of : UserRegisterRequest → UserLoginRequest
login_of req = record { user_name = req.user_name; password = req.password }

-- A later state of the database, with more rows, in which no statement fails.
abbrev pub afterwards : Users → List User → ℕ → Users
afterwards db more clock = record db { rows = db.rows ++ more; faults = []; clock = clock }

-- The user's login succeeds, and its token is worth the user until it expires.
abbrev pub LogsIn : Jwt → JwtManager → User → ℕ → Result UserLoginResponse × Users → Type 0
LogsIn jwt manager user clock out =
    (resp : UserLoginResponse) × (out.0 ≡ ok resp)
    × (resp.user_id ≡ user.id)
    × (resp.nickname ≡ user.nickname)
    × ((now : ℕ)
        → jwt.new_numeric_date now < jwt.new_numeric_date (clock + manager.expire_duration)
        → parse_token jwt manager now resp.token ≡ ok (claims_of jwt manager user clock))
    × (resp.token ≢ [])

module _ (collate : Str → Str) (bcrypt : Bcrypt) (jwt : Jwt) (manager : JwtManager)
    (matches : Matches bcrypt) (signs : Signs jwt) where
  found_again :
      (req : UserRegisterRequest) (user : User) (db : Users) (more : List User)
      → Registered collate bcrypt req user db
      → first_row
          (λ u. has_name collate req.user_name u && not (is_deleted u.status))
          (db.rows ++ more)
        ≡ some user
  unfolding first_row
  found_again req user db more (before, seed, c, u, hash, made, new, is, rows) =
      ap (λ l. first_row test (l ++ more)) rows
      ∙ ap (first_row test) (append_assoc before (user ∷ []) more)
      ∙ first_row-append test before (user ∷ more) (
          first_row-and (has_name collate req.user_name) (λ v. not (is_deleted v.status)) before
            new)
      ∙ subst (λ v. first_row test (v ∷ more) ≡ some v) (sym is)
          (rw (==-refl (collate req.user_name)) refl)
    where
      test : User → Bool
      test v = has_name collate req.user_name v && not (is_deleted v.status)

  logged_in :
      (req : UserRegisterRequest) (user : User) (db : Users) (w : Users)
      → Registered collate bcrypt req user db
      → LogsIn jwt manager user w.clock
          (login_found collate bcrypt jwt manager req.password (some user) w)
  unfolding login_found check_password generate_token parse_token key_for valid_claims
  logged_in req user db w (before, seed, c, u, hash, made, new, is, rows) =
      subst
        (λ v.
          LogsIn jwt manager v w.clock
            (login_found collate bcrypt jwt manager req.password (some v) w))
        (sym is) (go (record (new_user req hash c u) { id = user.id }) refl refl)
    where
      go :
          (v : User)
          → v.password_hash ≡ hash
          → v.status ≡ normal
          → LogsIn jwt manager v w.clock
              (login_found collate bcrypt jwt manager req.password (some v) w)
      go v same open_ =
          let signed = signs (claims_of jwt manager v w.clock) manager.secret in
          (
            record {
              token = signed.0;
              expires_in = jwt.seconds manager.expire_duration;
              user_id = v.id;
              user_name = v.user_name;
              nickname = v.nickname;
            },
            rw (same, matches seed req.password hash made, open_, signed.1) refl,
            refl,
            refl,
            λ now valid.
                ap (valid_claims jwt manager) (signed.2 (key_for jwt manager) now refl valid),
            signed.3,
          )

  -- When bcrypt matches its own hashes and HS256 signs and verifies, then after a registration that
  -- succeeds, whatever rows came later, a login with the name and the password succeeds if its
  -- statement does, and until it expires its token is parsed to claims with the user's id and name.
  pub register_user-login_user :
      (req : UserRegisterRequest) (db : Users) {user : User} {db' : Users} (more : List User)
      (clock : ℕ)
      → register_user collate bcrypt req db ≡ (ok user, db')
      → LogsIn jwt manager user clock
          (login_user collate bcrypt jwt manager (login_of req) (afterwards db' more clock))
  unfolding login_user find_by_user_name on_users users_with
  register_user-login_user req db {user} {db'} more clock e =
      let r = register_user-Registered collate bcrypt req db e in
      rw (found_again req user db' more r) (logged_in req user db' (afterwards db' more clock) r)
