-- ===== src/User/Genuine.antt =====
-- Who gets a token, and that a name has one row.
use go_lobby.Prelude.{nat_eq, ℕ, suc, List, [], ◌∷◌, ◌++◌, Bool, true, false, ◌&&◌, not}
use go_lobby.Prelude.{Option, none, some, has_value, if◌then◌else◌, eqb, ◌==◌, arith}
use go_lobby.Prelude.{
  Result, ok, err, ◌≡◌, refl, sym, ◌∙◌, ap, subst, ◌∈◌, inl, inr, bad_credentials, user_banned,
}
use go_lobby.Prelude.Text.{Str, str_eq}
use go_lobby.Prelude.Effect.{M, pure, lift, stop_if, and_then, and_then-eq-ok, Ensures}
use go_lobby.Prelude.Effect.{Keeps, Keeps-bind, Keeps-stop_if, Keeps-pure}
use go_lobby.Prelude.{external, register_failed, user_exists}
use go_lobby.User.{
  users_with, create_user, register_found, register_hashed, hash_password, with_id, new_user,
}
use go_lobby.User.{User, Users, Bcrypt, Jwt, JwtManager, UserRegisterRequest, UserLoginRequest}
use go_lobby.User.{UserLoginResponse, on_users, first_row, has_name, is_deleted, is_banned}
use go_lobby.User.{find_by_user_name, check_password, generate_token, register_user, login_found}
use go_lobby.User.{login_user, claims_of}
use go_lobby.User.Login.{on_users-eq-ok}

first_row-eq-some :
    (test : User → Bool) (us : List User) {u : User}
    → first_row test us ≡ some u
    → (u ∈ us) × (test u ≡ true)
unfolding first_row
first_row-eq-some test [] e = cc
first_row-eq-some test (v ∷ us) {u} e = go (test v) (λ f. first_row-eq-some test us f) refl e
  where
    go :
        (b : Bool)
        → (first_row test us ≡ some u → (u ∈ us) × (test u ≡ true))
        → test v ≡ b
        → (if b then some v else first_row test us) ≡ some u
        → (u ∈ v ∷ us) × (test u ≡ true)
    go true later passed found =
        let same : v ≡ u = cc in (inl (sym same), subst (λ w. test w ≡ true) same passed)
    go false later failed found = let r = later found in (inr r.0, r.1)

module _ (collate : Str → Str) (bcrypt : Bcrypt) (jwt : Jwt) (manager : JwtManager) where
  -- A row whose password was given, and the token signed for it.
  abbrev pub IsGenuine : Str → User → UserLoginResponse → Type 0
  IsGenuine password u resp =
      (check_password bcrypt password u.password_hash ≡ true)
      × (is_banned u.status ≡ false)
      × (resp.user_id ≡ u.id)
      × ((now : ℕ) × (jwt.signed_string (claims_of jwt manager u now) manager.secret
            ≡ ok resp.token))

  login_found-IsGenuine :
      (password : Str) (found : Option User) (w : Users) {resp : UserLoginResponse} {w' : Users}
      → login_found collate bcrypt jwt manager password found w ≡ (ok resp, w')
      → (u : User) × (found ≡ some u) × IsGenuine password u resp
  unfolding login_found generate_token
  login_found-IsGenuine password none w e = cc
  login_found-IsGenuine password (some u) w {resp} {w'} e = (
    u,
    refl,
    go (check_password bcrypt password u.password_hash) (is_banned u.status) refl refl e,
  )
    where
      answer : Str × ℕ → M Users UserLoginResponse
      answer r = pure (record {
        token = r.0;
        expires_in = r.1;
        user_id = u.id;
        user_name = u.user_name;
        nickname = u.nickname;
      })

      sign : ℕ → Result Str
      sign now = jwt.signed_string (claims_of jwt manager u now) manager.secret

      expiry : Str → M Users (Str × ℕ)
      expiry t = pure (t, jwt.seconds manager.expire_duration)

      answered :
          (signed : Result Str)
          → sign w.clock ≡ signed
          → and_then (and_then (lift signed w) expiry) answer ≡ (ok resp, w')
          → (resp.user_id ≡ u.id) × ((now : ℕ) × (sign now ≡ ok resp.token))
      answered (ok t) made done =
          let token : t ≡ resp.token = cc in (cc, (w.clock, made ∙ ap (λ x. ok x) token))
      answered (err x) made done = cc

      go :
          (b c : Bool)
          → check_password bcrypt password u.password_hash ≡ b
          → is_banned u.status ≡ c
          → and_then (stop_if (not b) bad_credentials w) (λ _ w₁.
            and_then
              (stop_if c user_banned w₁)
              λ _ w₂. and_then (and_then (lift (sign w₂.clock) w₂) expiry) answer)
            ≡ (ok resp, w')
          → IsGenuine password u resp
      go true false good open_ done =
          let r = answered (sign w.clock) refl done in (good, open_, r.0, r.1)
      go true true good open_ done = cc
      go false c good open_ done = cc

  -- A login that succeeds was for a row with the name, neither deleted nor banned, to whose hash the
  -- password fits; the token is signed for that user.
  pub login_user-IsGenuine :
      (req : UserLoginRequest) (db : Users) {resp : UserLoginResponse} {db' : Users}
      → login_user collate bcrypt jwt manager req db ≡ (ok resp, db')
      → (u : User) × (u ∈ db.rows)
        × ((has_name collate req.user_name u && not (is_deleted u.status)) ≡ true)
        × IsGenuine req.password u resp
  unfolding login_user find_by_user_name
  login_user-IsGenuine req db {resp} {db'} e =
      let test : User → Bool = λ u. has_name collate req.user_name u && not (is_deleted u.status) in
      let found =
        and_then-eq-ok (find_by_user_name collate req.user_name db)
          (login_found collate bcrypt jwt manager req.password) e in
      let genuine = login_found-IsGenuine req.password found.0 found.1 found.3 in
      let read = on_users-eq-ok (λ d. (ok (first_row test d.rows), d)) db found.2 in
      let row : first_row test db.rows ≡ found.0 = cc in
      let at = first_row-eq-some test db.rows (row ∙ genuine.1) in
      (genuine.0, at.0, at.1, genuine.2)

-- Every name, as the database compares names, has one row.
unfoldable pub OneEach : (Str → Str) → List User → Type 0
OneEach collate [] = Unit {0}
OneEach collate (u ∷ us) = (first_row (has_name collate u.user_name) us ≡ none) × OneEach collate us

one_more :
    (collate : Str → Str) (u v : User) (us : List User)
    → first_row (has_name collate u.user_name) us ≡ none
    → (collate u.user_name == collate v.user_name) ≡ false
    → first_row (has_name collate u.user_name) (us ++ (v ∷ [])) ≡ none
unfolding first_row
one_more collate u v [] none_yet other = ground (
  arith,
  str_eq.beq_iff (collate u.user_name) (collate v.user_name),
  str_eq.beq_iff (collate v.user_name) (collate u.user_name),
)
one_more collate u v (x ∷ us) none_yet other = ground (arith, one_more collate u v us)

added-OneEach :
    (collate : Str → Str) (v : User) (us : List User)
    → first_row (has_name collate v.user_name) us ≡ none
    → OneEach collate us
    → OneEach collate (us ++ (v ∷ []))
unfolding first_row OneEach
added-OneEach collate v [] new i = (refl, tt)
added-OneEach collate v (u ∷ us) new (one, i) =
    let other : (collate u.user_name == collate v.user_name) ≡ false = ground (arith, new) in
    (one_more collate u v us one other, added-OneEach collate v us (ground (arith, new, other)) i)

module _ (collate : Str → Str) where
  abbrev Named : Users → Type 0
  Named db = OneEach collate db.rows

  on_users-Keeps :
      {A : Type 0} (m : M Users A)
      → Keeps Named (λ _. Unit {0}) m
      → Keeps Named (λ _. Unit {0}) (on_users m)
  unfolding Keeps on_users users_with
  on_users-Keeps {A} m keeps db i = go db.faults
    where
      go :
          (f : List Bool)
          → Named (users_with f m db).1 × Ensures (λ _. Unit {0}) (users_with f m db).0
      go [] = keeps (record db { faults = [] }) i
      go (true ∷ f) = (i, tt)
      go (false ∷ f) = keeps (record db { faults = f }) i

  create_user-Keeps : (user : User) → Keeps Named (λ _. Unit {0}) (create_user collate user)
  unfolding create_user Keeps
  create_user-Keeps user =
      on_users-Keeps _ λ db i. go db (first_row (has_name collate user.user_name) db.rows) refl i
    where
      go :
          (db : Users) (o : Option User)
          → first_row (has_name collate user.user_name) db.rows ≡ o
          → Named db
          → let out : Result ℕ × Users = if has_value o then (err external, db) else (
            ok db.next_id,
            record db {
              rows = db.rows ++ (record user { id = db.next_id } ∷ []);
              next_id = suc db.next_id;
            },
          ) in
            Named out.1 × Ensures (λ _. Unit {0}) out.0
      go db none new i = (added-OneEach collate (record user { id = db.next_id }) db.rows new i, tt)
      go db (some u) old i = (i, tt)

  -- A registration keeps one row for every name, whether it succeeds or fails.
  pub register_user-OneEach :
      (bcrypt : Bcrypt) (req : UserRegisterRequest) (db : Users)
      → OneEach collate db.rows
      → OneEach collate (register_user collate bcrypt req db).1.rows
  unfolding register_user register_found register_hashed hash_password with_id find_by_user_name
      Keeps
  register_user-OneEach bcrypt req db i = let k = keeps db i in k.0
    where
      any_result : {A : Type 0} (r : Result A) → Ensures (λ _. Unit {0}) r
      any_result (ok a) = tt
      any_result (err e) = tt

      finish : (user : User) (id : ℕ) → Keeps Named (λ _. Unit {0}) (with_id user id)
      finish user id =
          Keeps-bind Named (λ _. eqb id 0 ≡ false) (λ _. Unit {0})
            (stop_if (eqb id 0) register_failed) (λ _. pure (record user { id = id }))
            (Keeps-stop_if Named (eqb id 0) register_failed)
            (λ _ _. Keeps-pure Named (λ _. Unit {0}) (record user { id = id }) tt)

      insertion :
          (user : User) (w : Users)
          → Named w
          → let r = and_then (create_user collate user w) (with_id user) in
            Named r.1 × Ensures (λ _. Unit {0}) r.0
      insertion user =
          Keeps-bind Named (λ _. Unit {0}) (λ _. Unit {0}) (create_user collate user) (with_id user)
            (create_user-Keeps user) (λ id _. finish user id)

      hashed : (hash : Str) → Keeps Named (λ _. Unit {0}) (register_hashed collate req hash)
      hashed hash w j = insertion (new_user req hash w.clock w.clock) w j

      found_no :
          (found : Option User)
          → Keeps Named (λ _. Unit {0}) (register_found collate bcrypt req found)
      found_no found =
          Keeps-bind Named (λ _. has_value found ≡ false) (λ _. Unit {0})
            (stop_if (has_value found) user_exists)
            (λ _ w. and_then (hash_password bcrypt req.password w) (register_hashed collate req))
            (Keeps-stop_if Named (has_value found) user_exists)
            λ _ _.
              Keeps-bind Named (λ _. Unit {0}) (λ _. Unit {0}) (hash_password bcrypt req.password)
                (register_hashed collate req)
                (λ w j. (j, any_result (bcrypt.generate_from_password w.seed req.password)))
                λ hash _. hashed hash

      keeps : Keeps Named (λ _. Unit {0}) (register_user collate bcrypt req)
      keeps =
          Keeps-bind Named (λ _. Unit {0}) (λ _. Unit {0}) (find_by_user_name collate req.user_name)
            (register_found collate bcrypt req) (on_users-Keeps _ λ w j. (j, tt))
            λ found _. found_no found
