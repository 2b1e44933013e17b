-- ===== src/User.antt =====
-- internal/service/user_service.go with internal/repository/user_repository.go and internal/auth.
-- The table `gl_user` is the list of its rows, whose texts the database compares as `collate` says;
-- a statement fails when the next fault says so. bcrypt and golang-jwt are parameters.
pub mod Login
pub mod Genuine
pub mod Enrolled
use go_lobby.Prelude.{nat_eq, ℕ, suc, ◌+◌, List, [], ◌∷◌, ◌++◌, Bool, true, false, ◌&&◌, ◌||◌, not}
use go_lobby.Prelude.{Option, none, some, has_value, if◌then◌else◌, eqb, ◌==◌, Eq}
use go_lobby.Prelude.{Result, ok, err, external, user_exists, register_failed, bad_credentials}
use go_lobby.Prelude.{user_banned, user_not_found, bad_algorithm, bad_token}
use go_lobby.Prelude.Text.{Str, str_eq}
use go_lobby.Prelude.Effect.{M, Done, pure, fail, lift, stop_if, ◌>>=◌, ◌>>◌}

pub data UserStatus : Type 0 where
  normal banned deleted : UserStatus

abbrev pub is_banned : UserStatus → Bool
is_banned banned = true
is_banned _ = false

abbrev pub is_deleted : UserStatus → Bool
is_deleted deleted = true
is_deleted _ = false

pub record User : Type 0 where
  pub id : ℕ
  pub user_name : Str
  pub nickname : Str
  pub password_hash : Str
  pub status : UserStatus
  pub created_at : ℕ
  pub updated_at : ℕ

pub record UserRegisterRequest : Type 0 where
  pub user_name : Str
  pub nickname : Str
  pub password : Str

pub record UserLoginRequest : Type 0 where
  pub user_name : Str
  pub password : Str

pub record UserLoginResponse : Type 0 where
  pub token : Str
  pub expires_in : ℕ
  pub user_id : ℕ
  pub user_name : Str
  pub nickname : Str

pub record UserDetailResponse : Type 0 where
  pub user_name : Str
  pub nickname : Str

-- `seed` is the source of the salts of bcrypt, `clock` that of time.Now().
pub record Users : Type 0 where
  pub rows : List User
  pub next_id : ℕ
  pub faults : List Bool
  pub clock : ℕ
  pub seed : ℕ

-- UserClaims; the subject, the user's id once more, is left out.
pub record UserClaims : Type 0 where
  pub user_id : ℕ
  pub user_name : Str
  pub issued_at : ℕ
  pub expires_at : ℕ

-- bcrypt with a salt, and the comparison of a hash with a password.
pub record Bcrypt : Type 0 where
  pub generate_from_password : ℕ → Str → Result Str
  pub compare_hash_and_password : Str → Str → Bool

-- golang-jwt: times as the claims hold them, signing by HS256, and parsing at a time with a function
-- that gives the key for an HMAC method or another one. A token may parse without being valid.
-- `seconds` is `int64(d.Seconds())`.
pub record Jwt : Type 0 where
  pub new_numeric_date : ℕ → ℕ
  pub seconds : ℕ → ℕ
  pub signed_string : UserClaims → Str → Result Str
  pub parse_with_claims : (Bool → Result Str) → ℕ → Str → Result (UserClaims × Bool)

pub record JwtManager : Type 0 where
  pub secret : Str
  pub expire_duration : ℕ

unfoldable pub users_with : {A : Type 0} → List Bool → M Users A → M Users A
users_with [] m db = m (record db { faults = [] })
users_with (true ∷ faults) m db = (err external, record db { faults = faults })
users_with (false ∷ faults) m db = m (record db { faults = faults })

-- One statement.
unfoldable pub on_users : {A : Type 0} → M Users A → M Users A
unfolding users_with
on_users m db = users_with db.faults m db

-- The first row that passes a test.
unfoldable pub first_row : (User → Bool) → List User → Option User
first_row test [] = none
first_row test (u ∷ us) = if test u then some u else first_row test us

module _ (collate : Str → Str) where
  abbrev pub has_name : Str → User → Bool
  has_name name u = collate u.user_name == collate name

  unfoldable pub find_by_user_name : Str → M Users (Option User)
  unfolding on_users first_row
  find_by_user_name name =
      on_users
        λ db. (ok (first_row (λ u. has_name name u && not (is_deleted u.status)) db.rows), db)

  -- The unique key of the names refuses a second row, the database gives the next number as the id.
  unfoldable pub create_user : User → M Users ℕ
  unfolding on_users first_row
  create_user user = on_users λ db.
      if has_value (first_row (has_name user.user_name) db.rows) then (err external, db) else (
        ok db.next_id,
        record db {
          rows = db.rows ++ (record user { id = db.next_id } ∷ []);
          next_id = suc db.next_id;
        },
      )

unfoldable pub get_user_by_id : ℕ → M Users (Option User)
unfolding on_users first_row
get_user_by_id user_id =
    on_users λ db. (ok (first_row (λ u. eqb u.id user_id && not (is_deleted u.status)) db.rows), db)

unfoldable pub hash_password : Bcrypt → Str → M Users Str
hash_password bcrypt password db =
    (bcrypt.generate_from_password db.seed password, record db { seed = suc db.seed })

unfoldable pub check_password : Bcrypt → Str → Str → Bool
check_password bcrypt password password_hash =
    bcrypt.compare_hash_and_password password_hash password

abbrev pub time_now : M Users ℕ
time_now db = (ok db.clock, db)

module _ (jwt : Jwt) (manager : JwtManager) where
  abbrev pub claims_of : User → ℕ → UserClaims
  claims_of user now = record {
    user_id = user.id;
    user_name = user.user_name;
    issued_at = jwt.new_numeric_date now;
    expires_at = jwt.new_numeric_date (now + manager.expire_duration);
  }

  unfoldable pub generate_token : User → M Users (Str × ℕ)
  generate_token user = do
    now ← time_now
    token ← lift (jwt.signed_string (claims_of user now) manager.secret)
    pure (token, jwt.seconds manager.expire_duration)

  -- The function that gives the key.
  unfoldable pub key_for : Bool → Result Str
  key_for is_hmac = if is_hmac then ok manager.secret else err bad_algorithm

  unfoldable pub valid_claims : Result (UserClaims × Bool) → Result UserClaims
  valid_claims (err e) = err e
  valid_claims (ok (claims, valid)) = if valid then ok claims else err bad_token

  unfoldable pub parse_token : ℕ → Str → Result UserClaims
  unfolding key_for valid_claims
  parse_token now token = valid_claims (jwt.parse_with_claims key_for now token)

-- The row that is inserted, before it has an id.
abbrev pub new_user : UserRegisterRequest → Str → ℕ → ℕ → User
new_user req password_hash created_at updated_at = record {
  id = 0;
  user_name = req.user_name;
  nickname = req.nickname;
  password_hash = password_hash;
  status = normal;
  created_at = created_at;
  updated_at = updated_at;
}

unfoldable pub with_id : User → ℕ → M Users User
with_id user id = stop_if (eqb id 0) register_failed >> pure (record user { id = id })

unfoldable pub register_hashed : (Str → Str) → UserRegisterRequest → Str → M Users User
unfolding create_user with_id
register_hashed collate req password_hash = do
  created_at ← time_now
  updated_at ← time_now
  id ← create_user collate (new_user req password_hash created_at updated_at)
  with_id (new_user req password_hash created_at updated_at) id

unfoldable pub register_found :
    (Str → Str) → Bcrypt → UserRegisterRequest → Option User → M Users User
unfolding hash_password register_hashed
register_found collate bcrypt req exist = do
  stop_if (has_value exist) user_exists
  password_hash ← hash_password bcrypt req.password
  register_hashed collate req password_hash

unfoldable pub register_user : (Str → Str) → Bcrypt → UserRegisterRequest → M Users User
unfolding find_by_user_name register_found
register_user collate bcrypt req = do
  exist ← find_by_user_name collate req.user_name
  register_found collate bcrypt req exist

module _ (collate : Str → Str) (bcrypt : Bcrypt) (jwt : Jwt) (manager : JwtManager) where
  unfoldable pub login_found : Str → Option User → M Users UserLoginResponse
  unfolding check_password generate_token
  login_found password none = fail bad_credentials
  login_found password (some user) = do
    stop_if (not (check_password bcrypt password user.password_hash)) bad_credentials
    stop_if (is_banned user.status) user_banned
    r ← generate_token jwt manager user
    pure (record {
      token = r.0;
      expires_in = r.1;
      user_id = user.id;
      user_name = user.user_name;
      nickname = user.nickname;
    })

  unfoldable pub login_user : UserLoginRequest → M Users UserLoginResponse
  unfolding find_by_user_name login_found
  login_user req = do
    exist ← find_by_user_name collate req.user_name
    login_found req.password exist

unfoldable pub detail_of : Option User → M Users UserDetailResponse
detail_of none = fail user_not_found
detail_of (some user) = pure (record { user_name = user.user_name; nickname = user.nickname })

unfoldable pub get_me : ℕ → M Users UserDetailResponse
unfolding get_user_by_id detail_of
get_me user_id = do user ← get_user_by_id user_id; detail_of user
