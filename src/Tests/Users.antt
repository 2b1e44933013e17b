-- ===== src/Tests/Users.antt =====
-- Users, with a hash that only salts and tokens that only list the claims.
use go_lobby.Prelude.{nat_eq, ℕ, ◌<◌, [], ◌∷◌, Bool, true, false, ◌&&◌, not, ltb}
use go_lobby.Prelude.{some, if◌then◌else◌, Result, ok, err, bad_token, ◌≡◌, refl, arith}
use go_lobby.Prelude.{◌∈◌, ◌==◌}
use go_lobby.Prelude.Text.{Str, codes, str_eq, str_beq}
use go_lobby.User.{User, Users, Bcrypt, Jwt, JwtManager, UserClaims, UserRegisterRequest, normal}
use go_lobby.User.{UserLoginResponse, register_user, login_user, users_with, on_users}
use go_lobby.User.{
  first_row, find_by_user_name, create_user, hash_password, with_id, register_hashed,
}
use go_lobby.User.{
  register_found, login_found, check_password, generate_token, has_name, is_deleted,
}
use go_lobby.User.Login.{Matches, Signs, LogsIn, afterwards, login_of, register_user-login_user}
use go_lobby.User.Genuine.{IsGenuine, login_user-IsGenuine, OneEach}
use go_lobby.User.Enrolled.{Enrolled, register_user-Enrolled}
use go_lobby.Handler.Users.{register, login}
use go_lobby.Handler.Users.Session.{Enters, register-login}

abbrev same_case : Str → Str
same_case name = name

abbrev salted_is : Str → Str → Bool
salted_is [] password = false
salted_is (salt ∷ hash) password = hash == password

abbrev salting : Bcrypt
salting = record {
  generate_from_password = λ seed password. ok (seed ∷ password);
  compare_hash_and_password = salted_is;
}

salting-Matches : Matches salting
salting-Matches seed password hash made = go hash made
  where
    go :
        (h : Str)
        → (let r : Result Str = ok (seed ∷ password) in r ≡ ok h)
        → salted_is h password ≡ true
    go [] e = cc
    go (x ∷ h) e = let is : h ≡ password = cc in ground (arith, str_eq.beq_iff h password, is)

abbrev listed_claims : Result Str → ℕ → Str → Result (UserClaims × Bool)
listed_claims (ok key) now (user ∷ issued ∷ expires ∷ name) =
    if ltb now expires
    then (ok (
      record { user_id = user; user_name = name; issued_at = issued; expires_at = expires },
      true,
    ))
    else err bad_token
listed_claims _ now _ = err bad_token

abbrev listing : Jwt
listing = record {
  new_numeric_date = λ t. t;
  seconds = λ d. d;
  signed_string = λ c key. ok (c.user_id ∷ c.issued_at ∷ c.expires_at ∷ c.user_name);
  parse_with_claims = λ key_func now token. listed_claims (key_func true) now token;
}

listing-Signs : Signs listing
listing-Signs c key = (
  c.user_id ∷ c.issued_at ∷ c.expires_at ∷ c.user_name,
  refl,
  λ key_func now k valid. rw (k, lt-ltb now c.expires_at valid) refl,
  λ e. cc,
)
  where
    lt-ltb : (a b : ℕ) → a < b → ltb a b ≡ true
    lt-ltb a b h = ground arith

abbrev manager : JwtManager
manager = record { secret = codes "secret"; expire_duration = 100 }

abbrev alice : UserRegisterRequest
alice = record {
  user_name = codes "alice1";
  nickname = codes "Alice.";
  password = codes "password";
}

abbrev nobody : Users
nobody = record { rows = []; next_id = 1; faults = []; clock = 50; seed = 3 }

abbrev alice_row : User
alice_row = record {
  id = 1;
  user_name = codes "alice1";
  nickname = codes "Alice.";
  password_hash = 3 ∷ codes "password";
  status = normal;
  created_at = 50;
  updated_at = 50;
}

abbrev with_alice : Users
with_alice = record { rows = alice_row ∷ []; next_id = 2; faults = []; clock = 50; seed = 4 }

register_user-login_user_example :
    LogsIn listing manager alice_row 70
      (login_user same_case salting listing manager (login_of alice) (afterwards with_alice [] 70))
unfolding register_user register_found register_hashed find_by_user_name hash_password create_user
    with_id on_users users_with first_row
register_user-login_user_example =
    register_user-login_user same_case salting listing manager salting-Matches listing-Signs alice
      nobody [] 70 refl

register-login_example :
    Enters same_case salting listing manager salting-Matches listing-Signs 1
      (codes "alice1")
      70
      (login same_case salting listing manager
        (some (login_of alice))
        (afterwards with_alice [] 70)).0
unfolding register register_user register_found register_hashed find_by_user_name hash_password
    create_user with_id on_users users_with first_row
register-login_example =
    register-login same_case salting listing manager salting-Matches listing-Signs alice nobody []
      70 refl

abbrev alice_response : UserLoginResponse
alice_response = record {
  token = 1 ∷ 50 ∷ 150 ∷ codes "alice1";
  expires_in = 100;
  user_id = 1;
  user_name = codes "alice1";
  nickname = codes "Alice.";
}

login_user-IsGenuine_example :
    (u : User) × (u ∈ with_alice.rows)
    × ((has_name same_case (codes "alice1") u && not (is_deleted u.status)) ≡ true)
    × IsGenuine same_case salting listing manager (codes "password") u alice_response
unfolding login_user login_found find_by_user_name on_users users_with first_row check_password
    generate_token str_beq
login_user-IsGenuine_example =
    login_user-IsGenuine same_case salting listing manager (login_of alice) with_alice refl

-- Under the name of a user nobody registers.
register_user-Enrolled_example :
    Enrolled same_case salting alice with_alice true
      (register_user same_case salting alice with_alice)
    × OneEach same_case (register_user same_case salting alice with_alice).1.rows
unfolding OneEach first_row str_beq
register_user-Enrolled_example =
    register_user-Enrolled same_case salting alice with_alice (omega arith) (refl, tt)
