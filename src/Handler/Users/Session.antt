-- ===== src/Handler/Users/Session.antt =====
-- From the registration to a request that is let in.
use go_lobby.Prelude.{nat_eq, ℕ, ◌+◌, ◌<◌, List, [], Bool, true, false, some}
use go_lobby.Prelude.{
  subst, ◌≡◌, ◌≢◌, refl, ◌∙◌, ap, Error, Result, ok, err, if◌then◌else◌, ==_of_ne,
}
use go_lobby.Prelude.Text.{Str, str_eq, str_beq}
use go_lobby.Prelude.Effect.{M}
use go_lobby.User.{User, Users, Bcrypt, Jwt, JwtManager, UserRegisterRequest, UserLoginResponse}
use go_lobby.User.{register_user, login_user, parse_token}
use go_lobby.User.Login.{Matches, Signs, LogsIn, afterwards, login_of, register_user-login_user}
use go_lobby.MatchQueue.Entries.{trim_space}
use go_lobby.Handler.{Response, int64, answered, respond, is_raised, done}
use go_lobby.Handler.Auth.{Context, auth_middleware, with_claims, extract_token}
use go_lobby.Handler.Auth.{extract_from, after_prefix, token_without_header}
use go_lobby.Handler.Users.{UserRegisterResponse, WithCookie, register, login, bad_request}

-- An answer with data comes from a success.
respond-eq-answered :
    {W A B : Type 0} (bad : Error → Response B) (good : A → Response B) (r : Result A × W) {b : B}
    {w : W}
    → ((e : Error) → (bad e).code ≢ 0)
    → respond bad good r ≡ (ok (answered done b), w)
    → (a : A) × (r ≡ (ok a, w)) × (good a ≡ answered done b)
respond-eq-answered bad good (ok a, w') other e = (a, cc, cc)
respond-eq-answered {W = W} {B = B} bad good (err x, w') {b} {w} other e =
    absurd (go (is_raised x) e)
  where
    go :
        (raised : Bool)
        → (let out : Result (Response B) × W = if raised then (err x, w') else (ok (bad x), w') in
            out ≡ (ok (answered done b), w))
        → ⊥
    go true e = cc
    go false e =
        let same : bad x ≡ answered done b = cc in other x (ap (λ (r : Response B). r.code) same)

-- A request with a token in its cookie alone, which is parsed, goes on with the claims.
auth_middleware-cookie :
    {W B : Type 0} (next : Context → M W (Response B)) (jwt : Jwt) (manager : JwtManager) (now : ℕ)
    (token : Str)
    → token ≢ []
    → auth_middleware next jwt manager now
        (record { authorization = []; token = []; access_token = some token })
      ≡ with_claims next (parse_token jwt manager now token)
unfolding auth_middleware extract_token extract_from after_prefix token_without_header trim_space
    str_beq parse_token
auth_middleware-cookie next jwt manager now token full = rw (==_of_ne token [] full) refl

module _ (collate : Str → Str) (bcrypt : Bcrypt) (jwt : Jwt) (manager : JwtManager)
    (matches : Matches bcrypt) (signs : Signs jwt) where
  -- A login that is answered with a cookie, which until it expires lets every request with it, and
  -- with no other credential, go on as the user's.
  abbrev pub Enters : ℕ → Str → ℕ → Result (Response WithCookie) → Type 1
  Enters user_id user_name clock out =
      (r : WithCookie) × (out ≡ ok (answered done r))
      × ((W B : Type 0) (next : Context → M W (Response B)) (now : ℕ)
          → jwt.new_numeric_date now < jwt.new_numeric_date (clock + manager.expire_duration)
          → auth_middleware next jwt manager now
              (record { authorization = []; token = []; access_token = some r.access_token })
            ≡ next (record { user_id = some (int64 user_id); user_name = some user_name }))

  cookie-Enters :
      (user : User) (clock : ℕ) (out : Result UserLoginResponse × Users)
      → LogsIn jwt manager user clock out
      → Enters user.id user.user_name clock
          (respond bad_request
            (λ (r : UserLoginResponse).
              answered done (record { login = r; access_token = r.token; max_age = r.expires_in }))
            out).0
  unfolding with_claims
  cookie-Enters user clock (ok resp, w) (resp', e, same, nick, parses, full) =
      let is : resp ≡ resp' = cc in
      (
        record { login = resp; access_token = resp.token; max_age = resp.expires_in },
        refl,
        λ W B next now valid.
            ap
              (λ t.
                auth_middleware next jwt manager now
                  (record { authorization = []; token = []; access_token = some t }))
              (ap (λ (r : UserLoginResponse). r.token) is)
            ∙ auth_middleware-cookie next jwt manager now resp'.token full
            ∙ ap (with_claims next) (parses now valid),
      )
  cookie-Enters user clock (err x, w) (resp', e, same, nick, parses, full) = cc

  -- When bcrypt matches its own hashes and HS256 signs and verifies: a registration that is
  -- answered with a user can be followed by a login with the same name and password, whatever users
  -- were added since and when its statement does not fail, and with the cookie of that login every
  -- request that carries no Authorization header and no token in its query is let in as that user's
  -- until the token expires.
  pub register-login :
      (req : UserRegisterRequest) (db : Users) {r : UserRegisterResponse} {db' : Users}
      (more : List User) (clock : ℕ)
      → register collate bcrypt (some req) db ≡ (ok (answered done r), db')
      → Enters r.user_id r.user_name clock
          (login collate bcrypt jwt manager (some (login_of req)) (afterwards db' more clock)).0
  unfolding register login
  register-login req db {r} {db'} more clock e =
      let made =
        respond-eq-answered bad_request _ (register_user collate bcrypt req db) (λ x. bad_code x)
          e in
      let is : record { user_id = made.0.id; user_name = made.0.user_name } ≡ r = cc in
      subst
        (λ (r' : UserRegisterResponse).
          Enters r'.user_id r'.user_name clock
            (login collate bcrypt jwt manager (some (login_of req)) (afterwards db' more clock)).0)
        is
        (cookie-Enters made.0 clock
          (login_user collate bcrypt jwt manager (login_of req) (afterwards db' more clock))
          (register_user-login_user collate bcrypt jwt manager matches signs req db more clock
            made.1))
    where
      bad_code : (x : Error) → let r : Response UserRegisterResponse = bad_request x in r.code ≢ 0
      bad_code x e = cc
