-- ===== src/Handler/Users.antt =====
-- internal/handler/user_handler.go.
pub mod Session
use go_lobby.Prelude.{ℕ, Option, none, some, Error, Result, ok, err}
use go_lobby.Prelude.Text.{Str}
use go_lobby.Prelude.Effect.{M, pure}
use go_lobby.User.{User, Users, Bcrypt, Jwt, JwtManager, UserRegisterRequest, UserLoginRequest}
use go_lobby.User.{UserLoginResponse, UserDetailResponse, register_user, login_user, get_me}
use go_lobby.Handler.{CtxValue, Response, answered, refused, respond, with_user, with_body}
use go_lobby.Handler.{done, of_error, no_user}

pub record UserRegisterResponse : Type 0 where
  pub user_id : ℕ
  pub user_name : Str

-- A response that may set the cookie `access_token`, a text with its age.
pub record WithCookie : Type 0 where
  pub login : UserLoginResponse
  pub access_token : Str
  pub max_age : ℕ

abbrev bad_request : {B : Type 0} → Error → Response B
bad_request e = refused 400 (of_error e)

module _ (collate : Str → Str) (bcrypt : Bcrypt) where
  unfoldable pub register : Option UserRegisterRequest → M Users (Response UserRegisterResponse)
  register body = with_body body λ req db.
      respond bad_request
        (λ (user : User). answered done (record { user_id = user.id; user_name = user.user_name }))
        (register_user collate bcrypt req db)

  unfoldable pub login : Jwt → JwtManager → Option UserLoginRequest → M Users (Response WithCookie)
  login jwt manager body = with_body body λ req db.
      respond bad_request
        (λ (r : UserLoginResponse).
          answered done (record { login = r; access_token = r.token; max_age = r.expires_in }))
        (login_user collate bcrypt jwt manager req db)

unfoldable pub me : Option CtxValue → M Users (Response UserDetailResponse)
me user =
    with_user user
      λ user_id db. respond (λ e. refused 500 no_user) (answered done) (get_me user_id db)
