-- ===== src/Handler/Auth.antt =====
-- internal/middleware/auth_middleware.go: who a request comes from.
use go_lobby.Prelude.{nat_eq, ℕ, [], ◌∷◌, Option, none, some}
use go_lobby.Prelude.{if◌then◌else◌, ◌==◌, eqb, Result, ok, err}
use go_lobby.Prelude.Text.{Str, codes, str_eq}
use go_lobby.Prelude.Effect.{M, pure}
use go_lobby.MatchQueue.Entries.{trim_space}
use go_lobby.User.{Jwt, JwtManager, UserClaims, parse_token}
use go_lobby.Handler.{CtxValue, int64, Response, refused, not_logged_in, bad_token_message}

-- The header and the query parameter, empty when missing, and the cookie.
pub record Credentials : Type 0 where
  pub authorization : Str
  pub token : Str
  pub access_token : Option Str

-- The keys that the middleware sets.
pub record Context : Type 0 where
  pub user_id : Option CtxValue
  pub user_name : Option Str

-- The rest of a text behind a prefix.
unfoldable pub after_prefix : Str → Str → Option Str
after_prefix [] s = some s
after_prefix (p ∷ ps) [] = none
after_prefix (p ∷ ps) (c ∷ s) = let rest = after_prefix ps s in if eqb p c then rest else none

abbrev or_empty : Option Str → Str
or_empty none = []
or_empty (some s) = s

unfoldable pub token_without_header : Str → Option Str → Str
token_without_header query cookie = if query == [] then or_empty cookie else query

unfoldable pub extract_from : Credentials → Option Str → Str
unfolding token_without_header
extract_from c (some bearer) = trim_space bearer
extract_from c none = token_without_header (trim_space c.token) c.access_token

unfoldable pub extract_token : Credentials → Str
unfolding extract_from after_prefix
extract_token c = extract_from c (after_prefix (codes "Bearer ") c.authorization)

module _ {W B : Type 0} (next : Context → M W (Response B)) where
  unfoldable pub with_claims : Result UserClaims → M W (Response B)
  with_claims (err e) = pure (refused 401 bad_token_message)
  with_claims (ok claims) =
      next (record { user_id = some (int64 claims.user_id); user_name = some claims.user_name })

  unfoldable pub auth_middleware : Jwt → JwtManager → ℕ → Credentials → M W (Response B)
  unfolding extract_token with_claims
  auth_middleware jwt manager now c =
      let token = extract_token c in
      if token == []
      then pure (refused 401 not_logged_in)
      else with_claims (parse_token jwt manager now token)
