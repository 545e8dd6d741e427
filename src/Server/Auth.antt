-- ===== src/Server/Auth.antt =====
-- internal/server/auth.go: the middleware for bearer tokens.
pub mod Guards
use ethereum_fetcher.Prelude.{
  String, ℤ, Bool, not, ◌&&◌, ◌||◌, Option, none, some, str_eq, if◌then◌else◌,
}
use ethereum_fetcher.Result.{Result, ok, err, text, ◌+++◌}
use ethereum_fetcher.Exec.{Exec, pure}
use ethereum_fetcher.Providers.{non_authenticated_user}
use ethereum_fetcher.Server.Http.{Request, Response, Handler, write_unauthorized_error}
use ethereum_fetcher.Server.Libraries.{Jwt}

pub record AuthBearerMiddleware (W : Type 0) : Type 0 where
  pub jwt_secret : String
  pub next : Handler W
  pub optional : Bool

-- `r.WithContext(context.WithValue(r.Context(), userIDKey, userID))`
abbrev pub with_user : ℤ → Request → Request
with_user user_id r = record r { user = some user_id }

module _ {T Claims Float W : Type 0} (jwt : Jwt T Claims Float) (wab : AuthBearerMiddleware W) where
  -- the function that is handed to `jwt.Parse`
  pub key_function : T → Result String
  key_function token =
      if jwt.is_hmac token
      then ok wab.jwt_secret
      else err (text ("unexpected signing method: " +++ jwt.alg token))

  -- from the claims of the token on
  pub accept_claims : Request → T → Exec W Response
  accept_claims r token = elim (jwt.map_claims token) [
    | none ↦ pure write_unauthorized_error
    | some claims ↦
        if not (jwt.valid token) || not (jwt.claims_valid r.now claims)
        then pure write_unauthorized_error
        else elim (jwt.sub claims) [
          | none ↦ pure write_unauthorized_error
          | some sub ↦ wab.next (with_user (jwt.to_int sub) r)
        ]
  ]

  pub accept_token : Request → Option T → Exec W Response
  unfolding accept_claims
  accept_token r (some token) = accept_claims r token
  accept_token r none = pure write_unauthorized_error

  pub authenticate : Handler W
  unfolding accept_token key_function
  authenticate r =
      if wab.optional && str_eq r.auth_token ""
      then wab.next (with_user non_authenticated_user r)
      else accept_token r (jwt.parse r.now r.auth_token key_function)
