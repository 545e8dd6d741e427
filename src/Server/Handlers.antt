-- ===== src/Server/Handlers.antt =====
-- internal/server/handlers.go and endpoint.go: the endpoints and their table.
pub mod Issued
pub mod Complete
pub mod Committed
pub mod Login
use ethereum_fetcher.Prelude.{
  ℕ, ◌+◌, String, ℤ, pos, Bool, true, false, ◌||◌, Option, none, some, List, [], ◌∷◌, map, str_eq,
  ◌==ℤ◌, if◌then◌else◌,
}
use ethereum_fetcher.Result.{Result, ok, err, panic, text, message, ◌+++◌}
use ethereum_fetcher.Exec.{Exec, pure, crash}
use ethereum_fetcher.Models.{User, Transaction}
use ethereum_fetcher.Providers.{Context, non_authenticated_user}
use ethereum_fetcher.Server.Http.{
  Request, Response, Handler, token_payload, write_json_response, write_json_error,
  write_unauthorized_error, write_bad_request_error, write_internal_server_error,
  transactions_response,
}
use ethereum_fetcher.Server.Libraries.{
  Libraries, RequestAuthenticate, Jwt, ClaimValue, text_claim, int_claim,
}
use ethereum_fetcher.Server.Auth.{AuthBearerMiddleware, authenticate as guard}

-- `ServiceProvider` of internal/app/api.go
pub record ServiceProvider (W : Type 0) : Type 0 where
  pub get_user : String → String → Exec W User
  pub get_transactions_by_hashes : Context → List String → ℤ → Exec W (List Transaction)
  pub get_all_transactions : Exec W (List Transaction)
  pub get_my_transactions : ℤ → Exec W (List Transaction)

-- `jwt_secret` is what the configuration holds.
pub record EndPoint (T Claims Float W : Type 0) : Type 0 where
  pub ap : ServiceProvider W
  pub lib : Libraries
  pub jwt : Jwt T Claims Float
  pub jwt_secret : String

-- the `validate` tags of the two requests
abbrev pub hashes_tag : String
hashes_tag = "required,max=20,dive,len=66,hexadecimal"

abbrev pub rlp_tag : String
rlp_tag = "required,max=3000,hexadecimal"

-- `ErrValidationFailed`
abbrev pub err_validation_failed : String
err_validation_failed = "validation failed"

-- `userID, _ := r.Context().Value(userIDKey).(int)`
unfoldable pub user_id_of : Request → ℤ
user_id_of r = elim r.user [ none ↦ pos 0 | some user_id ↦ user_id ]

-- `createToken`, at the time `iat`
unfoldable pub create_token :
    {T Claims Float : Type 0} → Jwt T Claims Float → String → ℤ → ℕ → Option String
create_token jwt jwt_secret user_id iat =
    jwt.sign
      (("iss", text_claim "https://limechain.tech/auth")
        ∷ ("exp", int_claim (pos (iat + 14400)))
        ∷ ("iat", int_claim (pos iat))
        ∷ ("sub", int_claim user_id)
        ∷ [])
      jwt_secret

module _ {W : Type 0} where
  -- An error of the service is answered with 500.
  unfoldable pub on_result : {A : Type 0} → (A → Response) → Result A → Exec W Response
  on_result f (ok a) = pure (f a)
  on_result f (err e) = pure write_internal_server_error
  on_result f panic = crash

  unfoldable pub or_internal_error : {A : Type 0} → (A → Response) → Exec W A → Exec W Response
  unfolding on_result
  or_internal_error f m w = let (r, w') = m w in on_result f r w'

module _ {T Claims Float W : Type 0} (ep : EndPoint T Claims Float W) where
  -- `getTransactionsByHashes` and the response that both callers write after it
  unfoldable pub answer_hashes : Request → List String → Exec W Response
  unfolding user_id_of or_internal_error transactions_response
  answer_hashes r tx_hashes =
      or_internal_error (transactions_response ep.lib.marshal)
        (ep.ap.get_transactions_by_hashes r.ctx (map ep.lib.to_lower tx_hashes) (user_id_of r))

  abbrev pub unprocessable : Response
  unprocessable = write_json_error ep.lib.marshal 422 err_validation_failed

  unfoldable pub get_transactions_by_hashes : Handler W
  unfolding answer_hashes write_json_error
  get_transactions_by_hashes r =
      if ep.lib.validate_list hashes_tag r.transaction_hashes
      then answer_hashes r r.transaction_hashes
      else pure unprocessable

  pub decode_rlp_to_tx_hashes : String → Result (List String)
  decode_rlp_to_tx_hashes rlp_hex = elim (ep.lib.decode_string rlp_hex) [
    | ok rlp_bytes ↦ elim (ep.lib.decode_bytes rlp_bytes) [
      | ok tx_hashes ↦ ok tx_hashes
      | err e ↦ err (text ("failed to decode RLP: " +++ message e))
      | panic ↦ panic
    ]
    | err e ↦ err (text ("failed to decode hex string: " +++ message e))
    | panic ↦ panic
  ]

  pub answer_decoded : Request → Result (List String) → Exec W Response
  unfolding answer_hashes write_json_error
  answer_decoded r (ok tx_hashes) = answer_hashes r tx_hashes
  answer_decoded r (err e) = pure unprocessable
  answer_decoded r panic = crash

  pub get_transactions_by_rlp : Handler W
  unfolding answer_decoded decode_rlp_to_tx_hashes
  get_transactions_by_rlp r =
      if ep.lib.validate_text rlp_tag r.rlp_hex
      then answer_decoded r (decode_rlp_to_tx_hashes r.rlp_hex)
      else pure unprocessable

  pub get_all_transactions : Handler W
  unfolding or_internal_error transactions_response
  get_all_transactions r =
      or_internal_error (transactions_response ep.lib.marshal) ep.ap.get_all_transactions

  pub get_my_transactions : Handler W
  unfolding user_id_of or_internal_error transactions_response
  get_my_transactions r =
      or_internal_error (transactions_response ep.lib.marshal)
        (ep.ap.get_my_transactions (user_id_of r))

  pub token_response : Option String → Response
  unfolding write_json_response
  token_response (some token) = write_json_response ep.lib.marshal 200 (token_payload token)
  token_response none = write_internal_server_error

  -- `Authenticate` after the user is found
  pub issue_token : ℕ → User → Response
  unfolding token_response create_token
  issue_token now user =
      if user.id ==ℤ non_authenticated_user
      then write_unauthorized_error
      else token_response (create_token ep.jwt ep.jwt_secret user.id now)

  pub check_credentials : Request → RequestAuthenticate → Exec W Response
  unfolding or_internal_error issue_token
  check_credentials r auth_request =
      if str_eq auth_request.username "" || str_eq auth_request.password ""
      then pure write_unauthorized_error
      else or_internal_error (issue_token r.now)
          (ep.ap.get_user auth_request.username auth_request.password)

  pub authenticate : Handler W
  unfolding check_credentials
  authenticate r = elim r.body [
    | none ↦ pure write_bad_request_error
    | some body ↦ elim (ep.lib.unmarshal body) [
      | none ↦ pure write_bad_request_error
      | some auth_request ↦ check_credentials r auth_request
    ]
  ]

  pub not_implemented : Handler W
  unfolding write_json_error
  not_implemented r = pure (write_json_error ep.lib.marshal 501 "not implemented")

-- The entries of `Register`: the three protected ones, the others, and the handler for the rest.
pub data Route : Type 0 where
  eth eth_rlphex all my login not_found : Route

module _ {T Claims Float W : Type 0} (ep : EndPoint T Claims Float W) where
  -- `NewAuthBearerMiddleware(jwtSecret, next, optional).Authenticate`
  pub protected : Bool → Handler W → Handler W
  protected optional next =
      guard ep.jwt (record { jwt_secret = ep.jwt_secret; next = next; optional = optional })

  -- the handler that `Register` gives to a route
  pub serve : Route → Handler W
  unfolding protected
  serve eth = protected true (get_transactions_by_hashes ep)
  serve eth_rlphex = protected true (get_transactions_by_rlp ep)
  serve all = get_all_transactions ep
  serve my = protected false (get_my_transactions ep)
  serve login = authenticate ep
  serve not_found = not_implemented ep
