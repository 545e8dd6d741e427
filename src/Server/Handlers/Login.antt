-- ===== src/Server/Handlers/Login.antt =====
-- From a login to the request that presents the token.
use ethereum_fetcher.Prelude.{
  ℕ, ◌+◌, ◌≤◌, ◌<◌, String, pos, ◌≡◌, ◌≢◌, refl, sym, ◌∙◌, true, none, some, List, lookup,
}
use ethereum_fetcher.Result.{Result, ok}
use ethereum_fetcher.Server.Http.{Request}
use ethereum_fetcher.Server.Libraries.{Jwt, ClaimValue, int_claim}
use ethereum_fetcher.Server.Auth.{AuthBearerMiddleware, with_user, key_function, authenticate}
use ethereum_fetcher.Server.Auth.Guards.{key_function-eq, authenticate_proven}
use ethereum_fetcher.Server.Handlers.{create_token}

-- The first number that a float does not hold exactly is 2 ^ 53 + 1.
abbrev pub float_limit : ℕ
float_limit = 9007199254740992

-- A token that is signed with a secret is parsed by a key function that gives this secret to all
-- tokens signed by an HMAC, is valid from its `iat` until its `exp`, and gives back its `sub` where
-- that is exact as a float.
pub record ParsesSigned {T Claims Float : Type 0} (jwt : Jwt T Claims Float)
    (claims : List (String × ClaimValue)) (secret token : String) (exp iat sub : ℕ) (now : ℕ)
    (key : T → Result String) : Type 0 where
  pub nonempty : token ≢ ""
  pub parsed_token : T
  pub parsed_claims : Claims
  pub number : Float
  pub parsed : jwt.parse now token key ≡ some parsed_token
  pub hmac : jwt.is_hmac parsed_token ≡ true
  pub claimed : jwt.map_claims parsed_token ≡ some parsed_claims
  pub valid : jwt.valid parsed_token ≡ true
  pub in_time : jwt.claims_valid now parsed_claims ≡ true
  pub subject : jwt.sub parsed_claims ≡ some number
  pub exact : jwt.to_int number ≡ pos sub

-- golang-jwt's promise for the tokens that it signs with HS256, which name no time before which
-- they are not valid
abbrev pub RoundTrips : {T Claims Float : Type 0} → Jwt T Claims Float → Type 0
RoundTrips {T} jwt =
    (claims : List (String × ClaimValue)) (secret token : String) (exp iat sub now : ℕ)
    (key : T → Result String)
    → jwt.sign claims secret ≡ some token
    → lookup "exp" claims ≡ some (int_claim (pos exp))
    → lookup "iat" claims ≡ some (int_claim (pos iat))
    → lookup "sub" claims ≡ some (int_claim (pos sub))
    → lookup "nbf" claims ≡ none
    → iat ≤ now
    → now < exp
    → exp < float_limit
    → sub < float_limit
    → ((t : T) → jwt.is_hmac t ≡ true → key t ≡ ok secret)
    → ParsesSigned jwt claims secret token exp iat sub now key

module _ {T Claims Float W : Type 0} (jwt : Jwt T Claims Float) (round_trips : RoundTrips jwt) where
  -- A token that the login issues to a user, presented within four hours to any endpoint behind the
  -- middleware with the same secret, runs that endpoint as this user. The user's id and the time
  -- at which the token expires must be exact as floats.
  pub create_token_round_trip :
      (wab : AuthBearerMiddleware W) (user_id iat : ℕ) (token : String) (r : Request) (w : W)
      → create_token jwt wab.jwt_secret (pos user_id) iat ≡ some token
      → user_id < float_limit
      → r.auth_token ≡ token
      → iat ≤ r.now
      → r.now < iat + 14400
      → iat + 14400 < float_limit
      → authenticate jwt wab r w ≡ wab.next (with_user (pos user_id) r) w
  unfolding create_token
  create_token_round_trip wab user_id iat token r w issued small presented started fresh in_reach =
      let t =
        round_trips _ wab.jwt_secret token (iat + 14400) iat user_id r.now (key_function jwt wab)
          issued refl refl refl refl started fresh in_reach small (key_function-eq jwt wab) in
      authenticate_proven jwt wab r (pos user_id)
        (record {
          token = t.parsed_token;
          claims = t.parsed_claims;
          number = t.number;
          key_of = key_function jwt wab;
          parsed = rw presented (t.parsed);
          secret = key_function-eq jwt wab t.parsed_token t.hmac;
          hmac = t.hmac;
          claimed = t.claimed;
          valid = t.valid;
          in_time = t.in_time;
          subject = t.subject;
          user_id = sym t.exact;
        })
        w (λ e. t.nonempty (sym presented ∙ e)) refl
