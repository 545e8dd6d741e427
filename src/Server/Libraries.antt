-- ===== src/Server/Libraries.antt =====
-- The libraries that the handlers call, as parameters: none of them is part of the repository.
use ethereum_fetcher.Prelude.{ℕ, String, ℤ, Bool, Option, List}
use ethereum_fetcher.Result.{Result}
use ethereum_fetcher.Server.Http.{Payload}

-- What json.Unmarshal reads from the body of a login.
pub record RequestAuthenticate : Type 0 where
  pub username : String
  pub password : String

pub record Libraries : Type 0 where
  -- encoding/json
  pub marshal : Payload → Option String
  pub unmarshal : String → Option RequestAuthenticate
  -- the validator on a list and on a text, with the tag of the field
  pub validate_list : String → List String → Bool
  pub validate_text : String → String → Bool
  -- `strings.ToLower`, `hex.DecodeString` and `rlp.DecodeBytes`
  pub to_lower : String → String
  pub decode_string : String → Result (List ℕ)
  pub decode_bytes : List ℕ → Result (List String)

-- A claim of a token that is made.
pub data ClaimValue : Type 0 where
  text_claim : String → ClaimValue
  int_claim : ℤ → ClaimValue

-- golang-jwt: parsed tokens, their map claims, and the numbers in these, which are floats.
pub record Jwt (T Claims Float : Type 0) : Type 0 where
  -- `jwt.Parse` at a time, with the function that gives the key of a token; none on an error
  pub parse : ℕ → String → (T → Result String) → Option T
  pub is_hmac : T → Bool
  pub alg : T → String
  pub map_claims : T → Option Claims
  pub valid : T → Bool
  pub claims_valid : ℕ → Claims → Bool
  pub sub : Claims → Option Float
  -- Go's conversion to `int`
  pub to_int : Float → ℤ
  -- `NewWithClaims` with HS256, and `SignedString` with the secret; none on an error
  pub sign : List (String × ClaimValue) → String → Option String
