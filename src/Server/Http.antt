-- ===== src/Server/Http.antt =====
-- Requests and responses: the types of internal/server/handlers.go and the writers of webapi.go.
use ethereum_fetcher.Prelude.{ℕ, String, ℤ, Option, none, some, List, map}
use ethereum_fetcher.Result.{◌+++◌}
use ethereum_fetcher.Exec.{Exec}
use ethereum_fetcher.Models.{Transaction}
use ethereum_fetcher.Providers.{Context}

-- What a handler reads of a request. `auth_token` is the header AUTH_TOKEN, empty when it is
-- missing; `body` is none when reading it fails; `user` is the value of `userIDKey` in the
-- request's context; `now` is the time in seconds.
pub record Request : Type 0 where
  pub auth_token : String
  pub transaction_hashes : List String
  pub rlp_hex : String
  pub body : Option String
  pub ctx : Context
  pub user : Option ℤ
  pub now : ℕ

-- What was written; `challenge` is the header WWW-Authenticate.
pub record Response : Type 0 where
  pub code : ℕ
  pub content_type : String
  pub challenge : Option String
  pub body : String

-- A handler answers with a response, and may panic inside the service. It has no error.
abbrev pub Handler : Type 0 → Type 0
Handler W = Request → Exec W Response

-- `Transaction` of handlers.go
pub record TransactionView : Type 0 where
  pub hash : String
  pub status : ℤ
  pub block_hash : String
  pub block_number : ℤ
  pub from : String
  pub to : Option String
  pub contract_address : Option String
  pub logs_count : ℤ
  pub input : String
  pub value : String

-- the body of the loop over `txList`
unfoldable pub view : Transaction → TransactionView
view tx = record {
  hash = tx.tx_hash;
  status = tx.tx_status;
  block_hash = tx.block_hash;
  block_number = tx.block_number;
  from = tx.from_address;
  to = tx.to_address;
  contract_address = tx.contract_address;
  logs_count = tx.logs_count;
  input = tx.input;
  value = tx.value;
}

-- The two responses with a list have the same field and the same JSON.
pub data Payload : Type 0 where
  error_payload : String → Payload
  token_payload : String → Payload
  transactions_payload : List TransactionView → Payload

-- `http.Error`
abbrev pub http_error : String → ℕ → Response
http_error text code = record {
  code = code;
  content_type = "text/plain; charset=utf-8";
  challenge = none;
  body = text +++ "\n";
}

abbrev pub write_unauthorized_error : Response
write_unauthorized_error = record (http_error "Unauthorized" 401) {
  challenge = some "Bearer realm=\"restricted\", charset=\"UTF-8\"";
}

abbrev pub write_bad_request_error : Response
write_bad_request_error = http_error "Bad Request" 400

abbrev pub write_internal_server_error : Response
write_internal_server_error = http_error "Internal Server Error" 500

-- `json.Marshal` is a parameter. The payload is never nil.
unfoldable pub write_json_response : (Payload → Option String) → ℕ → Payload → Response
write_json_response marshal http_code payload = elim (marshal payload) [
  | some response ↦ record {
    code = http_code;
    content_type = "application/json";
    challenge = none;
    body = response;
  }
  | none ↦ record {
    code = 500;
    content_type = "application/json";
    challenge = none;
    body = "{\"error\":\"Unable to serialize JSON response\"}";
  }
]

unfoldable pub write_json_error : (Payload → Option String) → ℕ → String → Response
unfolding write_json_response
write_json_error marshal http_code error =
    write_json_response marshal http_code (error_payload error)

unfoldable pub transactions_response : (Payload → Option String) → List Transaction → Response
unfolding write_json_response view
transactions_response marshal tx_list =
    write_json_response marshal 200 (transactions_payload (map view tx_list))
