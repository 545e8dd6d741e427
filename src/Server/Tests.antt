-- ===== src/Server/Tests.antt =====
-- The handlers over a service in memory, with a library that knows a single token.
use ethereum_fetcher.Prelude.{
  ℕ, suc, String, ℤ, pos, negsuc, ◌≡◌, ◌≢◌, ◌↔◌, refl, sym, ap, ◌∙◌, ◌⊎◌, inl, inr, Bool, true,
  false, ◌&&◌, Option, none, some, List, [], ◌∷◌, All, lookup, arith, ltb, leb, ◌==◌, str_eq,
  eq_iff, ==_iff, if◌then◌else◌, Bool-cases,
}
use ethereum_fetcher.Result.{Result, ok, err, panic, text, ◌+++◌}
use ethereum_fetcher.Providers.{app_context, request_context}
use ethereum_fetcher.Service.{World}
use ethereum_fetcher.Service.Tests.{service, world, after, hashes, a_run, answers, answering, tx_of}
use ethereum_fetcher.Server.Http.{
  Request, Response, Handler, TransactionView, Payload, error_payload, token_payload,
  transactions_payload, transactions_response, view, write_json_response, write_unauthorized_error,
}
use ethereum_fetcher.Server.Libraries.{Libraries, Jwt, ClaimValue, text_claim, int_claim}
use ethereum_fetcher.Server.Auth.{AuthBearerMiddleware, with_user, authenticate}
use ethereum_fetcher.Server.Auth.Guards.{ChecksKeys, IsProven, authenticate_guards}
use ethereum_fetcher.Server.Handlers.{
  ServiceProvider, EndPoint, create_token, get_transactions_by_hashes, answer_hashes,
  or_internal_error, on_result, user_id_of, serve, login,
}
use ethereum_fetcher.Server.Handlers.Issued.{IsIssued, serve_login-IsIssued}
use ethereum_fetcher.Server.Handlers.Complete.{Lists, endpoint, get_transactions_by_hashes-Lists}
use ethereum_fetcher.Server.Handlers.Committed.{app, get_transactions_by_hashes-answered}
use ethereum_fetcher.Pg.Store.{Store}
use ethereum_fetcher.Pg.Store.Examples.{Disk, IsRow}
use ethereum_fetcher.Pg.Store.Generated.{State}
use ethereum_fetcher.Pg.Store.Generated.Tests.{disk_boil, disk_statements, start, run, served}
use ethereum_fetcher.Server.Handlers.Login.{RoundTrips, create_token_round_trip}

-- The JSON of a list is here the hashes in one text.
abbrev joined : List TransactionView → String
joined [] = ""
joined (v ∷ vs) = v.hash +++ joined vs

abbrev marshal : Payload → Option String
marshal (error_payload s) = some s
marshal (token_payload s) = some s
marshal (transactions_payload rows) = some (joined rows)

abbrev lib : Libraries
lib = record {
  marshal = marshal;
  unmarshal = λ body. some (record { username = body; password = "p" });
  validate_list = λ tag hs. true;
  validate_text = λ tag s. true;
  to_lower = λ s. s;
  decode_string = λ s. ok [];
  decode_bytes = λ bytes. ok [];
}

abbrev is_number : Option ClaimValue → ℕ → Bool
is_number none n = false
is_number (some (text_claim s)) n = false
is_number (some (int_claim (pos m))) n = m == n
is_number (some (int_claim (negsuc m))) n = false

abbrev is_key : Result String → Bool
is_key (ok key) = str_eq key "secret"
is_key (err e) = false
is_key panic = false

abbrev is_issued : List (String × ClaimValue) → String → Bool
is_issued claims secret =
    str_eq secret "secret"
    && (is_number (lookup "exp" claims) 14500
        && (is_number (lookup "iat" claims) 100 && is_number (lookup "sub" claims) 7))

-- One token, of the user 7, issued at 100.
abbrev jwt : Jwt (Unit {0}) (Unit {0}) ℤ
jwt = record {
  parse = λ now s key.
      if str_eq s "token" && (is_key (key tt) && (leb 100 now && ltb now 14500))
      then some tt
      else none;
  is_hmac = λ t. true;
  alg = λ t. "HS256";
  map_claims = λ t. some tt;
  valid = λ t. true;
  claims_valid = λ now c. leb 100 now && ltb now 14500;
  sub = λ c. some (pos 7);
  to_int = λ f. f;
  sign = λ claims secret. if is_issued claims secret then some "token" else none;
}

is_key-ok : (r : Result String) → is_key r ≡ true → (key : String) × (r ≡ ok key)
is_key-ok (ok key) e = (key, refl)
is_key-ok (err x) e = cc
is_key-ok panic e = cc

checks_keys : ChecksKeys jwt
checks_keys now s k t parsed = is_key-ok (k tt) (ground arith)

abbrev request : Request
request = record {
  auth_token = "token";
  transaction_hashes = hashes;
  rlp_hex = "";
  body = some "name";
  ctx = request_context 1;
  user = some (pos 5);
  now = 200;
}

abbrev echo : Handler ℕ
echo r w = (ok write_unauthorized_error, suc w)

abbrev middleware : AuthBearerMiddleware ℕ
middleware = record { jwt_secret = "secret"; next = echo; optional = true }

authenticate_guards_example :
    (authenticate jwt middleware request 3 ≡ (ok write_unauthorized_error, 3))
    ⊎ ((true ≡ true)
        × (request.auth_token ≡ "")
        × (authenticate jwt middleware request 3 ≡ echo (with_user (pos 0) request) 3))
    ⊎ ((u : ℤ) × IsProven jwt middleware request u
        × (authenticate jwt middleware request 3 ≡ echo (with_user u request) 3))
authenticate_guards_example = authenticate_guards jwt middleware checks_keys request 3

is_number-eq :
    (o : Option ClaimValue) (n k : ℕ) → is_number o n ≡ true → o ≡ some (int_claim (pos k)) → k ≡ n
is_number-eq none n k e h = cc
is_number-eq (some (text_claim s)) n k e h = cc
is_number-eq (some (int_claim (pos m))) n k e h = ground (arith, ==_iff m n)
is_number-eq (some (int_claim (negsuc m))) n k e h = cc

is_issued_of_sign :
    (claims : List (String × ClaimValue)) (secret token : String)
    → jwt.sign claims secret ≡ some token
    → (is_issued claims secret ≡ true) × (token ≡ "token")
is_issued_of_sign claims secret token e = elim (Bool-cases (is_issued claims secret)) [
  | inl issued ↦ ground arith
  | inr not_issued ↦ absurd (ground arith)
]

not_empty : ◌≢◌ {A = String} "token" ""
not_empty e = ground (arith, eq_iff "token" "")

round_trips : RoundTrips jwt
round_trips claims secret token exp iat sub now key signed has_exp has_iat has_sub no_nbf started
      fresh reach small accepts =
    let (issued, named) = is_issued_of_sign claims secret token signed in
    let the_exp : exp ≡ 14500 =
      is_number-eq (lookup "exp" claims) 14500 exp (ground arith) has_exp in
    let the_iat : iat ≡ 100 = is_number-eq (lookup "iat" claims) 100 iat (ground arith) has_iat in
    let the_sub : sub ≡ 7 = is_number-eq (lookup "sub" claims) 7 sub (ground arith) has_sub in
    let the_key : secret ≡ "secret" = ground (arith, eq_iff secret "secret") in
    let keyed : is_key (key tt) ≡ true = rw (accepts tt refl) (rw the_key refl) in
    let in_time : (leb 100 now && ltb now 14500) ≡ true = ground arith in
    record {
      nonempty = λ e. not_empty (sym named ∙ e);
      parsed_token = tt;
      parsed_claims = tt;
      number = pos 7;
      parsed = rw (named, keyed, in_time) refl;
      hmac = refl;
      claimed = refl;
      valid = refl;
      in_time = in_time;
      subject = refl;
      exact = ap pos (sym the_sub);
    }

issued : create_token jwt "secret" (pos 7) 100 ≡ some "token"
unfolding create_token
issued = refl

create_token_round_trip_example :
    authenticate jwt middleware request 3 ≡ echo (with_user (pos 7) request) 3
create_token_round_trip_example =
    create_token_round_trip jwt round_trips middleware 7 100 "token" request 3 issued (omega arith)
      refl (omega arith) (omega arith) (omega arith)

by_hashes_run : get_transactions_by_hashes (endpoint service lib jwt "secret") request world ≡ (
  ok (record { code = 200; content_type = "application/json"; challenge = none; body = "ab" }),
  after,
)
unfolding get_transactions_by_hashes answer_hashes or_internal_error on_result user_id_of
    transactions_response view write_json_response
by_hashes_run = rw a_run refl

get_transactions_by_hashes-Lists_example : Lists marshal "ab" hashes
get_transactions_by_hashes-Lists_example =
    get_transactions_by_hashes-Lists service (λ c. c) answers lib jwt "secret" request world
      by_hashes_run refl

abbrev counting : ServiceProvider ℕ
counting = record {
  get_user = λ name word w. (ok (record { id = pos 7; username = name; password = word }), suc w);
  get_transactions_by_hashes = λ ctx hs u w. (err (text "no node"), suc w);
  get_all_transactions = λ w. (ok (tx_of "a" ∷ []), w);
  get_my_transactions = λ u w. (ok [], w);
}

abbrev counting_endpoint : EndPoint (Unit {0}) (Unit {0}) ℤ ℕ
counting_endpoint = record { ap = counting; lib = lib; jwt = jwt; jwt_secret = "secret" }

-- A login at the time 100, with the token for the user 7.
abbrev login_request : Request
login_request = record request { now = 100 }

abbrev login_response : Response
login_response = record {
  code = 200;
  content_type = "application/json";
  challenge = none;
  body = "token";
}

serve_login-IsIssued_example :
    ((serve counting_endpoint login login_request 3 ≡ (ok login_response, 4))
      × (login_response.code ≡ 200))
    ↔ IsIssued counting_endpoint login_request 3 4 login_response
serve_login-IsIssued_example =
    serve_login-IsIssued counting_endpoint login_request 3 4 login_response

login_run : serve counting_endpoint login login_request 3 ≡ (ok login_response, 4)
unfolding create_token
login_run =
    ((serve_login-IsIssued counting_endpoint login_request 3 4 login_response).1 (record {
      body = "name";
      read = refl;
      credentials = record { username = "name"; password = "p" };
      parsed = refl;
      named = refl;
      user = record { id = pos 7; username = "name"; password = "p" };
      found = refl;
      is_token = record {
        known = λ e. cc;
        token = "token";
        created = refl;
        content = "token";
        marshalled = refl;
        answered = refl;
      };
    })).0

-- The same request over the generated code.
abbrev disk_endpoint : EndPoint (Unit {0}) (Unit {0}) ℤ (World (Store (State Disk)) ℕ)
disk_endpoint =
    endpoint (app disk_boil disk_statements app_context answering (λ c. c) answers lib jwt "secret")
      lib jwt "secret"

disk_run : get_transactions_by_hashes disk_endpoint request start ≡ (
  ok (record { code = 200; content_type = "application/json"; challenge = none; body = "ab" }),
  run.1,
)
unfolding get_transactions_by_hashes answer_hashes or_internal_error on_result user_id_of
    transactions_response view write_json_response
disk_run = rw served refl

get_transactions_by_hashes-answered_example :
    Lists marshal "ab" hashes × All (λ h. IsRow run.1.store.db.db.db h) hashes
get_transactions_by_hashes-answered_example =
    get_transactions_by_hashes-answered disk_boil disk_statements app_context answering (λ c. c)
      answers lib jwt "secret" request start run.1 _ disk_run refl tt refl
