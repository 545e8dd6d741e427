-- ===== src/Server/Handlers/Complete.antt =====
-- The endpoint that is asked for hashes, over the service.
use ethereum_fetcher.Prelude.{
  String, ℤ, ◌≡◌, ◌≢◌, refl, ap, arith, [], ◌∷◌, ◌∙◌, inl, inr, Option, some, List, map, Bool-cases,
  Option-cases,
}
use ethereum_fetcher.Result.{Result, ok, err, panic}
use ethereum_fetcher.Models.{Transaction}
use ethereum_fetcher.Providers.{Context}
use ethereum_fetcher.Service.{
  World, Service, get_user, get_transactions_by_hashes as fetch_by_hashes,
  get_all_transactions as fetch_all, get_my_transactions as fetch_my,
}
use ethereum_fetcher.Service.Keyed.{hashes_of}
use ethereum_fetcher.Service.Order.{Answers, get_transactions_by_hashes_complete}
use ethereum_fetcher.Server.Http.{
  Request, Response, TransactionView, view, Payload, transactions_payload, error_payload,
  write_json_response, write_json_error, transactions_response, write_internal_server_error,
}
use ethereum_fetcher.Exec.Rules.{ok-injective}
use ethereum_fetcher.Server.Libraries.{Libraries, Jwt}
use ethereum_fetcher.Server.Handlers.{
  ServiceProvider, EndPoint, on_result, or_internal_error, answer_hashes,
  get_transactions_by_hashes, hashes_tag, user_id_of, unprocessable, err_validation_failed,
}

-- The service as the endpoints see it.
abbrev pub provider : {S N C : Type 0} → Service S N C → ServiceProvider (World S N)
provider ap = record {
  get_user = get_user ap;
  get_transactions_by_hashes = fetch_by_hashes ap;
  get_all_transactions = fetch_all ap;
  get_my_transactions = fetch_my ap;
}

map-hash_view : (txs : List Transaction) → map (λ v. v.hash) (map view txs) ≡ hashes_of txs
unfolding view
map-hash_view [] = refl
map-hash_view (tx ∷ txs) = ap (λ l. tx.tx_hash ∷ l) (map-hash_view txs)

module _ (marshal : Payload → Option String) where
  written_ok :
      (p : Payload)
      → (write_json_response marshal 200 p).code ≡ 200
      → marshal p ≡ some (write_json_response marshal 200 p).body
  unfolding write_json_response
  written_ok p e = elim (Option-cases (marshal p)) [
    | inl failed ↦ absurd (omega (arith, rw (write_json_response, failed) at e))
    | inr (s, written) ↦ rw (write_json_response, written) refl
  ]

  error_not_ok : (p : Payload) → (write_json_response marshal 422 p).code ≢ 200
  unfolding write_json_response
  error_not_ok p = elim (Option-cases (marshal p)) [
    | inl failed ↦ rw (write_json_response, failed) (λ e. omega arith)
    | inr (s, written) ↦ rw (write_json_response, written) (λ e. omega arith)
  ]

-- The body holds the JSON of a list of transactions with these hashes.
abbrev pub Lists : (Payload → Option String) → String → List String → Type 0
Lists marshal body hashes =
    (rows : List TransactionView) × (marshal (transactions_payload rows) ≡ some body)
    × (map (λ v. v.hash) rows ≡ hashes)

module _ {S N C T Claims Float : Type 0} (app : Service S N C) (lib : Libraries)
    (jwt : Jwt T Claims Float) (jwt_secret : String) where
  abbrev pub endpoint : EndPoint T Claims Float (World S N)
  endpoint = record { ap = provider app; lib = lib; jwt = jwt; jwt_secret = jwt_secret }

module _ {S N C T Claims Float : Type 0} (app : Service S N C) (lib : Libraries)
    (jwt : Jwt T Claims Float) (jwt_secret : String) where
  -- The service returned these transactions, and the body is their JSON.
  pub record Fetched (ctx : Context) (hs : List String) (u : ℤ) (w w' : World S N) (body : String)
      : Type 0 where
    pub txs : List Transaction
    pub fetched : fetch_by_hashes app ctx hs u w ≡ (ok txs, w')
    pub written : lib.marshal (transactions_payload (map view txs)) ≡ some body

  on_result-Fetched :
      (ctx : Context) (hs : List String) (u : ℤ) (w v : World S N) (d : Result (List Transaction))
      {resp : Response} {w' : World S N}
      → fetch_by_hashes app ctx hs u w ≡ (d, v)
      → on_result (transactions_response lib.marshal) d v ≡ (ok resp, w')
      → resp.code ≡ 200
      → Fetched ctx hs u w w' resp.body
  unfolding on_result transactions_response
  on_result-Fetched ctx hs u w v (ok txs) {resp} fetched e is_ok =
      let same : transactions_response lib.marshal txs ≡ resp = ok-injective e in
      let there =
        written_ok lib.marshal (transactions_payload (map view txs))
          (ap (λ (r : Response). r.code) same ∙ is_ok) in
      record {
        txs = txs;
        fetched = fetched ∙ (λ i. (ok txs, (e i).1));
        written = there ∙ ap (λ (r : Response). some r.body) same;
      }
  on_result-Fetched ctx hs u w v (err x) {resp} fetched e is_ok =
      let same : write_internal_server_error ≡ resp = ok-injective e in
      absurd (omega (arith, ap (λ (r : Response). r.code) same ∙ is_ok))
  on_result-Fetched ctx hs u w v panic fetched e is_ok = absurd (cc)

  -- An answer with 200 has what the service returned for the hashes in lower case.
  pub get_transactions_by_hashes-Fetched :
      (r : Request) (w : World S N) {resp : Response} {w' : World S N}
      → get_transactions_by_hashes (endpoint app lib jwt jwt_secret) r w ≡ (ok resp, w')
      → resp.code ≡ 200
      → Fetched r.ctx (map lib.to_lower r.transaction_hashes) (user_id_of r) w w' resp.body
  unfolding get_transactions_by_hashes answer_hashes or_internal_error write_json_error
  get_transactions_by_hashes-Fetched r w {resp} e is_ok =
      elim (Bool-cases (lib.validate_list hashes_tag r.transaction_hashes)) [
        | inl good ↦
            on_result-Fetched r.ctx (map lib.to_lower r.transaction_hashes) (user_id_of r) w _ _
              refl (rw (get_transactions_by_hashes, good) at e) is_ok
        | inr bad ↦
            let refused : unprocessable (endpoint app lib jwt jwt_secret) ≡ resp =
              ok-injective (rw (get_transactions_by_hashes, bad) at e) in
            absurd (
              error_not_ok lib.marshal (error_payload err_validation_failed)
                (ap (λ (r : Response). r.code) refused ∙ is_ok))
      ]

module _ {S N C T Claims Float : Type 0} (app : Service S N C) (asked : C → String)
    (answers : Answers app.net asked) (lib : Libraries) (jwt : Jwt T Claims Float)
    (jwt_secret : String) where
  -- When every result channel carries the transaction that was asked for, a request for hashes that
  -- is answered with 200 has the JSON of a list that holds exactly one transaction for each hash of
  -- the query, in lower case and in the order of the query.
  pub get_transactions_by_hashes-Lists :
      (r : Request) (w : World S N) {resp : Response} {w' : World S N}
      → get_transactions_by_hashes (endpoint app lib jwt jwt_secret) r w ≡ (ok resp, w')
      → resp.code ≡ 200
      → Lists lib.marshal resp.body (map lib.to_lower r.transaction_hashes)
  get_transactions_by_hashes-Lists r w e is_ok =
      let f = get_transactions_by_hashes-Fetched app lib jwt jwt_secret r w e is_ok in
      (
        map view f.txs,
        f.written,
        map-hash_view f.txs
            ∙ get_transactions_by_hashes_complete app asked answers r.ctx _ _ w f.fetched,
      )
