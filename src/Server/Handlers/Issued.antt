-- ===== src/Server/Handlers/Issued.antt =====
-- When a login is answered with a token, and for whom.
use ethereum_fetcher.Prelude.{
  ℕ, String, pos, ◌≡◌, ◌≢◌, ◌↔◌, refl, sym, ap, subst, ◌∙◌, inl, inr, true, false, ◌||◌, none, some,
  ◌==◌, ◌==ℤ◌, ==ℤ_iff, str_eq, Bool-cases, Option-cases, false≢true,
}
use ethereum_fetcher.Result.{Result, ok, err, panic}
use ethereum_fetcher.Exec.Rules.{ok-injective}
use ethereum_fetcher.Models.{User}
use ethereum_fetcher.Providers.{non_authenticated_user}
use ethereum_fetcher.Server.Http.{
  Request, Response, token_payload, write_json_response, write_unauthorized_error,
  write_bad_request_error, write_internal_server_error,
}
use ethereum_fetcher.Server.Libraries.{RequestAuthenticate}
use ethereum_fetcher.Server.Handlers.{
  EndPoint, login, on_result, or_internal_error, token_response, issue_token, check_credentials,
  authenticate, serve, create_token,
}

-- a response that was written, and is no success
not_written :
    {W : Type 0} (other resp : Response) {w w' : W}
    → ◌≡◌ {A = Result Response × W} (ok other, w) (ok resp, w')
    → (other.code == 200) ≡ false
    → resp.code ≡ 200
    → ⊥
not_written other resp e failed c =
    let same : other ≡ resp = ok-injective e in
    false≢true failed (subst (λ (r : Response). (r.code == 200) ≡ true) (sym same) (rw c refl))

module _ {T Claims Float W : Type 0} (ep : EndPoint T Claims Float W) where
  -- The response is a success that holds a token for a user that is known.
  pub record IsToken (now : ℕ) (user : User) (resp : Response) : Type 0 where
    pub known : user.id ≢ pos 0
    pub token : String
    pub created : create_token ep.jwt ep.jwt_secret user.id now ≡ some token
    pub content : String
    pub marshalled : ep.lib.marshal (token_payload token) ≡ some content
    pub answered :
        resp
        ≡ record { code = 200; content_type = "application/json"; challenge = none; body = content }

  -- The body names a user and a password that GetUser has a user for.
  pub record IsIssued (r : Request) (w w' : W) (resp : Response) : Type 0 where
    pub body : String
    pub read : r.body ≡ some body
    pub credentials : RequestAuthenticate
    pub parsed : ep.lib.unmarshal body ≡ some credentials
    pub named : (str_eq credentials.username "" || str_eq credentials.password "") ≡ false
    pub user : User
    pub found : ep.ap.get_user credentials.username credentials.password w ≡ (ok user, w')
    pub is_token : IsToken r.now user resp

  issue_token-IsToken :
      (now : ℕ) (user : User) {w w' : W} (resp : Response)
      → ◌≡◌ {A = Result Response × W} (ok (issue_token ep now user), w) (ok resp, w')
      → resp.code ≡ 200
      → IsToken now user resp
  unfolding issue_token token_response write_json_response
  issue_token-IsToken now user resp e c = elim (Bool-cases (user.id ==ℤ non_authenticated_user)) [
    | inl nobody ↦
        absurd (not_written write_unauthorized_error resp (rw (nobody, issue_token) at e) refl c)
    | inr somebody ↦ elim (Option-cases (create_token ep.jwt ep.jwt_secret user.id now)) [
      | inl unsigned ↦ absurd (
          not_written write_internal_server_error resp (rw (somebody, unsigned, issue_token) at e)
            refl c)
      | inr (token, created) ↦ elim (Option-cases (ep.lib.marshal (token_payload token))) [
        | inl unwritten ↦ absurd (
            not_written _ resp
              (rw (somebody, created, unwritten, issue_token, write_json_response) at e) refl c)
        | inr (content, marshalled) ↦ record {
          known = λ q. false≢true somebody ((==ℤ_iff user.id (pos 0)).1 q);
          token = token;
          created = created;
          content = content;
          marshalled = marshalled;
          answered = sym (
              ok-injective
                (rw (somebody, created, marshalled, issue_token, write_json_response) at e));
        }
      ]
    ]
  ]

  IsToken-issue_token :
      (now : ℕ) (user : User) (resp : Response)
      → IsToken now user resp
      → issue_token ep now user ≡ resp
  unfolding issue_token token_response write_json_response
  IsToken-issue_token now user resp t = elim (Bool-cases (user.id ==ℤ non_authenticated_user)) [
    | inl nobody ↦ absurd (t.known ((==ℤ_iff user.id (pos 0)).0 nobody))
    | inr somebody ↦
        rw (somebody, issue_token, t.created, t.marshalled, write_json_response) (sym t.answered)
  ]

  found_user :
      (now : ℕ) (o : Result User) (w w' : W) (resp : Response)
      → on_result (issue_token ep now) o w ≡ (ok resp, w')
      → resp.code ≡ 200
      → (user : User) × (o ≡ ok user) × (w ≡ w') × IsToken now user resp
  unfolding on_result
  found_user now (ok user) w w' resp e c =
      (user, refl, (λ i. (e i).1), issue_token-IsToken now user resp e c)
  found_user now (err x) w w' resp e c =
      absurd (not_written write_internal_server_error resp e refl c)
  found_user now panic w w' resp e c = absurd (cc)

  -- A login is answered with 200 exactly when its body is read and parsed, names a user and a
  -- password that are not blank, GetUser has a user for them whose id is not 0, and a token for this
  -- user is signed and written; the response then holds that token, and nothing but GetUser has
  -- worked on the state.
  pub serve_login-IsIssued :
      (r : Request) (w w' : W) (resp : Response)
      → ((serve ep login r w ≡ (ok resp, w')) × (resp.code ≡ 200)) ↔ IsIssued r w w' resp
  unfolding serve authenticate check_credentials or_internal_error on_result
  serve_login-IsIssued r w w' resp = (forward, back)
    where
      forward : (serve ep login r w ≡ (ok resp, w')) × (resp.code ≡ 200) → IsIssued r w w' resp
      forward (e, c) = elim (Option-cases r.body) [
        | inl unread ↦ absurd (
            not_written write_bad_request_error resp (rw (unread, serve, authenticate) at e) refl c)
        | inr (body, read) ↦ elim (Option-cases (ep.lib.unmarshal body)) [
          | inl malformed ↦ absurd (
              not_written write_bad_request_error resp
                (rw (read, malformed, serve, authenticate) at e) refl c)
          | inr (a, parsed) ↦ elim (Bool-cases (str_eq a.username "" || str_eq a.password "")) [
            | inl blank ↦ absurd (
                not_written write_unauthorized_error resp
                  (rw (read, parsed, blank, serve, authenticate, check_credentials) at e) refl c)
            | inr named ↦
                let asked = ep.ap.get_user a.username a.password w in
                let (user, same, left, is_token) =
                  found_user r.now asked.0 asked.1 w' resp
                    (rw (read, parsed, named, serve, authenticate, check_credentials) at e) c in
                record {
                  body = body;
                  read = read;
                  credentials = a;
                  parsed = parsed;
                  named = named;
                  user = user;
                  found = λ i. (same i, left i);
                  is_token = is_token;
                }
          ]
        ]
      ]

      back : IsIssued r w w' resp → (serve ep login r w ≡ (ok resp, w')) × (resp.code ≡ 200)
      back t = (
        rw (t.read, serve, authenticate, t.parsed, t.named, check_credentials)
            (ap (λ o. on_result (issue_token ep r.now) o.0 o.1) t.found ∙ written),
        ap (λ (resp : Response). resp.code) t.is_token.answered,
      )
        where
          written : on_result (issue_token ep r.now) (ok t.user) w' ≡ (ok resp, w')
          written i = (ok (IsToken-issue_token r.now t.user resp t.is_token i), w')
