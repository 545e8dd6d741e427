-- ===== src/Server/Auth/Guards.antt =====
-- Who gets past the middleware.
use ethereum_fetcher.Prelude.{
  ℕ, String, ℤ, pos, ◌≡◌, ◌≢◌, refl, subst, ◌⊎◌, inl, inr, true, not, ◌&&◌, ◌||◌, some, arith,
  str_eq, eq_iff, Bool-cases, Option-cases,
}
use ethereum_fetcher.Result.{Result, ok}
use ethereum_fetcher.Server.Http.{Request, write_unauthorized_error}
use ethereum_fetcher.Server.Libraries.{Jwt}
use ethereum_fetcher.Server.Auth.{
  AuthBearerMiddleware, with_user, key_function, accept_claims, accept_token, authenticate,
}

-- `jwt.Parse` gives a token only when the key function gave it a key.
abbrev pub ChecksKeys : {T Claims Float : Type 0} → Jwt T Claims Float → Type 0
ChecksKeys {T} jwt =
    (now : ℕ) (s : String) (k : T → Result String) (t : T)
    → jwt.parse now s k ≡ some t
    → (key : String) × (k t ≡ ok key)

module _ {T Claims Float W : Type 0} (jwt : Jwt T Claims Float) (wab : AuthBearerMiddleware W) where
  -- The header holds a valid token for `user`, signed by an HMAC, that is parsed with the secret as
  -- its key.
  pub record IsProven (r : Request) (user : ℤ) : Type 0 where
    pub token : T
    pub claims : Claims
    pub number : Float
    -- the key function that it is parsed with gives it the secret
    pub key_of : T → Result String
    pub parsed : jwt.parse r.now r.auth_token key_of ≡ some token
    pub secret : key_of token ≡ ok wab.jwt_secret
    pub hmac : jwt.is_hmac token ≡ true
    pub claimed : jwt.map_claims token ≡ some claims
    pub valid : jwt.valid token ≡ true
    pub in_time : jwt.claims_valid r.now claims ≡ true
    pub subject : jwt.sub claims ≡ some number
    pub user_id : user ≡ jwt.to_int number

  key_function-hmac :
      (t : T) {key : String} → key_function jwt wab t ≡ ok key → jwt.is_hmac t ≡ true
  unfolding key_function
  key_function-hmac t e = ground arith

  pub key_function-eq : (t : T) → jwt.is_hmac t ≡ true → key_function jwt wab t ≡ ok wab.jwt_secret
  unfolding key_function
  key_function-eq t hmac = rw hmac refl

  pub accept_proven :
      (r : Request) (u : ℤ) (p : IsProven r u) (w : W)
      → accept_claims jwt wab r p.token w ≡ wab.next (with_user u r) w
  unfolding accept_claims
  accept_proven r u p w =
      rw (accept_claims, p.claimed, p.valid, p.in_time, p.subject, p.user_id) refl

  -- A token that is accepted is proven, and anything else is refused.
  accept_claims_cases :
      ChecksKeys jwt
      → (r : Request) (w : W) (t : T) → jwt.parse r.now r.auth_token (key_function jwt wab) ≡ some t
      → (accept_claims jwt wab r t w ≡ (ok write_unauthorized_error, w))
        ⊎ ((u : ℤ) × IsProven r u × (accept_claims jwt wab r t w ≡ wab.next (with_user u r) w))
  unfolding accept_claims
  accept_claims_cases checks r w t parsed = elim (Option-cases (jwt.map_claims t)) [
    | inl no_claims ↦ inl (rw (accept_claims, no_claims) refl)
    | inr (c, claimed) ↦ elim (Bool-cases (not (jwt.valid t) || not (jwt.claims_valid r.now c))) [
      | inl bad ↦ inl (rw (accept_claims, claimed, bad) refl)
      | inr good ↦ elim (Option-cases (jwt.sub c)) [
        | inl no_sub ↦ inl (rw (accept_claims, claimed, good, no_sub) refl)
        | inr (f, subject) ↦ inr (
          jwt.to_int f,
          record {
            token = t;
            claims = c;
            number = f;
            key_of = key_function jwt wab;
            parsed = parsed;
            secret =
                key_function-eq t (key_function-hmac t (checks r.now r.auth_token _ t parsed).1);
            hmac = key_function-hmac t (checks r.now r.auth_token _ t parsed).1;
            claimed = claimed;
            valid = ground arith;
            in_time = ground arith;
            subject = subject;
            user_id = refl;
          },
          rw (accept_claims, claimed, good, subject) refl,
        )
      ]
    ]
  ]

  -- When jwt.Parse checks keys, a request is either refused with 401 and nothing done, or passed
  -- on without a user, which needs an optional endpoint and no token at all, or passed on as a user
  -- whose valid token, signed by an HMAC and parsed with the secret as its key, stands in the
  -- header.
  pub authenticate_guards :
      ChecksKeys jwt
      → (r : Request) (w : W)
      → (authenticate jwt wab r w ≡ (ok write_unauthorized_error, w))
        ⊎ ((wab.optional ≡ true)
            × (r.auth_token ≡ "")
            × (authenticate jwt wab r w ≡ wab.next (with_user (pos 0) r) w))
        ⊎ ((u : ℤ) × IsProven r u × (authenticate jwt wab r w ≡ wab.next (with_user u r) w))
  unfolding authenticate accept_token
  authenticate_guards checks r w = elim (Bool-cases (wab.optional && str_eq r.auth_token "")) [
    | inl nobody ↦ inr (inl (ground arith, ground (arith, eq_iff r.auth_token ""), rw nobody refl))
    | inr somebody ↦ elim (Option-cases (jwt.parse r.now r.auth_token (key_function jwt wab))) [
      | inl failed ↦ inl (rw (somebody, failed) refl)
      | inr (t, parsed) ↦ elim (accept_claims_cases checks r w t parsed) [
        | inl refused ↦ inl (rw (somebody, parsed) refused)
        | inr (u, p, passed) ↦ inr (inr (u, p, rw (somebody, parsed) passed))
      ]
    ]
  ]

  -- A proven request is passed on.
  pub authenticate_proven :
      (r : Request) (u : ℤ) (p : IsProven r u) (w : W)
      → r.auth_token ≢ ""
      → p.key_of ≡ key_function jwt wab
      → authenticate jwt wab r w ≡ wab.next (with_user u r) w
  unfolding authenticate accept_token
  authenticate_proven r u p w there same =
      elim (Bool-cases (wab.optional && str_eq r.auth_token "")) [
        | inl nobody ↦ absurd (there (ground (arith, eq_iff r.auth_token "")))
        | inr somebody ↦
            let parsed = subst (λ k. jwt.parse r.now r.auth_token k ≡ some p.token) same p.parsed in
            rw (somebody, parsed) (accept_proven r u p w)
      ]
