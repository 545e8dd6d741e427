-- ===== src/Pg/Store/Links.antt =====
-- A link to one user, by the result of its statement.
use ethereum_fetcher.Prelude.{
  String, ℤ, ◌≡◌, refl, ap, ◌∙◌, ◌⊎◌, inl, inr, false, some, List, [], ◌∷◌, Bool-cases,
  Option-cases, str_eq, eq_iff,
}
use ethereum_fetcher.Result.{Result, ok, err, panic, Error, wrapped, pg_code}
use ethereum_fetcher.Exec.{pure, annotate, ◌>>=◌}
use ethereum_fetcher.Models.{User, Transaction}
use ethereum_fetcher.Pg.Database.{Database, Executor, Value, database, text_value, int_value}
use ethereum_fetcher.Pg.Relations.{
  join_statement, insert_related, link_related, append_related, add_users,
}
use ethereum_fetcher.Pg.Store.{err_duplicate_row_code, ignore_duplicate}

-- the arguments of the statement that links the transaction of a hash to a user
abbrev pub link_of : String → ℤ → List Value
link_of h u = text_value h ∷ int_value u ∷ []

-- A result, or the error of PostgreSQL for a row that is there already.
abbrev pub IsDuplicate : {A : Type 0} → Result A → Type 0
IsDuplicate (ok a) = Unit {0}
IsDuplicate (err e) = pg_code e ≡ some err_duplicate_row_code
IsDuplicate panic = ⊥

module _ {D : Type 0} (db : Database D) where
  -- the result of AddUsers for one user that is not inserted, by that of its statement
  pub linked_to : Transaction → User → Result (Unit {0}) → Result Transaction
  linked_to tx user (ok x) = ok (record tx { r = append_related tx.r (user ∷ []) })
  linked_to tx user (err e) = err (wrapped "failed to insert into join table" e)
  linked_to tx user panic = panic

  pub add_users_one :
      (e : Executor) (tx : Transaction) (user : User) (d : D)
      → add_users db e false tx (user ∷ []) d ≡ (
        linked_to tx user (db.exec e join_statement (link_of tx.tx_hash user.id) d).0,
        (db.exec e join_statement (link_of tx.tx_hash user.id) d).1,
      )
  unfolding add_users insert_related link_related ◌>>=◌ annotate linked_to
  add_users_one e tx user d =
      by_result (db.exec e join_statement (link_of tx.tx_hash user.id) d).0
        (db.exec e join_statement (link_of tx.tx_hash user.id) d).1
    where
      by_result :
          (r : Result (Unit {0})) (d' : D)
          → ((annotate (wrapped "failed to insert into join table") (λ _. (r, d')) >>= λ x. pure tt)
                >>= λ x. pure (record tx { r = append_related tx.r (user ∷ []) }))
              d
            ≡ (linked_to tx user r, d')
      by_result (ok x) d' = refl
      by_result (err failure) d' = refl
      by_result panic d' = refl

  pub linked_to-eq-ok :
      (tx : Transaction) (user : User) (r : Result (Unit {0})) {tx' : Transaction}
      → linked_to tx user r ≡ ok tx'
      → r ≡ ok tt
  unfolding linked_to
  linked_to-eq-ok tx user (ok x) e = refl
  linked_to-eq-ok tx user (err failure) e = cc
  linked_to-eq-ok tx user panic e = cc

  refused :
      (f : Error → Error) (failure : Error)
      → ignore_duplicate db database f (err failure) ≡ ok tt
      → pg_code failure ≡ some err_duplicate_row_code
  unfolding ignore_duplicate
  refused f failure e = elim (Option-cases (pg_code failure)) [
    | inl unknown ↦ let failed = rw (unknown, ignore_duplicate) at e in cc
    | inr (code, known) ↦ elim (Bool-cases (str_eq code err_duplicate_row_code)) [
      | inl same ↦ known ∙ ap some ((eq_iff code err_duplicate_row_code).0 same)
      | inr other ↦ let failed = rw (known, other, ignore_duplicate) at e in cc
    ]
  ]

  -- no error, or the duplicate that is ignored
  pub ignored :
      (f : Error → Error) (tx : Transaction) (user : User) (r : Result (Unit {0}))
      → ignore_duplicate db database f (linked_to tx user r) ≡ ok tt
      → (r ≡ ok tt)
        ⊎ ((failure : Error) × (r ≡ err failure) × (pg_code failure ≡ some err_duplicate_row_code))
  unfolding linked_to ignore_duplicate pg_code
  ignored f tx user (ok x) e = inl refl
  ignored f tx user (err failure) e =
      inr (failure, refl, refused f (wrapped "failed to insert into join table" failure) e)
  ignored f tx user panic e = cc

  pub not_refused :
      (f : Error → Error) (tx : Transaction) (user : User) (r : Result (Unit {0}))
      → IsDuplicate r
      → ignore_duplicate db database f (linked_to tx user r) ≡ ok tt
  unfolding linked_to ignore_duplicate pg_code
  not_refused f tx user (ok x) q = refl
  not_refused f tx user (err e) q = rw (q, ignore_duplicate) refl
  not_refused f tx user panic q = absurd q
