-- ===== src/Pg/Store/Durable.antt =====
-- What is asked of PostgreSQL for rows to stay, and what the store's calls do to committed rows.
use ethereum_fetcher.Prelude.{
  ℕ, zero, suc, String, ℤ, pos, negsuc, ◌==ℤ◌, ◌≡◌, inl, inr, false, Option, List, [], ◌∷◌, All,
  Bool-cases,
}
use ethereum_fetcher.Result.{Result, ok, err, panic, Error}
use ethereum_fetcher.Exec.{Exec, pure}
use ethereum_fetcher.Exec.Rules.{Keeps, >>=-Keeps, annotate-Keeps}
use ethereum_fetcher.Models.{User, Transaction, get_users}
use ethereum_fetcher.Providers.{non_authenticated_user}
use ethereum_fetcher.Pg.Database.{Database, Executor, Value, database, transaction}
use ethereum_fetcher.Pg.Relations.{join_statement, insert_related, link_related, add_users}
use ethereum_fetcher.Pg.Store.{
  Store, new_user, decr, at_most_zero, link_failed, counted, begin_on, begin_tx, commit_tx,
  rollback_tx, roll_back, settle, or_rollback, link_opened, insert_one, insert_transactions,
  link_one, insert_one_user, insert_transactions_user, get_transactions_by_hashes,
}

-- None of the statements of the store, and no commit or rollback, takes `P` away.
pub record KeptBy {D : Type 0} (db : Database D) (P : D → Type 0) : Type 0 where
  pub begin_keeps : Keeps P db.begin
  pub commit_keeps : (t : ℕ) → Keeps P (db.commit t)
  pub rollback_keeps : (t : ℕ) → Keeps P (db.rollback t)
  pub exec_keeps : (e : Executor) (values : List Value) → Keeps P (db.exec e join_statement values)
  pub upsert_keeps : (e : Executor) (tx : Transaction) → Keeps P (db.upsert e ("tx_hash" ∷ []) tx)
  pub select_keeps : (hs : List String) (u : Option ℤ) → Keeps P (db.select_by_hashes database hs u)

-- What PostgreSQL promises: `HasRow d h` for a committed row with the hash `h`, and
-- `Pending t d h` for one that the open transaction `t` has written.
pub record Durable {D : Type 0} (db : Database D) (HasRow : D → String → Type 0)
    (Pending : ℕ → D → String → Type 0) : Type 0 where
  -- a select outside of transactions lists committed rows
  pub listed :
      (hs : List String) (u : Option ℤ) (d d' : D) (txs : List Transaction)
      → db.select_by_hashes database hs u d ≡ (ok txs, d')
      → All (λ t. HasRow d' t.tx_hash) txs
  pub written :
      (t : ℕ) (tx : Transaction) (d d' : D)
      → db.upsert (transaction t) ("tx_hash" ∷ []) tx d ≡ (ok tt, d')
      → Pending t d' tx.tx_hash
  -- a statement of the same transaction undoes none of its writes
  pub linked :
      (t : ℕ) (values : List Value) (h : String) (d d' : D)
      → db.exec (transaction t) join_statement values d ≡ (ok tt, d')
      → Pending t d h
      → Pending t d' h
  pub committed :
      (t : ℕ) (h : String) (d d' : D) → db.commit t d ≡ (ok tt, d') → Pending t d h → HasRow d' h
  -- a committed row stays
  pub kept : (h : String) → KeptBy db (λ d. HasRow d h)

-- Some transaction is counted as open.
abbrev pub IsBusy : ℤ → Type 0
IsBusy (pos zero) = ⊥
IsBusy (pos (suc n)) = Unit {0}
IsBusy (negsuc n) = ⊥

-- What holds after each link to the user holds after all.
module _ {D : Type 0} (db : Database D) (u : ℤ) (P : Store D → Type 0)
    (linked : (tx : Transaction) → Keeps P (link_one db database u tx)) where
  insert_one_user-Keeps : (tx : Transaction) → Keeps P (insert_one_user db database u tx)
  unfolding insert_one_user
  insert_one_user-Keeps tx = elim (Bool-cases (u ==ℤ non_authenticated_user)) [
    | inl nobody ↦ rw (nobody, insert_one_user) λ s k. k
    | inr somebody ↦ rw (somebody, insert_one_user) (by_users (get_users tx))
  ]
    where
      by_users :
          (users : List User)
          → Keeps P (elim users [ [] ↦ link_one db database u tx | _ ↦ pure tt ])
      by_users [] = linked tx
      by_users (user ∷ users) = λ s k. k

  pub insert_transactions_user-Keeps :
      (txs : List Transaction) → Keeps P (insert_transactions_user db database txs u)
  unfolding insert_transactions_user
  insert_transactions_user-Keeps [] = λ s k. k
  insert_transactions_user-Keeps (tx ∷ txs) =
      >>=-Keeps P _ _ (insert_one_user-Keeps tx) λ x. insert_transactions_user-Keeps txs

module _ {D : Type 0} (db : Database D) (P : D → Type 0) (kept : KeptBy db P) where
  abbrev Has : Store D → Type 0
  Has s = P s.db

  insert_related-Keeps :
      (e : Executor) (users : List User) → Keeps P (insert_related db e false users)
  unfolding insert_related
  insert_related-Keeps e [] = λ d k. k
  insert_related-Keeps e (user ∷ users) =
      >>=-Keeps P _ _ (λ d k. k) λ x. insert_related-Keeps e users

  link_related-Keeps :
      (e : Executor) (tx : Transaction) (users : List User) → Keeps P (link_related db e tx users)
  unfolding link_related
  link_related-Keeps e tx [] = λ d k. k
  link_related-Keeps e tx (user ∷ users) =
      >>=-Keeps P _ _ (annotate-Keeps P _ _ (kept.exec_keeps e _))
        λ x. link_related-Keeps e tx users

  add_users-Keeps :
      (e : Executor) (tx : Transaction) (users : List User)
      → Keeps P (add_users db e false tx users)
  unfolding add_users
  add_users-Keeps e tx users =
      >>=-Keeps P _ _ (insert_related-Keeps e users)
        λ x. >>=-Keeps P _ _ (link_related-Keeps e tx users) λ y d k. k

  begin_on-Keeps : (e : Executor) → Keeps Has (begin_on db database e)
  unfolding begin_on counted
  begin_on-Keeps database =
      >>=-Keeps Has _ _ (λ s. kept.begin_keeps s.db) λ t. >>=-Keeps Has _ _ (λ s k. k) λ x s k. k
  begin_on-Keeps (transaction t) = >>=-Keeps Has _ _ (λ s k. k) λ x s k. k
  begin_on-Keeps Executor.foreign = λ s k. k

  commit_tx-Keeps : (t : ℕ) → Keeps Has (commit_tx db database t)
  unfolding commit_tx
  commit_tx-Keeps t s k = elim (Bool-cases (at_most_zero (decr s.tx_count))) [
    | inl last ↦ rw (last, commit_tx) (kept.commit_keeps t s.db k)
    | inr more ↦ rw (more, commit_tx) k
  ]

  roll_back-Keeps : (t : ℕ) → Keeps Has (roll_back db database t)
  unfolding roll_back rollback_tx
  roll_back-Keeps t s k = elim (Bool-cases (at_most_zero (decr s.tx_count))) [
    | inl last ↦ rw (last, rollback_tx) (kept.rollback_keeps t s.db k)
    | inr more ↦ rw (more, rollback_tx) k
  ]

  settle-Keeps :
      {A : Type 0} (t : ℕ) (f : Error → Error) (r : Result A) → Keeps Has (settle db database t f r)
  unfolding settle
  settle-Keeps t f (ok a) = λ s k. k
  settle-Keeps t f (err e) = >>=-Keeps Has _ _ (roll_back-Keeps t) λ x s k. k
  settle-Keeps t f panic = λ s k. k

  or_rollback-Keeps :
      {A : Type 0} (t : ℕ) (f : Error → Error) (m : Exec D A)
      → Keeps P m
      → Keeps Has (or_rollback db database t f m)
  unfolding or_rollback
  or_rollback-Keeps t f m km s k =
      settle-Keeps t f (m s.db).0 (record s { db = (m s.db).1 }) (km s.db k)

  link_opened-Keeps :
      (t : ℕ) (u : ℤ) (tx : Transaction) → Keeps Has (link_opened db database t u tx)
  unfolding link_opened
  link_opened-Keeps t u tx = elim (Bool-cases (u ==ℤ non_authenticated_user)) [
    | inl nobody ↦ rw nobody λ s k. k
    | inr somebody ↦ rw somebody (
        >>=-Keeps Has _ _
          (or_rollback-Keeps t (link_failed tx.tx_hash) _
            (add_users-Keeps (transaction t) tx (new_user u ∷ [])))
          λ x s k. k)
  ]

  insert_one-Keeps : (u : ℤ) (tx : Transaction) → Keeps Has (insert_one db database u tx)
  unfolding insert_one begin_tx
  insert_one-Keeps u tx = >>=-Keeps Has _ _ (annotate-Keeps Has _ _ (begin_on-Keeps database)) λ t.
      >>=-Keeps Has _ _ (or_rollback-Keeps t _ _ (kept.upsert_keeps (transaction t) tx)) λ x.
        >>=-Keeps Has _ _ (link_opened-Keeps t u tx) λ y. annotate-Keeps Has _ _ (commit_tx-Keeps t)

  pub insert_transactions-Keeps :
      (txs : List Transaction) (u : ℤ) → Keeps Has (insert_transactions db database txs u)
  unfolding insert_transactions
  insert_transactions-Keeps [] u = λ s k. k
  insert_transactions-Keeps (tx ∷ txs) u =
      >>=-Keeps Has _ _ (insert_one-Keeps u tx) λ x. insert_transactions-Keeps txs u

  link_one-Keeps : (u : ℤ) (tx : Transaction) → Keeps Has (link_one db database u tx)
  unfolding link_one
  link_one-Keeps u tx s k = add_users-Keeps database tx (new_user u ∷ []) s.db k

  pub insert_transactions_user-Has :
      (txs : List Transaction) (u : ℤ) → Keeps Has (insert_transactions_user db database txs u)
  insert_transactions_user-Has txs u =
      insert_transactions_user-Keeps db u Has (link_one-Keeps u) txs

  pub get_transactions_by_hashes-Keeps :
      (hs : List String) (u : ℤ) → Keeps Has (get_transactions_by_hashes db database hs u)
  unfolding get_transactions_by_hashes
  get_transactions_by_hashes-Keeps hs u =
      annotate-Keeps Has _ _ λ s k. kept.select_keeps hs _ s.db k
