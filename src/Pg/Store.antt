-- ===== src/Pg/Store.antt =====
-- internal/store/pg/db.go: the store.
pub mod Counter
pub mod Commits
pub mod Durable
pub mod Opened
pub mod Inserted
pub mod Kept
pub mod Links
pub mod Linked
pub mod Mine
pub mod Served
pub mod Idle
pub mod Duplicates
mod Tests
pub mod Examples
pub mod Generated
use ethereum_fetcher.Prelude.{
  ℕ, zero, suc, ◌+◌, String, ℤ, pos, negsuc, ◌==ℤ◌, str_eq, Bool, true, false, Option, none, some,
  List, [], ◌∷◌, map, if◌then◌else◌,
}
use ethereum_fetcher.Result.{
  Result, ok, err, panic, Error, text, message, is_no_rows, pg_code, errorf_hash, ◌+++◌,
}
use ethereum_fetcher.Exec.{Exec, pure, raise, annotate, ◌>>=◌, ◌>>◌}
use ethereum_fetcher.Models.{User, Transaction, get_users}
use ethereum_fetcher.Providers.{StorageProvider, non_authenticated_user}
use ethereum_fetcher.Pg.Database.{Database, Executor, database, transaction, foreign}
use ethereum_fetcher.Pg.Relations.{add_users}

-- The store's own counter, and the database. The counter is one for all requests.
pub record Store (D : Type 0) : Type 0 where
  pub tx_count : ℤ
  pub db : D

-- `ErrDuplicateRowCode`
abbrev pub err_duplicate_row_code : String
err_duplicate_row_code = "23505"

-- `st.txCount++`, `st.txCount--` and `st.txCount <= 0`
pub incr : ℤ → ℤ
incr (pos n) = pos (suc n)
incr (negsuc zero) = pos 0
incr (negsuc (suc n)) = negsuc n

pub decr : ℤ → ℤ
decr (pos zero) = negsuc 0
decr (pos (suc n)) = pos n
decr (negsuc n) = negsuc (suc n)

pub at_most_zero : ℤ → Bool
at_most_zero (pos zero) = true
at_most_zero (pos (suc n)) = false
at_most_zero (negsuc n) = true

abbrev pub on_db : {D A : Type 0} → Exec D A → Exec (Store D) A
on_db m s = let (r, d) = m s.db in (r, record s { db = d })

abbrev pub insert_failed : String → Error → Error
insert_failed = errorf_hash "cannot insert tx into the database for hash"

abbrev pub link_failed : String → Error → Error
link_failed = errorf_hash "cannot insert tx/user into the database for hash"

abbrev pub new_user : ℤ → User
new_user user_id = record { id = user_id; username = ""; password = "" }

drop_error : Result (Unit {0}) → Result (Unit {0})
drop_error (ok a) = ok a
drop_error (err e) = ok tt
drop_error panic = panic

-- `context_db` is what `boil.GetContextDB()` gives: the pool in production, a transaction in tests.
module _ {D : Type 0} (db : Database D) (context_db : Executor) where
  counted : Exec (Store D) (Unit {0})
  counted s = (ok tt, record s { tx_count = incr s.tx_count })

  pub begin_on : Executor → Exec (Store D) ℕ
  unfolding counted incr
  begin_on database = do h ← on_db db.begin; counted; pure h
  begin_on (transaction h) = do counted; pure h
  begin_on foreign = raise (text "cannot obtain currently started sql Tx")

  pub begin_tx : Exec (Store D) ℕ
  begin_tx = begin_on context_db

  pub commit_tx : ℕ → Exec (Store D) (Unit {0})
  unfolding decr at_most_zero
  commit_tx h s =
      let s' : Store D = record s { tx_count = decr s.tx_count } in
      if at_most_zero s'.tx_count then on_db (db.commit h) s' else (ok tt, s')

  pub rollback_tx : ℕ → Exec (Store D) (Unit {0})
  unfolding decr at_most_zero
  rollback_tx h s =
      let s' : Store D = record s { tx_count = decr s.tx_count } in
      if at_most_zero s'.tx_count then on_db (db.rollback h) s' else (ok tt, s')

  -- `_ = st.RollbackTx(dbTx)` after an error, whose own result is dropped
  pub roll_back : ℕ → Exec (Store D) (Unit {0})
  unfolding drop_error
  roll_back h s = let (r, s') = rollback_tx h s in (drop_error r, s')

  pub settle : {A : Type 0} → ℕ → (Error → Error) → Result A → Exec (Store D) A
  settle h f (ok a) s = (ok a, s)
  settle h f (err e) s = (roll_back h >> raise (f e)) s
  settle h f panic s = (panic, s)

  -- a step inside of the transaction `h`, rolled back when it fails
  pub or_rollback : {A : Type 0} → ℕ → (Error → Error) → Exec D A → Exec (Store D) A
  or_rollback h f m s = let (r, s') = on_db m s in settle h f r s'

  -- `if userID != store.NonAuthenticatedUser { ... }` of `InsertTransactions`
  pub link_opened : ℕ → ℤ → Transaction → Exec (Store D) (Unit {0})
  link_opened h user_id tx = if user_id ==ℤ non_authenticated_user then pure tt else (do
    or_rollback h (link_failed tx.tx_hash)
        (add_users db (transaction h) false tx (new_user user_id ∷ []))
    pure tt)

  -- one round of the loop of `InsertTransactions`
  pub insert_one : ℤ → Transaction → Exec (Store D) (Unit {0})
  insert_one user_id tx = do
    h ← annotate (insert_failed tx.tx_hash) begin_tx
    or_rollback h (insert_failed tx.tx_hash) (db.upsert (transaction h) ("tx_hash" ∷ []) tx)
    link_opened h user_id tx
    annotate (insert_failed tx.tx_hash) (commit_tx h)

  pub insert_transactions : List Transaction → ℤ → Exec (Store D) (Unit {0})
  insert_transactions [] user_id = pure tt
  insert_transactions (tx ∷ rest) user_id = do
    insert_one user_id tx
    insert_transactions rest user_id

  -- a link that is there already is no error
  pub ignore_duplicate : (Error → Error) → Result Transaction → Result (Unit {0})
  ignore_duplicate f (ok tx) = ok tt
  ignore_duplicate f (err e) = elim (pg_code e) [
    | none ↦ err (f e)
    | some code ↦ if str_eq code err_duplicate_row_code then ok tt else err (f e)
  ]
  ignore_duplicate f panic = panic

  pub link_one : ℤ → Transaction → Exec (Store D) (Unit {0})
  link_one user_id tx s =
      let (r, s') = on_db (add_users db context_db false tx (new_user user_id ∷ [])) s in
      (ignore_duplicate (link_failed tx.tx_hash) r, s')

  -- one round of the loop of `InsertTransactionsUser`
  pub insert_one_user : ℤ → Transaction → Exec (Store D) (Unit {0})
  unfolding get_users
  insert_one_user user_id tx =
      if user_id ==ℤ non_authenticated_user
      then pure tt
      else elim (get_users tx) [ [] ↦ link_one user_id tx | _ ↦ pure tt ]

  pub insert_transactions_user : List Transaction → ℤ → Exec (Store D) (Unit {0})
  insert_transactions_user [] user_id = pure tt
  insert_transactions_user (tx ∷ rest) user_id = do
    insert_one_user user_id tx
    insert_transactions_user rest user_id

  -- no such user, or another password: a user with the id 0, and no error
  pub or_unauthenticated : Result User → Result User
  unfolding is_no_rows
  or_unauthenticated (ok user) = ok user
  or_unauthenticated (err e) = if is_no_rows e then ok (new_user non_authenticated_user) else err e
  or_unauthenticated panic = panic

  pub get_user : String → String → Exec (Store D) User
  unfolding or_unauthenticated
  get_user username password s =
      let (r, s') = on_db (db.select_user context_db username password) s in
      (or_unauthenticated r, s')

  abbrev cannot_select : String → Error → Error
  cannot_select what e = text ("cannot select " +++ what +++ ": " +++ message e)

  pub get_all_transactions : Exec (Store D) (List Transaction)
  get_all_transactions =
      annotate (cannot_select "all tx from database") (on_db (db.select_all context_db))

  pub get_my_transactions : ℤ → Exec (Store D) (List Transaction)
  get_my_transactions user_id =
      annotate (cannot_select "all tx from database") (on_db (db.select_joined context_db user_id))

  pub get_transactions_by_hashes : List String → ℤ → Exec (Store D) (List Transaction)
  get_transactions_by_hashes tx_hashes user_id =
      annotate (cannot_select "tx from database by provided tx hashes") (
        on_db (
          db.select_by_hashes context_db tx_hashes
            (if user_id ==ℤ non_authenticated_user then none else some user_id)))

  -- the store as the service sees it
  abbrev pub provider : StorageProvider (Store D)
  provider = record {
    get_user = get_user;
    get_transactions_by_hashes = get_transactions_by_hashes;
    get_all_transactions = get_all_transactions;
    get_my_transactions = get_my_transactions;
    insert_transactions = insert_transactions;
    insert_transactions_user = insert_transactions_user;
  }
