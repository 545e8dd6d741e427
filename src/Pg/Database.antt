-- ===== src/Pg/Database.antt =====
-- What the program runs on PostgreSQL through database/sql and SQLBoiler's queries: a parameter of
-- the store, since neither is part of the repository. `D` is the state behind the connection pool.
use ethereum_fetcher.Prelude.{ℕ, String, ℤ, List, Option}
use ethereum_fetcher.Exec.{Exec}
use ethereum_fetcher.Models.{User, Transaction}

-- What a statement runs on: the pool, or an open transaction by its handle. `foreign` is an
-- executor that is neither a `ContextBeginner` nor a `*sql.Tx`.
pub data Executor : Type 0 where
  database : Executor
  transaction : (handle : ℕ) → Executor
  foreign : Executor

-- An argument of a statement: also a `null.String` and an array of texts.
pub data Value : Type 0 where
  text_value : String → Value
  int_value : ℤ → Value
  optional_value : Option String → Value
  texts_value : List String → Value

pub record Database (D : Type 0) : Type 0 where
  -- `boil.BeginTx`, `Commit` and `Rollback`
  pub begin : Exec D ℕ
  pub commit : ℕ → Exec D (Unit {0})
  pub rollback : ℕ → Exec D (Unit {0})
  -- `ExecContext`, with the text of the statement
  pub exec : Executor → String → List Value → Exec D (Unit {0})
  -- the generated `Upsert` of a transaction on the conflict columns, and `Insert` of a user
  pub upsert : Executor → List String → Transaction → Exec D (Unit {0})
  pub insert_user : Executor → User → Exec D (Unit {0})
  -- the user of a name and a password, by its id alone; `no_rows` where there is none
  pub select_user : Executor → String → String → Exec D User
  -- `Transactions().All`: all rows, those joined to a user, and those whose hash is one of the
  -- lower-cased hashes, with the relation to the given user loaded
  pub select_all : Executor → Exec D (List Transaction)
  pub select_joined : Executor → ℤ → Exec D (List Transaction)
  pub select_by_hashes : Executor → List String → Option ℤ → Exec D (List Transaction)
