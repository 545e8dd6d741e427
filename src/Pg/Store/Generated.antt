-- ===== src/Pg/Store/Generated.antt =====
-- internal/store/pg/db.go: what its methods ask of the generated code, and the store over that code.
pub mod Statements
pub mod Upserts
pub mod Committed
pub mod Again
pub mod Tests
use ethereum_fetcher.Prelude.{
  ℕ, String, ℤ, true, false, Option, none, some, List, [], ◌∷◌, ◌++◌, join_texts,
}
use ethereum_fetcher.Result.{◌+++◌}
use ethereum_fetcher.Exec.{Exec, pure, ◌>>=◌, ◌>>◌}
use ethereum_fetcher.Models.{User, Transaction}
use ethereum_fetcher.Pg.Database.{Database, Executor, text_value, int_value, texts_value}
use ethereum_fetcher.Pg.Hooks.{Hooks}
use ethereum_fetcher.Pg.Upsert.{UpsertOptions}
use ethereum_fetcher.Pg.Rows.Boiler.{
  Mod, sql, select, inner_join, is_where, and_where, load, inferred, Sql, Library,
}
use ethereum_fetcher.Pg.Rows.Session.{Models, on_row, on_db}
use ethereum_fetcher.Pg.Rows.Names.{
  table_names, transaction_columns, user_columns, transaction_rels_users,
}
use ethereum_fetcher.Pg.Rows.Tables.{transactions}
use ethereum_fetcher.Pg.Rows.Users as Users
use ethereum_fetcher.Pg.Rows.Queries
use ethereum_fetcher.Pg.Rows.Writes

-- The libraries below the generated code: transactions of the pool, the statements and queries on
-- rows of the two tables, and what `queries.BindMapping` gives for their primary keys.
pub record Boil (D : Type 0) : Type 0 where
  pub begin : Exec D ℕ
  pub commit : ℕ → Exec D (Unit {0})
  pub rollback : ℕ → Exec D (Unit {0})
  pub tx_driver : Sql D Transaction
  pub user_driver : Sql D User
  pub tx_library : Library Transaction
  pub user_library : Library User
  pub tx_mapping : List ℕ
  pub user_mapping : List ℕ

-- The caches of statements of transactions, around those of users and the database.
abbrev pub State : Type 0 → Type 0
State D = Models (Models D)

-- statements on transactions, which leave the caches of users alone
abbrev pub above : {D O : Type 0} → Sql D O → Sql (Models D) O
above q = record {
  exec_context = λ e text values. on_db (q.exec_context e text values);
  scan_row = λ e text values mapping. on_row (q.scan_row e text values mapping);
  scan_flag = λ e text values. on_db (q.scan_flag e text values);
  bind_one = λ e mods. on_db (q.bind_one e mods);
  bind_all = λ e mods. on_db (q.bind_all e mods);
  scan_count = λ e mods. on_db (q.scan_count e mods);
  exec_query = λ e mods. on_db (q.exec_query e mods);
}

-- The program registers no hook.
abbrev pub no_hooks : {D O : Type 0} → Hooks D O
no_hooks point = []

-- an upsert with no options
abbrev pub no_options : UpsertOptions
no_options = record { conflict_target = ""; update_set = "" }

-- the query of `GetUser`
pub user_query : List ℕ → (username password : String) → List Mod
user_query mapping username password = Users.users_query mapping (
    select user_columns.id
    ∷ is_where (user_columns.username +++ "=?") (text_value username ∷ [])
    ∷ and_where (user_columns.password +++ "= crypt(?, " +++ user_columns.password +++ ")")
        (text_value password ∷ [])
    ∷ [])

-- the query of `GetAllTransactions`
pub all_query : List ℕ → List Mod
all_query mapping = Queries.rows_of (transactions mapping) []

-- the query of `GetMyTransactions`
pub my_query : List ℕ → ℤ → List Mod
my_query mapping user_id = Queries.rows_of (transactions mapping) (
    inner_join (
      table_names.user_transactions +++ " ut on " +++ "ut." +++ transaction_columns.tx_hash
      +++ " = " +++ table_names.transactions +++ "." +++ transaction_columns.tx_hash)
    ∷ is_where "ut.user_id = ?" (int_value user_id ∷ [])
    ∷ [])

-- the text of the query of `GetTransactionsByHashes`
abbrev pub hashes_columns : String
hashes_columns = join_texts ", " (
    ("t." +++ transaction_columns.tx_hash)
    ∷ ("t." +++ transaction_columns.tx_status)
    ∷ ("t." +++ transaction_columns.block_hash)
    ∷ ("t." +++ transaction_columns.block_number)
    ∷ ("t." +++ transaction_columns.from_address)
    ∷ ("t." +++ transaction_columns.to_address)
    ∷ ("t." +++ transaction_columns.contract_address)
    ∷ ("t." +++ transaction_columns.logs_count)
    ∷ ("t." +++ transaction_columns.input)
    ∷ ("t." +++ transaction_columns.value)
    ∷ [])

pub hashes_text : String
hashes_text =
    "\n        SELECT " +++ hashes_columns +++ " FROM " +++ table_names.transactions
    +++ " t\n        WHERE t." +++ transaction_columns.tx_hash
    +++ " IN (\n            SELECT LOWER(tx_hash) FROM unnest($1::TEXT[]) AS hashes(tx_hash)\n        )\n    "

-- `queryMods`, where `none` stands for the user 0
pub query_mods : List String → Option ℤ → List Mod
unfolding hashes_text
query_mods tx_hashes none = sql hashes_text (texts_value tx_hashes ∷ []) ∷ []
query_mods tx_hashes (some user_id) =
    sql hashes_text (texts_value tx_hashes ∷ [])
    ∷ load transaction_rels_users "user_id = ?" (int_value user_id ∷ [])
    ∷ []

pub hashes_query : List ℕ → List String → Option ℤ → List Mod
unfolding query_mods
hashes_query mapping tx_hashes user_id =
    Queries.rows_of (transactions mapping) (query_mods tx_hashes user_id)

-- The database of the store. What the statement of an upsert writes back to the row that it was
-- given is dropped: it is the row's own hash.
module _ {D : Type 0} (boil : Boil D) where
  abbrev pub tx_rows : Executor → List Mod → Exec (State D) (List Transaction)
  tx_rows =
      Queries.all (above boil.tx_driver) boil.tx_library (transactions boil.tx_mapping) no_hooks
        false

  abbrev pub generated : Database (State D)
  generated = record {
    begin = on_db (on_db boil.begin);
    commit = λ h. on_db (on_db (boil.commit h));
    rollback = λ h. on_db (on_db (boil.rollback h));
    exec = λ e statement values. do
      on_db (on_db (boil.tx_driver.exec_context e statement values))
      pure tt;
    upsert = λ e conflict tx. do
      Writes.upsert (above boil.tx_driver) boil.tx_library (transactions boil.tx_mapping) no_hooks
          false e true conflict inferred inferred no_options (some tx)
      pure tt;
    insert_user = λ e user. do
      on_db (
          Users.insert_user boil.user_driver boil.user_library boil.user_mapping no_hooks false e
            inferred (some user))
      pure tt;
    select_user = λ e username password. on_db (
        Users.one_user boil.user_driver boil.user_library boil.user_mapping no_hooks false e
          (user_query boil.user_mapping username password));
    select_all = λ e. tx_rows e (all_query boil.tx_mapping);
    select_joined = λ e user_id. tx_rows e (my_query boil.tx_mapping user_id);
    select_by_hashes = λ e hashes user_id. tx_rows e (hashes_query boil.tx_mapping hashes user_id);
  }
