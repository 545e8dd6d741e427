-- ===== src/Pg/Rows/Users.antt =====
-- internal/store/pg/models/users.go: the operations on the table of users.
use ethereum_fetcher.Prelude.{ℕ, String, ℤ, Bool, Option, List, [], ◌∷◌, ◌++◌}
use ethereum_fetcher.Exec.{Exec}
use ethereum_fetcher.Models.{User, Transaction}
use ethereum_fetcher.Pg.Database.{Executor, Value, text_value, int_value}
use ethereum_fetcher.Pg.Hooks.{
  HookPoint, Hook, Hooks, HookVariables, add_transaction_hook, do_hooks,
}
use ethereum_fetcher.Pg.Upsert.{UpsertOptions}
use ethereum_fetcher.Pg.Rows.Boiler.{Mod, Columns, Sql, Library, inner_join, is_where}
use ethereum_fetcher.Pg.Rows.Session.{Models}
use ethereum_fetcher.Pg.Rows.Tables.{transactions, users}
use ethereum_fetcher.Pg.Rows.Queries
use ethereum_fetcher.Pg.Rows.Writes
use ethereum_fetcher.Pg.Rows.Deletes

-- `AddUserHook`: the nine variables of users, and the same `switch`
abbrev pub add_user_hook :
    {D : Type 0} → HookPoint → Hook D User → HookVariables D User → HookVariables D User
add_user_hook = add_transaction_hook

-- `Users(mods...)`
abbrev pub users_query : List ℕ → List Mod → List Mod
users_query mapping = Queries.rows_of (users mapping)

-- `o.Users(mods...)` of a transaction
abbrev pub users_of : List ℕ → Transaction → List Mod → List Mod
users_of mapping o mods = users_query mapping (
    mods
    ++ (inner_join "\"user_transactions\" on \"users\".\"id\" = \"user_transactions\".\"user_id\""
        ∷ is_where "\"user_transactions\".\"tx_hash\"=?" (text_value o.tx_hash ∷ [])
        ∷ []))

-- `o.TXHashTransactions(mods...)` of a user
abbrev pub tx_hash_transactions : List ℕ → User → List Mod → List Mod
tx_hash_transactions mapping o mods = Queries.rows_of (transactions mapping) (
    mods
    ++ (inner_join
          "\"user_transactions\" on \"transactions\".\"tx_hash\" = \"user_transactions\".\"tx_hash\""
        ∷ is_where "\"user_transactions\".\"user_id\"=?" (int_value o.id ∷ [])
        ∷ []))

module _ {D : Type 0} (driver : Sql D User) (lib : Library User) (mapping : List ℕ)
    (hooks : Hooks (Models D) User) (skipped : Bool) (exec : Executor) where
  -- `do...Hooks` of a user at one of the nine points
  abbrev pub do_user_hooks : HookPoint → Exec (Models D × User) (Unit {0})
  do_user_hooks point = do_hooks skipped (hooks point) exec

  abbrev pub one_user : List Mod → Exec (Models D) User
  one_user = Queries.one driver lib (users mapping) hooks skipped exec

  abbrev pub all_users : List Mod → Exec (Models D) (List User)
  all_users = Queries.all driver lib (users mapping) hooks skipped exec

  abbrev pub count_users : List Mod → Exec (Models D) ℤ
  count_users = Queries.count driver lib (users mapping) hooks skipped exec

  abbrev pub exists_user : List Mod → Exec (Models D) Bool
  exists_user = Queries.exists driver lib (users mapping) hooks skipped exec

  abbrev pub find_user : ℤ → List String → Exec (Models D) User
  find_user id = Queries.find driver lib (users mapping) hooks skipped exec (int_value id)

  abbrev pub reload_user : User → Exec (Models D) User
  reload_user = Queries.reload driver lib (users mapping) hooks skipped exec λ o. int_value o.id

  abbrev pub reload_all_users : List User → Exec (Models D) (List User)
  reload_all_users = Queries.reload_all driver lib (users mapping) hooks skipped exec

  abbrev pub user_exists : ℤ → Exec (Models D) Bool
  user_exists id = Queries.row_exists driver lib (users mapping) hooks skipped exec (int_value id)

  abbrev pub insert_user : Columns → Option User → Exec (Models D) User
  insert_user = Writes.insert driver lib (users mapping) hooks skipped exec

  abbrev pub update_user : Columns → Exec (Models D × User) ℕ
  update_user = Writes.update driver lib (users mapping) hooks skipped exec

  abbrev pub upsert_user :
      Bool
      → List String
      → (update_columns insert_columns : Columns) → UpsertOptions
      → Option User
      → Exec (Models D) User
  upsert_user = Writes.upsert driver lib (users mapping) hooks skipped exec

  abbrev pub delete_user : Option User → Exec (Models D) ℕ
  delete_user = Deletes.delete driver lib (users mapping) hooks skipped exec

  abbrev pub delete_users : Option (List Mod) → Exec (Models D) ℕ
  delete_users = Deletes.delete_query driver lib (users mapping) hooks skipped exec

  abbrev pub delete_all_users : List User → Exec (Models D) (ℕ × List User)
  delete_all_users = Deletes.delete_all driver lib (users mapping) hooks skipped exec

  abbrev pub update_users : List (String × Value) → List Mod → Exec (Models D) ℕ
  update_users = Deletes.update_query driver lib (users mapping) hooks skipped exec

  abbrev pub update_all_users : List (String × Value) → List User → Exec (Models D) ℕ
  update_all_users = Deletes.update_all driver lib (users mapping) hooks skipped exec
