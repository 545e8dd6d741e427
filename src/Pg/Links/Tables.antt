-- ===== src/Pg/Links/Tables.antt =====
-- The two sides of the relation: the methods of transactions.go on users, and those of users.go on
-- transactions.
use ethereum_fetcher.Prelude.{ℕ, String, ℤ, Bool, not, Option, List, ◌==◌, ◌==ℤ◌, length, str_eq}
use ethereum_fetcher.Exec.{Exec}
use ethereum_fetcher.Models.{User, Transaction}
use ethereum_fetcher.Pg.Database.{Executor, Value, text_value, int_value}
use ethereum_fetcher.Pg.Hooks.{Hooks, after_select, do_hooks}
use ethereum_fetcher.Pg.Rows.Boiler.{inferred, Mod, Sql, Library}
use ethereum_fetcher.Pg.Rows.Session.{Models}
use ethereum_fetcher.Pg.Rows.Tables as Tables
use ethereum_fetcher.Pg.Rows.Writes
use ethereum_fetcher.Pg.Links.Graph.{Graph, Results, Link}
use ethereum_fetcher.Pg.Links.Related
use ethereum_fetcher.Pg.Links.Loading.Given.{Reflected, eager_load}

-- `exec_context`, `query_context` and `map_order` are those of a `Link`; the executor, the
-- statements and the hooks are those of the foreign table.
module _ {D : Type 0} (exec_context : String → List Value → Exec (Models D) (Unit {0}))
    (mapping : List ℕ) (skipped : Bool) (exec : Executor) where
  module _ (driver : Sql D User) (lib : Library User) (hooks : Hooks (Models D) User)
      (query_context : List Mod → Exec (Models D) (Results User String))
      (map_order : List String → List String) where
    abbrev pub users_link : Link (Models D) Transaction User String
    users_link = record {
      local_type = "models.Transaction";
      local_column = "tx_hash";
      foreign_column = "user_id";
      foreign_plural = "users";
      local_key = λ o. o.tx_hash;
      same_key = str_eq;
      key_value = text_value;
      foreign_value = λ rel. int_value rel.id;
      insert_foreign =
          Writes.insert_row driver lib (Tables.users mapping) hooks skipped exec inferred;
      has_select_hooks = not (length (hooks after_select) == 0);
      run_select_hooks = do_hooks skipped (hooks after_select) exec;
      exec_context = exec_context;
      placeholders = lib.placeholders;
      load_columns =
          "\"users\".\"id\", \"users\".\"username\", \"users\".\"password\", \"a\".\"tx_hash\"";
      load_join = "\"user_transactions\" as \"a\" on \"users\".\"id\" = \"a\".\"user_id\"";
      query_context = query_context;
      map_order = map_order;
    }

    abbrev pub load_users :
        Bool
        → Reflected
        → Option (List Mod → List Mod)
        → Exec (Graph (Models D) Transaction User) (Unit {0})
    load_users = eager_load users_link

    abbrev pub set_users : Bool → ℕ → List ℕ → Exec (Graph (Models D) Transaction User) (Unit {0})
    set_users = Related.set_related users_link

    abbrev pub remove_users : ℕ → List ℕ → Exec (Graph (Models D) Transaction User) (Unit {0})
    remove_users = Related.remove_related users_link

  module _ (driver : Sql D Transaction) (lib : Library Transaction)
      (hooks : Hooks (Models D) Transaction)
      (query_context : List Mod → Exec (Models D) (Results Transaction ℤ))
      (map_order : List ℤ → List ℤ) where
    abbrev pub transactions_link : Link (Models D) User Transaction ℤ
    transactions_link = record {
      local_type = "models.User";
      local_column = "user_id";
      foreign_column = "tx_hash";
      foreign_plural = "transactions";
      local_key = λ o. o.id;
      same_key = ◌==ℤ◌;
      key_value = int_value;
      foreign_value = λ rel. text_value rel.tx_hash;
      insert_foreign =
          Writes.insert_row driver lib (Tables.transactions mapping) hooks skipped exec inferred;
      has_select_hooks = not (length (hooks after_select) == 0);
      run_select_hooks = do_hooks skipped (hooks after_select) exec;
      exec_context = exec_context;
      placeholders = lib.placeholders;
      load_columns =
          "\"transactions\".\"tx_hash\", \"transactions\".\"tx_status\", \"transactions\".\"block_hash\", \"transactions\".\"block_number\", \"transactions\".\"from_address\", \"transactions\".\"to_address\", \"transactions\".\"contract_address\", \"transactions\".\"logs_count\", \"transactions\".\"input\", \"transactions\".\"value\", \"a\".\"user_id\"";
      load_join =
          "\"user_transactions\" as \"a\" on \"transactions\".\"tx_hash\" = \"a\".\"tx_hash\"";
      query_context = query_context;
      map_order = map_order;
    }

    abbrev pub load_tx_hash_transactions :
        Bool
        → Reflected
        → Option (List Mod → List Mod)
        → Exec (Graph (Models D) User Transaction) (Unit {0})
    load_tx_hash_transactions = eager_load transactions_link

    abbrev pub add_tx_hash_transactions :
        Bool → ℕ → List ℕ → Exec (Graph (Models D) User Transaction) (Unit {0})
    add_tx_hash_transactions = Related.add_related transactions_link

    abbrev pub set_tx_hash_transactions :
        Bool → ℕ → List ℕ → Exec (Graph (Models D) User Transaction) (Unit {0})
    set_tx_hash_transactions = Related.set_related transactions_link

    abbrev pub remove_tx_hash_transactions :
        ℕ → List ℕ → Exec (Graph (Models D) User Transaction) (Unit {0})
    remove_tx_hash_transactions = Related.remove_related transactions_link

    abbrev pub remove_tx_hash_transactions_from_users_slice :
        ℕ → List ℕ → Graph (Models D) User Transaction → Graph (Models D) User Transaction
    remove_tx_hash_transactions_from_users_slice = Related.remove_from_each transactions_link
