-- ===== src/Pg/Rows/Tables.antt =====
-- The two tables: the lists of columns at the top of transactions.go and of users.go.
use ethereum_fetcher.Prelude.{ℕ, List, [], ◌∷◌}
use ethereum_fetcher.Pg.Rows.Boiler.{Table}

-- `mapping` is what `queries.BindMapping` gives for the primary key.
abbrev pub transactions : List ℕ → Table
transactions mapping = record {
  plural = "transactions";
  singular = "transaction";
  title = "Transaction";
  all_columns =
      "tx_hash" ∷ "tx_status" ∷ "block_hash" ∷ "block_number" ∷ "from_address" ∷ "to_address"
      ∷ "contract_address" ∷ "logs_count" ∷ "input" ∷ "value" ∷ [];
  with_default = "to_address" ∷ "contract_address" ∷ [];
  without_default =
      "tx_hash" ∷ "tx_status" ∷ "block_hash" ∷ "block_number" ∷ "from_address" ∷ "logs_count"
      ∷ "input" ∷ "value" ∷ [];
  primary_key = "tx_hash" ∷ [];
  key_column = "tx_hash";
  primary_key_mapping = mapping;
}

abbrev pub users : List ℕ → Table
users mapping = record {
  plural = "users";
  singular = "user";
  title = "User";
  all_columns = "id" ∷ "username" ∷ "password" ∷ [];
  with_default = "id" ∷ [];
  without_default = "username" ∷ "password" ∷ [];
  primary_key = "id" ∷ [];
  key_column = "id";
  primary_key_mapping = mapping;
}
