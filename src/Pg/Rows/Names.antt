-- ===== src/Pg/Rows/Names.antt =====
-- internal/store/pg/models: the names of tables, columns and relations, in boil_table_names.go and at
-- the top of transactions.go and of users.go.
mod Tests
use ethereum_fetcher.Prelude.{String}

-- `TableNames`
pub record TableNames : Type 0 where
  pub transactions : String
  pub user_transactions : String
  pub users : String

abbrev pub table_names : TableNames
table_names = record {
  transactions = "transactions";
  user_transactions = "user_transactions";
  users = "users";
}

-- The type of `TransactionColumns` and of `TransactionTableColumns`.
pub record TransactionNames : Type 0 where
  pub tx_hash : String
  pub tx_status : String
  pub block_hash : String
  pub block_number : String
  pub from_address : String
  pub to_address : String
  pub contract_address : String
  pub logs_count : String
  pub input : String
  pub value : String

abbrev pub transaction_columns : TransactionNames
transaction_columns = record {
  tx_hash = "tx_hash";
  tx_status = "tx_status";
  block_hash = "block_hash";
  block_number = "block_number";
  from_address = "from_address";
  to_address = "to_address";
  contract_address = "contract_address";
  logs_count = "logs_count";
  input = "input";
  value = "value";
}

abbrev pub transaction_table_columns : TransactionNames
transaction_table_columns = record {
  tx_hash = "transactions.tx_hash";
  tx_status = "transactions.tx_status";
  block_hash = "transactions.block_hash";
  block_number = "transactions.block_number";
  from_address = "transactions.from_address";
  to_address = "transactions.to_address";
  contract_address = "transactions.contract_address";
  logs_count = "transactions.logs_count";
  input = "transactions.input";
  value = "transactions.value";
}

-- The type of `UserColumns` and of `UserTableColumns`.
pub record UserNames : Type 0 where
  pub id : String
  pub username : String
  pub password : String

abbrev pub user_columns : UserNames
user_columns = record { id = "id"; username = "username"; password = "password" }

abbrev pub user_table_columns : UserNames
user_table_columns = record {
  id = "users.id";
  username = "users.username";
  password = "users.password";
}

-- `TransactionRels.Users` and `UserRels.TXHashTransactions`
abbrev pub transaction_rels_users : String
transaction_rels_users = "Users"

abbrev pub user_rels_tx_hash_transactions : String
user_rels_tx_hash_transactions = "TXHashTransactions"
