-- ===== src/Models.antt =====
-- The rows of the database as the program holds them: internal/store/pg/models/transactions.go and
-- users.go. `L` has no fields, and is left out. Of the relations `R` the users of a transaction
-- are kept; a user's own `R` is written by AddUsers and read by nothing in the program.
use ethereum_fetcher.Prelude.{String, ℤ, Option, none, some, List, []}

pub record User : Type 0 where
  pub id : ℤ
  pub username : String
  pub password : String

-- `block_number` is the integer that the decimal stands for: the program builds decimals of
-- scale 0 only. A `null.String` is an `Option`.
pub record Transaction : Type 0 where
  pub tx_hash : String
  pub tx_status : ℤ
  pub block_hash : String
  pub block_number : ℤ
  pub from_address : String
  pub to_address : Option String
  pub contract_address : Option String
  pub logs_count : ℤ
  pub input : String
  pub value : String
  pub r : Option (List User)

-- `tx.R.GetUsers()`, which may be called on a nil `R`
unfoldable pub get_users : Transaction → List User
get_users tx = elim tx.r [ none ↦ [] | some users ↦ users ]
