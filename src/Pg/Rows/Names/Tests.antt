-- ===== src/Pg/Rows/Names/Tests.antt =====
-- The names of columns against the lists of the tables, and some conditions.
use ethereum_fetcher.Prelude.{String, List, pos, ◌≡◌, refl, true, none, [], ◌∷◌, map}
use ethereum_fetcher.Result.{◌+++◌}
use ethereum_fetcher.Pg.Database.{text_value, int_value, optional_value}
use ethereum_fetcher.Pg.Rows.Boiler.{where_in, compare_where, null_where, lte}
use ethereum_fetcher.Pg.Rows.Tables.{transactions, users}
use ethereum_fetcher.Pg.Rows.Names.{
  TransactionNames, table_names, transaction_columns, transaction_table_columns, user_columns,
  user_table_columns,
}
use ethereum_fetcher.Pg.Rows.Where.{transaction_where}

-- the fields of a transaction's names, in the order of the struct
abbrev fields_of : TransactionNames → List String
fields_of c =
    c.tx_hash ∷ c.tx_status ∷ c.block_hash ∷ c.block_number ∷ c.from_address ∷ c.to_address
    ∷ c.contract_address ∷ c.logs_count ∷ c.input ∷ c.value ∷ []

columns_listed : fields_of transaction_columns ≡ (transactions []).all_columns
columns_listed = refl

columns_qualified :
    fields_of transaction_table_columns
    ≡ map (λ c. table_names.transactions +++ "." +++ c) (fields_of transaction_columns)
columns_qualified = refl

user_columns_listed :
    user_columns.id ∷ user_columns.username ∷ user_columns.password ∷ [] ≡ (users []).all_columns
user_columns_listed = refl

user_columns_qualified :
    user_table_columns.id ∷ user_table_columns.username ∷ user_table_columns.password ∷ []
    ≡ map (λ c. table_names.users +++ "." +++ c) (users []).all_columns
user_columns_qualified = refl

status_at_most :
    transaction_where.tx_status.order.less_equal (pos 1)
    ≡ compare_where "\"transactions\".\"tx_status\"" lte (int_value (pos 1))
unfolding transaction_where
status_at_most = refl

sent_by :
    transaction_where.from_address.members.one_of ("0xa" ∷ "0xb" ∷ [])
    ≡ where_in "\"transactions\".\"from_address\" IN ?" (text_value "0xa" ∷ text_value "0xb" ∷ [])
unfolding transaction_where
sent_by = refl

has_recipient :
    transaction_where.to_address.order.not_equal none
    ≡ null_where "\"transactions\".\"to_address\"" true (optional_value none)
unfolding transaction_where
has_recipient = refl
