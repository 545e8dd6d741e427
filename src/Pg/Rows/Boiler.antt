-- ===== src/Pg/Rows/Boiler.antt =====
-- What the generated code calls: database/sql, and the packages queries, boil and strmangle of
-- SQLBoiler, which are no part of the repository.
use ethereum_fetcher.Prelude.{ℕ, String, ℤ, Bool, List, []}
use ethereum_fetcher.Result.{Result}
use ethereum_fetcher.Exec.{Exec}
use ethereum_fetcher.Pg.Database.{Executor, Value}

-- `boil.Columns`
pub data ColumnKind : Type 0 where
  no_columns infer whitelist greylist blacklist : ColumnKind

pub record Columns : Type 0 where
  pub kind : ColumnKind
  pub cols : List String

-- `boil.Infer()`
abbrev pub inferred : Columns
inferred = record { kind = infer; cols = [] }

-- The operators of qmhelper.
pub data Operator : Type 0 where
  eq neq lt lte gt gte : Operator

-- What a query is made of, oldest first. `compare_where`, `null_where`, `is_null` and `is_not_null`
-- are what qmhelper makes of a column; `load` is the relation to read along, with a condition.
pub data Mod : Type 0 where
  sql : String → List Value → Mod
  select : String → Mod
  from : String → Mod
  inner_join : String → Mod
  is_where : String → List Value → Mod
  and_where : String → List Value → Mod
  where_in : String → List Value → Mod
  where_not_in : String → List Value → Mod
  compare_where : (field : String) → Operator → Value → Mod
  null_where : (field : String) → (negated : Bool) → Value → Mod
  is_null : String → Mod
  is_not_null : String → Mod
  load : (relation condition : String) → List Value → Mod
  set_select : List String → Mod
  set_limit : ℕ → Mod
  set_count : Mod
  set_delete : Mod
  set_update : List (String × Value) → Mod

-- Statements and queries on rows of the type `O`. The inner result of a statement is that of
-- `RowsAffected`.
pub record Sql (D O : Type 0) : Type 0 where
  pub exec_context : Executor → String → List Value → Exec D (Result ℕ)
  -- `QueryRowContext(...).Scan(...)` into the fields of a mapping, of which it may have set some when
  -- it fails, and into a Boolean
  pub scan_row : Executor → String → List Value → List ℕ → Exec (D × O) (Unit {0})
  pub scan_flag : Executor → String → List Value → Exec D Bool
  -- `q.Bind` to a row and to a slice, and a query for a number
  pub bind_one : Executor → List Mod → Exec D O
  pub bind_all : Executor → List Mod → Exec D (List O)
  pub scan_count : Executor → List Mod → Exec D ℤ
  pub exec_query : Executor → List Mod → Exec D (Result ℕ)

pub record Library (O : Type 0) : Type 0 where
  -- of `boil.Columns`: the columns to insert and those to return, and the columns to update
  pub insert_column_set :
      Columns
      → (all with_default without_default nz_defaults : List String) → List String × List String
  pub update_column_set : Columns → (all primary_key : List String) → List String
  -- of queries
  pub non_zero_default_set : List String → O → List String
  pub bind_mapping : List String → Result (List ℕ)
  pub values_from_mapping : O → List ℕ → List Value
  -- of strmangle
  pub placeholders : (count start group : ℕ) → String
  pub ident_quote : String → String
  pub set_param_names : ℕ → List String → String
  pub where_clause : ℕ → List String → String
  pub where_clause_repeated : ℕ → List String → ℕ → String
  pub set_complement : List String → List String → List String
  pub set_intersect : List String → List String → List String

-- The names of a table: `transactions`, `transaction`, `Transaction` and its columns. `key_column`
-- is the one column of the primary key.
-- `primary_key_mapping` is computed from the primary key when the program starts.
pub record Table : Type 0 where
  pub plural : String
  pub singular : String
  pub title : String
  pub all_columns : List String
  pub with_default : List String
  pub without_default : List String
  pub primary_key : List String
  pub key_column : String
  pub primary_key_mapping : List ℕ
