-- ===== src/Pg/Rows/Dialect.antt =====
-- internal/store/pg/models/boil_queries.go: the dialect of PostgreSQL, and a query in it.
use ethereum_fetcher.Prelude.{ℕ, Bool, true, false, List}
use ethereum_fetcher.Pg.Rows.Boiler.{Mod}

-- `drivers.Dialect`; the quotes are bytes.
pub record Dialect : Type 0 where
  pub lq : ℕ
  pub rq : ℕ
  pub use_index_placeholders : Bool
  pub use_last_insert_id : Bool
  pub use_schema : Bool
  pub use_default_keyword : Bool
  pub use_auto_columns : Bool
  pub use_top_clause : Bool
  pub use_output_clause : Bool
  pub use_case_when_exists_clause : Bool

abbrev pub dialect : Dialect
dialect = record {
  lq = 0x22;
  rq = 0x22;
  use_index_placeholders = true;
  use_last_insert_id = false;
  use_schema = false;
  use_default_keyword = true;
  use_auto_columns = false;
  use_top_clause = false;
  use_output_clause = false;
  use_case_when_exists_clause = false;
}

pub record Query : Type 0 where
  pub dialect : Dialect
  pub mods : List Mod

-- `NewQuery`, where `qm.Apply` adds the mods in their order
pub new_query : List Mod → Query
new_query mods = record { dialect = dialect; mods = mods }
