-- ===== src/Pg/Rows/Queries.antt =====
-- One, All, Count and Exists of a query; Find, Reload, ReloadAll and Exists of a row.
use ethereum_fetcher.Prelude.{
  String, ℤ, pos, negsuc, Bool, true, false, List, [], ◌∷◌, ◌++◌, map, length, join_texts, ◌==◌,
  ltb, if◌then◌else◌,
}
use ethereum_fetcher.Result.{Error, no_rows, is_no_rows, wrapped, ◌+++◌}
use ethereum_fetcher.Exec.{Exec, pure, annotate, ◌>>=◌}
use ethereum_fetcher.Pg.Database.{Executor, Value}
use ethereum_fetcher.Pg.Hooks.{Hooks, after_select, do_hooks}
use ethereum_fetcher.Pg.Rows.Boiler.{
  Mod, sql, from, set_select, set_limit, set_count, Sql, Library, Table,
}
use ethereum_fetcher.Pg.Rows.Session.{Models, on_db, with_row, each_row}

-- `errors.Is(err, sql.ErrNoRows)` gives the bare error, and any other is wrapped
abbrev pub no_rows_or : String → Error → Error
no_rows_or what e = if is_no_rows e then no_rows else wrapped what e

-- `count > 0`
abbrev is_positive : ℤ → Bool
is_positive (pos n) = ltb 0 n
is_positive (negsuc n) = false

-- `Transactions(mods...)`: the table, and all its columns where the query selects none
abbrev selects : Mod → Bool
selects (Mod.select columns) = true
selects (set_select columns) = true
selects _ = false

abbrev any_select : List Mod → Bool
any_select [] = false
any_select (m ∷ mods) = if selects m then true else any_select mods

unfoldable pub rows_of : Table → List Mod → List Mod
rows_of table mods =
    let q = mods ++ (from ("\"" +++ table.plural +++ "\"") ∷ []) in
    if any_select q then q else q ++ (set_select (("\"" +++ table.plural +++ "\".*") ∷ []) ∷ [])

-- the loop that appends the primary key of each row to the arguments
unfoldable pub key_args : {O : Type 0} → Library O → Table → List O → List Value
key_args lib table [] = []
key_args lib table (o ∷ os) =
    lib.values_from_mapping o table.primary_key_mapping ++ key_args lib table os

module _ {D O : Type 0} (driver : Sql D O) (lib : Library O) (table : Table)
    (hooks : Hooks (Models D) O) (skipped : Bool) (exec : Executor) where
  pub select_hooks : O → Exec (Models D) O
  select_hooks = with_row (do_hooks skipped (hooks after_select) exec)

  pub one : List Mod → Exec (Models D) O
  unfolding select_hooks
  one q = do
    o ←
        annotate (no_rows_or ("models: failed to execute a one query for " +++ table.plural))
          (on_db (driver.bind_one exec (q ++ (set_limit 1 ∷ []))))
    select_hooks o

  unfoldable pub all : List Mod → Exec (Models D) (List O)
  unfolding select_hooks
  all q = do
    o ←
        annotate
          (wrapped ("models: failed to assign all query results to " +++ table.title +++ " slice"))
          (on_db (driver.bind_all exec q))
    if length (hooks after_select) == 0 then pure o else each_row select_hooks o

  pub count : List Mod → Exec (Models D) ℤ
  count q =
      annotate (wrapped ("models: failed to count " +++ table.plural +++ " rows"))
        (on_db (driver.scan_count exec (q ++ (set_select [] ∷ set_count ∷ []))))

  pub exists : List Mod → Exec (Models D) Bool
  exists q = do
    n ←
        annotate (wrapped ("models: failed to check if " +++ table.plural +++ " exists"))
          (on_db (driver.scan_count exec (q ++ (set_select [] ∷ set_count ∷ set_limit 1 ∷ []))))
    pure (is_positive n)

  -- `FindTransaction`
  pub find : Value → List String → Exec (Models D) O
  unfolding select_hooks
  find key select_cols = do
    o ← annotate (no_rows_or ("models: unable to select from " +++ table.plural)) (
        on_db (
          driver.bind_one exec (
            sql
              ("select "
                +++ (if ltb 0 (length select_cols)
                    then join_texts "," (map lib.ident_quote select_cols)
                    else "*")
                +++ " from \""
                +++ table.plural
                +++ "\" where \""
                +++ table.key_column
                +++ "\"=$1")
              (key ∷ [])
            ∷ [])))
    select_hooks o

  pub reload : (O → Value) → O → Exec (Models D) O
  unfolding find
  reload key_of o = find (key_of o) []

  pub reload_all : List O → Exec (Models D) (List O)
  unfolding key_args
  reload_all [] = pure []
  reload_all (o ∷ os) =
      annotate (wrapped ("models: unable to reload all in " +++ table.title +++ "Slice")) (
        on_db (
          driver.bind_all exec (
            sql
              ("SELECT \""
                +++ table.plural
                +++ "\".* FROM \""
                +++ table.plural
                +++ "\" WHERE "
                +++ lib.where_clause_repeated 1 table.primary_key (length (o ∷ os)))
              (key_args lib table (o ∷ os))
            ∷ [])))

  pub row_exists : Value → Exec (Models D) Bool
  row_exists key =
      annotate (wrapped ("models: unable to check if " +++ table.plural +++ " exists")) (
        on_db (
          driver.scan_flag exec
            ("select exists(select 1 from \"" +++ table.plural +++ "\" where \""
              +++ table.key_column +++ "\"=$1 limit 1)")
            (key ∷ [])))
