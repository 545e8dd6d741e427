-- ===== src/Pg/Rows/Deletes.antt =====
-- Delete and DeleteAll, and UpdateAll.
use ethereum_fetcher.Prelude.{
  ℕ, ◌+◌, String, Bool, Option, none, some, List, [], ◌∷◌, ◌++◌, map, length, ◌==◌, if◌then◌else◌,
}
use ethereum_fetcher.Result.{Result, text, wrapped, ◌+++◌}
use ethereum_fetcher.Exec.{Exec, pure, raise, annotate, ◌>>=◌, ◌>>◌}
use ethereum_fetcher.Pg.Database.{Executor, Value}
use ethereum_fetcher.Pg.Hooks.{Hooks, HookPoint, before_delete, after_delete, do_hooks}
use ethereum_fetcher.Pg.Rows.Boiler.{Mod, set_delete, set_update, Sql, Library, Table}
use ethereum_fetcher.Pg.Rows.Session.{Models, lift, on_db, on_models, with_row, each_row}
use ethereum_fetcher.Pg.Rows.Queries.{key_args}
use ethereum_fetcher.Pg.Rows.Writes.{non_nil}

module _ {D O : Type 0} (driver : Sql D O) (lib : Library O) (table : Table)
    (hooks : Hooks (Models D) O) (skipped : Bool) (exec : Executor) where
  -- a statement, and the number of rows that it affected
  pub affected : (unable no_rows_affected : String) → Exec D (Result ℕ) → Exec (Models D) ℕ
  affected unable no_rows_affected statement = do
    result ← annotate (wrapped unable) (on_db statement)
    annotate (wrapped no_rows_affected) (lift result)

  pub delete_row : Exec (Models D × O) ℕ
  unfolding affected
  delete_row = do
    do_hooks skipped (hooks before_delete) exec
    rows_aff ← λ (m, o).
        on_models
          (affected ("models: unable to delete from " +++ table.plural)
            ("models: failed to get rows affected by delete for " +++ table.plural)
            (driver.exec_context exec
              ("DELETE FROM \""
                +++ table.plural
                +++ "\" WHERE "
                +++ lib.where_clause 1 table.primary_key)
              (lib.values_from_mapping o table.primary_key_mapping)))
          (m, o)
    do_hooks skipped (hooks after_delete) exec
    pure rows_aff

  pub delete : Option O → Exec (Models D) ℕ
  unfolding delete_row
  delete =
      non_nil ("models: no " +++ table.title +++ " provided for delete")
        λ o m. let (r, (m', o')) = delete_row (m, o) in (r, m')

  -- on a query, which may be nil
  pub delete_query : Option (List Mod) → Exec (Models D) ℕ
  unfolding affected
  delete_query q = elim q [
    | none ↦ raise (text ("models: no " +++ table.singular +++ "Query provided for delete all"))
    | some mods ↦
        affected ("models: unable to delete all from " +++ table.plural)
          ("models: failed to get rows affected by deleteall for " +++ table.plural)
          (driver.exec_query exec (mods ++ (set_delete ∷ [])))
  ]

  -- `if len(hooks) != 0 { for ... }`
  pub hooks_on_each : HookPoint → List O → Exec (Models D) (List O)
  hooks_on_each point os =
      if length (hooks point) == 0
      then pure os
      else each_row (with_row (do_hooks skipped (hooks point) exec)) os

  -- on a slice; `os` are its rows after the call
  pub delete_all : List O → Exec (Models D) (ℕ × List O)
  unfolding affected hooks_on_each key_args
  delete_all [] = pure (0, [])
  delete_all (o ∷ rest) = do
    os ← hooks_on_each before_delete (o ∷ rest)
    rows_aff ←
        affected ("models: unable to delete all from " +++ table.singular +++ " slice")
          ("models: failed to get rows affected by deleteall for " +++ table.plural)
          (driver.exec_context exec
            ("DELETE FROM \""
              +++ table.plural
              +++ "\" WHERE "
              +++ lib.where_clause_repeated 1 table.primary_key (length os))
            (key_args lib table os))
    os' ← hooks_on_each after_delete os
    pure (rows_aff, os')

  pub update_query : List (String × Value) → List Mod → Exec (Models D) ℕ
  unfolding affected
  update_query cols mods =
      affected ("models: unable to update all for " +++ table.plural)
        ("models: unable to retrieve rows affected for " +++ table.plural)
        (driver.exec_query exec (mods ++ (set_update cols ∷ [])))

  -- `cols` in the order in which the loop over the map meets them
  pub update_all : List (String × Value) → List O → Exec (Models D) ℕ
  unfolding affected key_args
  update_all cols [] = pure 0
  update_all [] (o ∷ os) = raise (text "models: update all requires at least one column argument")
  update_all (col ∷ cols) (o ∷ os) =
      affected ("models: unable to update all in " +++ table.singular +++ " slice")
        ("models: unable to retrieve rows affected all in update all " +++ table.singular)
        (driver.exec_context exec
          ("UPDATE \""
            +++ table.plural
            +++ "\" SET "
            +++ lib.set_param_names 1 (map (λ p. p.0) (col ∷ cols))
            +++ " WHERE "
            +++ lib.where_clause_repeated (length (col ∷ cols) + 1) table.primary_key
                (length (o ∷ os)))
          (map (λ p. p.1) (col ∷ cols) ++ key_args lib table (o ∷ os)))
