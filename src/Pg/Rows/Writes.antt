-- ===== src/Pg/Rows/Writes.antt =====
-- Insert, Update and Upsert of a row.
pub mod Cached
pub mod Upserted
use ethereum_fetcher.Prelude.{
  ℕ, String, Bool, Option, none, some, List, [], ◌∷◌, length, lookup, ◌==◌, if◌then◌else◌,
}
use ethereum_fetcher.Result.{Result, ok, err, panic, Error, text, wrapped, is_no_rows, ◌+++◌}
use ethereum_fetcher.Exec.{Exec, pure, raise, annotate, ◌>>=◌, ◌>>◌}
use ethereum_fetcher.Pg.Database.{Executor, Value}
use ethereum_fetcher.Pg.Hooks.{
  Hooks, before_insert, after_insert, before_update, after_update, before_upsert, after_upsert,
  do_hooks,
}
use ethereum_fetcher.Pg.Upsert.{UpsertOptions}
use ethereum_fetcher.Pg.Rows.Boiler.{Columns, Sql, Library, Table}
use ethereum_fetcher.Pg.Rows.Caches.{
  InsertCache, UpdateCache, make_cache_key, make_upsert_key, cached_or, remember, plan_insert,
  plan_update, plan_upsert,
}
use ethereum_fetcher.Pg.Rows.Session.{Models, lift, on_db, on_row, on_models, with_row}

-- `if o == nil { return errors.New(what) }` of a method
abbrev pub non_nil : {M O A : Type 0} → String → (O → Exec M A) → Option O → Exec M A
non_nil what f none = raise (text what)
non_nil what f (some o) = f o

-- `if errors.Is(err, sql.ErrNoRows) { err = nil }`
abbrev or_unchanged : Result (Unit {0}) → Result (Unit {0})
or_unchanged (ok x) = ok x
or_unchanged (err e) = if is_no_rows e then ok tt else err e
or_unchanged panic = panic

module _ {D O : Type 0} (driver : Sql D O) (lib : Library O) (table : Table)
    (hooks : Hooks (Models D) O) (skipped : Bool) (exec : Executor) where
  -- the statement of Insert
  pub execute_insert : InsertCache → Exec (Models D × O) (Unit {0})
  execute_insert cache (m, o) =
      let vals = lib.values_from_mapping o cache.value_mapping in
      if length cache.ret_mapping == 0
      then (do on_models (on_db (driver.exec_context exec cache.query vals)); pure tt) (m, o)
      else on_row (driver.scan_row exec cache.query vals cache.ret_mapping) (m, o)

  -- from the cache's lookup to its write, with what is taken where the cache has nothing
  pub insert_with : Result InsertCache → String → Exec (Models D × O) (Unit {0})
  unfolding execute_insert cached_or remember
  insert_with made key (m, o) =
      let found = lookup key m.insert_cache in
      (do
        cache ← lift (cached_or found made)
        annotate (wrapped ("models: unable to insert into " +++ table.plural))
            (execute_insert cache)
        λ (m', o').
            (ok tt, (record m' { insert_cache = remember found key cache m'.insert_cache }, o')))
        (m, o)

  pub run_insert : Columns → Exec (Models D × O) (Unit {0})
  unfolding insert_with
  run_insert columns (m, o) =
      let nz_defaults = lib.non_zero_default_set table.with_default o in
      insert_with (plan_insert lib table columns nz_defaults) (make_cache_key columns nz_defaults)
        (m, o)

  pub insert_row : Columns → Exec (Models D × O) (Unit {0})
  unfolding run_insert
  insert_row columns = do
    do_hooks skipped (hooks before_insert) exec
    run_insert columns
    do_hooks skipped (hooks after_insert) exec

  pub insert : Columns → Option O → Exec (Models D) O
  unfolding insert_row
  insert columns =
      non_nil ("models: no " +++ table.plural +++ " provided for insertion")
        (with_row (insert_row columns))

  pub update_with : Result UpdateCache → String → Exec (Models D × O) ℕ
  unfolding cached_or remember
  update_with made key (m, o) =
      let found = lookup key m.update_cache in
      (do
        cache ← lift (cached_or found made)
        result ← annotate (wrapped ("models: unable to update " +++ table.plural +++ " row")) (
            on_models (
              on_db (
                driver.exec_context exec cache.query
                  (lib.values_from_mapping o cache.value_mapping))))
        rows_aff ←
            annotate
              (wrapped ("models: failed to get rows affected by update for " +++ table.plural))
              (lift result)
        λ (m', o'). (
          ok rows_aff,
          (record m' { update_cache = remember found key cache m'.update_cache }, o'),
        ))
        (m, o)

  pub update : Columns → Exec (Models D × O) ℕ
  unfolding update_with
  update columns = do
    do_hooks skipped (hooks before_update) exec
    rows_aff ← update_with (plan_update lib table columns) (make_cache_key columns [])
    do_hooks skipped (hooks after_update) exec
    pure rows_aff

  pub execute_upsert : InsertCache → Exec (Models D × O) (Unit {0})
  execute_upsert cache (m, o) =
      let vals = lib.values_from_mapping o cache.value_mapping in
      if length cache.ret_mapping == 0
      then (do on_models (on_db (driver.exec_context exec cache.query vals)); pure tt) (m, o)
      else (let (r, s) = on_row (driver.scan_row exec cache.query vals cache.ret_mapping) (m, o) in
          (or_unchanged r, s))

  pub upsert_with : Result InsertCache → String → Exec (Models D × O) (Unit {0})
  unfolding execute_upsert cached_or remember
  upsert_with made key (m, o) =
      let found = lookup key m.upsert_cache in
      (do
        cache ← lift (cached_or found made)
        annotate (wrapped ("models: unable to upsert " +++ table.plural)) (execute_upsert cache)
        λ (m', o').
            (ok tt, (record m' { upsert_cache = remember found key cache m'.upsert_cache }, o')))
        (m, o)

  pub run_upsert :
      Bool
      → List String
      → (update_columns insert_columns : Columns) → UpsertOptions
      → Exec (Models D × O) (Unit {0})
  unfolding upsert_with
  run_upsert update_on_conflict conflict_columns update_columns insert_columns opts (m, o) =
      let nz_defaults = lib.non_zero_default_set table.with_default o in
      upsert_with
        (plan_upsert lib table update_on_conflict conflict_columns update_columns insert_columns
          opts nz_defaults)
        (make_upsert_key update_on_conflict conflict_columns update_columns insert_columns
          nz_defaults)
        (m, o)

  pub upsert_row :
      Bool
      → List String
      → (update_columns insert_columns : Columns) → UpsertOptions
      → Exec (Models D × O) (Unit {0})
  unfolding run_upsert
  upsert_row update_on_conflict conflict_columns update_columns insert_columns opts = do
    do_hooks skipped (hooks before_upsert) exec
    run_upsert update_on_conflict conflict_columns update_columns insert_columns opts
    do_hooks skipped (hooks after_upsert) exec

  unfoldable pub upsert :
      Bool
      → List String
      → (update_columns insert_columns : Columns) → UpsertOptions
      → Option O
      → Exec (Models D) O
  unfolding upsert_row
  upsert update_on_conflict conflict_columns update_columns insert_columns opts =
      non_nil ("models: no " +++ table.plural +++ " provided for upsert") (
        with_row
          (upsert_row update_on_conflict conflict_columns update_columns insert_columns opts))
