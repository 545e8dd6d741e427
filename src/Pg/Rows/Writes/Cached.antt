-- ===== src/Pg/Rows/Writes/Cached.antt =====
-- Insert with its cache and without.
use text.Mathlib.TextEquality.{eq_iff}
use ethereum_fetcher.Prelude.{
  ℕ, String, ◌≡◌, refl, sym, subst, ◌∙◌, inl, inr, Bool, true, Option, none, some, List, length,
  lookup, insert, str_eq, ◌==◌, Bool-cases, Option-cases,
}
use ethereum_fetcher.Result.{Result, ok, err, panic, wrapped, ◌+++◌}
use ethereum_fetcher.Exec.{Exec, pure, annotate, proceed, ◌>>=◌}
use ethereum_fetcher.Pg.Database.{Executor}
use ethereum_fetcher.Pg.Hooks.{Hooks}
use ethereum_fetcher.Pg.Rows.Boiler.{Columns, Sql, Library, Table}
use ethereum_fetcher.Pg.Rows.Caches.{InsertCache, make_cache_key, cached_or, remember, plan_insert}
use ethereum_fetcher.Pg.Rows.Caches.Codes.{is_code}
use ethereum_fetcher.Pg.Rows.Caches.Keys.{alphabet, AreColumns, make_cache_key-injective}
use ethereum_fetcher.Pg.Rows.Session.{Models, lift}
use ethereum_fetcher.Pg.Rows.Writes.{execute_insert, insert_with, run_insert}

module _ {O : Type 0} (lib : Library O) (table : Table) where
  -- Each entry is what would be made again for every request with its key.
  abbrev pub IsTrue : List (String × InsertCache) → Type 0
  IsTrue caches =
      (cols : Columns) (nz : List String) (cache : InsertCache)
      → AreColumns table.all_columns cols.cols
      → AreColumns table.all_columns nz
      → lookup (make_cache_key cols nz) caches ≡ some cache
      → plan_insert lib table cols nz ≡ ok cache

  IsTrue-insert :
      is_code (alphabet table.all_columns) ≡ true
      → (cols : Columns) (nz : List String) (cache : InsertCache)
        (caches : List (String × InsertCache))
      → AreColumns table.all_columns cols.cols
      → AreColumns table.all_columns nz
      → plan_insert lib table cols nz ≡ ok cache
      → IsTrue caches
      → IsTrue (insert (make_cache_key cols nz) cache caches)
  IsTrue-insert code cols nz cache caches hc hn made true_caches cols' nz' cache' hc' hn' found =
      elim (Bool-cases (str_eq (make_cache_key cols nz) (make_cache_key cols' nz'))) [
        | inl same ↦
            let (p, q) =
              make_cache_key-injective table.all_columns code cols cols' nz nz' hc hc' hn hn'
                ((eq_iff _ _).0 same) in
            let is_it : some cache ≡ some cache' = rw same at found in
            sym (λ i. plan_insert lib table (p i) (q i)) ∙ made ∙ (cc)
        | inr other ↦ true_caches cols' nz' cache' hc' hn' (rw other at found)
      ]

module _ {D O : Type 0} (driver : Sql D O) (lib : Library O) (table : Table)
    (hooks : Hooks (Models D) O) (skipped : Bool) (exec : Executor) where
  -- Insert with no cache: the statement is made for each call.
  pub plain_insert : Columns → Exec (Models D × O) (Unit {0})
  plain_insert columns (m, o) =
      (do
        cache ← lift (plan_insert lib table columns (lib.non_zero_default_set table.with_default o))
        annotate (wrapped ("models: unable to insert into " +++ table.plural))
            (execute_insert driver lib table hooks skipped exec cache))
        (m, o)

  -- what the caller and the database see: the outcome, the database and the row
  abbrev pub seen : Result (Unit {0}) × (Models D × O) → Result (Unit {0}) × D × O
  seen (r, (m, o)) = (r, m.db, o)

  proceed-caches :
      (r : Result (Result ℕ)) (s : Models D × O)
      → (proceed (λ _. pure tt) r s).1.0.insert_cache ≡ s.0.insert_cache
  proceed-caches (ok x) s = refl
  proceed-caches (err e) s = refl
  proceed-caches panic s = refl

  execute_insert-caches :
      (cache : InsertCache) (m : Models D) (o : O)
      → (execute_insert driver lib table hooks skipped exec cache (m, o)).1.0.insert_cache
        ≡ m.insert_cache
  unfolding execute_insert ◌>>=◌
  execute_insert-caches cache m o = elim (Bool-cases (length cache.ret_mapping == 0)) [
    | inl none_back ↦ rw (none_back, execute_insert) (proceed-caches _ _)
    | inr some_back ↦ rw (some_back, execute_insert) refl
  ]

  -- the write to the cache, after the statement
  abbrev store_cache : Option InsertCache → String → InsertCache → Exec (Models D × O) (Unit {0})
  store_cache found key cache (m, o) =
      (ok tt, (record m { insert_cache = remember found key cache m.insert_cache }, o))

  remember-IsTrue :
      (found : Option InsertCache) (columns : Columns) (nz : List String) (cache : InsertCache)
      (caches : List (String × InsertCache))
      → is_code (alphabet table.all_columns) ≡ true
      → AreColumns table.all_columns columns.cols
      → AreColumns table.all_columns nz
      → plan_insert lib table columns nz ≡ ok cache
      → IsTrue lib table caches
      → IsTrue lib table (remember found (make_cache_key columns nz) cache caches)
  unfolding remember
  remember-IsTrue (some old) columns nz cache caches code hc hn made t = t
  remember-IsTrue none columns nz cache caches code hc hn made t =
      IsTrue-insert lib table code columns nz cache caches hc hn made t

  -- After a statement has run, what is seen is its outcome, and the entry that is made is true.
  after_execute :
      (found : Option InsertCache) (columns : Columns) (nz : List String) (cache : InsertCache)
      (r : Result (Unit {0})) (s : Models D × O)
      → is_code (alphabet table.all_columns) ≡ true
      → AreColumns table.all_columns columns.cols
      → AreColumns table.all_columns nz
      → plan_insert lib table columns nz ≡ ok cache
      → IsTrue lib table s.0.insert_cache
      → (seen (proceed (λ _. store_cache found (make_cache_key columns nz) cache) r s)
          ≡ seen (r, s))
        × IsTrue lib table
            (proceed
              (λ _. store_cache found (make_cache_key columns nz) cache)
              r
              s).1.0.insert_cache
  after_execute found columns nz cache (ok x) (m, o) code hc hn made t =
      (refl, remember-IsTrue found columns nz cache m.insert_cache code hc hn made t)
  after_execute found columns nz cache (err e) (m, o) code hc hn made t = (refl, t)
  after_execute found columns nz cache panic (m, o) code hc hn made t = (refl, t)

  -- the part of Insert that the cache's lookup decides
  with_plan :
      (r : Result InsertCache) (found : Option InsertCache) (columns : Columns) (nz : List String)
      (m : Models D) (o : O)
      → is_code (alphabet table.all_columns) ≡ true
      → AreColumns table.all_columns columns.cols
      → AreColumns table.all_columns nz
      → plan_insert lib table columns nz ≡ r
      → IsTrue lib table m.insert_cache
      → (seen (
            proceed
              (λ cache.
                annotate
                  (wrapped ("models: unable to insert into " +++ table.plural))
                  (execute_insert driver lib table hooks skipped exec cache)
                >>= λ _. store_cache found (make_cache_key columns nz) cache)
              r
              (m, o))
          ≡ seen (
              proceed
                (λ cache.
                  annotate
                    (wrapped ("models: unable to insert into " +++ table.plural))
                    (execute_insert driver lib table hooks skipped exec cache))
                r
                (m, o)))
        × IsTrue lib table
            (proceed
              (λ cache.
                annotate
                  (wrapped ("models: unable to insert into " +++ table.plural))
                  (execute_insert driver lib table hooks skipped exec cache)
                >>= λ _. store_cache found (make_cache_key columns nz) cache)
              r
              (m, o)).1.0.insert_cache
  unfolding ◌>>=◌ annotate
  with_plan (ok cache) found columns nz m o code hc hn made t =
      after_execute found columns nz cache _ _ code hc hn made
        (subst (IsTrue lib table) (sym (execute_insert-caches cache m o)) t)
  with_plan (err e) found columns nz m o code hc hn made t = (refl, t)
  with_plan panic found columns nz m o code hc hn made t = (refl, t)

  -- When no name among the kinds of columns, the dot and the columns of the table is the beginning of
  -- another, the entries of the cache are true, and the request and the row's defaults name columns of the table, Insert has
  -- the outcome and the effects on the database and on the row that it has with no cache, and its
  -- entries are true after it.
  pub run_insert-plain_insert :
      (columns : Columns) (m : Models D) (o : O)
      → is_code (alphabet table.all_columns) ≡ true
      → AreColumns table.all_columns columns.cols
      → AreColumns table.all_columns (lib.non_zero_default_set table.with_default o)
      → IsTrue lib table m.insert_cache
      → (seen (run_insert driver lib table hooks skipped exec columns (m, o))
          ≡ seen (plain_insert columns (m, o)))
        × IsTrue lib table
            (run_insert driver lib table hooks skipped exec columns (m, o)).1.0.insert_cache
  unfolding run_insert insert_with plain_insert cached_or ◌>>=◌
  run_insert-plain_insert columns m o code hc hn t =
      let nz = lib.non_zero_default_set table.with_default o in
      elim (Option-cases (lookup (make_cache_key columns nz) m.insert_cache)) [
        | inl missing ↦
            rw (missing, insert_with)
              (with_plan (plan_insert lib table columns nz) none columns nz m o code hc hn refl t)
        | inr (cache, found) ↦
            rw (found, insert_with, t columns nz cache hc hn found)
              (with_plan (ok cache) (some cache) columns nz m o code hc hn
                (t columns nz cache hc hn found) t)
      ]
