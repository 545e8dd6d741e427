-- ===== src/Pg/Rows/Writes/Upserted.antt =====
-- Upsert of a row, for a table with no hooks.
use ethereum_fetcher.Prelude.{
  ℕ, String, ◌≡◌, refl, sym, subst, ◌⊎◌, inl, inr, true, false, Bool, Option, none, some, List, [],
  ◌∷◌, All, length, lookup, ◌==◌, Bool-cases, str_eq,
}
use ethereum_fetcher.Result.{Result, ok, err, panic, Error, is_no_rows, wrapped, ◌+++◌}
use ethereum_fetcher.Exec.{Exec, pure, reword, annotate, proceed, ◌>>=◌, ◌>>◌}
use ethereum_fetcher.Exec.Rules.{Keeps, >>=-Keeps}
use ethereum_fetcher.Pg.Database.{Executor, Value}
use ethereum_fetcher.Pg.Hooks.{Hooks, do_hooks, run_hooks}
use ethereum_fetcher.Pg.Upsert.{UpsertOptions}
use ethereum_fetcher.Pg.Rows.Boiler.{Columns, Sql, Library, Table}
use ethereum_fetcher.Pg.Rows.Caches.{InsertCache, make_upsert_key, cached_or, remember, plan_upsert}
use ethereum_fetcher.Pg.Rows.Session.{Models, reply, with_row}
use ethereum_fetcher.Pg.Rows.Writes.{
  execute_upsert, upsert_with, run_upsert, upsert_row, upsert, or_unchanged,
}

or_unchanged-eq-ok :
    (r : Result (Unit {0}))
    → or_unchanged r ≡ ok tt
    → (r ≡ ok tt) ⊎ ((failure : Error) × (r ≡ err failure) × (is_no_rows failure ≡ true))
or_unchanged-eq-ok (ok x) h = inl refl
or_unchanged-eq-ok (err e) h = elim (Bool-cases (is_no_rows e)) [
  | inl missing ↦ inr (e, refl, missing)
  | inr other ↦ let failed = rw other at h in cc
]
or_unchanged-eq-ok panic h = cc

module _ (Good : InsertCache → Type 0) where
  -- Every statement that is kept is good.
  abbrev pub AllKept : List (String × InsertCache) → Type 0
  AllKept = All (λ (e : String × InsertCache). Good e.1)

  lookup-Good :
      (key : String) (caches : List (String × InsertCache)) (cache : InsertCache)
      → AllKept caches
      → lookup key caches ≡ some cache
      → Good cache
  lookup-Good key [] cache a e = cc
  lookup-Good key ((j, c) ∷ caches) cache a e = elim (Bool-cases (str_eq j key)) [
    | inl same ↦ let found : some c ≡ some cache = rw same at e in subst Good (cc) a.0
    | inr other ↦ lookup-Good key caches cache a.1 (rw other at e)
  ]

  cached_or-Good :
      (found : Option InsertCache) (made : Result InsertCache)
      → ((c : InsertCache) → found ≡ some c → Good c)
      → ((c : InsertCache) → made ≡ ok c → Good c)
      → (cache : InsertCache) → cached_or found made ≡ ok cache
      → Good cache
  unfolding cached_or
  cached_or-Good none made kept new cache e = new cache e
  cached_or-Good (some c) made kept new cache e = subst Good (cc) (kept c refl)

  remember-AllKept :
      (found : Option InsertCache) (key : String) (cache : InsertCache)
      (caches : List (String × InsertCache))
      → Good cache
      → AllKept caches
      → AllKept (remember found key cache caches)
  unfolding remember
  remember-AllKept (some old) key cache caches g a = a
  remember-AllKept none key cache caches g a = (g, a)

  remember-grows :
      (found : Option InsertCache) (key : String) (cache : InsertCache)
      (caches : List (String × InsertCache))
      → AllKept (remember found key cache caches)
      → AllKept caches
  unfolding remember
  remember-grows (some old) key cache caches a = a
  remember-grows none key cache caches a = a.1

module _ {D O : Type 0} (driver : Sql D O) (lib : Library O) (table : Table)
    (hooks : Hooks (Models D) O) (skipped : Bool) (exec : Executor) where
  abbrev run : InsertCache → Exec (Models D × O) (Unit {0})
  run = execute_upsert driver lib table hooks skipped exec

  execute_upsert-caches :
      (cache : InsertCache) (m : Models D) (o : O)
      → (run cache (m, o)).1.0.upsert_cache ≡ m.upsert_cache
  unfolding execute_upsert ◌>>=◌
  execute_upsert-caches cache m o = elim (Bool-cases (length cache.ret_mapping == 0)) [
    | inl none_back ↦ rw (none_back, execute_upsert) (proceed-caches _ _)
    | inr some_back ↦ rw (some_back, execute_upsert) refl
  ]
    where
      proceed-caches :
          (r : Result (Result ℕ)) (s : Models D × O)
          → (proceed (λ _. pure tt) r s).1.0.upsert_cache ≡ s.0.upsert_cache
      proceed-caches (ok x) s = refl
      proceed-caches (err e) s = refl
      proceed-caches panic s = refl

  -- What the statement of an entry keeps, whether it is executed or scanned.
  pub execute_upsert-Keeps :
      (P : D → Type 0) (cache : InsertCache) (o : O)
      → ((values : List Value) → Keeps P (driver.exec_context exec cache.query values))
      → ((values : List Value)
          → Keeps
              (λ (s : D × O). P s.0)
              (driver.scan_row exec cache.query values cache.ret_mapping))
      → (m : Models D) → P m.db
      → P (run cache (m, o)).1.0.db
  unfolding execute_upsert
  execute_upsert-Keeps P cache o executed back m p =
      elim (Bool-cases (length cache.ret_mapping == 0)) [
        | inl none_back ↦
            rw (none_back, execute_upsert)
              (>>=-Keeps (λ (s : Models D × O). P s.0.db) _ _ (λ s. executed _ s.0.db) (λ _ s q. q)
                (m, o) p)
        | inr some_back ↦ rw (some_back, execute_upsert) (back _ (m.db, o) p)
      ]

  -- What an execution that returns has done, in the three ways in which it may return.
  pub execute_upsert-after :
      (Q : D → Type 0) (cache : InsertCache) (m : Models D) (o : O)
      → ((affected : Result ℕ) (d : D)
          → driver.exec_context exec cache.query
              (lib.values_from_mapping o cache.value_mapping)
              m.db
            ≡ (ok affected, d)
          → Q d)
      → ((o' : O) (d : D)
          → driver.scan_row exec cache.query
              (lib.values_from_mapping o cache.value_mapping)
              cache.ret_mapping
              (m.db, o)
            ≡ (ok tt, (d, o'))
          → Q d)
      → ((failure : Error) (o' : O) (d : D)
          → driver.scan_row exec cache.query
              (lib.values_from_mapping o cache.value_mapping)
              cache.ret_mapping
              (m.db, o)
            ≡ (err failure, (d, o'))
          → is_no_rows failure ≡ true
          → (length cache.ret_mapping == 0) ≡ false
          → Q d)
      → (run cache (m, o)).0 ≡ ok tt
      → Q (run cache (m, o)).1.0.db
  unfolding execute_upsert ◌>>=◌
  execute_upsert-after Q cache m o executed back missing e =
      let vals = lib.values_from_mapping o cache.value_mapping in
      elim (Bool-cases (length cache.ret_mapping == 0)) [
        | inl none_back ↦
            rw (none_back, execute_upsert)
              (let r = driver.exec_context exec cache.query vals m.db in
                by_execution r.0 r.1 (λ affected same. executed affected r.1 (λ i. (same i, r.1)))
                  (rw (none_back, execute_upsert) at e))
        | inr some_back ↦
            rw (some_back, execute_upsert)
              (let r = driver.scan_row exec cache.query vals cache.ret_mapping (m.db, o) in
                elim (or_unchanged-eq-ok r.0 (rw (some_back, execute_upsert) at e)) [
                  | inl same ↦ back r.1.1 r.1.0 (λ i. (same i, r.1))
                  | inr (failure, same, none_there) ↦
                      missing failure r.1.1 r.1.0 (λ i. (same i, r.1)) none_there some_back
                ])
      ]
    where
      by_execution :
          (r : Result (Result ℕ)) (d : D)
          → ((affected : Result ℕ) → r ≡ ok affected → Q d)
          → (proceed {S = Models D × O} (λ _. pure tt) r (record m { db = d }, o)).0 ≡ ok tt
          → Q (proceed {S = Models D × O} (λ _. pure tt) r (record m { db = d }, o)).1.0.db
      by_execution (ok affected) d done h = done affected refl
      by_execution (err failure) d done h = cc
      by_execution panic d done h = cc

  -- the write to the cache
  abbrev store : Option InsertCache → String → InsertCache → Exec (Models D × O) (Unit {0})
  store found key cache (m, o) =
      (ok tt, (record m { upsert_cache = remember found key cache m.upsert_cache }, o))

  -- from the lookup to the write, once the lookup is done
  run_and_store : Option InsertCache → String → InsertCache → Exec (Models D × O) (Unit {0})
  run_and_store found key cache = do
    annotate (wrapped ("models: unable to upsert " +++ table.plural)) (run cache)
    store found key cache

  abbrev pub upserted : Result InsertCache → String → Exec (Models D × O) (Unit {0})
  upserted made key = upsert_with driver lib table hooks skipped exec made key

  upsert_with_lem :
      (made : Result InsertCache) (key : String) (m : Models D) (o : O)
      → upserted made key (m, o)
        ≡ proceed
            (run_and_store (lookup key m.upsert_cache) key)
            (cached_or (lookup key m.upsert_cache) made)
            (m, o)
  unfolding upsert_with ◌>>=◌ run_and_store
  upsert_with_lem made key m o = refl

  module _ (found : Option InsertCache) (key : String) (cache : InsertCache) where
    abbrev stored : (Error → Error) → Result (Unit {0}) → Exec (Models D × O) (Unit {0})
    stored f r = proceed (λ _. store found key cache) (reword f r)

    stored-grows :
        (Good : InsertCache → Type 0) (f : Error → Error) (r : Result (Unit {0})) (s : Models D × O)
        → AllKept Good (stored f r s).1.0.upsert_cache
        → AllKept Good s.0.upsert_cache
    stored-grows Good f (ok x) s a = remember-grows Good found key cache _ a
    stored-grows Good f (err e) s a = a
    stored-grows Good f panic s a = a

    stored-AllKept :
        (Good : InsertCache → Type 0) (f : Error → Error) (r : Result (Unit {0})) (s : Models D × O)
        → Good cache
        → AllKept Good s.0.upsert_cache
        → AllKept Good (stored f r s).1.0.upsert_cache
    stored-AllKept Good f (ok x) s g a = remember-AllKept Good found key cache _ g a
    stored-AllKept Good f (err e) s g a = a
    stored-AllKept Good f panic s g a = a

    stored-db :
        (f : Error → Error) (r : Result (Unit {0})) (s : Models D × O)
        → (stored f r s).1.0.db ≡ s.0.db
    stored-db f (ok x) s = refl
    stored-db f (err e) s = refl
    stored-db f panic s = refl

    stored-eq-ok :
        (f : Error → Error) (r : Result (Unit {0})) (s : Models D × O)
        → (stored f r s).0 ≡ ok tt
        → r ≡ ok tt
    stored-eq-ok f (ok x) s e = refl
    stored-eq-ok f (err x) s e = cc
    stored-eq-ok f panic s e = cc

  module _ (Good : InsertCache → Type 0) (found : Option InsertCache) (key : String) where
    abbrev after : Result InsertCache → Exec (Models D × O) (Unit {0})
    after = proceed (run_and_store found key)

    after-grows :
        (r : Result InsertCache) (m : Models D) (o : O)
        → AllKept Good (after r (m, o)).1.0.upsert_cache
        → AllKept Good m.upsert_cache
    unfolding run_and_store ◌>>=◌ annotate
    after-grows (ok c) m o a =
        subst (AllKept Good) (execute_upsert-caches c m o) (stored-grows found key c Good _ _ _ a)
    after-grows (err e) m o a = a
    after-grows panic m o a = a

    after-AllKept :
        (r : Result InsertCache) (m : Models D) (o : O)
        → ((c : InsertCache) → r ≡ ok c → Good c)
        → AllKept Good m.upsert_cache
        → AllKept Good (after r (m, o)).1.0.upsert_cache
    unfolding run_and_store ◌>>=◌ annotate
    after-AllKept (ok c) m o g a =
        stored-AllKept found key c Good _ _ _ (g c refl)
          (subst (AllKept Good) (sym (execute_upsert-caches c m o)) a)
    after-AllKept (err e) m o g a = a
    after-AllKept panic m o g a = a

    after-Keeps :
        (P : D → Type 0) (r : Result InsertCache) (m : Models D) (o : O)
        → ((c : InsertCache) → r ≡ ok c → P (run c (m, o)).1.0.db)
        → P m.db
        → P (after r (m, o)).1.0.db
    unfolding run_and_store ◌>>=◌ annotate
    after-Keeps P (ok c) m o g p = subst P (sym (stored-db found key c _ _ _)) (g c refl)
    after-Keeps P (err e) m o g p = p
    after-Keeps P panic m o g p = p

    after-eq-ok :
        (Q : D → Type 0) (r : Result InsertCache) (m : Models D) (o : O)
        → ((c : InsertCache) → r ≡ ok c → (run c (m, o)).0 ≡ ok tt → Q (run c (m, o)).1.0.db)
        → (after r (m, o)).0 ≡ ok tt
        → Q (after r (m, o)).1.0.db
    unfolding run_and_store ◌>>=◌ annotate
    after-eq-ok Q (ok c) m o g e =
        subst Q (sym (stored-db found key c _ _ _)) (g c refl (stored-eq-ok found key c _ _ _ e))
    after-eq-ok Q (err x) m o g e = cc
    after-eq-ok Q panic m o g e = cc

  -- Where the plan is good if there is one, and so is what was kept before.
  module _ (Good : InsertCache → Type 0) (made : Result InsertCache) (key : String) (m : Models D)
      (o : O) where
    pub upsert_with-grows :
        AllKept Good (upserted made key (m, o)).1.0.upsert_cache → AllKept Good m.upsert_cache
    upsert_with-grows = rw upsert_with_lem (after-grows Good (lookup key m.upsert_cache) key _ m o)

    module _ (new : (c : InsertCache) → made ≡ ok c → Good c)
        (kept : AllKept Good m.upsert_cache) where
      chosen : (c : InsertCache) → cached_or (lookup key m.upsert_cache) made ≡ ok c → Good c
      chosen =
          cached_or-Good Good (lookup key m.upsert_cache) made
            (λ c. lookup-Good Good key m.upsert_cache c kept) new

      pub upsert_with-AllKept : AllKept Good (upserted made key (m, o)).1.0.upsert_cache
      upsert_with-AllKept =
          rw upsert_with_lem (after-AllKept Good (lookup key m.upsert_cache) key _ m o chosen kept)

      pub upsert_with-Keeps :
          (P : D → Type 0)
          → ((c : InsertCache) → Good c → P (run c (m, o)).1.0.db)
          → P m.db
          → P (upserted made key (m, o)).1.0.db
      upsert_with-Keeps P g p =
          rw upsert_with_lem
            (after-Keeps Good (lookup key m.upsert_cache) key P _ m o (λ c e. g c (chosen c e)) p)

      pub upsert_with-after :
          (Q : D → Type 0)
          → ((c : InsertCache) → Good c → (run c (m, o)).0 ≡ ok tt → Q (run c (m, o)).1.0.db)
          → (upserted made key (m, o)).0 ≡ ok tt
          → Q (upserted made key (m, o)).1.0.db
      upsert_with-after Q g =
          rw upsert_with_lem
            (after-eq-ok Good (lookup key m.upsert_cache) key Q _ m o λ c e. g c (chosen c e))

module _ {D O : Type 0} (driver : Sql D O) (lib : Library O) (table : Table) (exec : Executor)
    (columns : List String) (update_columns insert_columns : Columns) (opts : UpsertOptions) where
  -- Upsert from the choice of its statement on, and what a caller is given
  abbrev pub planned : O → Result InsertCache
  planned o =
      plan_upsert lib table true columns update_columns insert_columns opts
        (lib.non_zero_default_set table.with_default o)

  abbrev pub key_of : O → String
  key_of o =
      make_upsert_key true columns update_columns insert_columns
        (lib.non_zero_default_set table.with_default o)

  abbrev pub chosen_upsert : Exec (Models D × O) (Unit {0})
  chosen_upsert (m, o) =
      upserted driver lib table (λ point. []) false exec (planned o) (key_of o) (m, o)

  answered :
      (r : Result (Unit {0})) (m : Models D) (o : O)
      → proceed {S = Models D}
          (λ (_ : O). pure tt)
          (reply
            (proceed {S = Models D × O} (λ _. pure tt) r (m, o)).0
            (proceed {S = Models D × O} (λ _. pure tt) r (m, o)).1.1)
          (proceed {S = Models D × O} (λ _. pure tt) r (m, o)).1.0
        ≡ (r, m)
  answered (ok x) m o = refl
  answered (err e) m o = refl
  answered panic m o = refl

  -- Upsert with no hooks, by the outcome and the state.
  pub upsert_lem :
      (o : O) (m : Models D)
      → (upsert driver lib table
              (λ point. [])
              false
              exec
              true
              columns
              update_columns
              insert_columns
              opts
              (some o)
            >>= λ _. pure tt)
          m
        ≡ ((chosen_upsert (m, o)).0, (chosen_upsert (m, o)).1.0)
  unfolding upsert upsert_row run_upsert do_hooks run_hooks with_row ◌>>=◌
  upsert_lem o m =
      answered (chosen_upsert (m, o)).0 (chosen_upsert (m, o)).1.0 (chosen_upsert (m, o)).1.1
