-- ===== src/Pg/Store/Generated/Upserts.antt =====
-- The upserts of the store, whose statements are kept in the cache from one call to the next.
use ethereum_fetcher.Prelude.{
  ℕ, String, ◌≡◌, refl, sym, subst, ◌∙◌, true, false, List, [], ◌∷◌, contains, false≢true, length,
  ◌==◌, Bool-cases, inl, inr,
}
use ethereum_fetcher.Result.{Result, ok, err}
use ethereum_fetcher.Exec.{Exec}
use ethereum_fetcher.Exec.Rules.{Keeps}
use ethereum_fetcher.Models.{Transaction}
use ethereum_fetcher.Pg.Database.{Executor, transaction}
use ethereum_fetcher.Pg.Rows.Boiler.{inferred, Table}
use ethereum_fetcher.Pg.Rows.Caches.{InsertCache}
use ethereum_fetcher.Pg.Rows.Caches.Planned.{inserted, plan_upsert-eq-ok}
use ethereum_fetcher.Pg.Rows.Session.{Models}
use ethereum_fetcher.Pg.Rows.Tables.{transactions}
use ethereum_fetcher.Pg.Rows.Writes.{execute_upsert}
use ethereum_fetcher.Pg.Rows.Writes.Upserted.{
  AllKept, planned, chosen_upsert, upsert_lem, upsert_with-grows, upsert_with-AllKept,
  upsert_with-Keeps, upsert_with-after, execute_upsert-Keeps, execute_upsert-after,
}
use ethereum_fetcher.Pg.Store.Generated.{Boil, State, above, no_hooks, no_options, generated}
use ethereum_fetcher.Pg.Store.Generated.Statements.{Statements, upsert_text}

module _ {D : Type 0} (boil : Boil D) where
  abbrev table : Table
  table = transactions boil.tx_mapping

  -- A statement that upserts a row with its hash.
  pub record WritesHash (cache : InsertCache) : Type 0 where
    pub ret : List String
    pub update : List String
    pub insert : List String
    pub names : contains "tx_hash" insert ≡ true
    pub text : cache.query ≡ upsert_text boil.tx_library ret update insert
    pub mapped : boil.tx_library.bind_mapping insert ≡ ok cache.value_mapping
    pub back : (length ret == 0) ≡ true → cache.ret_mapping ≡ []
    pub updates : (length update == 0) ≡ false

  some_returned :
      {c : InsertCache} (u : WritesHash c)
      → (length c.ret_mapping == 0) ≡ false
      → (length u.ret == 0) ≡ false
  some_returned u some_back = elim (Bool-cases (length u.ret == 0)) [
    | inl nothing ↦
        absurd
          (false≢true some_back (subst (λ l. (length l == 0) ≡ true) (sym (u.back nothing)) refl))
    | inr something ↦ something
  ]

  -- Every statement that is kept for upserts of transactions is such a statement. With an empty
  -- cache, none is kept.
  abbrev pub IsMade : State D → Type 0
  IsMade s = AllKept WritesHash s.upsert_cache

  abbrev row_upsert : Executor → Transaction → State D → Result (Unit {0}) × (State D × Transaction)
  row_upsert e tx s =
      chosen_upsert (above boil.tx_driver) boil.tx_library table e ("tx_hash" ∷ []) inferred
        inferred no_options (s, tx)

  abbrev executed : Executor → InsertCache → Exec (State D × Transaction) (Unit {0})
  executed e = execute_upsert (above boil.tx_driver) boil.tx_library table no_hooks false e

  generated_upsert :
      (e : Executor) (tx : Transaction) (s : State D)
      → (generated boil).upsert e ("tx_hash" ∷ []) tx s
        ≡ ((row_upsert e tx s).0, (row_upsert e tx s).1.0)
  generated_upsert e tx s =
      upsert_lem (above boil.tx_driver) boil.tx_library table e ("tx_hash" ∷ []) inferred inferred
        no_options tx s

  module _ {HasRow : D → String → Type 0} {Pending : ℕ → D → String → Type 0}
      (statements : Statements boil HasRow Pending) where
    plan_upsert-WritesHash :
        (tx : Transaction) (cache : InsertCache)
        → planned
            (above boil.tx_driver)
            boil.tx_library
            table
            Executor.database
            ("tx_hash" ∷ [])
            inferred
            inferred
            no_options
            tx
          ≡ ok cache
        → WritesHash cache
    plan_upsert-WritesHash tx cache e =
        let nz = boil.tx_library.non_zero_default_set table.with_default tx in
        let (ret, update, text, mapped, back, updates) =
          plan_upsert-eq-ok boil.tx_library table ("tx_hash" ∷ []) inferred inferred no_options nz
            cache refl e in
        record {
          ret = ret;
          update = update;
          insert = inserted boil.tx_library table ("tx_hash" ∷ []) inferred inferred no_options nz;
          names = statements.named nz;
          text = text;
          mapped = mapped;
          back = back;
          updates = updates;
        }

    abbrev upsert_of : Executor → Transaction → Exec (State D) (Unit {0})
    upsert_of e tx = (generated boil).upsert e ("tx_hash" ∷ []) tx

    pub upsert-grows :
        (e : Executor) (tx : Transaction) (s : State D) → IsMade (upsert_of e tx s).1 → IsMade s
    upsert-grows e tx s = rw (generated_upsert e tx s) (
        upsert_with-grows (above boil.tx_driver) boil.tx_library table no_hooks false e WritesHash _
          _ s tx)

    pub upsert-IsMade : (e : Executor) (tx : Transaction) → Keeps IsMade (upsert_of e tx)
    upsert-IsMade e tx s kept = rw (generated_upsert e tx s) (
        upsert_with-AllKept (above boil.tx_driver) boil.tx_library table no_hooks false e WritesHash
          _ _ s tx (plan_upsert-WritesHash tx) kept)

    pub upsert-HasRow :
        (e : Executor) (tx : Transaction) (h : String) (s : State D)
        → IsMade s
        → HasRow s.db.db h
        → HasRow (upsert_of e tx s).1.db.db h
    upsert-HasRow e tx h s kept row = rw (generated_upsert e tx s) (
        upsert_with-Keeps (above boil.tx_driver) boil.tx_library table no_hooks false e WritesHash _
          _ s tx (plan_upsert-WritesHash tx) kept (λ (m : Models D). HasRow m.db h)
          (λ c u.
            execute_upsert-Keeps (above boil.tx_driver) boil.tx_library table no_hooks false e
              (λ (m : Models D). HasRow m.db h) c tx
              (λ values m.
                subst (λ q. Keeps (λ d. HasRow d h) (boil.tx_driver.exec_context e q values))
                  (sym u.text) (statements.exec_keeps e u.ret u.update u.insert values h) m.db)
              (λ values (m, o).
                subst
                  (λ q.
                    Keeps (λ (s : D × Transaction). HasRow s.0 h)
                      (boil.tx_driver.scan_row e q values c.ret_mapping))
                  (sym u.text)
                  (statements.scan_keeps e u.ret u.update u.insert values c.ret_mapping h)
                  (m.db, o))
              s row)
          row)

    run-Pending :
        (t : ℕ) (tx : Transaction) (s : State D) (c : InsertCache)
        → WritesHash c
        → (executed (transaction t) c (s, tx)).0 ≡ ok tt
        → Pending t (executed (transaction t) c (s, tx)).1.0.db.db tx.tx_hash
    run-Pending t tx s c u =
        let vals = boil.tx_library.values_from_mapping tx c.value_mapping in
        execute_upsert-after (above boil.tx_driver) boil.tx_library table no_hooks false
          (transaction t) (λ (m : Models D). Pending t m.db tx.tx_hash) c s tx
          (λ affected m e.
            statements.executed t tx u.ret u.update u.insert c.value_mapping affected s.db.db m.db
              u.names u.updates u.mapped
              (subst
                (λ q.
                  boil.tx_driver.exec_context (transaction t) q vals s.db.db ≡ (ok affected, m.db))
                u.text λ i. ((e i).0, (e i).1.db)))
          (λ tx' m e.
            statements.scanned t tx tx' u.ret u.update u.insert c.value_mapping c.ret_mapping
              s.db.db m.db u.names u.updates u.mapped
              (subst
                (λ q.
                  boil.tx_driver.scan_row (transaction t) q vals c.ret_mapping (s.db.db, tx)
                  ≡ (ok tt, (m.db, tx')))
                u.text λ i. ((e i).0, ((e i).1.0.db, (e i).1.1))))
          λ failure tx' m e missing some_back. absurd (
            false≢true
              (statements.returned (transaction t) tx tx' u.ret u.update u.insert vals c.ret_mapping
                failure s.db.db m.db (some_returned u some_back) u.updates
                (subst
                  (λ q.
                    boil.tx_driver.scan_row (transaction t) q vals c.ret_mapping (s.db.db, tx)
                    ≡ (err failure, (m.db, tx')))
                  u.text λ i. ((e i).0, ((e i).1.0.db, (e i).1.1))))
              missing)

    pub upsert-Pending :
        (t : ℕ) (tx : Transaction) (s s' : State D)
        → IsMade s
        → upsert_of (transaction t) tx s ≡ (ok tt, s')
        → Pending t s'.db.db tx.tx_hash
    upsert-Pending t tx s s' kept e =
        let e' = sym (generated_upsert (transaction t) tx s) ∙ e in
        subst (λ (s : State D). Pending t s.db.db tx.tx_hash) (λ i. (e' i).1)
          (upsert_with-after (above boil.tx_driver) boil.tx_library table no_hooks false
            (transaction t) WritesHash _ _ s tx (plan_upsert-WritesHash tx) kept
            (λ (m : Models D). Pending t m.db tx.tx_hash) (run-Pending t tx s) λ i. (e' i).0)
