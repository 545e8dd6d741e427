-- ===== src/Pg/Store/Generated/Statements.antt =====
-- What is asked of PostgreSQL and of SQLBoiler about single statements.
use ethereum_fetcher.Prelude.{
  ℕ, String, ◌≡◌, true, false, Option, List, [], ◌∷◌, All, contains, length, ◌==◌, ℤ,
}
use ethereum_fetcher.Result.{Result, ok, err, Error, is_no_rows}
use ethereum_fetcher.Exec.Rules.{Keeps}
use ethereum_fetcher.Models.{Transaction}
use ethereum_fetcher.Pg.Database.{Executor, Value, database, transaction}
use ethereum_fetcher.Pg.Relations.{join_statement}
use ethereum_fetcher.Pg.Upsert.{build_upsert_query_postgres}
use ethereum_fetcher.Pg.Rows.Boiler.{inferred, Library}
use ethereum_fetcher.Pg.Rows.Tables.{transactions}
use ethereum_fetcher.Pg.Store.Generated.{Boil, hashes_query, no_options}

-- The statement that inserts the columns `insert`, or updates the columns `update` of the row that
-- has the hash, and returns the columns `ret`.
abbrev pub upsert_text : Library Transaction → (ret update insert : List String) → String
upsert_text lib ret update insert =
    build_upsert_query_postgres lib.ident_quote (λ n. lib.placeholders n 1 1) "\"transactions\""
      true ret update ("tx_hash" ∷ []) insert no_options

-- `HasRow d h` for a committed row with the hash `h`, and `Pending t d h` for one that the open
-- transaction `t` has written.
pub record Statements {D : Type 0} (boil : Boil D) (HasRow : D → String → Type 0)
    (Pending : ℕ → D → String → Type 0) : Type 0 where
  -- a select outside of transactions lists committed rows
  pub listed :
      (hs : List String) (u : Option ℤ) (d d' : D) (txs : List Transaction)
      → boil.tx_driver.bind_all database (hashes_query boil.tx_mapping hs u) d ≡ (ok txs, d')
      → All (λ t. HasRow d' t.tx_hash) txs
  -- an insertion with inferred columns names the columns that have no default
  pub named :
      (nz : List String)
      → contains "tx_hash"
          (boil.tx_library.insert_column_set inferred
            (transactions boil.tx_mapping).all_columns
            (transactions boil.tx_mapping).with_default
            (transactions boil.tx_mapping).without_default
            nz).0
        ≡ true
  -- an upsert of a row that updates some column on a conflict writes the row, if it inserts the
  -- values of columns that have the hash
  pub executed :
      (t : ℕ) (tx : Transaction) (ret update insert : List String) (mapping : List ℕ)
      (affected : Result ℕ) (d d' : D)
      → contains "tx_hash" insert ≡ true
      → (length update == 0) ≡ false
      → boil.tx_library.bind_mapping insert ≡ ok mapping
      → boil.tx_driver.exec_context
          (transaction t)
          (upsert_text boil.tx_library ret update insert)
          (boil.tx_library.values_from_mapping tx mapping)
          d
        ≡ (ok affected, d')
      → Pending t d' tx.tx_hash
  pub scanned :
      (t : ℕ) (tx tx' : Transaction) (ret update insert : List String) (mapping back : List ℕ)
      (d d' : D)
      → contains "tx_hash" insert ≡ true
      → (length update == 0) ≡ false
      → boil.tx_library.bind_mapping insert ≡ ok mapping
      → boil.tx_driver.scan_row
          (transaction t)
          (upsert_text boil.tx_library ret update insert)
          (boil.tx_library.values_from_mapping tx mapping)
          back
          (d, tx)
        ≡ (ok tt, (d', tx'))
      → Pending t d' tx.tx_hash
  -- an upsert that updates some column on a conflict and returns columns always has a row to return;
  -- with no column to update, it would do nothing on a conflict and return no row
  pub returned :
      (e : Executor) (tx tx' : Transaction) (ret update insert : List String) (values : List Value)
      (back : List ℕ) (failure : Error) (d d' : D)
      → (length ret == 0) ≡ false
      → (length update == 0) ≡ false
      → boil.tx_driver.scan_row e
          (upsert_text boil.tx_library ret update insert)
          values
          back
          (d, tx)
        ≡ (err failure, (d', tx'))
      → is_no_rows failure ≡ false
  -- a statement of the same transaction undoes none of its writes
  pub linked :
      (t : ℕ) (values : List Value) (h : String) (affected : Result ℕ) (d d' : D)
      → boil.tx_driver.exec_context (transaction t) join_statement values d ≡ (ok affected, d')
      → Pending t d h
      → Pending t d' h
  pub committed :
      (t : ℕ) (h : String) (d d' : D) → boil.commit t d ≡ (ok tt, d') → Pending t d h → HasRow d' h
  -- none of the statements takes a committed row away, nor does a rollback
  pub begin_keeps : (h : String) → Keeps (λ d. HasRow d h) boil.begin
  pub commit_keeps : (t : ℕ) (h : String) → Keeps (λ d. HasRow d h) (boil.commit t)
  pub rollback_keeps : (t : ℕ) (h : String) → Keeps (λ d. HasRow d h) (boil.rollback t)
  pub link_keeps :
      (e : Executor) (values : List Value) (h : String)
      → Keeps (λ d. HasRow d h) (boil.tx_driver.exec_context e join_statement values)
  pub exec_keeps :
      (e : Executor) (ret update insert : List String) (values : List Value) (h : String)
      → Keeps
          (λ d. HasRow d h)
          (boil.tx_driver.exec_context e (upsert_text boil.tx_library ret update insert) values)
  pub scan_keeps :
      (e : Executor) (ret update insert : List String) (values : List Value) (back : List ℕ)
      (h : String)
      → Keeps
          (λ (s : D × Transaction). HasRow s.0 h)
          (boil.tx_driver.scan_row e (upsert_text boil.tx_library ret update insert) values back)
  pub select_keeps :
      (hs : List String) (u : Option ℤ) (h : String)
      → Keeps
          (λ d. HasRow d h)
          (boil.tx_driver.bind_all database (hashes_query boil.tx_mapping hs u))
