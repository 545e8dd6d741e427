-- ===== src/Pg/Store/Generated/Committed.antt =====
-- What single statements promise, through the generated code and the store, up to the service.
use ethereum_fetcher.Prelude.{
  ℕ, String, ℤ, pos, ◌≡◌, refl, sym, subst, ◌∙◌, Option, List, All, All-map,
}
use ethereum_fetcher.Result.{Result, ok, err, panic, Error, wrapped}
use ethereum_fetcher.Exec.{Exec, pure, annotate, proceed, ◌>>=◌}
use ethereum_fetcher.Exec.Rules.{Keeps, >>=-Keeps, >>=-eq-ok, annotate-eq-ok, annotate-Keeps}
use ethereum_fetcher.Models.{Transaction}
use ethereum_fetcher.Providers.{EthereumProvider, Context}
use ethereum_fetcher.Service.{World, Service}
use ethereum_fetcher.Service as Service
use ethereum_fetcher.Service.Storage as Storage
use ethereum_fetcher.Pg.Database.{Executor, Value, database, transaction}
use ethereum_fetcher.Pg.Relations.{join_statement}
use ethereum_fetcher.Pg.Rows.Queries
use ethereum_fetcher.Pg.Rows.Session.{on_db}
use ethereum_fetcher.Pg.Store.{Store, provider}
use ethereum_fetcher.Pg.Store.Durable.{
  KeptBy, Durable, insert_transactions-Keeps, insert_transactions_user-Has,
  get_transactions_by_hashes-Keeps,
}
use ethereum_fetcher.Pg.Store.Idle.{get_transactions_by_hashes-tx_count}
use ethereum_fetcher.Pg.Store.Served.{get_transactions_by_hashes-durable}
use ethereum_fetcher.Pg.Store.Generated.{Boil, State, generated, tx_rows, hashes_query}
use ethereum_fetcher.Pg.Store.Generated.Statements.{Statements}
use ethereum_fetcher.Pg.Store.Generated.Upserts.{
  IsMade, upsert-grows, upsert-IsMade, upsert-HasRow, upsert-Pending,
}

proceed-pure : {S A : Type 0} (r : Result A) (s : S) → proceed (λ a. pure a) r s ≡ (r, s)
proceed-pure (ok a) s = refl
proceed-pure (err e) s = refl
proceed-pure panic s = refl

module _ {D : Type 0} (boil : Boil D) {HasRow : D → String → Type 0}
    {Pending : ℕ → D → String → Type 0} (statements : Statements boil HasRow Pending) where
  select : List String → Option ℤ → Exec (State D) (List Transaction)
  select hs u = on_db (on_db (boil.tx_driver.bind_all database (hashes_query boil.tx_mapping hs u)))

  abbrev unread : Error → Error
  unread = wrapped "models: failed to assign all query results to Transaction slice"

  rows_lem :
      (hs : List String) (u : Option ℤ) (s : State D)
      → tx_rows boil database (hashes_query boil.tx_mapping hs u) s
        ≡ annotate unread (select hs u) s
  unfolding Queries.all ◌>>=◌ annotate select
  rows_lem hs u s = proceed-pure _ _

  rows-Keeps :
      (hs : List String) (u : Option ℤ) (P : State D → Type 0)
      → Keeps P (select hs u)
      → Keeps P (tx_rows boil database (hashes_query boil.tx_mapping hs u))
  rows-Keeps hs u P k s p = rw (rows_lem hs u s) (annotate-Keeps P unread (select hs u) k s p)

  link : Executor → List Value → Exec (State D) (Unit {0})
  link e values = (generated boil).exec e join_statement values

  -- Nothing but an upsert writes to the cache of upserts.
  link-Keeps :
      (e : Executor) (values : List Value) (P : State D → Type 0)
      → Keeps P (on_db {A = Result ℕ} (on_db (boil.tx_driver.exec_context e join_statement values)))
      → Keeps P (link e values)
  unfolding link
  link-Keeps e values P k = >>=-Keeps P _ _ k λ x s p. p

  pub IsMade-kept : KeptBy (generated boil) (IsMade boil)
  unfolding select link
  IsMade-kept = record {
    begin_keeps = λ s m. m;
    commit_keeps = λ t s m. m;
    rollback_keeps = λ t s m. m;
    exec_keeps = λ e values. link-Keeps e values (IsMade boil) λ s m. m;
    upsert_keeps = upsert-IsMade boil statements;
    select_keeps = λ hs u. rows-Keeps hs u (IsMade boil) λ s m. m;
  }

  -- Of a state whose kept statements are those that the program makes.
  abbrev Row : State D → String → Type 0
  Row s h = IsMade boil s → HasRow s.db.db h

  abbrev Written : ℕ → State D → String → Type 0
  Written t s h = IsMade boil s → Pending t s.db.db h

  -- A select that returns has run its query.
  pub rows-eq-ok :
      (hs : List String) (u : Option ℤ) (s s' : State D) (txs : List Transaction)
      → tx_rows boil database (hashes_query boil.tx_mapping hs u) s ≡ (ok txs, s')
      → boil.tx_driver.bind_all database (hashes_query boil.tx_mapping hs u) s.db.db
        ≡ (ok txs, s'.db.db)
  unfolding select
  rows-eq-ok hs u s s' txs e =
      let read = annotate-eq-ok unread (select hs u) s (sym (rows_lem hs u s) ∙ e) in
      λ i. ((read i).0, (read i).1.db.db)

  listed :
      (hs : List String) (u : Option ℤ) (s s' : State D) (txs : List Transaction)
      → tx_rows boil database (hashes_query boil.tx_mapping hs u) s ≡ (ok txs, s')
      → All (λ t. Row s' t.tx_hash) txs
  listed hs u s s' txs e =
      All-map (λ t. HasRow s'.db.db t.tx_hash) (λ t. Row s' t.tx_hash) (λ t row made. row) txs
        (statements.listed hs u s.db.db s'.db.db txs (rows-eq-ok hs u s s' txs e))

  linked :
      (t : ℕ) (values : List Value) (h : String) (s s' : State D)
      → link (transaction t) values s ≡ (ok tt, s')
      → Written t s h
      → Written t s' h
  unfolding link
  linked t values h s s' e pending =
      let (affected, u, run, rest) = >>=-eq-ok _ _ s e in
      subst (λ v. Written t v h) (λ i. (rest i).1)
        λ made.
          statements.linked t values h affected s.db.db u.db.db (λ i. ((run i).0, (run i).1.db.db))
            (pending (subst (IsMade boil) (λ i. (sym run i).1) made))

  row_kept : (h : String) → KeptBy (generated boil) (λ s. Row s h)
  unfolding select link
  row_kept h = record {
    begin_keeps = λ s row made. statements.begin_keeps h s.db.db (row made);
    commit_keeps = λ t s row made. statements.commit_keeps t h s.db.db (row made);
    rollback_keeps = λ t s row made. statements.rollback_keeps t h s.db.db (row made);
    exec_keeps = λ e values.
        link-Keeps e values (λ s. Row s h)
          λ s row made. statements.link_keeps e values h s.db.db (row made);
    upsert_keeps = λ e tx s row made.
        let before = upsert-grows boil statements e tx s made in
        upsert-HasRow boil statements e tx h s before (row before);
    select_keeps = λ hs u.
        rows-Keeps hs u (λ s. Row s h)
          λ s row made. statements.select_keeps hs u h s.db.db (row made);
  }

  pub generated-Durable : Durable (generated boil) Row Written
  unfolding link
  generated-Durable = record {
    listed = listed;
    written = λ t tx s s' e made.
        upsert-Pending boil statements t tx s s'
          (upsert-grows boil statements (transaction t) tx s
            (subst (λ r. IsMade boil r.1) (sym e) made))
          e;
    linked = linked;
    committed = λ t h s s' e pending made.
        statements.committed t h s.db.db s'.db.db (λ i. ((e i).0, (e i).1.db.db))
          (pending (subst (λ r. IsMade boil r.1) (sym e) made));
    kept = row_kept;
  }

  stored-IsMade :
      Storage.KeptBy
        (provider (generated boil) database)
        (λ (s : Store (State D)). IsMade boil s.db)
  stored-IsMade = record {
    query = get_transactions_by_hashes-Keeps (generated boil) (IsMade boil) IsMade-kept;
    insert_rows = insert_transactions-Keeps (generated boil) (IsMade boil) IsMade-kept;
    insert_user = insert_transactions_user-Has (generated boil) (IsMade boil) IsMade-kept;
  }

  -- The store runs on the generated code, and PostgreSQL and SQLBoiler keep the promises of
  -- `Statements`. When a request begins with no transaction counted as open, and each statement that
  -- is kept for upserts is one that upserts a row with its hash, as with an empty cache, then every
  -- transaction that the request returns has a committed row by its end, and the statements that are
  -- kept then are again such statements.
  pub get_transactions_by_hashes-committed :
      {N C : Type 0} (ctx request : Context) (net : EthereumProvider N C) (hs : List String) (u : ℤ)
      (w w' : World (Store (State D)) N) (txs : List Transaction)
      → Service.get_transactions_by_hashes
          (record { ctx = ctx; st = provider (generated boil) database; net = net })
          request
          hs
          u
          w
        ≡ (ok txs, w')
      → IsMade boil w.store.db
      → w.store.tx_count ≡ pos 0
      → All (λ t. HasRow w'.store.db.db.db t.tx_hash) txs × IsMade boil w'.store.db
  get_transactions_by_hashes-committed {N} {C} ctx request net hs u w w' txs e made idle =
      let ap : Service (Store (State D)) N C = record {
        ctx = ctx;
        st = provider (generated boil) database;
        net = net;
      } in
      let still_idle =
        get_transactions_by_hashes-tx_count (generated boil) (pos 0) ctx request net hs u w w' txs e
          idle in
      let still_made =
        subst (λ r. IsMade boil r.1.store.db) e
          (Storage.get_transactions_by_hashes-keeps ap stored-IsMade request hs u w made) in
      (
        All-map (λ t. Row w'.store.db t.tx_hash) (λ t. HasRow w'.store.db.db.db t.tx_hash)
            (λ t row. row still_made) txs
            (get_transactions_by_hashes-durable (generated boil) Row Written generated-Durable ctx
              request net hs u w w' txs e still_idle),
        still_made,
      )
