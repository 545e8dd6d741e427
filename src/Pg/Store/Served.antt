-- ===== src/Pg/Store/Served.antt =====
-- A request of the service over the store: internal/app/service.go with internal/store/pg/db.go.
use ethereum_fetcher.Prelude.{ℕ, String, ℤ, pos, ◌≡◌, subst, ◌⊎◌, inl, inr, List, All, All-map}
use ethereum_fetcher.Result.{ok}
use ethereum_fetcher.Exec.Rules.{annotate-eq-ok}
use ethereum_fetcher.Models.{Transaction}
use ethereum_fetcher.Providers.{EthereumProvider, Context}
use ethereum_fetcher.Service.{World, Service}
use ethereum_fetcher.Service as Service
use ethereum_fetcher.Service.Stored.{Stores, get_transactions_by_hashes-stored}
use ethereum_fetcher.Pg.Database.{Database, database}
use ethereum_fetcher.Pg.Store.{Store, get_transactions_by_hashes, provider}
use ethereum_fetcher.Pg.Store.Durable.{Durable, IsBusy}
use ethereum_fetcher.Pg.Store.Kept.{or_IsBusy-KeptBy}
use ethereum_fetcher.Pg.Store.Inserted.{insert_transactions-HasRow}

module _ {D : Type 0} (db : Database D) (HasRow : D → String → Type 0)
    (Pending : ℕ → D → String → Type 0) (durable : Durable db HasRow Pending) where
  -- The row is committed, or some transaction is counted as open.
  abbrev IsStored : Store D → String → Type 0
  IsStored s h = HasRow s.db h ⊎ IsBusy s.tx_count

  stores : Stores (provider db database) IsStored
  unfolding get_transactions_by_hashes
  stores = record {
    listed = λ hs u s s' txs e.
        let run = annotate-eq-ok _ _ s e in
        All-map (λ t. HasRow s'.db t.tx_hash) (λ t. IsStored s' t.tx_hash) (λ t row. inl row) txs
          (durable.listed hs _ s.db s'.db txs (λ i. ((run i).0, (run i).1.db)));
    inserted = λ tx u s s' e. insert_transactions-HasRow db HasRow Pending durable tx u s s' e;
    kept = λ h. or_IsBusy-KeptBy db (λ d. HasRow d h) (durable.kept h);
  }

  -- When the database keeps the promises of `Durable` and no transaction is counted as open at the
  -- end of a request, every transaction that the request returns has a committed row by then,
  -- whether it was found there or fetched.
  pub get_transactions_by_hashes-durable :
      {N C : Type 0} (ctx request : Context) (net : EthereumProvider N C) (hs : List String) (u : ℤ)
      (w w' : World (Store D) N) (txs : List Transaction)
      → Service.get_transactions_by_hashes
          (record { ctx = ctx; st = provider db database; net = net })
          request
          hs
          u
          w
        ≡ (ok txs, w')
      → w'.store.tx_count ≡ pos 0
      → All (λ t. HasRow w'.store.db t.tx_hash) txs
  get_transactions_by_hashes-durable ctx request net hs u w w' txs e none_open =
      All-map (λ t. IsStored w'.store t.tx_hash) (λ t. HasRow w'.store.db t.tx_hash)
        (λ t. elim [ inl row ↦ row | inr busy ↦ absurd (subst IsBusy none_open busy) ]) txs
        (get_transactions_by_hashes-stored
          (record { ctx = ctx; st = provider db database; net = net }) IsStored stores request hs u
          w e)
