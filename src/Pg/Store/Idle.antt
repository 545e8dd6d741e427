-- ===== src/Pg/Store/Idle.antt =====
-- The counter of open transactions over a request of the service.
use ethereum_fetcher.Prelude.{String, ℤ, ◌≡◌, subst, List}
use ethereum_fetcher.Result.{ok}
use ethereum_fetcher.Exec.Rules.{Keeps, annotate-Keeps}
use ethereum_fetcher.Models.{Transaction}
use ethereum_fetcher.Providers.{Context}
use ethereum_fetcher.Service.{World, Service}
use ethereum_fetcher.Service as Service
use ethereum_fetcher.Service.Returned.{KeptByReturns, get_transactions_by_hashes-returns}
use ethereum_fetcher.Providers.{EthereumProvider}
use ethereum_fetcher.Pg.Database.{Database, database}
use ethereum_fetcher.Pg.Store.{Store, link_one, get_transactions_by_hashes, provider}
use ethereum_fetcher.Pg.Store.Counter.{IsRestored, insert_transactions-tx_count}
use ethereum_fetcher.Pg.Store.Durable.{insert_transactions_user-Keeps}

module _ {D : Type 0} (db : Database D) (c : ℤ) where
  abbrev Counts : Store D → Type 0
  Counts s = s.tx_count ≡ c

  query-Counts :
      (hs : List String) (u : ℤ) → Keeps Counts (get_transactions_by_hashes db database hs u)
  unfolding get_transactions_by_hashes
  query-Counts hs u = annotate-Keeps Counts _ _ λ s k. k

  link_one-Counts : (u : ℤ) (tx : Transaction) → Keeps Counts (link_one db database u tx)
  unfolding link_one
  link_one-Counts u tx s k = k

  Counts-kept : KeptByReturns (provider db database) Counts
  Counts-kept = record {
    query = λ hs u s s' txs e k. subst (λ r. Counts r.1) e (query-Counts hs u s k);
    insert_rows = λ txs u s s' e k.
        subst (λ r. IsRestored c r.0 r.1) e (insert_transactions-tx_count db database txs u s c k);
    insert_user = λ txs u s s' e k.
        subst (λ r. Counts r.1) e
          (insert_transactions_user-Keeps db u Counts (link_one-Counts u) txs s k);
  }

  -- A request that returns leaves the counter as it was.
  pub get_transactions_by_hashes-tx_count :
      {N C : Type 0} (ctx request : Context) (net : EthereumProvider N C) (hs : List String) (u : ℤ)
      (w w' : World (Store D) N) (txs : List Transaction)
      → Service.get_transactions_by_hashes
          (record { ctx = ctx; st = provider db database; net = net })
          request
          hs
          u
          w
        ≡ (ok txs, w')
      → w.store.tx_count ≡ c
      → w'.store.tx_count ≡ c
  get_transactions_by_hashes-tx_count {N} {C} ctx request net hs u w w' txs =
      let ap : Service (Store D) N C = record { ctx = ctx; st = provider db database; net = net } in
      get_transactions_by_hashes-returns ap Counts-kept request hs u w w' txs
