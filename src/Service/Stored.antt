-- ===== src/Service/Stored.antt =====
-- Where the returned transactions are.
use ethereum_fetcher.Prelude.{String, ℤ, ◌≡◌, subst, List, [], ◌∷◌, All}
use ethereum_fetcher.Result.{ok}
use ethereum_fetcher.Models.{Transaction}
use ethereum_fetcher.Providers.{StorageProvider, Context}
use ethereum_fetcher.Service.{World, Service, get_transactions_by_hashes}
use ethereum_fetcher.Service.Marked.{Marks, get_transactions_by_hashes-marked}
use ethereum_fetcher.Service.Storage.{KeptBy}

-- What `Stored` must satisfy to say that the row of a hash is in the store.
pub record Stores {S : Type 0} (st : StorageProvider S) (Stored : S → String → Type 0)
    : Type 0 where
  pub listed :
      (hs : List String) (u : ℤ) (s s' : S) (txs : List Transaction)
      → st.get_transactions_by_hashes hs u s ≡ (ok txs, s')
      → All (λ t. Stored s' t.tx_hash) txs
  pub inserted :
      (tx : Transaction) (u : ℤ) (s s' : S)
      → st.insert_transactions (tx ∷ []) u s ≡ (ok tt, s')
      → Stored s' tx.tx_hash
  pub kept : (h : String) → KeptBy st (λ s. Stored s h)

module _ {S N C : Type 0} (ap : Service S N C) (Stored : S → String → Type 0)
    (stores : Stores ap.st Stored) where
  marks : (u : ℤ) → Marks ap.st u (λ s t. Stored s t.tx_hash) Stored
  marks u = record {
    listed = λ hs s s' txs e. stores.listed hs u s s' txs e;
    registered = λ tx s s' e row.
        subst (λ r. Stored r.1 tx.tx_hash) e
          ((stores.kept tx.tx_hash).insert_user (tx ∷ []) u s row);
    inserted = λ tx s s' e. stores.inserted tx u s s' e;
    found_kept = λ tx. stores.kept tx.tx_hash;
    kept = stores.kept;
  }

  -- With a store that lists only rows it has, has the row that it inserted without an error, and
  -- keeps its rows, every transaction that a request returns is in the store by then, whether it
  -- was found there or fetched.
  pub get_transactions_by_hashes-stored :
      (request : Context) (hs : List String) (u : ℤ) (w : World S N) {txs : List Transaction}
      {w' : World S N}
      → get_transactions_by_hashes ap request hs u w ≡ (ok txs, w')
      → All (λ t. Stored w'.store t.tx_hash) txs
  get_transactions_by_hashes-stored request hs u w e =
      get_transactions_by_hashes-marked ap u (λ s t. Stored s t.tx_hash) Stored (marks u) request hs
        w e
