-- ===== src/Pg/Store/Generated/Again.antt =====
-- A request that is made again, over the generated code.
use ethereum_fetcher.Prelude.{ℕ, String, ℤ, pos, ◌≡◌, true, Option, List, map, contains}
use ethereum_fetcher.Result.{ok}
use ethereum_fetcher.Exec.Rules.{annotate-eq-ok}
use ethereum_fetcher.Models.{Transaction}
use ethereum_fetcher.Providers.{EthereumProvider, Context}
use ethereum_fetcher.Service.{World, Service}
use ethereum_fetcher.Service as Service
use ethereum_fetcher.Service.Again.{Finds, get_transactions_by_hashes-repeated}
use ethereum_fetcher.Service.Keyed.{hashes_of}
use ethereum_fetcher.Service.Order.{Answers}
use ethereum_fetcher.Pg.Database.{database}
use ethereum_fetcher.Pg.Store.{Store, get_transactions_by_hashes, provider}
use ethereum_fetcher.Pg.Store.Generated.{Boil, State, generated, hashes_query}
use ethereum_fetcher.Pg.Store.Generated.Statements.{Statements}
use ethereum_fetcher.Pg.Store.Generated.Upserts.{IsMade}
use ethereum_fetcher.Pg.Store.Generated.Committed.{rows-eq-ok, get_transactions_by_hashes-committed}

-- The select on hashes lists each committed row the hash of which is the lower case of one of them.
pub record Selects {D : Type 0} (boil : Boil D) (lower : String → String)
    (HasRow : D → String → Type 0) : Type 0 where
  pub found :
      (h : String) (hs : List String) (u : Option ℤ) (d d' : D) (txs : List Transaction)
      → HasRow d h
      → contains h (map lower hs) ≡ true
      → boil.tx_driver.bind_all database (hashes_query boil.tx_mapping hs u) d ≡ (ok txs, d')
      → contains h (hashes_of txs) ≡ true

module _ {D : Type 0} (boil : Boil D) {HasRow : D → String → Type 0}
    {Pending : ℕ → D → String → Type 0} (statements : Statements boil HasRow Pending)
    (lower : String → String) (selects : Selects boil lower HasRow) where
  finds :
      Finds
        (provider (generated boil) database)
        lower
        (λ (s : Store (State D)) h. HasRow s.db.db.db h)
  unfolding get_transactions_by_hashes
  finds = record {
    found = λ h hs u s s' txs row asked e.
        let read = annotate-eq-ok _ _ s e in
        selects.found h hs _ s.db.db.db s'.db.db.db txs row asked
          (rows-eq-ok boil statements hs _ s.db s'.db txs λ i. ((read i).0, (read i).1.db));
  }

  -- PostgreSQL and SQLBoiler keep the promises of `Statements` and of `Selects`, and the channels of
  -- the node carry the transactions that were asked for. When a request for hashes in lower case
  -- began with no transaction counted as open and with no statement kept for upserts but such as
  -- upsert a row with its hash, and returned, then the same request by any user leaves the node
  -- alone, whatever comes of it, in each later state that has the rows that were committed by then.
  pub get_transactions_by_hashes_again :
      {N C : Type 0} (ctx request request₂ : Context) (net : EthereumProvider N C)
      (asked : C → String) (hs : List String) (u u₂ : ℤ) (w w' w₂ : World (Store (State D)) N)
      (txs : List Transaction)
      → Answers net asked
      → map lower hs ≡ hs
      → Service.get_transactions_by_hashes
          (record { ctx = ctx; st = provider (generated boil) database; net = net })
          request
          hs
          u
          w
        ≡ (ok txs, w')
      → IsMade boil w.store.db
      → w.store.tx_count ≡ pos 0
      → ((h : String) → HasRow w'.store.db.db.db h → HasRow w₂.store.db.db.db h)
      → (Service.get_transactions_by_hashes
          (record { ctx = ctx; st = provider (generated boil) database; net = net })
          request₂
          hs
          u₂
          w₂).1.node
        ≡ w₂.node
  get_transactions_by_hashes_again {N} {C} ctx request request₂ net asked hs u u₂ w w' w₂ txs
        answers l e made idle stays =
      let ap : Service (Store (State D)) N C = record {
        ctx = ctx;
        st = provider (generated boil) database;
        net = net;
      } in
      get_transactions_by_hashes-repeated ap lower (λ (s : Store (State D)) h. HasRow s.db.db.db h)
        finds asked answers request request₂ hs u u₂ w w' w₂ txs l e
        (get_transactions_by_hashes-committed boil statements ctx request net hs u w w' txs e made
          idle).0
        stays
