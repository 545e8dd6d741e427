-- ===== src/Server/Handlers/Committed.antt =====
-- The endpoint that is asked for hashes, over the service, the store and the generated code.
use ethereum_fetcher.Prelude.{ℕ, String, pos, ◌≡◌, subst, map, All}
use ethereum_fetcher.Result.{ok}
use ethereum_fetcher.Providers.{Context, EthereumProvider}
use ethereum_fetcher.Service.{World, Service}
use ethereum_fetcher.Service.Again.{All-hashes_of}
use ethereum_fetcher.Service.Order.{Answers, get_transactions_by_hashes_complete}
use ethereum_fetcher.Pg.Database.{database}
use ethereum_fetcher.Pg.Store.{Store, provider}
use ethereum_fetcher.Pg.Store.Generated.{Boil, State, generated}
use ethereum_fetcher.Pg.Store.Generated.Statements.{Statements}
use ethereum_fetcher.Pg.Store.Generated.Upserts.{IsMade}
use ethereum_fetcher.Pg.Store.Generated.Committed.{get_transactions_by_hashes-committed}
use ethereum_fetcher.Server.Http.{Request, Response}
use ethereum_fetcher.Server.Libraries.{Libraries, Jwt}
use ethereum_fetcher.Server.Handlers.{get_transactions_by_hashes, user_id_of}
use ethereum_fetcher.Server.Handlers.Complete.{
  Lists, endpoint, get_transactions_by_hashes-Fetched, get_transactions_by_hashes-Lists,
}

module _ {D N C T Claims Float : Type 0} (boil : Boil D) {HasRow : D → String → Type 0}
    {Pending : ℕ → D → String → Type 0} (statements : Statements boil HasRow Pending)
    (ctx : Context) (net : EthereumProvider N C) (asked : C → String) (answers : Answers net asked)
    (lib : Libraries) (jwt : Jwt T Claims Float) (jwt_secret : String) where
  -- the program's service, over the generated code
  abbrev pub app : Service (Store (State D)) N C
  app = record { ctx = ctx; st = provider (generated boil) database; net = net }

  -- PostgreSQL and SQLBoiler keep the promises of `Statements`, and every result channel carries the
  -- transaction that was asked for. When a request for hashes begins with no transaction counted as
  -- open and with no statement kept for upserts but such as upsert a row with its hash, and is
  -- answered with 200, the body is the JSON of a list with one transaction for each hash of the
  -- query, in lower case and in their order, and each of these hashes has a committed row by then.
  pub get_transactions_by_hashes-answered :
      (r : Request) (w w' : World (Store (State D)) N) (resp : Response)
      → get_transactions_by_hashes (endpoint app lib jwt jwt_secret) r w ≡ (ok resp, w')
      → resp.code ≡ 200
      → IsMade boil w.store.db
      → w.store.tx_count ≡ pos 0
      → Lists lib.marshal resp.body (map lib.to_lower r.transaction_hashes)
        × All (λ h. HasRow w'.store.db.db.db h) (map lib.to_lower r.transaction_hashes)
  get_transactions_by_hashes-answered r w w' resp e is_ok made idle =
      let hs = map lib.to_lower r.transaction_hashes in
      let f = get_transactions_by_hashes-Fetched app lib jwt jwt_secret r w e is_ok in
      let rows =
        get_transactions_by_hashes-committed boil statements ctx r.ctx net hs (user_id_of r) w w'
          f.txs f.fetched made idle in
      (
        get_transactions_by_hashes-Lists app asked answers lib jwt jwt_secret r w e is_ok,
        subst (All (λ h. HasRow w'.store.db.db.db h))
            (get_transactions_by_hashes_complete app asked answers r.ctx hs (user_id_of r) w
              f.fetched)
            (All-hashes_of (λ h. HasRow w'.store.db.db.db h) f.txs rows.0),
      )
