-- ===== src/Service/Run.antt =====
-- A request that returned, as the sequence of the calls that it made.
use ethereum_fetcher.Prelude.{String, ℤ, ◌≡◌, sym, ◌∙◌, List, []}
use ethereum_fetcher.Result.{ok}
use ethereum_fetcher.Exec.Rules.{>>=-eq-ok, ok-injective}
use ethereum_fetcher.Models.{Transaction}
use ethereum_fetcher.Providers.{Context}
use ethereum_fetcher.Service.{
  World, Service, TxMap, on_store, merge_contexts, register_stored, schedule_missing,
  process_results, rebuild, get_transactions_by_hashes,
}

module _ {S N C : Type 0} (ap : Service S N C) where
  -- The calls of a request that returned, one after the other.
  pub record Served (request : Context) (hs : List String) (u : ℤ) (w w' : World S N)
      (txs : List Transaction) : Type 0 where
    pub listed : List Transaction
    pub queried : World S N
    pub stored : TxMap
    pub registered : World S N
    pub chans : List C
    pub scheduled : World S N
    pub available : TxMap
    pub query_run : on_store (ap.st.get_transactions_by_hashes hs u) w ≡ (ok listed, queried)
    pub register_run : register_stored ap u listed [] queried ≡ (ok stored, registered)
    pub schedule_run :
        schedule_missing ap (merge_contexts ap.ctx request) stored hs registered
        ≡ (ok chans, scheduled)
    pub process_run :
        process_results ap (merge_contexts ap.ctx request) u chans stored scheduled
        ≡ (ok available, w')
    pub answer : txs ≡ rebuild available hs

  pub get_transactions_by_hashes-Served :
      (request : Context) (hs : List String) (u : ℤ) (w : World S N) {txs : List Transaction}
      {w' : World S N}
      → get_transactions_by_hashes ap request hs u w ≡ (ok txs, w')
      → Served request hs u w w' txs
  unfolding get_transactions_by_hashes
  get_transactions_by_hashes-Served request hs u w e =
      let (listed, queried, query_run, e₁) = >>=-eq-ok _ _ w e in
      let (stored, registered, register_run, e₂) = >>=-eq-ok _ _ queried e₁ in
      let (chans, scheduled, schedule_run, e₃) = >>=-eq-ok _ _ registered e₂ in
      let (available, v, process_run, e₄) = >>=-eq-ok _ _ scheduled e₃ in
      record {
        listed = listed;
        queried = queried;
        stored = stored;
        registered = registered;
        chans = chans;
        scheduled = scheduled;
        available = available;
        query_run = query_run;
        register_run = register_run;
        schedule_run = schedule_run;
        process_run = process_run ∙ λ i. (ok available, (e₄ i).1);
        answer = sym (ok-injective e₄);
      }
