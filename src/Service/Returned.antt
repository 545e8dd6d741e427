-- ===== src/Service/Returned.antt =====
-- What a request that returns does to the store.
use ethereum_fetcher.Prelude.{String, ℤ, ◌≡◌, subst, List, [], ◌∷◌, insert}
use ethereum_fetcher.Result.{ok}
use ethereum_fetcher.Exec.Rules.{>>=-eq-ok, annotate-eq-ok}
use ethereum_fetcher.Models.{Transaction}
use ethereum_fetcher.Providers.{StorageProvider, Context}
use ethereum_fetcher.Service.{
  World, Service, TxMap, register_stored, process_results, get_transactions_by_hashes,
}
use ethereum_fetcher.Service.Rounds.{process_selected-Received}
use ethereum_fetcher.Service.Run.{get_transactions_by_hashes-Served}
use ethereum_fetcher.Service.Storage.{schedule_missing-Keeps}

-- The three storage calls of a request keep `P` when they return.
pub record KeptByReturns {S : Type 0} (st : StorageProvider S) (P : S → Type 0) : Type 0 where
  pub query :
      (hs : List String) (u : ℤ) (s s' : S) (txs : List Transaction)
      → st.get_transactions_by_hashes hs u s ≡ (ok txs, s')
      → P s
      → P s'
  pub insert_rows :
      (txs : List Transaction) (u : ℤ) (s s' : S)
      → st.insert_transactions txs u s ≡ (ok tt, s')
      → P s
      → P s'
  pub insert_user :
      (txs : List Transaction) (u : ℤ) (s s' : S)
      → st.insert_transactions_user txs u s ≡ (ok tt, s')
      → P s
      → P s'

module _ {S N C : Type 0} (ap : Service S N C) {P : S → Type 0} (kept : KeptByReturns ap.st P) where
  register_stored-returns :
      (u : ℤ) (txs : List Transaction) (m m' : TxMap) (w w' : World S N)
      → register_stored ap u txs m w ≡ (ok m', w')
      → P w.store
      → P w'.store
  unfolding register_stored
  register_stored-returns u [] m m' w w' e p = subst (λ v. P v.store) (λ i. (e i).1) p
  register_stored-returns u (tx ∷ txs) m m' w w' e p =
      let (x, v, first, rest) = >>=-eq-ok _ _ w e in
      let call = annotate-eq-ok _ _ w first in
      register_stored-returns u txs (insert tx.tx_hash tx m) m' v w' rest
        (kept.insert_user (tx ∷ []) u w.store v.store (λ i. ((call i).0, (call i).1.store)) p)

  process_results-returns :
      (ctx : Context) (u : ℤ) (cs : List C) (m m' : TxMap) (w w' : World S N)
      → process_results ap ctx u cs m w ≡ (ok m', w')
      → P w.store
      → P w'.store
  unfolding process_results
  process_results-returns ctx u [] m m' w w' e p = subst (λ v. P v.store) (λ i. (e i).1) p
  process_results-returns ctx u (c ∷ cs) m m' w w' e p =
      let (sel, v, awaited, e₁) = >>=-eq-ok _ _ w e in
      let (m₁, v₁, taken, e₂) = >>=-eq-ok _ _ v e₁ in
      let got = process_selected-Received ap ctx u m m₁ c sel w v v₁ awaited taken in
      process_results-returns ctx u cs m₁ m' v₁ w' e₂
        (kept.insert_rows (got.tx ∷ []) u w.store v₁.store got.inserted p)

  -- What each storage call that returns keeps is kept by a request that returns.
  pub get_transactions_by_hashes-returns :
      (request : Context) (hs : List String) (u : ℤ) (w w' : World S N) (txs : List Transaction)
      → get_transactions_by_hashes ap request hs u w ≡ (ok txs, w')
      → P w.store
      → P w'.store
  get_transactions_by_hashes-returns request hs u w w' txs e p =
      let t = get_transactions_by_hashes-Served ap request hs u w e in
      let p₁ =
        kept.query hs u w.store t.queried.store t.listed
          (λ i. ((t.query_run i).0, (t.query_run i).1.store)) p in
      let p₂ =
        register_stored-returns u t.listed [] t.stored t.queried t.registered t.register_run p₁ in
      let p₃ : P t.scheduled.store =
        subst (λ v. P v.store) (λ i. (t.schedule_run i).1)
          (schedule_missing-Keeps ap P _ t.stored hs t.registered p₂) in
      process_results-returns _ u t.chans t.stored t.available t.scheduled w' t.process_run p₃
