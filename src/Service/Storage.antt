-- ===== src/Service/Storage.antt =====
-- What the service does to the store behind it.
use ethereum_fetcher.Prelude.{
  String, ℤ, inl, inr, Option, none, some, List, [], ◌∷◌, insert, has_key, Bool-cases,
}
use ethereum_fetcher.Result.{Error}
use ethereum_fetcher.Exec.Rules.{Keeps, >>=-Keeps, annotate-Keeps}
use ethereum_fetcher.Models.{Transaction}
use ethereum_fetcher.Providers.{StorageProvider, Context, Selected, result, done}
use ethereum_fetcher.Service.{
  World, Service, TxMap, storing_failed, scheduling_failed, register_stored, schedule_missing,
  process_result, process_selected, await_one, process_results, get_transactions_by_hashes,
}

-- The three storage calls of a request keep `P`, whatever comes of them.
pub record KeptBy {S : Type 0} (st : StorageProvider S) (P : S → Type 0) : Type 0 where
  pub query : (hs : List String) (u : ℤ) → Keeps P (st.get_transactions_by_hashes hs u)
  pub insert_rows : (txs : List Transaction) (u : ℤ) → Keeps P (st.insert_transactions txs u)
  pub insert_user : (txs : List Transaction) (u : ℤ) → Keeps P (st.insert_transactions_user txs u)

-- Scheduling leaves the store alone.
module _ {S N C : Type 0} (ap : Service S N C) (P : S → Type 0) where
  pub schedule_missing-Keeps :
      (ctx : Context) (m : TxMap) (hs : List String)
      → Keeps (λ (v : World S N). P v.store) (schedule_missing ap ctx m hs)
  unfolding schedule_missing
  schedule_missing-Keeps ctx m [] = λ w h. h
  schedule_missing-Keeps ctx m (j ∷ hs) = elim (Bool-cases (has_key j m)) [
    | inl found ↦ rw found (schedule_missing-Keeps ctx m hs)
    | inr missing ↦ rw missing (
        >>=-Keeps (λ (v : World S N). P v.store) _ _
          (annotate-Keeps (λ (v : World S N). P v.store) (scheduling_failed j) _ (λ w h. h))
          (λ c.
            >>=-Keeps (λ (v : World S N). P v.store) _ _ (schedule_missing-Keeps ctx m hs)
              (λ more w h. h)))
  ]

module _ {S N C : Type 0} (ap : Service S N C) {P : S → Type 0} (kept : KeptBy ap.st P) where
  abbrev OnStore : World S N → Type 0
  OnStore w = P w.store

  pub register_stored-Keeps :
      (u : ℤ) (txs : List Transaction) (m : TxMap) → Keeps OnStore (register_stored ap u txs m)
  unfolding register_stored
  register_stored-Keeps u [] m = λ w h. h
  register_stored-Keeps u (tx ∷ txs) m =
      >>=-Keeps OnStore _ _
        (annotate-Keeps OnStore (storing_failed tx.tx_hash) _
          (λ w h. kept.insert_user (tx ∷ []) u w.store h))
        (λ _. register_stored-Keeps u txs (insert tx.tx_hash tx m))

  process_result-Keeps :
      (u : ℤ) (m : TxMap) (o : Option Transaction) (f : Option Error)
      → Keeps OnStore (process_result ap u m (record { tx = o; failure = f }))
  unfolding process_result
  process_result-Keeps u m none f = λ w h. h
  process_result-Keeps u m (some tx) (some e) = λ w h. h
  process_result-Keeps u m (some tx) none =
      >>=-Keeps OnStore _ _
        (annotate-Keeps OnStore (storing_failed tx.tx_hash) _
          (λ w h. kept.insert_rows (tx ∷ []) u w.store h))
        (λ _ w h. h)

  process_selected-Keeps :
      (u : ℤ) (m : TxMap) (sel : Selected) → Keeps OnStore (process_selected ap u m sel)
  unfolding process_selected
  process_selected-Keeps u m (result r) = process_result-Keeps u m r.tx r.failure
  process_selected-Keeps u m (done e) = λ w h. h

  process_results-Keeps :
      (ctx : Context) (u : ℤ) (cs : List C) (m : TxMap)
      → Keeps OnStore (process_results ap ctx u cs m)
  unfolding process_results
  process_results-Keeps ctx u [] m = λ w h. h
  process_results-Keeps ctx u (c ∷ cs) m =
      >>=-Keeps OnStore (await_one ap ctx c) _ (unfold await_one in λ w h. h) (λ sel.
        >>=-Keeps OnStore _ _ (process_selected-Keeps u m sel)
          (λ m'. process_results-Keeps ctx u cs m'))

  -- Whatever holds of the store and is kept by each storage call still holds after the whole
  -- request, also when the request fails, is cancelled or panics half-way.
  pub get_transactions_by_hashes-keeps :
      (request : Context) (hs : List String) (u : ℤ) (w : World S N)
      → P w.store
      → P (get_transactions_by_hashes ap request hs u w).1.store
  unfolding get_transactions_by_hashes
  get_transactions_by_hashes-keeps request hs u =
      >>=-Keeps OnStore _ _ (λ w h. kept.query hs u w.store h)
        (λ listed. >>=-Keeps OnStore _ _ (register_stored-Keeps u listed []) (λ stored.
          >>=-Keeps OnStore _ _ (schedule_missing-Keeps ap P _ stored hs)
            (λ chans. >>=-Keeps OnStore _ _ (process_results-Keeps _ u chans stored) (λ m w h. h))))
