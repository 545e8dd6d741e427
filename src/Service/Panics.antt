-- ===== src/Service/Panics.antt =====
-- When the service panics, and when it cannot.
use ethereum_fetcher.Prelude.{
  String, ℤ, ◌≡◌, ◌≢◌, refl, inl, inr, Option, none, some, List, [], ◌∷◌, insert, has_key,
  Bool-cases,
}
use ethereum_fetcher.Result.{ok, panic, Error}
use ethereum_fetcher.Exec.{◌>>=◌, annotate}
use ethereum_fetcher.Exec.Rules.{
  IsCalm, >>=-IsCalm, >>=-result, >>=-panic, annotate-IsCalm, pure-IsCalm, raise-IsCalm,
}
use ethereum_fetcher.Models.{Transaction}
use ethereum_fetcher.Providers.{
  StorageProvider, EthereumProvider, Context, TxResult, Selected, result, done,
}
use ethereum_fetcher.Service.{
  World, Service, TxMap, storing_failed, scheduling_failed, register_stored, schedule_missing,
  process_result, process_selected, await_one, process_results, rebuild, merge_contexts, on_store,
  get_transactions_by_hashes,
}

-- Providers whose calls never panic, and result channels that never give an empty result.
pub record AreCalm {S N C : Type 0} (st : StorageProvider S) (net : EthereumProvider N C)
    : Type 0 where
  pub query : (hs : List String) (u : ℤ) → IsCalm (st.get_transactions_by_hashes hs u)
  pub insert_rows : (txs : List Transaction) (u : ℤ) → IsCalm (st.insert_transactions txs u)
  pub insert_user : (txs : List Transaction) (u : ℤ) → IsCalm (st.insert_transactions_user txs u)
  pub schedule : (ctx : Context) (h : String) → IsCalm (net.schedule_task ctx h)
  pub full :
      (ctx : Context) (c : C) (n : N) (r : TxResult)
      → (net.await ctx c n).0 ≡ result r
      → r.tx ≢ none

module _ {S N C : Type 0} (ap : Service S N C) (calm : AreCalm ap.st ap.net) where
  register_stored-IsCalm :
      (u : ℤ) (txs : List Transaction) (m : TxMap) → IsCalm (register_stored ap u txs m)
  unfolding register_stored
  register_stored-IsCalm u [] m = pure-IsCalm m
  register_stored-IsCalm u (tx ∷ txs) m =
      >>=-IsCalm _ _
        (annotate-IsCalm (storing_failed tx.tx_hash) _ (λ w. calm.insert_user (tx ∷ []) u w.store))
        (λ _. register_stored-IsCalm u txs (insert tx.tx_hash tx m))

  schedule_missing-IsCalm :
      (ctx : Context) (m : TxMap) (hs : List String) → IsCalm (schedule_missing ap ctx m hs)
  unfolding schedule_missing
  schedule_missing-IsCalm ctx m [] = pure-IsCalm []
  schedule_missing-IsCalm ctx m (h ∷ hs) = elim (Bool-cases (has_key h m)) [
    | inl found ↦ rw found (schedule_missing-IsCalm ctx m hs)
    | inr missing ↦ rw missing (
        >>=-IsCalm _ _ (annotate-IsCalm (scheduling_failed h) _ (λ w. calm.schedule ctx h w.node))
          (λ c. >>=-IsCalm _ _ (schedule_missing-IsCalm ctx m hs) (λ more. pure-IsCalm (c ∷ more))))
  ]

  process_result-IsCalm :
      (u : ℤ) (m : TxMap) (o : Option Transaction) (f : Option Error)
      → o ≢ none
      → IsCalm (process_result ap u m (record { tx = o; failure = f }))
  unfolding process_result
  process_result-IsCalm u m none f h = λ w p. h refl
  process_result-IsCalm u m (some tx) (some e) h = raise-IsCalm _
  process_result-IsCalm u m (some tx) none h =
      >>=-IsCalm _ _
        (annotate-IsCalm (storing_failed tx.tx_hash) _ (λ w. calm.insert_rows (tx ∷ []) u w.store))
        (λ _. pure-IsCalm (insert tx.tx_hash tx m))

  process_selected-IsCalm :
      (u : ℤ) (m : TxMap) (sel : Selected)
      → ((r : TxResult) → sel ≡ result r → r.tx ≢ none)
      → IsCalm (process_selected ap u m sel)
  unfolding process_selected
  process_selected-IsCalm u m (result r) full =
      process_result-IsCalm u m r.tx r.failure (full r refl)
  process_selected-IsCalm u m (done e) full = raise-IsCalm e

  process_results-IsCalm :
      (ctx : Context) (u : ℤ) (cs : List C) (m : TxMap) → IsCalm (process_results ap ctx u cs m)
  unfolding process_results await_one ◌>>=◌
  process_results-IsCalm ctx u [] m = pure-IsCalm m
  process_results-IsCalm ctx u (c ∷ cs) m = λ w.
      let (sel, n) = ap.net.await ctx c w.node in
      >>=-IsCalm (process_selected ap u m sel) (λ m'. process_results ap ctx u cs m')
        (process_selected-IsCalm u m sel (calm.full ctx c w.node))
        (λ m'. process_results-IsCalm ctx u cs m') (record w { node = n })

  -- With providers that never panic and channels that always carry a transaction, no request
  -- panics.
  pub get_transactions_by_hashes-calm :
      (request : Context) (hs : List String) (u : ℤ) (w : World S N)
      → (get_transactions_by_hashes ap request hs u w).0 ≢ panic
  unfolding get_transactions_by_hashes
  get_transactions_by_hashes-calm request hs u =
      >>=-IsCalm _ _ (λ w. calm.query hs u w.store)
        (λ listed. >>=-IsCalm _ _ (register_stored-IsCalm u listed []) (λ stored.
          >>=-IsCalm _ _ (schedule_missing-IsCalm _ stored hs) (λ chans.
            >>=-IsCalm _ _ (process_results-IsCalm _ u chans stored)
              (λ m. pure-IsCalm (rebuild m hs)))))

module _ {S N C : Type 0} (ap : Service S N C) where
  schedule_one :
      (ctx : Context) (h : String) (w : World S N) (n : N) (c : C)
      → ap.net.schedule_task ctx h w.node ≡ (ok c, n)
      → schedule_missing ap ctx [] (h ∷ []) w ≡ (ok (c ∷ []), record w { node = n })
  unfolding schedule_missing annotate ◌>>=◌
  schedule_one ctx h w n c e = rw e

  empty_result_panics :
      (ctx : Context) (u : ℤ) (c : C) (cs : List C) (m : TxMap) (w : World S N) (f : Option Error)
      → (ap.net.await ctx c w.node).0 ≡ result (record { tx = none; failure = f })
      → (process_results ap ctx u (c ∷ cs) m w).0 ≡ panic
  unfolding process_results process_selected process_result await_one ◌>>=◌
  empty_result_panics ctx u c cs m w f e = rw e

  -- When one hash is asked that the store does not have, its task is scheduled, and the result
  -- channel then gives an empty result, as a channel does that was closed with nothing sent, the
  -- request panics.
  pub closed_channel_panics :
      (request : Context) (h : String) (u : ℤ) (w : World S N) (s : S) (n : N) (c : C)
      (f : Option Error)
      → ap.st.get_transactions_by_hashes (h ∷ []) u w.store ≡ (ok [], s)
      → ap.net.schedule_task (merge_contexts ap.ctx request) h w.node ≡ (ok c, n)
      → (ap.net.await (merge_contexts ap.ctx request) c n).0
        ≡ result (record { tx = none; failure = f })
      → (get_transactions_by_hashes ap request (h ∷ []) u w).0 ≡ panic
  unfolding get_transactions_by_hashes register_stored
  closed_channel_panics request h u w s n c f listed scheduled awaited =
      let ctx = merge_contexts ap.ctx request in
      let w₁ : World S N = record w { store = s } in
      let w₂ : World S N = record { store = s; node = n } in
      let query : on_store (ap.st.get_transactions_by_hashes (h ∷ []) u) w ≡ (ok [], w₁) =
        λ i. ((listed i).0, record w { store = (listed i).1 }) in
      let schedule : schedule_missing ap ctx [] (h ∷ []) w₁ ≡ (ok (c ∷ []), w₂) =
        schedule_one ctx h w₁ n c scheduled in
      >>=-result _ _ w query (
        >>=-result _ _ w₁ refl (
          >>=-result _ _ w₁ schedule
            (>>=-panic _ _ w₂ (empty_result_panics ctx u c [] [] w₂ f awaited))))
