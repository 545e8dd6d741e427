-- ===== src/Service/Scheduling.antt =====
-- Which tasks the service gives to the node.
use ethereum_fetcher.Prelude.{
  String, ℤ, ◌≡◌, refl, sym, subst, ap as cong, ◌∙◌, inl, inr, not, ◌||◌, true, false, List, [],
  ◌∷◌, All, All-map, filter, insert, has_key, contains, arith, Bool-cases,
}
use ethereum_fetcher.Result.{Result, ok}
use ethereum_fetcher.Exec.{Exec, pure, annotate, ◌>>=◌}
use ethereum_fetcher.Exec.Rules.{
  Keeps, >>=-Keeps, >>=-eq-ok, >>=-ok, >>=-after, ok-injective, annotate-Keeps,
}
use ethereum_fetcher.Models.{Transaction}
use ethereum_fetcher.Providers.{Context}
use ethereum_fetcher.Service.{
  World, Service, TxMap, on_store, on_node, storing_failed, scheduling_failed, register_stored,
  schedule_missing, process_results, rebuild, merge_contexts, get_transactions_by_hashes,
}
use ethereum_fetcher.Service.Keyed.{hashes_of}
use ethereum_fetcher.Service.Order.{has_key-insert}

module _ {S N C : Type 0} (ap : Service S N C) where
  -- One task for each hash, with no test.
  pub schedule_each : Context → List String → Exec (World S N) (List C)
  schedule_each ctx [] = pure []
  schedule_each ctx (h ∷ hs) = do
    chan ← annotate (scheduling_failed h) (on_node (ap.net.schedule_task ctx h))
    more ← schedule_each ctx hs
    pure (chan ∷ more)

  -- The scheduling loop gives the node exactly the hashes that the map lacks, each as often as it
  -- was asked and in the order of the request, and stops at the first that the node refuses.
  pub schedule_missing-eq-schedule_each :
      (ctx : Context) (m : TxMap) (hs : List String)
      → schedule_missing ap ctx m hs ≡ schedule_each ctx (filter (λ h. not (has_key h m)) hs)
  unfolding schedule_missing schedule_each
  schedule_missing-eq-schedule_each ctx m [] = refl
  schedule_missing-eq-schedule_each ctx m (h ∷ hs) = elim (Bool-cases (has_key h m)) [
    | inl found ↦ rw found (schedule_missing-eq-schedule_each ctx m hs)
    | inr missing ↦ rw missing (rw (schedule_missing-eq-schedule_each ctx m hs))
  ]

  register_stored-files :
      (u : ℤ) (txs : List Transaction) (m m' : TxMap) (w w' : World S N)
      → register_stored ap u txs m w ≡ (ok m', w')
      → (h : String) → has_key h m' ≡ (contains h (hashes_of txs) || has_key h m)
  unfolding register_stored
  register_stored-files u [] m m' w w' e h = rw (← ok-injective e) refl
  register_stored-files u (tx ∷ txs) m m' w w' e h =
      let (x, v, first, rest) = >>=-eq-ok _ _ w e in
      let ih = register_stored-files u txs (insert tx.tx_hash tx m) m' v w' rest h in
      ground (arith, ih, has_key-insert h tx.tx_hash tx m)

  module _ (n : N) where
    abbrev OnNode : World S N → Type 0
    OnNode w = w.node ≡ n

    register_stored-Keeps_node :
        (u : ℤ) (txs : List Transaction) (m : TxMap) → Keeps OnNode (register_stored ap u txs m)
    unfolding register_stored
    register_stored-Keeps_node u [] m = λ w h. h
    register_stored-Keeps_node u (tx ∷ txs) m =
        >>=-Keeps OnNode _ _ (annotate-Keeps OnNode (storing_failed tx.tx_hash) _ (λ w h. h))
          (λ _. register_stored-Keeps_node u txs (insert tx.tx_hash tx m))

  nothing_missing :
      (ctx : Context) (m : TxMap) (hs : List String) (w : World S N)
      → All (λ h. has_key h m ≡ true) hs
      → schedule_missing ap ctx m hs w ≡ (ok [], w)
  unfolding schedule_missing
  nothing_missing ctx m [] w a = refl
  nothing_missing ctx m (h ∷ hs) w (here, a) = rw here (nothing_missing ctx m hs w a)

  -- What is left of a request after the stored transactions are registered.
  fetch : Context → ℤ → List String → TxMap → Exec (World S N) (List Transaction)
  fetch ctx u hs stored = do
    chans ← schedule_missing ap ctx stored hs
    available ← process_results ap ctx u chans stored
    pure (rebuild available hs)

  fetch_nothing :
      (ctx : Context) (u : ℤ) (m : TxMap) (hs : List String) (w : World S N)
      → All (λ h. has_key h m ≡ true) hs
      → fetch ctx u hs m w ≡ (ok (rebuild m hs), w)
  unfolding fetch process_results ◌>>=◌
  fetch_nothing ctx u m hs w a = rw (nothing_missing ctx m hs w a)

  -- When the store answers the query with a row for every hash that is asked, the node is left
  -- alone: no task is scheduled and no channel read, whatever comes of the request.
  pub get_transactions_by_hashes-node :
      (request : Context) (hs : List String) (u : ℤ) (w : World S N) (listed : List Transaction)
      (s : S)
      → ap.st.get_transactions_by_hashes hs u w.store ≡ (ok listed, s)
      → All (λ h. contains h (hashes_of listed) ≡ true) hs
      → (get_transactions_by_hashes ap request hs u w).1.node ≡ w.node
  unfolding get_transactions_by_hashes fetch
  get_transactions_by_hashes-node request hs u w listed s query a =
      let ctx = merge_contexts ap.ctx request in
      let w₁ : World S N = record w { store = s } in
      let asked : on_store (ap.st.get_transactions_by_hashes hs u) w ≡ (ok listed, w₁) =
        λ i. ((query i).0, record w { store = (query i).1 }) in
      let kept = register_stored-Keeps_node w.node u listed [] w₁ refl in
      subst (λ (p : Result (List Transaction) × World S N). p.1.node ≡ w.node)
        (sym (>>=-ok _ _ w asked))
        (>>=-after (OnNode w.node) _ (fetch ctx u hs) w₁
          (λ stored run.
            let v = (register_stored ap u listed [] w₁).1 in
            let files = register_stored-files u listed [] stored w₁ v (λ i. (run i, v)) in
            let all_kept =
              All-map _ (λ h. has_key h stored ≡ true) (λ h e. files h ∙ cong (λ b. b || false) e)
                hs a in
            subst (λ (p : Result (List Transaction) × World S N). p.1.node ≡ w.node)
              (sym (fetch_nothing ctx u stored hs v all_kept)) kept)
          kept)
