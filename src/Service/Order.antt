-- ===== src/Service/Order.antt =====
-- What the service returns, and in which order.
use mathlib.Core.List.{Sublistᴰ}
use ethereum_fetcher.Prelude.{
  String, ℤ, ◌≡◌, refl, inl, inr, Bool, true, not, ◌||◌, none, some, List, [], ◌∷◌, map, filter,
  filter-All, All, All-map, contains-filter, contains_self, insert, has_key, contains, arith,
  str_eq, Bool-cases,
}
use ethereum_fetcher.Result.{ok}
use ethereum_fetcher.Exec.Rules.{>>=-eq-ok, annotate-eq-ok, ok-injective}
use ethereum_fetcher.Models.{Transaction}
use ethereum_fetcher.Providers.{Context, result, EthereumProvider}
use ethereum_fetcher.Service.{
  World, Service, TxMap, schedule_missing, process_results, get_transactions_by_hashes,
}
use ethereum_fetcher.Service.Keyed.{
  IsKeyed, hashes_of, map-rebuild, register_stored-IsKeyed, process_results-IsKeyed,
}
use ethereum_fetcher.Service.Rounds.{process_selected-Received}
use ethereum_fetcher.Service.Run.{Served, get_transactions_by_hashes-Served}

filter-sublist : {A : Type 0} (p : A → Bool) (xs : List A) → Sublistᴰ (filter p xs) xs
filter-sublist p [] = Sublistᴰ.slnil
filter-sublist p (x ∷ xs) = elim (Bool-cases (p x)) [
  | inl kept ↦ rw kept (Sublistᴰ.cons-cons refl (filter-sublist p xs))
  | inr dropped ↦ rw dropped (Sublistᴰ.cons (filter-sublist p xs))
]

pub has_key-insert :
    (h j : String) (tx : Transaction) (m : TxMap)
    → has_key h (insert j tx m) ≡ (str_eq j h || has_key h m)
has_key-insert h j tx m = ground arith

files_round :
    {j : String} (h : String) (tx : Transaction) (m : TxMap) {m₁ : TxMap} (b : Bool) {r : Bool}
    → m₁ ≡ insert tx.tx_hash tx m
    → tx.tx_hash ≡ j
    → r ≡ (b || has_key h m₁)
    → r ≡ ((str_eq j h || b) || has_key h m)
files_round h tx m b filed same e = ground (arith, has_key-insert h tx.tx_hash tx m)

All-filed :
    (stored available : TxMap) (hs : List String)
    → ((h : String)
        → has_key h available
          ≡ (contains h (filter (λ j. not (has_key j stored)) hs) || has_key h stored))
    → All (λ h. has_key h available ≡ true) hs
All-filed stored available hs filed =
    All-map (λ h. contains h hs ≡ true) (λ h. has_key h available ≡ true)
      (λ h e. ground (arith, filed h, contains-filter (λ j. not (has_key j stored)) h hs)) hs
      (contains_self hs)

module _ {S N C : Type 0} (ap : Service S N C) where
  available-IsKeyed :
      {request : Context} {hs : List String} {u : ℤ} {w w' : World S N} {txs : List Transaction}
      (t : Served ap request hs u w w' txs)
      → IsKeyed t.available
  available-IsKeyed {request} {u} t =
      process_results-IsKeyed ap _ u t.chans t.stored t.scheduled
        (register_stored-IsKeyed ap u t.listed [] t.queried tt t.register_run) t.process_run

  -- A request that returns gives transactions whose hashes stand in the request in the same order,
  -- each hash of the request at most once for each time that it is asked.
  pub get_transactions_by_hashes-sublist :
      (request : Context) (hs : List String) (u : ℤ) (w : World S N) {txs : List Transaction}
      {w' : World S N}
      → get_transactions_by_hashes ap request hs u w ≡ (ok txs, w')
      → Sublistᴰ (hashes_of txs) hs
  get_transactions_by_hashes-sublist request hs u w e =
      let t = get_transactions_by_hashes-Served ap request hs u w e in
      rw (t.answer, map-rebuild t.available hs (available-IsKeyed t))
        (filter-sublist (λ h. has_key h t.available) hs)

-- What a node's result channels carry: the transaction of the hash that was asked on the channel.
pub record Answers {N C : Type 0} (net : EthereumProvider N C) (asked : C → String) : Type 0 where
  pub scheduled :
      (ctx : Context) (h : String) (n n' : N) (c : C)
      → net.schedule_task ctx h n ≡ (ok c, n')
      → asked c ≡ h
  pub answered :
      (ctx : Context) (c : C) (n n' : N) (tx : Transaction)
      → net.await ctx c n ≡ (result (record { tx = some tx; failure = none }), n')
      → tx.tx_hash ≡ asked c

module _ {S N C : Type 0} (ap : Service S N C) (asked : C → String)
    (answers : Answers ap.net asked) where
  schedule_missing-asks :
      (ctx : Context) (m : TxMap) (hs : List String) (w : World S N) (cs : List C) (w' : World S N)
      → schedule_missing ap ctx m hs w ≡ (ok cs, w')
      → map asked cs ≡ filter (λ h. not (has_key h m)) hs
  unfolding schedule_missing
  schedule_missing-asks ctx m [] w cs w' e = rw (← ok-injective e) refl
  schedule_missing-asks ctx m (h ∷ hs) w cs w' e = elim (Bool-cases (has_key h m)) [
    | inl found ↦ rw found (schedule_missing-asks ctx m hs w cs w' (rw found at e))
    | inr missing ↦
        let (c, v, first, e₁) = >>=-eq-ok _ _ w (rw missing at e) in
        let (more, v', rest, e₂) = >>=-eq-ok _ _ v e₁ in
        let call = annotate-eq-ok _ _ w first in
        let asks = answers.scheduled ctx h w.node v.node c (λ i. ((call i).0, (call i).1.node)) in
        rw (missing, ← ok-injective e₂, map)
          (cc (asks, schedule_missing-asks ctx m hs v more v' rest))
  ]

  -- Every round files its hash, and drops none.
  process_results-files :
      (ctx : Context) (u : ℤ) (cs : List C) (m : TxMap) (w : World S N) (m' : TxMap)
      (w' : World S N)
      → process_results ap ctx u cs m w ≡ (ok m', w')
      → (h : String) → has_key h m' ≡ (contains h (map asked cs) || has_key h m)
  unfolding process_results
  process_results-files ctx u [] m w m' w' e h = rw (← ok-injective e) refl
  process_results-files ctx u (c ∷ cs) m w m' w' e h =
      let (sel, v, awaited, e₁) = >>=-eq-ok _ _ w e in
      let (m₁, v₁, taken, e₂) = >>=-eq-ok _ _ v e₁ in
      let got = process_selected-Received ap ctx u m m₁ c sel w v v₁ awaited taken in
      let same = answers.answered ctx c w.node v₁.node got.tx got.node_awaited in
      files_round h got.tx m (contains h (map asked cs)) got.filed same
        (process_results-files ctx u cs m₁ v₁ m' w' e₂ h)

  -- When every channel carries the transaction that was asked for, a request that returns gives
  -- exactly one transaction for each hash of the request, in the order of the request.
  pub get_transactions_by_hashes_complete :
      (request : Context) (hs : List String) (u : ℤ) (w : World S N) {txs : List Transaction}
      {w' : World S N}
      → get_transactions_by_hashes ap request hs u w ≡ (ok txs, w')
      → hashes_of txs ≡ hs
  get_transactions_by_hashes_complete request hs u w e =
      let t = get_transactions_by_hashes-Served ap request hs u w e in
      let filed =
        process_results-files _ u t.chans t.stored t.scheduled t.available _ t.process_run in
      let asks = schedule_missing-asks _ t.stored hs t.registered t.chans _ t.schedule_run in
      rw (t.answer, map-rebuild t.available hs (available-IsKeyed ap t))
        (filter-All (λ h. has_key h t.available) hs
          (All-filed t.stored t.available hs (λ h. rw asks at (filed h))))
