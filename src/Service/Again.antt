-- ===== src/Service/Again.antt =====
-- A request for hashes that are stored already.
use ethereum_fetcher.Prelude.{
  String, ℤ, ◌≡◌, ◌≢◌, refl, sym, subst, ◌∙◌, inl, inr, true, List, [], ◌∷◌, map, All, All-map,
  contains, contains_self, str_eq, Bool-cases, eq_iff,
}
use ethereum_fetcher.Result.{Result, ok, err, panic, Error}
use ethereum_fetcher.Exec.Rules.{>>=-after}
use ethereum_fetcher.Models.{Transaction}
use ethereum_fetcher.Providers.{StorageProvider, Context}
use ethereum_fetcher.Service.{World, Service, get_transactions_by_hashes}
use ethereum_fetcher.Service.Keyed.{hashes_of}
use ethereum_fetcher.Service.Order.{Answers, get_transactions_by_hashes_complete}
use ethereum_fetcher.Service.Scheduling.{get_transactions_by_hashes-node}

-- The store's query lists the row of each asked hash that is stored, where hashes are asked in lower
-- case.
pub record Finds {S : Type 0} (st : StorageProvider S) (lower : String → String)
    (Stored : S → String → Type 0) : Type 0 where
  pub found :
      (h : String) (hs : List String) (u : ℤ) (s s' : S) (txs : List Transaction)
      → Stored s h
      → contains h (map lower hs) ≡ true
      → st.get_transactions_by_hashes hs u s ≡ (ok txs, s')
      → contains h (hashes_of txs) ≡ true

All-contains :
    (P : String → Type 0) (h : String) (hs : List String) → All P hs → contains h hs ≡ true → P h
All-contains P h [] a c = cc
All-contains P h (j ∷ hs) (here, a) c = elim (Bool-cases (str_eq j h)) [
  | inl same ↦ subst P ((eq_iff j h).0 same) here
  | inr other ↦ All-contains P h hs a (rw other at c)
]

pub All-hashes_of :
    (P : String → Type 0) (txs : List Transaction)
    → All (λ t. P t.tx_hash) txs
    → All P (hashes_of txs)
All-hashes_of P [] a = tt
All-hashes_of P (tx ∷ txs) (here, a) = (here, All-hashes_of P txs a)

err≢ok : {A : Type 0} {x : Error} {a : A} → err x ≢ ok a
err≢ok p = cc

panic≢ok : {A : Type 0} {a : A} → panic ≢ ok a
panic≢ok p = cc

module _ {S N C : Type 0} (ap : Service S N C) (lower : String → String)
    (Stored : S → String → Type 0) (finds : Finds ap.st lower Stored) where
  found_each :
      (hs ks : List String) (u : ℤ) (s s' : S) (txs : List Transaction)
      → ap.st.get_transactions_by_hashes hs u s ≡ (ok txs, s')
      → All (λ h. contains h (map lower hs) ≡ true) ks
      → All (λ h. Stored s h) ks
      → All (λ h. contains h (hashes_of txs) ≡ true) ks
  found_each hs [] u s s' txs e c a = tt
  found_each hs (k ∷ ks) u s s' txs e (asked, c) (here, a) =
      (finds.found k hs u s s' txs here asked e, found_each hs ks u s s' txs e c a)

  by_query :
      (request : Context) (hs : List String) (u : ℤ) (w : World S N) (r : Result (List Transaction))
      (s : S)
      → ap.st.get_transactions_by_hashes hs u w.store ≡ (r, s)
      → map lower hs ≡ hs
      → All (λ h. Stored w.store h) hs
      → (get_transactions_by_hashes ap request hs u w).1.node ≡ w.node
  unfolding get_transactions_by_hashes
  by_query request hs u w (ok txs) s e l a =
      get_transactions_by_hashes-node ap request hs u w txs s e (
        found_each hs hs u w.store s txs e
          (subst (λ ks. All (λ h. contains h ks ≡ true) hs) (sym l) (contains_self hs)) a)
  by_query request hs u w (err x) s e l a =
      >>=-after (λ (v : World S N). v.node ≡ w.node) _ _ w
        (λ txs run. absurd (err≢ok (sym (λ i. (e i).0) ∙ run))) refl
  by_query request hs u w panic s e l a =
      >>=-after (λ (v : World S N). v.node ≡ w.node) _ _ w
        (λ txs run. absurd (panic≢ok (sym (λ i. (e i).0) ∙ run))) refl

  -- When the store finds what it has, a request for hashes in lower case that are all stored leaves
  -- the node alone, whatever comes of it.
  pub get_transactions_by_hashes-found :
      (request : Context) (hs : List String) (u : ℤ) (w : World S N)
      → map lower hs ≡ hs
      → All (λ h. Stored w.store h) hs
      → (get_transactions_by_hashes ap request hs u w).1.node ≡ w.node
  get_transactions_by_hashes-found request hs u w =
      by_query request hs u w (ap.st.get_transactions_by_hashes hs u w.store).0
        (ap.st.get_transactions_by_hashes hs u w.store).1 refl

module _ {S N C : Type 0} (ap : Service S N C) (lower : String → String)
    (Stored : S → String → Type 0) (finds : Finds ap.st lower Stored) (asked : C → String)
    (answers : Answers ap.net asked) where
  -- The transactions of a request that returned are stored: then a request for its hashes, by any
  -- user, leaves the node alone for as long as they are.
  pub get_transactions_by_hashes-repeated :
      (request request₂ : Context) (hs : List String) (u u₂ : ℤ) (w w' w₂ : World S N)
      (txs : List Transaction)
      → map lower hs ≡ hs
      → get_transactions_by_hashes ap request hs u w ≡ (ok txs, w')
      → All (λ t. Stored w'.store t.tx_hash) txs
      → ((h : String) → Stored w'.store h → Stored w₂.store h)
      → (get_transactions_by_hashes ap request₂ hs u₂ w₂).1.node ≡ w₂.node
  get_transactions_by_hashes-repeated request request₂ hs u u₂ w w' w₂ txs l e rows stays =
      get_transactions_by_hashes-found ap lower Stored finds request₂ hs u₂ w₂ l (
        subst (All (λ h. Stored w₂.store h))
          (get_transactions_by_hashes_complete ap asked answers request hs u w e)
          (All-hashes_of (λ h. Stored w₂.store h) txs
            (All-map (λ t. Stored w'.store t.tx_hash) (λ t. Stored w₂.store t.tx_hash)
              (λ t. stays t.tx_hash) txs rows)))
