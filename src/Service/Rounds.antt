-- ===== src/Service/Rounds.antt =====
-- One round of the loops over the stored transactions and over the result channels.
use ethereum_fetcher.Prelude.{ℤ, ◌≡◌, refl, sym, ◌∙◌, Option, none, some, [], ◌∷◌, insert}
use ethereum_fetcher.Result.{ok, Error}
use ethereum_fetcher.Exec.Rules.{>>=-eq-ok, annotate-eq-ok, ok-injective}
use ethereum_fetcher.Models.{Transaction}
use ethereum_fetcher.Providers.{Context, Selected, result, done}
use ethereum_fetcher.Service.{World, Service, TxMap, process_result, process_selected, await_one}

module _ {S N C : Type 0} (ap : Service S N C) where
  -- A round over a channel that went through: what was received, inserted and filed.
  pub record Received (ctx : Context) (u : ℤ) (m m' : TxMap) (c : C) (w w' : World S N)
      : Type 0 where
    pub tx : Transaction
    pub node_awaited :
        ap.net.await ctx c w.node ≡ (result (record { tx = some tx; failure = none }), w'.node)
    pub inserted : ap.st.insert_transactions (tx ∷ []) u w.store ≡ (ok tt, w'.store)
    pub filed : m' ≡ insert tx.tx_hash tx m

  process_result-eq-ok :
      (u : ℤ) (m m' : TxMap) (o : Option Transaction) (f : Option Error) (v w' : World S N)
      → process_result ap u m (record { tx = o; failure = f }) v ≡ (ok m', w')
      → (tx : Transaction) × (o ≡ some tx)
        × (f ≡ none)
        × (ap.st.insert_transactions (tx ∷ []) u v.store ≡ (ok tt, w'.store))
        × (m' ≡ insert tx.tx_hash tx m)
        × (v.node ≡ w'.node)
  unfolding process_result
  process_result-eq-ok u m m' none f v w' e = cc
  process_result-eq-ok u m m' (some tx) (some x) v w' e = cc
  process_result-eq-ok u m m' (some tx) none v w' e =
      let (a, z, first, e₁) = >>=-eq-ok _ _ v e in
      let call = annotate-eq-ok _ _ v first in
      let last : z ≡ w' = λ i. (e₁ i).1 in
      (
        tx,
        refl,
        refl,
        (λ i. ((call i).0, (call i).1.store)) ∙ (λ i. (ok a, (last i).store)),
        sym (ok-injective e₁),
        (λ i. (call i).1.node) ∙ (λ i. (last i).node),
      )

  pub process_selected-Received :
      (ctx : Context) (u : ℤ) (m m' : TxMap) (c : C) (sel : Selected) (w v w' : World S N)
      → await_one ap ctx c w ≡ (ok sel, v)
      → process_selected ap u m sel v ≡ (ok m', w')
      → Received ctx u m m' c w w'
  unfolding await_one process_selected
  process_selected-Received ctx u m m' c (done x) w v w' a e = cc
  process_selected-Received ctx u m m' c (result r) w v w' a e =
      let (tx, has_tx, no_failure, inserted, filed, same) =
        process_result-eq-ok u m m' r.tx r.failure v w' e in
      record {
        tx = tx;
        node_awaited =
            (λ i. (ok-injective a i, (a i).1.node))
            ∙ (λ i. (result (record { tx = has_tx i; failure = no_failure i }), same i));
        inserted = (λ i. ap.st.insert_transactions (tx ∷ []) u (a i).1.store) ∙ inserted;
        filed = filed;
      }
