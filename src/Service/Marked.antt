-- ===== src/Service/Marked.antt =====
-- What a request establishes of each transaction that it returns.
use ethereum_fetcher.Prelude.{
  String, ℤ, ◌≡◌, sym, inl, inr, subst, some, List, [], ◌∷◌, All, All-map, lookup, insert, arith,
  str_eq, Bool-cases, Option-cases,
}
use ethereum_fetcher.Result.{ok}
use ethereum_fetcher.Exec.Rules.{>>=-eq-ok, annotate-eq-ok, ok-subst}
use ethereum_fetcher.Models.{Transaction}
use ethereum_fetcher.Providers.{StorageProvider, Context}
use ethereum_fetcher.Service.{
  World, Service, TxMap, register_stored, schedule_missing, process_results, rebuild,
  get_transactions_by_hashes,
}
use ethereum_fetcher.Service.Rounds.{process_selected-Received}
use ethereum_fetcher.Service.Run.{get_transactions_by_hashes-Served}
use ethereum_fetcher.Service.Storage.{KeptBy, schedule_missing-Keeps}

-- What makes the transactions of a request for the user `u` marked at its end: those that are
-- listed are found, a found one is marked when it has been registered for the user, one that was
-- inserted is marked, and no storage call takes any of this away.
pub record Marks {S : Type 0} (st : StorageProvider S) (u : ℤ) (Found : S → Transaction → Type 0)
    (Marked : S → String → Type 0) : Type 0 where
  pub listed :
      (hs : List String) (s s' : S) (txs : List Transaction)
      → st.get_transactions_by_hashes hs u s ≡ (ok txs, s')
      → All (Found s') txs
  pub registered :
      (tx : Transaction) (s s' : S)
      → st.insert_transactions_user (tx ∷ []) u s ≡ (ok tt, s')
      → Found s tx
      → Marked s' tx.tx_hash
  pub inserted :
      (tx : Transaction) (s s' : S)
      → st.insert_transactions (tx ∷ []) u s ≡ (ok tt, s')
      → Marked s' tx.tx_hash
  pub found_kept : (tx : Transaction) → KeptBy st (λ s. Found s tx)
  pub kept : (h : String) → KeptBy st (λ s. Marked s h)

module _ {S N C : Type 0} (ap : Service S N C) (u : ℤ) (Found : S → Transaction → Type 0)
    (Marked : S → String → Type 0) (marks : Marks ap.st u Found Marked) where
  -- The transactions of the map are marked.
  abbrev AllMarked : TxMap → World S N → Type 0
  AllMarked m w = All (λ p. Marked w.store p.1.tx_hash) m

  AllMarked-moves :
      (m : TxMap) (w w' : World S N)
      → ((h : String) → Marked w.store h → Marked w'.store h)
      → AllMarked m w
      → AllMarked m w'
  AllMarked-moves m w w' moves = All-map _ _ (λ p. moves p.1.tx_hash) m

  register_stored-AllMarked :
      (txs : List Transaction) (m m' : TxMap) (w w' : World S N)
      → All (Found w.store) txs
      → AllMarked m w
      → register_stored ap u txs m w ≡ (ok m', w')
      → AllMarked m' w'
  unfolding register_stored
  register_stored-AllMarked [] m m' w w' rows a e = ok-subst AllMarked e a
  register_stored-AllMarked (tx ∷ txs) m m' w w' (found, rows) a e =
      let (x, v, first, rest) = >>=-eq-ok _ _ w e in
      let run = annotate-eq-ok _ _ w first in
      let same : (ap.st.insert_transactions_user (tx ∷ []) u w.store).1 ≡ v.store =
        λ i. (run i).1.store in
      let moves : (h : String) → Marked w.store h → Marked v.store h =
        λ h k. subst (λ s. Marked s h) same ((marks.kept h).insert_user (tx ∷ []) u w.store k) in
      let row = marks.registered tx w.store v.store (λ i. ((run i).0, (run i).1.store)) found in
      register_stored-AllMarked txs (insert tx.tx_hash tx m) m' v w'
        (All-map (Found w.store) (Found v.store)
          (λ t k.
            subst (λ s. Found s t) same ((marks.found_kept t).insert_user (tx ∷ []) u w.store k))
          txs rows)
        (row, AllMarked-moves m w v moves a) rest

  process_results-AllMarked :
      (ctx : Context) (cs : List C) (m m' : TxMap) (w w' : World S N)
      → AllMarked m w
      → process_results ap ctx u cs m w ≡ (ok m', w')
      → AllMarked m' w'
  unfolding process_results
  process_results-AllMarked ctx [] m m' w w' a e = ok-subst AllMarked e a
  process_results-AllMarked ctx (c ∷ cs) m m' w w' a e =
      let (sel, v, awaited, e₁) = >>=-eq-ok _ _ w e in
      let (m₁, v₁, taken, e₂) = >>=-eq-ok _ _ v e₁ in
      let got = process_selected-Received ap ctx u m m₁ c sel w v v₁ awaited taken in
      let moves : (h : String) → Marked w.store h → Marked v₁.store h = λ h k.
        subst (λ s. Marked s h) (λ i. (got.inserted i).1)
          ((marks.kept h).insert_rows (got.tx ∷ []) u w.store k) in
      let row = marks.inserted got.tx w.store v₁.store got.inserted in
      let round : AllMarked m₁ v₁ =
        subst (λ x. AllMarked x v₁) (sym got.filed) (row, AllMarked-moves m w v₁ moves a) in
      process_results-AllMarked ctx cs m₁ m' v₁ w' round e₂

  lookup-AllMarked :
      (h : String) (m : TxMap) (w : World S N) (tx : Transaction)
      → AllMarked m w
      → lookup h m ≡ some tx
      → Marked w.store tx.tx_hash
  lookup-AllMarked h [] w tx a e = cc
  lookup-AllMarked h ((j, t) ∷ m) w tx (here, a) e = elim (Bool-cases (str_eq j h)) [
    | inl same ↦
        let t_is_tx : t ≡ tx = ground arith in
        subst (λ (x : Transaction). Marked w.store x.tx_hash) t_is_tx here
    | inr other ↦ lookup-AllMarked h m w tx a (rw other at e)
  ]

  rebuild-marked :
      (m : TxMap) (w : World S N) (hs : List String)
      → AllMarked m w
      → All (λ t. Marked w.store t.tx_hash) (rebuild m hs)
  unfolding rebuild
  rebuild-marked m w [] a = tt
  rebuild-marked m w (h ∷ hs) a = elim (Option-cases (lookup h m)) [
    | inl gone ↦ rw (gone, All) (rebuild-marked m w hs a)
    | inr (tx, found) ↦ rw (found, All) (lookup-AllMarked h m w tx a found, rebuild-marked m w hs a)
  ]

  schedule_missing-AllMarked :
      (ctx : Context) (m : TxMap) (hs : List String) (w w' : World S N) (cs : List C)
      → schedule_missing ap ctx m hs w ≡ (ok cs, w')
      → AllMarked m w
      → AllMarked m w'
  schedule_missing-AllMarked ctx m hs w w' cs e = AllMarked-moves m w w' (λ h k.
      subst (λ v. Marked v.store h) (λ i. (e i).1)
        (schedule_missing-Keeps ap (λ s. Marked s h) ctx m hs w k))

  pub get_transactions_by_hashes-marked :
      (request : Context) (hs : List String) (w : World S N) {txs : List Transaction}
      {w' : World S N}
      → get_transactions_by_hashes ap request hs u w ≡ (ok txs, w')
      → All (λ t. Marked w'.store t.tx_hash) txs
  get_transactions_by_hashes-marked request hs w {w'} e =
      let t = get_transactions_by_hashes-Served ap request hs u w e in
      let rows =
        marks.listed hs w.store t.queried.store t.listed
          (λ i. ((t.query_run i).0, (t.query_run i).1.store)) in
      let a₁ =
        register_stored-AllMarked t.listed [] t.stored t.queried t.registered rows tt
          t.register_run in
      let a₂ =
        schedule_missing-AllMarked _ t.stored hs t.registered t.scheduled t.chans t.schedule_run
          a₁ in
      let a₃ =
        process_results-AllMarked _ t.chans t.stored t.available t.scheduled w' a₂ t.process_run in
      rw t.answer (rebuild-marked t.available w' hs a₃)
