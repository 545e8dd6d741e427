-- ===== src/Pg/Store/Mine.antt =====
-- GetMyTransactions after a request for hashes, both of them the service's over the store.
mod Tests
use ethereum_fetcher.Prelude.{
  ℕ, String, ℤ, pos, true, ◌==ℤ◌, ◌≡◌, refl, subst, ◌⊎◌, inl, inr, false, Option, none, some, List,
  [], ◌∷◌, All, All-map, contains, if◌then◌else◌,
}
use ethereum_fetcher.Result.{ok}
use ethereum_fetcher.Exec.{Exec}
use ethereum_fetcher.Exec.Rules.{Keeps, >>=-eq-ok, annotate-eq-ok, ok-subst}
use ethereum_fetcher.Models.{Transaction, get_users}
use ethereum_fetcher.Providers.{StorageProvider, EthereumProvider, Context, non_authenticated_user}
use ethereum_fetcher.Service.{World, Service}
use ethereum_fetcher.Service as Service
use ethereum_fetcher.Service.Keyed.{hashes_of}
use ethereum_fetcher.Service.Storage.{KeptBy}
use ethereum_fetcher.Service.Marked.{Marks, get_transactions_by_hashes-marked}
use ethereum_fetcher.Pg.Database.{Database, database}
use ethereum_fetcher.Pg.Store.{Store, get_transactions_by_hashes, get_my_transactions, provider}
use ethereum_fetcher.Pg.Store.Durable.{IsBusy}
use ethereum_fetcher.Pg.Store.Idle.{get_transactions_by_hashes-tx_count}
use ethereum_fetcher.Pg.Store.Kept.{or_IsBusy-KeptBy}
use ethereum_fetcher.Pg.Store.Linked.{
  Linking, insert_transactions-Linked, insert_transactions_user-Linked,
}

or_always-Keeps :
    {S A : Type 0} (F : Type 0) (P : S → Type 0) (m : S → A × S)
    → ((s : S) → P s → P (m s).1)
    → (s : S) → F ⊎ P s
    → F ⊎ P (m s).1
or_always-Keeps F P m k s = elim [ inl f ↦ inl f | inr p ↦ inr (k s p) ]

or_always-KeptBy :
    {S : Type 0} (st : StorageProvider S) (F : Type 0) (P : S → Type 0)
    → KeptBy st P
    → KeptBy st (λ s. F ⊎ P s)
or_always-KeptBy st F P kept = record {
  query = λ hs u. or_always-Keeps F P (st.get_transactions_by_hashes hs u) (kept.query hs u);
  insert_rows =
      λ txs u. or_always-Keeps F P (st.insert_transactions txs u) (kept.insert_rows txs u);
  insert_user =
      λ txs u. or_always-Keeps F P (st.insert_transactions_user txs u) (kept.insert_user txs u);
}

module _ {D : Type 0} (db : Database D) (u : ℤ) (Linked : D → String → Type 0)
    (Pending : ℕ → D → String → Type 0) (linking : Linking db u Linked Pending)
    (somebody : (u ==ℤ non_authenticated_user) ≡ false) where
  -- The link is committed, or some transaction is counted as open.
  abbrev Marked : Store D → String → Type 0
  Marked s h = Linked s.db h ⊎ IsBusy s.tx_count

  abbrev Found : Store D → Transaction → Type 0
  Found s t = (get_users t ≡ []) ⊎ Marked s t.tx_hash

  Marked-kept : (h : String) → KeptBy (provider db database) (λ s. Marked s h)
  Marked-kept h = or_IsBusy-KeptBy db (λ d. Linked d h) (linking.kept h)

  query-Found :
      (hs : List String) (s s' : Store D) (txs : List Transaction)
      → get_transactions_by_hashes db database hs u s ≡ (ok txs, s')
      → All (Found s') txs
  unfolding get_transactions_by_hashes
  query-Found hs s s' txs e =
      let run = annotate-eq-ok _ _ s e in
      let asked : (if u ==ℤ non_authenticated_user then none else some u) ≡ some u =
        rw somebody refl in
      All-map (λ t. (get_users t ≡ []) ⊎ Linked s'.db t.tx_hash) (Found s')
        (λ t. elim [ inl none_yet ↦ inl none_yet | inr linked ↦ inr (inl linked) ]) txs
        (linking.listed hs s.db s'.db txs (
          subst (λ (o : Option ℤ). db.select_by_hashes database hs o s.db ≡ (ok txs, s'.db)) asked
            λ i. ((run i).0, (run i).1.db)))

  marks : Marks (provider db database) u Found Marked
  marks = record {
    listed = query-Found;
    registered = λ tx s s' e. elim [
      | inl none_yet ↦
          inl (
            insert_transactions_user-Linked db u Linked Pending linking somebody tx s s' e none_yet)
      | inr marked ↦
          subst (λ r. Marked r.1 tx.tx_hash) e
            ((Marked-kept tx.tx_hash).insert_user (tx ∷ []) u s marked)
    ];
    inserted = insert_transactions-Linked db u Linked Pending linking somebody;
    found_kept = λ tx.
        or_always-KeptBy (provider db database) (get_users tx ≡ []) (λ s. Marked s tx.tx_hash)
          (Marked-kept tx.tx_hash);
    kept = Marked-kept;
  }

  -- When PostgreSQL keeps the promises of `Linking` for an authenticated user, and a request of that
  -- user that began with no transaction counted as open has returned, a GetMyTransactions of the
  -- user that follows and returns lists every transaction that the request returned.
  pub get_my_transactions-lists :
      {N C : Type 0} (ctx request : Context) (net : EthereumProvider N C) (hs : List String)
      (w w' w'' : World (Store D) N) (txs mine : List Transaction)
      → Service.get_transactions_by_hashes
          (record { ctx = ctx; st = provider db database; net = net })
          request
          hs
          u
          w
        ≡ (ok txs, w')
      → w.store.tx_count ≡ pos 0
      → Service.get_my_transactions
          (record { ctx = ctx; st = provider db database; net = net })
          u
          w'
        ≡ (ok mine, w'')
      → All (λ t. contains t.tx_hash (hashes_of mine) ≡ true) txs
  unfolding Service.get_my_transactions get_my_transactions
  get_my_transactions-lists {N} {C} ctx request net hs w w' w'' txs mine e idle e' =
      let ap : Service (Store D) N C = record { ctx = ctx; st = provider db database; net = net } in
      let still_idle =
        get_transactions_by_hashes-tx_count db (pos 0) ctx request net hs u w w' txs e idle in
      let (listed, v, queried, rest) = >>=-eq-ok _ _ w' e' in
      let read = annotate-eq-ok _ _ w'.store (λ i. ((queried i).0, (queried i).1.store)) in
      ok-subst (λ l _. All (λ t. contains t.tx_hash (hashes_of l) ≡ true) txs) rest
        (All-map (λ t. Marked w'.store t.tx_hash)
          (λ t. contains t.tx_hash (hashes_of listed) ≡ true)
          (λ t. elim [
            | inl linked ↦
                linking.mine t.tx_hash w'.store.db v.store.db listed
                  (λ i. ((read i).0, (read i).1.db)) linked
            | inr busy ↦ absurd (subst IsBusy still_idle busy)
          ])
          txs (get_transactions_by_hashes-marked ap u Found Marked marks request hs w e))
