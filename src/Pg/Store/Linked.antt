-- ===== src/Pg/Store/Linked.antt =====
-- The links of a user, from AddUsers to GetMyTransactions.
use ethereum_fetcher.Prelude.{
  ℕ, String, ℤ, ◌==ℤ◌, ◌≡◌, refl, sym, ap, ◌∙◌, ◌⊎◌, inl, inr, true, false, some, List, [], ◌∷◌,
  All, contains,
}
use ethereum_fetcher.Result.{ok, err, Error, pg_code}
use ethereum_fetcher.Exec.Rules.{>>=-eq-ok, ok-subst}
use ethereum_fetcher.Models.{Transaction, get_users}
use ethereum_fetcher.Providers.{non_authenticated_user}
use ethereum_fetcher.Service.Keyed.{hashes_of}
use ethereum_fetcher.Pg.Database.{Database, database, transaction}
use ethereum_fetcher.Pg.Relations.{join_statement}
use ethereum_fetcher.Pg.Store.{
  Store, err_duplicate_row_code, new_user, link_failed, ignore_duplicate, link_opened,
  insert_transactions, link_one, insert_one_user, insert_transactions_user,
}
use ethereum_fetcher.Pg.Store.Links.{link_of, add_users_one, linked_to-eq-ok, ignored}
use ethereum_fetcher.Pg.Store.Durable.{KeptBy, IsBusy}
use ethereum_fetcher.Pg.Store.Opened.{or_rollback-eq-ok, insert_one-lasting}

-- What PostgreSQL promises of the links of the user `u`: `Linked d h` for a committed link to the
-- hash `h`, and `Pending t d h` for one that the open transaction `t` has written.
pub record Linking {D : Type 0} (db : Database D) (u : ℤ) (Linked : D → String → Type 0)
    (Pending : ℕ → D → String → Type 0) : Type 0 where
  -- a transaction is listed with the user only where the two are linked
  pub listed :
      (hs : List String) (d d' : D) (txs : List Transaction)
      → db.select_by_hashes database hs (some u) d ≡ (ok txs, d')
      → All (λ t. (get_users t ≡ []) ⊎ Linked d' t.tx_hash) txs
  pub pending :
      (t : ℕ) (h : String) (d d' : D)
      → db.exec (transaction t) join_statement (link_of h u) d ≡ (ok tt, d')
      → Pending t d' h
  pub committed :
      (t : ℕ) (h : String) (d d' : D) → db.commit t d ≡ (ok tt, d') → Pending t d h → Linked d' h
  -- outside of transactions a statement commits itself
  pub linked :
      (h : String) (d d' : D)
      → db.exec database join_statement (link_of h u) d ≡ (ok tt, d')
      → Linked d' h
  -- a link is refused as a duplicate only where it is there
  pub duplicate :
      (h : String) (failure : Error) (d d' : D)
      → db.exec database join_statement (link_of h u) d ≡ (err failure, d')
      → pg_code failure ≡ some err_duplicate_row_code
      → Linked d' h
  pub kept : (h : String) → KeptBy db (λ d. Linked d h)
  -- a join outside of transactions lists the committed links
  pub mine :
      (h : String) (d d' : D) (txs : List Transaction)
      → db.select_joined database u d ≡ (ok txs, d')
      → Linked d h
      → contains h (hashes_of txs) ≡ true

module _ {D : Type 0} (db : Database D) (u : ℤ) (Linked : D → String → Type 0)
    (Pending : ℕ → D → String → Type 0) (linking : Linking db u Linked Pending)
    (somebody : (u ==ℤ non_authenticated_user) ≡ false) where
  link_one-Linked :
      (tx : Transaction) (s s' : Store D)
      → link_one db database u tx s ≡ (ok tt, s')
      → Linked s'.db tx.tx_hash
  unfolding link_one
  link_one-Linked tx s s' e =
      let added = add_users_one db database tx (new_user u) s.db in
      let after = sym (ap (λ r. r.1) added) ∙ (λ i. (e i).1.db) in
      elim (ignored db (link_failed tx.tx_hash) tx (new_user u)
        (db.exec database join_statement (link_of tx.tx_hash u) s.db).0
        (ap (λ r. ignore_duplicate db database (link_failed tx.tx_hash) r.0) (sym added) ∙ λ i.
          (e i).0)) [
            | inl done ↦ linking.linked tx.tx_hash s.db s'.db (λ i. (done i, after i))
            | inr (failure, failed, there) ↦
                linking.duplicate tx.tx_hash failure s.db s'.db (λ i. (failed i, after i)) there
          ]

  link_opened-Pending :
      (t : ℕ) (tx : Transaction) (s s' : Store D)
      → link_opened db database t u tx s ≡ (ok tt, s')
      → Pending t s'.db tx.tx_hash
  unfolding link_opened
  link_opened-Pending t tx s s' e =
      let (tx', v, added, e₁) = >>=-eq-ok _ _ s (rw (somebody, link_opened) at e) in
      let run =
        sym (add_users_one db (transaction t) tx (new_user u) s.db)
        ∙ or_rollback-eq-ok db t (link_failed tx.tx_hash) _ s v added in
      let done = linked_to-eq-ok db tx (new_user u) _ (λ i. (run i).0) in
      ok-subst (λ _ w. Pending t w.db tx.tx_hash) e₁
        (linking.pending t tx.tx_hash s.db v.db (λ i. (done i, (run i).1)))

  pub insert_transactions-Linked :
      (tx : Transaction) (s s' : Store D)
      → insert_transactions db database (tx ∷ []) u s ≡ (ok tt, s')
      → Linked s'.db tx.tx_hash ⊎ IsBusy s'.tx_count
  unfolding insert_transactions
  insert_transactions-Linked tx s s' e =
      let (x, v, one, e₁) = >>=-eq-ok _ _ s e in
      ok-subst (λ _ w. Linked w.db tx.tx_hash ⊎ IsBusy w.tx_count) e₁
        (insert_one-lasting db u tx (λ t d. Pending t d tx.tx_hash) (λ d. Linked d tx.tx_hash)
          (λ t. linking.committed t tx.tx_hash)
          (λ t d s₂ s₃ upserted linked. link_opened-Pending t tx s₂ s₃ linked) s v one)

  insert_one_user_lem :
      (tx : Transaction) (s : Store D)
      → get_users tx ≡ []
      → insert_one_user db database u tx s ≡ link_one db database u tx s
  unfolding insert_one_user
  insert_one_user_lem tx s none_yet = rw (somebody, insert_one_user) (rw none_yet refl)

  -- a transaction that was listed without the user
  pub insert_transactions_user-Linked :
      (tx : Transaction) (s s' : Store D)
      → insert_transactions_user db database (tx ∷ []) u s ≡ (ok tt, s')
      → get_users tx ≡ []
      → Linked s'.db tx.tx_hash
  unfolding insert_transactions_user
  insert_transactions_user-Linked tx s s' e none_yet =
      let (x, v, one, e₁) = >>=-eq-ok _ _ s e in
      ok-subst (λ _ w. Linked w.db tx.tx_hash) e₁
        (link_one-Linked tx s v (sym (insert_one_user_lem tx s none_yet) ∙ one))
