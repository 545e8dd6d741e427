-- ===== src/Pg/Store/Inserted.antt =====
-- A transaction from its insertion to its commit.
use ethereum_fetcher.Prelude.{
  ℕ, String, ℤ, ◌==ℤ◌, ◌≡◌, sym, subst, ◌∙◌, ◌⊎◌, inl, inr, false, List, [], ◌∷◌, Bool-cases,
}
use ethereum_fetcher.Result.{ok}
use ethereum_fetcher.Exec.Rules.{>>=-eq-ok, annotate-eq-ok, ok-subst}
use ethereum_fetcher.Models.{User, Transaction}
use ethereum_fetcher.Providers.{non_authenticated_user}
use ethereum_fetcher.Pg.Database.{Database, database, transaction}
use ethereum_fetcher.Pg.Relations.{link_related, add_users}
use ethereum_fetcher.Pg.Store.{
  Store, new_user, link_failed, link_opened, insert_one, insert_transactions,
}
use ethereum_fetcher.Pg.Store.Durable.{Durable, IsBusy}
use ethereum_fetcher.Pg.Store.Opened.{or_rollback-eq-ok, insert_related_nothing, insert_one-lasting}

module _ {D : Type 0} (db : Database D) (HasRow : D → String → Type 0)
    (Pending : ℕ → D → String → Type 0) (durable : Durable db HasRow Pending) where
  link_related-Pending :
      (t : ℕ) (tx : Transaction) (users : List User) (h : String) (d d' : D)
      → link_related db (transaction t) tx users d ≡ (ok tt, d')
      → Pending t d h
      → Pending t d' h
  unfolding link_related
  link_related-Pending t tx [] h d d' e k = ok-subst (λ _ v. Pending t v h) e k
  link_related-Pending t tx (user ∷ users) h d d' e k =
      let (x, v, linked, rest) = >>=-eq-ok _ _ d e in
      link_related-Pending t tx users h v d' rest
        (durable.linked t _ h d v (annotate-eq-ok _ _ d linked) k)

  add_users-Pending :
      (t : ℕ) (tx tx' : Transaction) (users : List User) (h : String) (d d' : D)
      → add_users db (transaction t) false tx users d ≡ (ok tx', d')
      → Pending t d h
      → Pending t d' h
  unfolding add_users
  add_users-Pending t tx tx' users h d d' e k =
      let (x, v, inserted, e₁) = >>=-eq-ok _ _ d e in
      let (y, z, linked, e₂) = >>=-eq-ok _ _ v e₁ in
      let same : d ≡ v =
        λ i. ((sym (insert_related_nothing db (transaction t) users d) ∙ inserted) i).1 in
      ok-subst (λ _ w. Pending t w h) e₂
        (link_related-Pending t tx users h v z linked (subst (λ w. Pending t w h) same k))

  link_opened-Pending :
      (t : ℕ) (u : ℤ) (tx : Transaction) (h : String) (s s' : Store D)
      → link_opened db database t u tx s ≡ (ok tt, s')
      → Pending t s.db h
      → Pending t s'.db h
  unfolding link_opened
  link_opened-Pending t u tx h s s' e k = elim (Bool-cases (u ==ℤ non_authenticated_user)) [
    | inl nobody ↦ ok-subst (λ _ v. Pending t v.db h) (rw (nobody, link_opened) at e) k
    | inr somebody ↦
        let (tx', v, added, e₁) = >>=-eq-ok _ _ s (rw (somebody, link_opened) at e) in
        ok-subst (λ _ w. Pending t w.db h) e₁
          (add_users-Pending t tx tx' (new_user u ∷ []) h s.db v.db
            (or_rollback-eq-ok db t (link_failed tx.tx_hash) _ s v added) k)
  ]

  pub insert_one-HasRow :
      (u : ℤ) (tx : Transaction) (s s' : Store D)
      → insert_one db database u tx s ≡ (ok tt, s')
      → HasRow s'.db tx.tx_hash ⊎ IsBusy s'.tx_count
  insert_one-HasRow u tx =
      insert_one-lasting db u tx (λ t d. Pending t d tx.tx_hash) (λ d. HasRow d tx.tx_hash)
        (λ t. durable.committed t tx.tx_hash)
        λ t d s s' upserted linked.
          link_opened-Pending t u tx tx.tx_hash s s' linked (durable.written t tx d s.db upserted)

  pub insert_transactions-HasRow :
      (tx : Transaction) (u : ℤ) (s s' : Store D)
      → insert_transactions db database (tx ∷ []) u s ≡ (ok tt, s')
      → HasRow s'.db tx.tx_hash ⊎ IsBusy s'.tx_count
  unfolding insert_transactions
  insert_transactions-HasRow tx u s s' e =
      let (x, v, one, e₁) = >>=-eq-ok _ _ s e in
      ok-subst (λ _ w. HasRow w.db tx.tx_hash ⊎ IsBusy w.tx_count) e₁
        (insert_one-HasRow u tx s v one)
