-- ===== src/Pg/Store/Opened.antt =====
-- The steps of a transaction that return no error.
use ethereum_fetcher.Prelude.{
  ℕ, zero, suc, ℤ, pos, negsuc, ◌≡◌, refl, sym, ap, subst, ◌∙◌, ◌⊎◌, inl, inr, true, false, List,
  [], ◌∷◌,
}
use ethereum_fetcher.Result.{Result, ok, err, panic, Error}
use ethereum_fetcher.Exec.{Exec, ◌>>=◌}
use ethereum_fetcher.Exec.Rules.{>>=-eq-ok, annotate-eq-ok}
use ethereum_fetcher.Models.{User, Transaction}
use ethereum_fetcher.Pg.Database.{Database, Executor, database, transaction}
use ethereum_fetcher.Pg.Relations.{insert_related}
use ethereum_fetcher.Pg.Store.{
  Store, incr, decr, at_most_zero, insert_failed, begin_on, begin_tx, commit_tx, roll_back, settle,
  or_rollback, link_opened, insert_one,
}
use ethereum_fetcher.Pg.Store.Counter.{
  IsOpened, begin_on-counts, annotate-IsOpened, or_rollback-IsOpened, link_opened-IsOpened,
  commit_tx-counts, decr-incr,
}
use ethereum_fetcher.Pg.Store.Durable.{IsBusy}

not-IsBusy : (c : ℤ) → (at_most_zero c ≡ true) ⊎ IsBusy c
unfolding at_most_zero
not-IsBusy (pos zero) = inl refl
not-IsBusy (pos (suc n)) = inr tt
not-IsBusy (negsuc n) = inl refl

module _ {D : Type 0} (db : Database D) where
  settle-eq-ok :
      {A : Type 0} (t : ℕ) (f : Error → Error) (r : Result A) (s s' : Store D) {a : A}
      → settle db database t f r s ≡ (ok a, s')
      → ◌≡◌ {A = Result A × Store D} (r, s) (ok a, s')
  unfolding settle
  settle-eq-ok t f (ok a) s s' e = e
  settle-eq-ok t f (err x) s s' e =
      let (y, v, rolled, raised) = >>=-eq-ok (roll_back db database t) _ s e in cc
  settle-eq-ok t f panic s s' e = cc

  pub or_rollback-eq-ok :
      {A : Type 0} (t : ℕ) (f : Error → Error) (m : Exec D A) (s s' : Store D) {a : A}
      → or_rollback db database t f m s ≡ (ok a, s')
      → m s.db ≡ (ok a, s'.db)
  unfolding or_rollback
  or_rollback-eq-ok t f m s s' e =
      let settled = settle-eq-ok t f (m s.db).0 (record s { db = (m s.db).1 }) s' e in
      λ i. ((settled i).0, (settled i).1.db)

  pub insert_related_nothing :
      (e : Executor) (users : List User) (d : D) → insert_related db e false users d ≡ (ok tt, d)
  unfolding insert_related ◌>>=◌
  insert_related_nothing e [] d = refl
  insert_related_nothing e (user ∷ users) d = insert_related_nothing e users d

  pub opened :
      {A : Type 0} (c : ℤ) {r : Result A × Store D} {a : A} {s' : Store D}
      → r ≡ (ok a, s')
      → IsOpened c r.0 r.1
      → s'.tx_count ≡ incr c
  opened c e = subst (λ r. IsOpened c r.0 r.1) e

  -- What a commit makes of a write holds after CommitTx, or some transaction is counted as open.
  pub commit_tx-lasting :
      (Pending P : D → Type 0) (t : ℕ)
      → ((d d' : D) → db.commit t d ≡ (ok tt, d') → Pending d → P d')
      → (c : ℤ) (s s' : Store D) → s.tx_count ≡ incr c
      → commit_tx db database t s ≡ (ok tt, s')
      → Pending s.db
      → P s'.db ⊎ IsBusy s'.tx_count
  unfolding commit_tx
  commit_tx-lasting Pending P t committed c s s' k e pending =
      let count : decr s.tx_count ≡ c = ap decr k ∙ decr-incr c in
      elim (not-IsBusy c) [
        | inl last ↦
            let done = rw (count, last, commit_tx) at e in
            inl (committed s.db s'.db (λ i. ((done i).0, (done i).1.db)) pending)
        | inr busy ↦ inr (
            subst IsBusy
              (sym (subst (λ r. r.1.tx_count ≡ c) e (commit_tx-counts db database t s c k))) busy)
      ]

  -- What is pending once the row and the link are written holds after the commit, or some
  -- transaction is counted as open.
  pub insert_one-lasting :
      (u : ℤ) (tx : Transaction) (Pending : ℕ → D → Type 0) (P : D → Type 0)
      → ((t : ℕ) (d d' : D) → db.commit t d ≡ (ok tt, d') → Pending t d → P d')
      → ((t : ℕ) (d : D) (s s' : Store D)
          → db.upsert (transaction t) ("tx_hash" ∷ []) tx d ≡ (ok tt, s.db)
          → link_opened db database t u tx s ≡ (ok tt, s')
          → Pending t s'.db)
      → (s s' : Store D) → insert_one db database u tx s ≡ (ok tt, s')
      → P s'.db ⊎ IsBusy s'.tx_count
  unfolding insert_one begin_tx
  insert_one-lasting u tx Pending P committed written s s' e =
      let c = s.tx_count in
      let (t, s₁, begun, e₁) = >>=-eq-ok _ _ s e in
      let (x, s₂, upserted, e₂) = >>=-eq-ok _ _ s₁ e₁ in
      let (y, s₃, linked, e₃) = >>=-eq-ok _ _ s₂ e₂ in
      let count₁ = opened c begun (
        annotate-IsOpened c (insert_failed tx.tx_hash) (begin_on db database database) s
          (begin_on-counts db database database s c refl)) in
      let count₂ = opened c upserted (
        or_rollback-IsOpened db database t (insert_failed tx.tx_hash)
          (db.upsert (transaction t) ("tx_hash" ∷ []) tx) s₁ c count₁) in
      let count₃ = opened c linked (link_opened-IsOpened db database t u tx s₂ c count₂) in
      let row =
        written t s₁.db s₂ s₃ (or_rollback-eq-ok t (insert_failed tx.tx_hash) _ s₁ s₂ upserted)
          linked in
      commit_tx-lasting (Pending t) P t (committed t) c s₃ s' count₃ (annotate-eq-ok _ _ s₃ e₃) row
