-- ===== src/Pg/Store/Counter.antt =====
-- The counter of open transactions.
use ethereum_fetcher.Prelude.{
  ℕ, zero, suc, ℤ, pos, negsuc, ◌==ℤ◌, ◌≡◌, ◌⊎◌, refl, subst, false, List, [], ◌∷◌, arith,
  Bool-cases, inl, inr,
}
use ethereum_fetcher.Result.{Result, ok, err, panic, Error}
use ethereum_fetcher.Exec.{Exec, reword, annotate, ◌>>=◌}
use ethereum_fetcher.Exec.Rules.{>>=-post}
use ethereum_fetcher.Models.{Transaction}
use ethereum_fetcher.Providers.{non_authenticated_user}
use ethereum_fetcher.Pg.Database.{Database, Executor, database, transaction, foreign}
use ethereum_fetcher.Pg.Store.{
  Store, new_user, link_opened, incr, decr, insert_failed, link_failed, begin_on, begin_tx,
  commit_tx, rollback_tx, roll_back, settle, or_rollback, insert_one, insert_transactions,
}
use ethereum_fetcher.Pg.Relations.{add_users}

pub decr-incr : (c : ℤ) → decr (incr c) ≡ c
unfolding incr decr
decr-incr (pos n) = refl
decr-incr (negsuc zero) = refl
decr-incr (negsuc (suc n)) = refl

module _ {D : Type 0} where
  -- The counter while a transaction is open, and after its end; a panic may leave it open.
  abbrev pub IsOpened : {A : Type 0} → ℤ → Result A → Store D → Type 0
  IsOpened c (ok a) s = s.tx_count ≡ incr c
  IsOpened c (err e) s = s.tx_count ≡ c
  IsOpened c panic s = (s.tx_count ≡ c) ⊎ (s.tx_count ≡ incr c)

  abbrev pub IsRestored : {A : Type 0} → ℤ → Result A → Store D → Type 0
  IsRestored c (ok a) s = s.tx_count ≡ c
  IsRestored c (err e) s = s.tx_count ≡ c
  IsRestored c panic s = (s.tx_count ≡ c) ⊎ (s.tx_count ≡ incr c)

  pub annotate-IsOpened :
      {A : Type 0} (c : ℤ) (f : Error → Error) (m : Exec (Store D) A) (s : Store D)
      → IsOpened c (m s).0 (m s).1
      → IsOpened c (annotate f m s).0 (annotate f m s).1
  unfolding annotate
  annotate-IsOpened {A} c f m s q = reworded (m s).0 (m s).1 q
    where
      reworded : (r : Result A) (t : Store D) → IsOpened c r t → IsOpened c (reword f r) t
      reworded (ok a) t q = q
      reworded (err e) t q = q
      reworded panic t q = q

  annotate-IsRestored :
      {A : Type 0} (c : ℤ) (f : Error → Error) (m : Exec (Store D) A) (s : Store D)
      → (m s).1.tx_count ≡ c
      → IsRestored c (annotate f m s).0 (annotate f m s).1
  unfolding annotate
  annotate-IsRestored {A} c f m s q = reworded (m s).0 (m s).1 q
    where
      reworded : (r : Result A) (t : Store D) → t.tx_count ≡ c → IsRestored c (reword f r) t
      reworded (ok a) t q = q
      reworded (err e) t q = q
      reworded panic t q = inl q

module _ {D : Type 0} (db : Database D) (context_db : Executor) where
  abbrev CountIs : ℤ → Store D → Type 0
  CountIs c s = s.tx_count ≡ c

  -- an opened transaction is counted, and a failure to open one is not
  pub begin_on-counts :
      (e : Executor) (s : Store D) (c : ℤ)
      → s.tx_count ≡ c
      → IsOpened c (begin_on db context_db e s).0 (begin_on db context_db e s).1
  unfolding begin_on ◌>>=◌
  begin_on-counts database s c k = ground arith
  begin_on-counts (transaction g) s c k = ground arith
  begin_on-counts foreign s c k = k

  pub commit_tx-counts :
      (h : ℕ) (s : Store D) (c : ℤ)
      → s.tx_count ≡ incr c
      → CountIs c (commit_tx db context_db h s).1
  unfolding commit_tx
  commit_tx-counts h s c k = ground (arith, decr-incr c)

  roll_back-counts :
      (h : ℕ) (s : Store D) (c : ℤ)
      → s.tx_count ≡ incr c
      → CountIs c (roll_back db context_db h s).1
  unfolding roll_back rollback_tx
  roll_back-counts h s c k = ground (arith, decr-incr c)

  pub or_rollback-IsOpened :
      {A : Type 0} (h : ℕ) (f : Error → Error) (m : Exec D A) (s : Store D) (c : ℤ)
      → s.tx_count ≡ incr c
      → IsOpened c (or_rollback db context_db h f m s).0 (or_rollback db context_db h f m s).1
  unfolding or_rollback settle
  or_rollback-IsOpened {A} h f m s c k = settled (m s.db).0 (record s { db = (m s.db).1 }) k
    where
      settled :
          (r : Result A) (t : Store D)
          → t.tx_count ≡ incr c
          → IsOpened c (settle db context_db h f r t).0 (settle db context_db h f r t).1
      settled (ok a) t k = k
      settled (err e) t k =
          >>=-post (λ _ v. v.tx_count ≡ c) (IsOpened c) (roll_back db context_db h) _ t
            (roll_back-counts h t c k) (λ x v q. q) (λ x v q. q) (λ v q. inl q)
      settled panic t k = inr k

  pub link_opened-IsOpened :
      (h : ℕ) (u : ℤ) (tx : Transaction) (s : Store D) (c : ℤ)
      → s.tx_count ≡ incr c
      → IsOpened c (link_opened db context_db h u tx s).0 (link_opened db context_db h u tx s).1
  unfolding link_opened
  link_opened-IsOpened h u tx s c k = elim (Bool-cases (u ==ℤ non_authenticated_user)) [
    | inl nobody ↦ rw nobody k
    | inr somebody ↦ rw somebody (
        >>=-post (IsOpened c) (IsOpened c)
          (or_rollback db context_db h (link_failed tx.tx_hash)
            (add_users db (transaction h) false tx (new_user u ∷ [])))
          _ s (or_rollback-IsOpened h _ _ s c k) (λ x v q. q) (λ e v q. q) (λ v q. q))
  ]

  pub insert_one-counts :
      (u : ℤ) (tx : Transaction) (s : Store D)
      → IsRestored s.tx_count
          (insert_one db context_db u tx s).0
          (insert_one db context_db u tx s).1
  unfolding insert_one begin_tx
  insert_one-counts u tx s =
      let c = s.tx_count in
      >>=-post (IsOpened c) (IsRestored c) _ _ s
        (annotate-IsOpened c (insert_failed tx.tx_hash) (begin_on db context_db context_db) s
          (begin_on-counts context_db s c refl))
        (λ h t q.
          >>=-post (IsOpened c) (IsRestored c)
            (or_rollback db context_db h (insert_failed tx.tx_hash)
              (db.upsert (transaction h) ("tx_hash" ∷ []) tx))
            _ t (or_rollback-IsOpened h (insert_failed tx.tx_hash) _ t c q)
            (λ x v q'.
              >>=-post (IsOpened c) (IsRestored c) (link_opened db context_db h u tx) _ v
                (link_opened-IsOpened h u tx v c q')
                (λ y z q''.
                  annotate-IsRestored c (insert_failed tx.tx_hash) (commit_tx db context_db h) z
                    (commit_tx-counts h z c q''))
                (λ e z q''. q'') (λ z q''. q''))
            (λ e v q'. q') (λ v q'. q'))
        (λ e t q. q) (λ t q. q)

  -- Inserting transactions leaves the counter as it was, whether it returns or fails at any step:
  -- each transaction that is opened and counted is taken off the count once. Where a call panics,
  -- the counter is as it was or one more.
  pub insert_transactions-tx_count :
      (txs : List Transaction) (u : ℤ) (s : Store D) (c : ℤ)
      → s.tx_count ≡ c
      → IsRestored c
          (insert_transactions db context_db txs u s).0
          (insert_transactions db context_db txs u s).1
  unfolding insert_transactions
  insert_transactions-tx_count [] u s c k = k
  insert_transactions-tx_count (tx ∷ txs) u s c k =
      >>=-post (IsRestored c) (IsRestored c) (insert_one db context_db u tx) _ s
        (subst
          (λ n.
            IsRestored n (insert_one db context_db u tx s).0 (insert_one db context_db u tx s).1)
          k (insert_one-counts u tx s))
        (λ x v q. insert_transactions-tx_count txs u v c q) (λ e v q. q) (λ v q. q)
