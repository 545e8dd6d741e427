-- ===== src/Pg/Store/Commits.antt =====
-- What becomes of the database transactions that the store opens.
use ethereum_fetcher.Prelude.{
  ℕ, ℤ, pos, ◌==ℤ◌, ◌≡◌, refl, ◌∙◌, false, List, [], ◌∷◌, arith, if◌then◌else◌, Bool-cases, inl,
  inr,
}
use ethereum_fetcher.Result.{Result, ok, err, panic, Error}
use ethereum_fetcher.Exec.{Exec, pure, reword, annotate, proceed, ◌>>=◌, ◌>>◌}
use ethereum_fetcher.Models.{Transaction}
use ethereum_fetcher.Providers.{non_authenticated_user}
use ethereum_fetcher.Pg.Database.{Database, database, transaction}
use ethereum_fetcher.Pg.Relations.{add_users}
use ethereum_fetcher.Pg.Store.Counter.{IsRestored, insert_one-counts}
use ethereum_fetcher.Pg.Store.{
  Store, new_user, link_opened, incr, decr, at_most_zero, insert_failed, link_failed, counted,
  begin_on, begin_tx, commit_tx, rollback_tx, roll_back, settle, or_rollback, insert_one,
  insert_transactions, drop_error,
}

module _ {D : Type 0} (db : Database D) where
  -- How the body's outcome ends the transaction. A rollback's own error is dropped.
  close : (Error → Error) → ℕ → Result (Unit {0}) → Exec D (Unit {0})
  close f h (ok x) d = annotate f (db.commit h) d
  close f h (err e) d = let (r, d') = db.rollback h d in (elim r [ panic ↦ panic | _ ↦ err e ], d')
  close f h panic d = (panic, d)

  -- A body run inside of a database transaction of its own: committed if it returns, and rolled
  -- back if it fails.
  pub atomically : (Error → Error) → (ℕ → Exec D (Unit {0})) → Exec D (Unit {0})
  unfolding close
  atomically f body = do h ← annotate f db.begin; λ d. let (r, d') = body h d in close f h r d'

  link_body : ℤ → Transaction → ℕ → Exec D (Unit {0})
  link_body u tx h = if u ==ℤ non_authenticated_user then pure tt else (do
    annotate (link_failed tx.tx_hash) (add_users db (transaction h) false tx (new_user u ∷ []))
    pure tt)

  -- What is written for one transaction: its row, and the link to the user if there is one.
  pub write_one : ℤ → Transaction → ℕ → Exec D (Unit {0})
  write_one u tx h = do
    annotate (insert_failed tx.tx_hash) (db.upsert (transaction h) ("tx_hash" ∷ []) tx)
    link_body u tx h

  pub write_each : ℤ → List Transaction → Exec D (Unit {0})
  write_each u [] = pure tt
  write_each u (tx ∷ txs) = do
    atomically (insert_failed tx.tx_hash) (write_one u tx)
    write_each u txs

  abbrev pub idle : D → Store D
  idle d = record { tx_count = pos 0; db = d }

  -- what a caller and the database see
  abbrev pub seen : {A : Type 0} → Result A × Store D → Result A × D
  seen p = (p.0, p.1.db)

  abbrev busy : D → Store D
  busy d = record { tx_count = pos 1; db = d }

  link_opened-seen :
      (h : ℕ) (u : ℤ) (tx : Transaction) (d : D)
      → seen (
          (link_opened db database h u tx >>= λ _.
          annotate (insert_failed tx.tx_hash) (commit_tx db database h))
            (busy d))
        ≡ (let (r, d') = link_body u tx h d in close (insert_failed tx.tx_hash) h r d')
  unfolding link_opened or_rollback settle roll_back rollback_tx commit_tx decr at_most_zero
      drop_error annotate ◌>>=◌ link_body close
  link_opened-seen h u tx d = elim (Bool-cases (u ==ℤ non_authenticated_user)) [
    | inl nobody ↦ rw (nobody, link_opened, link_body) (ground arith)
    | inr somebody ↦ rw (somebody, link_opened, link_body) (ground arith)
  ]

  -- a round from the opened transaction on
  opened : ℕ → ℤ → Transaction → Exec (Store D) (Unit {0})
  opened h u tx = do
    or_rollback db database h (insert_failed tx.tx_hash)
        (db.upsert (transaction h) ("tx_hash" ∷ []) tx)
    link_opened db database h u tx
    annotate (insert_failed tx.tx_hash) (commit_tx db database h)

  opened-seen :
      (h : ℕ) (u : ℤ) (tx : Transaction) (d : D)
      → seen (opened h u tx (busy d))
        ≡ (let (r, d') = write_one u tx h d in close (insert_failed tx.tx_hash) h r d')
  unfolding opened or_rollback settle roll_back rollback_tx decr at_most_zero drop_error annotate
      ◌>>=◌ write_one close
  opened-seen h u tx d =
      ground (arith, link_opened-seen h u tx (db.upsert (transaction h) ("tx_hash" ∷ []) tx d).1)

  insert_one-seen :
      (u : ℤ) (tx : Transaction) (d : D)
      → seen (insert_one db database u tx (idle d))
        ≡ atomically (insert_failed tx.tx_hash) (write_one u tx) d
  unfolding insert_one begin_tx begin_on counted annotate ◌>>=◌ atomically opened
  insert_one-seen u tx d = begun (db.begin d).0 (db.begin d).1
    where
      begun :
          (r : Result ℕ) (d' : D)
          → seen (
              proceed
                (λ h. opened h u tx)
                (reword
                  (insert_failed tx.tx_hash)
                  (proceed (λ h. counted db database >> pure h) r (idle d')).0)
                (proceed (λ h. counted db database >> pure h) r (idle d')).1)
            ≡ proceed
                (λ h v.
                  let (r', v') = write_one u tx h v in close (insert_failed tx.tx_hash) h r' v')
                (reword (insert_failed tx.tx_hash) r)
                d'
      begun (ok h) d' = opened-seen h u tx d'
      begun (err e) d' = refl
      begun panic d' = refl

  after_one :
      (u : ℤ) (tx : Transaction) (txs : List Transaction) (d : D) (r : Result (Unit {0}))
      (s : Store D)
      → ((v : D) → seen (insert_transactions db database txs u (idle v)) ≡ write_each u txs v)
      → IsRestored (pos 0) r s
      → (r, s.db) ≡ atomically (insert_failed tx.tx_hash) (write_one u tx) d
      → seen (proceed (λ _. insert_transactions db database txs u) r s)
        ≡ (atomically (insert_failed tx.tx_hash) (write_one u tx) >> write_each u txs) d
  unfolding ◌>>=◌
  after_one u tx txs d (ok x) s ih q e =
      (λ i. seen (insert_transactions db database txs u (record { tx_count = q i; db = s.db })))
      ∙ (ih s.db ∙ (λ i. proceed (λ _. write_each u txs) (e i).0 (e i).1))
  after_one u tx txs d (err x) s ih q e = λ i. proceed (λ _. write_each u txs) (e i).0 (e i).1
  after_one u tx txs d panic s ih q e = λ i. proceed (λ _. write_each u txs) (e i).0 (e i).1

  -- While no other request has a transaction open, inserting a list of transactions has the result
  -- and the effect on the database of this loop: each in a database transaction of its own, with
  -- its link to the user, committed if both are written and rolled back if one fails, up to the
  -- first that fails.
  pub insert_transactions-atomic :
      (txs : List Transaction) (u : ℤ) (d : D)
      → seen (insert_transactions db database txs u (idle d)) ≡ write_each u txs d
  unfolding insert_transactions write_each ◌>>=◌
  insert_transactions-atomic [] u d = refl
  insert_transactions-atomic (tx ∷ txs) u d =
      after_one u tx txs d (insert_one db database u tx (idle d)).0
        (insert_one db database u tx (idle d)).1 (λ v. insert_transactions-atomic txs u v)
        (insert_one-counts db database u tx (idle d)) (insert_one-seen u tx d)

  -- When a second request opens its transaction before the first one commits, the first commit
  -- returns with no error and does nothing to the database: the transaction is neither committed
  -- nor rolled back. Only the last of the two commits reaches the database, for its own handle.
  pub first_commit_lost :
      (s s₁ s₂ : Store D) (first second : ℕ)
      → s.tx_count ≡ pos 0
      → begin_tx db database s ≡ (ok first, s₁)
      → begin_tx db database s₁ ≡ (ok second, s₂)
      → (seen (commit_tx db database first s₂) ≡ (ok tt, s₂.db))
        × (seen (commit_tx db database second (commit_tx db database first s₂).1)
            ≡ db.commit second s₂.db)
  unfolding begin_tx begin_on counted commit_tx incr decr at_most_zero ◌>>=◌
  first_commit_lost s s₁ s₂ first second k b₁ b₂ = ground arith
