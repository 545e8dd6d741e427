-- ===== src/Pg/Store/Duplicates.antt =====
-- Links that are there already.
use ethereum_fetcher.Prelude.{ℤ, ◌==ℤ◌, ◌≡◌, refl, inl, inr, List, [], ◌∷◌, All, Bool-cases}
use ethereum_fetcher.Result.{Result, ok}
use ethereum_fetcher.Exec.{Exec, pure}
use ethereum_fetcher.Exec.Rules.{>>=-post}
use ethereum_fetcher.Models.{User, Transaction, get_users}
use ethereum_fetcher.Providers.{non_authenticated_user}
use ethereum_fetcher.Pg.Database.{Database, database}
use ethereum_fetcher.Pg.Relations.{join_statement}
use ethereum_fetcher.Pg.Store.{
  Store, new_user, link_failed, link_one, insert_one_user, insert_transactions_user,
}
use ethereum_fetcher.Pg.Store.Links.{link_of, IsDuplicate, add_users_one, not_refused}

-- `Ready` stands for the states in which the user and the transactions of the call have rows.
module _ {D : Type 0} (db : Database D) (u : ℤ) (Ready : D → Type 0) where
  -- In a ready state the link to the transaction is written, or refused as a row that is there
  -- already, and the state is ready again.
  abbrev pub Accepts : Transaction → Type 0
  Accepts tx =
      (d : D)
      → Ready d
      → IsDuplicate (db.exec database join_statement (link_of tx.tx_hash u) d).0
        × Ready (db.exec database join_statement (link_of tx.tx_hash u) d).1

  abbrev Succeeds : Result (Unit {0}) × Store D → Type 0
  Succeeds (r, s) = (r ≡ ok tt) × Ready s.db

  link_one-Succeeds :
      (tx : Transaction) (s : Store D)
      → Accepts tx
      → Ready s.db
      → Succeeds (link_one db database u tx s)
  unfolding link_one
  link_one-Succeeds tx s accepts ready =
      let (q, ready') = accepts s.db ready in
      rw (add_users_one db database tx (new_user u) s.db)
        (not_refused db (link_failed tx.tx_hash) tx (new_user u) _ q, ready')

  insert_one_user-Succeeds :
      (tx : Transaction) (s : Store D)
      → Accepts tx
      → Ready s.db
      → Succeeds (insert_one_user db database u tx s)
  unfolding insert_one_user
  insert_one_user-Succeeds tx s accepts ready = elim (Bool-cases (u ==ℤ non_authenticated_user)) [
    | inl nobody ↦ rw (nobody, insert_one_user) (refl, ready)
    | inr somebody ↦ rw (somebody, insert_one_user) (by_users (get_users tx))
  ]
    where
      by_users :
          (users : List User)
          → Succeeds (
              (elim users as (λ _. Exec (Store D) (Unit {0})) [
                | [] ↦ link_one db database u tx
                | _ ↦ pure tt
              ])
                s)
      by_users [] = link_one-Succeeds tx s accepts ready
      by_users (user ∷ users) = (refl, ready)

  -- When in the states in which the user and the transactions have rows each link of the call is
  -- written, or refused as a row that is there already, and leaves such a state behind, a call of
  -- InsertTransactionsUser in such a state returns no error, whatever links are there already.
  pub insert_transactions_user-IsDuplicate :
      (txs : List Transaction) (s : Store D)
      → All Accepts txs
      → Ready s.db
      → (insert_transactions_user db database txs u s).0 ≡ ok tt
  unfolding insert_transactions_user
  insert_transactions_user-IsDuplicate [] s accepts ready = refl
  insert_transactions_user-IsDuplicate (tx ∷ txs) s (accepts, more) ready =
      >>=-post (λ r v. (r ≡ ok tt) × Ready v.db) (λ r v. r ≡ ok tt) _ _ s
        (insert_one_user-Succeeds tx s accepts ready)
        (λ x v (q, ready'). insert_transactions_user-IsDuplicate txs v more ready')
        (λ e v (q, ready'). cc) (λ v (q, ready'). cc)
