-- ===== src/Pg/Store/Kept.antt =====
-- What the store's calls keep, or some transaction is counted as open.
use ethereum_fetcher.Prelude.{
  zero, suc, String, ℤ, pos, negsuc, refl, sym, subst, ◌⊎◌, inl, inr, List,
}
use ethereum_fetcher.Result.{Result, ok, err, panic}
use ethereum_fetcher.Exec.Rules.{Keeps, annotate-Keeps}
use ethereum_fetcher.Models.{Transaction}
use ethereum_fetcher.Service.Storage.{KeptBy}
use ethereum_fetcher.Pg.Database.{Database, database}
use ethereum_fetcher.Pg.Store.{
  Store, incr, insert_transactions, link_one, get_transactions_by_hashes, provider,
}
use ethereum_fetcher.Pg.Store.Counter.{IsRestored, insert_transactions-tx_count}
use ethereum_fetcher.Pg.Store.Durable
use ethereum_fetcher.Pg.Store.Durable.{
  IsBusy, insert_transactions-Keeps, insert_transactions_user-Keeps, insert_transactions_user-Has,
  get_transactions_by_hashes-Keeps,
}

incr-IsBusy : (c : ℤ) → IsBusy c → IsBusy (incr c)
unfolding incr
incr-IsBusy (pos zero) b = absurd b
incr-IsBusy (pos (suc n)) b = tt
incr-IsBusy (negsuc n) b = absurd b

module _ {D : Type 0} (db : Database D) where
  restored-IsBusy :
      (c : ℤ) (r : Result (Unit {0})) (s : Store D)
      → IsRestored c r s
      → IsBusy c
      → IsBusy s.tx_count
  restored-IsBusy c (ok x) s q = subst IsBusy (sym q)
  restored-IsBusy c (err e) s q = subst IsBusy (sym q)
  restored-IsBusy c panic s (inl q) = subst IsBusy (sym q)
  restored-IsBusy c panic s (inr q) = λ b. subst IsBusy (sym q) (incr-IsBusy c b)

  query_count :
      (hs : List String) (u : ℤ)
      → Keeps (λ s. IsBusy s.tx_count) (get_transactions_by_hashes db database hs u)
  unfolding get_transactions_by_hashes
  query_count hs u = annotate-Keeps (λ s. IsBusy s.tx_count) _ _ λ s b. b

  link_one_count :
      (u : ℤ) (tx : Transaction) → Keeps (λ s. IsBusy s.tx_count) (link_one db database u tx)
  unfolding link_one
  link_one_count u tx s b = b

  pub or_IsBusy-KeptBy :
      (P : D → Type 0)
      → Durable.KeptBy db P
      → KeptBy (provider db database) (λ s. P s.db ⊎ IsBusy s.tx_count)
  or_IsBusy-KeptBy P kept = record {
    query = λ hs u s. elim [
      | inl row ↦ inl (get_transactions_by_hashes-Keeps db P kept hs u s row)
      | inr busy ↦ inr (query_count hs u s busy)
    ];
    insert_rows = λ txs u s. elim [
      | inl row ↦ inl (insert_transactions-Keeps db P kept txs u s row)
      | inr busy ↦ inr (
          restored-IsBusy s.tx_count (insert_transactions db database txs u s).0
            (insert_transactions db database txs u s).1
            (insert_transactions-tx_count db database txs u s s.tx_count refl) busy)
    ];
    insert_user = λ txs u s. elim [
      | inl row ↦ inl (insert_transactions_user-Has db P kept txs u s row)
      | inr busy ↦ inr (insert_transactions_user-Keeps db u _ (link_one_count u) txs s busy)
    ];
  }
