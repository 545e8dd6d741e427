-- ===== src/Pg/Store/Mine/Tests.antt =====
-- A database of committed links and of the links that the open transaction has written, each a
-- transaction, and GetMyTransactions of a user behind it.
use ethereum_fetcher.Prelude.{
  ℕ, String, pos, ◌≡◌, ◌⊎◌, refl, inr, true, [], ◌∷◌, ◌++◌, filter, All, All-map, contains, eq_refl,
}
use ethereum_fetcher.Result.{ok, err, no_rows}
use ethereum_fetcher.Exec.{annotate, ◌>>=◌}
use ethereum_fetcher.Exec.Rules.{ok-subst}
use ethereum_fetcher.Models.{get_users}
use ethereum_fetcher.Providers.{app_context, request_context}
use ethereum_fetcher.Service.{World}
use ethereum_fetcher.Service as Service
use ethereum_fetcher.Service.Keyed.{hashes_of}
use ethereum_fetcher.Service.Tests.{
  tx_of, Rows, HasRow, HasRow-append, rows_listed, answering, hashes, answer,
}
use ethereum_fetcher.Pg.Database.{Database, Executor, database, transaction}
use ethereum_fetcher.Pg.Relations.{add_users}
use ethereum_fetcher.Pg.Store.{
  Store, get_transactions_by_hashes, get_my_transactions, insert_transactions,
  insert_transactions_user, insert_one_user, link_one, ignore_duplicate, insert_one, begin_tx,
  begin_on, or_rollback, settle, link_opened, commit_tx, provider,
}
use ethereum_fetcher.Pg.Store.Examples.{Disk, IsRow, IsPending, HasRow-append_left, rows_in}
use ethereum_fetcher.Pg.Store.Linked.{Linking}
use ethereum_fetcher.Pg.Store.Mine.{get_my_transactions-lists}

abbrev linked_by : Executor → Rows → Disk → Disk
linked_by (transaction t) links d = record d { pending = links ++ d.pending }
linked_by _ links d = record d { rows = links ++ d.rows }

abbrev on_links : Database Disk
on_links = record {
  begin = λ d. (ok 0, d);
  commit = λ t d. (ok tt, record { rows = d.pending ++ d.rows; pending = [] });
  rollback = λ t d. (ok tt, record d { pending = [] });
  exec = λ e statement values d. (ok tt, linked_by e (rows_in values) d);
  upsert = λ e columns tx d. (ok tt, d);
  insert_user = λ e user d. (ok tt, d);
  select_user = λ e name word d. (err no_rows, d);
  select_all = λ e d. (ok d.rows, d);
  select_joined = λ e u d. (ok d.rows, d);
  select_by_hashes = λ e hs u d. (ok (filter (λ t. contains t.tx_hash hs) d.rows), d);
}

linked_by-IsRow :
    (e : Executor) (links : Rows) (h : String) (d : Disk)
    → IsRow d h
    → IsRow (linked_by e links d) h
linked_by-IsRow database links h d k = HasRow-append h links d.rows k
linked_by-IsRow (transaction t) links h d k = k
linked_by-IsRow Executor.foreign links h d k = HasRow-append h links d.rows k

on_links-Linking : Linking on_links (pos 5) IsRow IsPending
on_links-Linking = record {
  listed = λ hs d d' txs e.
      ok-subst (λ txs' v. All (λ t. (get_users t ≡ []) ⊎ IsRow v t.tx_hash) txs') e
        (All-map (λ t. HasRow d.rows t.tx_hash) (λ t. (get_users t ≡ []) ⊎ IsRow d t.tx_hash)
          (λ t row. inr row) (filter (λ t. contains t.tx_hash hs) d.rows)
          (rows_listed (λ t. contains t.tx_hash hs) d.rows));
  pending = λ t h d d' e. ok-subst (λ _ v. IsPending t v h) e (rw (eq_refl h));
  committed =
      λ t h d d' e k. ok-subst (λ _ v. IsRow v h) e (HasRow-append_left h d.pending d.rows k);
  linked = λ h d d' e. ok-subst (λ _ v. IsRow v h) e (rw (eq_refl h));
  duplicate = λ h failure d d' e there. cc;
  kept = λ h. record {
    begin_keeps = λ d k. k;
    commit_keeps = λ t d k. HasRow-append h d.pending d.rows k;
    rollback_keeps = λ t d k. k;
    exec_keeps = λ e values d k. linked_by-IsRow e (rows_in values) h d k;
    upsert_keeps = λ e tx d k. k;
    select_keeps = λ hs u d k. k;
  };
  mine = λ h d d' txs e k. ok-subst (λ l _. contains h (hashes_of l) ≡ true) e k;
}

-- The user 5 has "b" already.
abbrev start : World (Store Disk) ℕ
start = record {
  store = record { tx_count = pos 0; db = record { rows = tx_of "b" ∷ []; pending = [] } };
  node = 0;
}

abbrev mine : Rows
mine = tx_of "a" ∷ tx_of "b" ∷ tx_of "b" ∷ []

abbrev end : World (Store Disk) ℕ
end = record {
  store = record { tx_count = pos 0; db = record { rows = mine; pending = [] } };
  node = 1;
}

abbrev service : Service.Service (Store Disk) ℕ String
service = record { ctx = app_context; st = provider on_links database; net = answering }

served :
    Service.get_transactions_by_hashes service (request_context 1) hashes (pos 5) start
    ≡ (ok answer, end)
unfolding Service.get_transactions_by_hashes get_transactions_by_hashes insert_transactions
    insert_transactions_user insert_one_user link_one ignore_duplicate insert_one begin_tx begin_on
    or_rollback settle link_opened commit_tx add_users annotate ◌>>=◌ get_users
served = refl

listed : Service.get_my_transactions service (pos 5) end ≡ (ok mine, end)
unfolding Service.get_my_transactions get_my_transactions annotate ◌>>=◌
listed = refl

get_my_transactions-lists_example : All (λ t. contains t.tx_hash (hashes_of mine) ≡ true) answer
get_my_transactions-lists_example =
    get_my_transactions-lists on_links (pos 5) IsRow IsPending on_links-Linking refl app_context
      (request_context 1) answering hashes start end end answer mine served refl listed
