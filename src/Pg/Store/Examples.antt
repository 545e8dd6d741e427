-- ===== src/Pg/Store/Examples.antt =====
-- A database of committed rows and of the rows that the open transaction has written.
use ethereum_fetcher.Prelude.{
  ℕ, String, pos, ◌≡◌, refl, List, [], ◌∷◌, ◌++◌, filter, All, contains, eq_refl, arith,
}
use ethereum_fetcher.Result.{ok, err, no_rows}
use ethereum_fetcher.Exec.{annotate, ◌>>=◌}
use ethereum_fetcher.Exec.Rules.{ok-subst}
use ethereum_fetcher.Providers.{app_context, request_context}
use ethereum_fetcher.Service.{World}
use ethereum_fetcher.Service as Service
use ethereum_fetcher.Service.Tests.{
  tx_of, Rows, HasRow, HasRow-append, rows_listed, answering, hashes, answer,
}
use ethereum_fetcher.Pg.Database.{Database, Value, text_value, database}
use ethereum_fetcher.Pg.Relations.{add_users}
use ethereum_fetcher.Pg.Store.{
  Store, get_transactions_by_hashes, insert_transactions, insert_transactions_user, insert_one_user,
  link_one, ignore_duplicate, insert_one, begin_tx, begin_on, or_rollback, settle, link_opened,
  commit_tx, provider,
}
use ethereum_fetcher.Pg.Store.Durable.{Durable}

pub record Disk : Type 0 where
  pub rows : Rows
  pub pending : Rows

abbrev on_disk : Database Disk
on_disk = record {
  begin = λ d. (ok 0, d);
  commit = λ t d. (ok tt, record { rows = d.pending ++ d.rows; pending = [] });
  rollback = λ t d. (ok tt, record d { pending = [] });
  exec = λ e statement values d. (ok tt, d);
  upsert = λ e columns tx d. (ok tt, record d { pending = tx ∷ d.pending });
  insert_user = λ e user d. (ok tt, d);
  select_user = λ e name word d. (err no_rows, d);
  select_all = λ e d. (ok d.rows, d);
  select_joined = λ e u d. (ok d.rows, d);
  select_by_hashes = λ e hs u d. (ok (filter (λ t. contains t.tx_hash hs) d.rows), d);
}

-- the rows that a statement writes: one for each text among its values
abbrev pub rows_in : List Value → Rows
rows_in [] = []
rows_in (text_value h ∷ values) = tx_of h ∷ rows_in values
rows_in (_ ∷ values) = rows_in values

abbrev pub IsRow : Disk → String → Type 0
IsRow d h = HasRow d.rows h

abbrev pub IsPending : ℕ → Disk → String → Type 0
IsPending t d h = HasRow d.pending h

pub HasRow-append_left : (h : String) (txs s : Rows) → HasRow txs h → HasRow (txs ++ s) h
HasRow-append_left h [] s e = cc
HasRow-append_left h (t ∷ txs) s e = ground (arith, HasRow-append_left h txs s)

on_disk-Durable : Durable on_disk IsRow IsPending
on_disk-Durable = record {
  listed = λ hs u d d' txs e.
      ok-subst (λ txs' v. All (λ t. IsRow v t.tx_hash) txs') e
        (rows_listed (λ t. contains t.tx_hash hs) d.rows);
  written = λ t tx d d' e. ok-subst (λ _ v. IsPending t v tx.tx_hash) e (rw (eq_refl tx.tx_hash));
  linked = λ t values h d d' e k. ok-subst (λ _ v. IsPending t v h) e k;
  committed =
      λ t h d d' e k. ok-subst (λ _ v. IsRow v h) e (HasRow-append_left h d.pending d.rows k);
  kept = λ h. record {
    begin_keeps = λ d k. k;
    commit_keeps = λ t d k. HasRow-append h d.pending d.rows k;
    rollback_keeps = λ t d k. k;
    exec_keeps = λ e values d k. k;
    upsert_keeps = λ e tx d k. k;
    select_keeps = λ hs u d k. k;
  };
}

abbrev start : World (Store Disk) ℕ
start = record {
  store = record { tx_count = pos 0; db = record { rows = tx_of "b" ∷ []; pending = [] } };
  node = 0;
}

abbrev end : World (Store Disk) ℕ
end = record {
  store = record {
    tx_count = pos 0;
    db = record { rows = tx_of "a" ∷ tx_of "b" ∷ []; pending = [] };
  };
  node = 1;
}

served :
    Service.get_transactions_by_hashes
      (record { ctx = app_context; st = provider on_disk database; net = answering })
      (request_context 1)
      hashes
      (pos 5)
      start
    ≡ (ok answer, end)
unfolding Service.get_transactions_by_hashes get_transactions_by_hashes insert_transactions
    insert_transactions_user insert_one_user link_one ignore_duplicate insert_one begin_tx begin_on
    or_rollback settle link_opened commit_tx add_users annotate ◌>>=◌
served = refl
