-- ===== src/Pg/Store/Tests.antt =====
-- The store over a database that logs its calls, the newest first.
use ethereum_fetcher.Prelude.{
  String, pos, ◌≡◌, refl, Option, List, [], ◌∷◌, length, contains, str_eq, if◌then◌else◌,
  Bool-cases, inl, inr,
}
use ethereum_fetcher.Result.{ok, err, text, pg_error, pg_code}
use ethereum_fetcher.Exec.{annotate, ◌>>=◌}
use ethereum_fetcher.Models.{Transaction}
use ethereum_fetcher.Pg.Database.{Database, text_value, database}
use ethereum_fetcher.Pg.Relations.{add_users}
use ethereum_fetcher.Pg.Store.{
  insert_transactions_user, begin_on, settle, roll_back, rollback_tx, begin_tx, commit_tx,
  or_rollback, link_opened, insert_one, insert_transactions,
}
use ethereum_fetcher.Pg.Store.Duplicates.{Accepts, insert_transactions_user-IsDuplicate}
use ethereum_fetcher.Pg.Store.Counter.{IsRestored, insert_transactions-tx_count}
use ethereum_fetcher.Pg.Store.Commits.{
  seen, idle, write_each, insert_transactions-atomic, first_commit_lost,
}

abbrev Log : Type 0
Log = List String

abbrev logging : Database Log
logging = record {
  begin = λ d. (ok (length d), "begin" ∷ d);
  commit = λ h d. (ok tt, "commit" ∷ d);
  rollback = λ h d. (ok tt, "rollback" ∷ d);
  exec = λ e statement values d. (err (pg_error "23503" "no such user"), "link" ∷ d);
  upsert = λ e columns tx d. (ok tt, "upsert" ∷ d);
  insert_user = λ e user d. (ok tt, "user" ∷ d);
  select_user = λ e name word d. (err (text "none"), d);
  select_all = λ e d. (ok [], d);
  select_joined = λ e u d. (ok [], d);
  select_by_hashes = λ e hs u d. (ok [], d);
}

abbrev tx : Transaction
tx = record {
  tx_hash = "0xa";
  tx_status = pos 1;
  block_hash = "0xb";
  block_number = pos 7;
  from_address = "0xf";
  to_address = Option.none;
  contract_address = Option.none;
  logs_count = pos 0;
  input = "0x";
  value = "0";
  r = Option.none;
}

rolled_back_log :
    (insert_transactions logging database (tx ∷ []) (pos 5) (idle logging [])).1.db
    ≡ "rollback" ∷ "link" ∷ "upsert" ∷ "begin" ∷ []
unfolding insert_transactions insert_one begin_tx or_rollback link_opened commit_tx add_users
    annotate ◌>>=◌ begin_on settle roll_back rollback_tx
rolled_back_log = refl

insert_transactions-tx_count_example :
    IsRestored
      (pos 3)
      (insert_transactions logging database
        (tx ∷ [])
        (pos 5)
        (record { tx_count = pos 3; db = [] })).0
      (insert_transactions logging database
        (tx ∷ [])
        (pos 5)
        (record { tx_count = pos 3; db = [] })).1
insert_transactions-tx_count_example =
    insert_transactions-tx_count logging database (tx ∷ []) (pos 5)
      (record { tx_count = pos 3; db = [] }) (pos 3) refl

insert_transactions-atomic_example :
    seen logging (insert_transactions logging database (tx ∷ tx ∷ []) (pos 0) (idle logging []))
    ≡ write_each logging (pos 0) (tx ∷ tx ∷ []) []
insert_transactions-atomic_example = insert_transactions-atomic logging (tx ∷ tx ∷ []) (pos 0) []

first_commit_lost_example :
    (seen logging
        (commit_tx logging database 0 (record { tx_count = pos 2; db = "begin" ∷ "begin" ∷ [] }))
      ≡ (ok tt, "begin" ∷ "begin" ∷ []))
    × (seen logging (
          commit_tx logging database 1
            (commit_tx logging database 0
              (record { tx_count = pos 2; db = "begin" ∷ "begin" ∷ [] })).1)
        ≡ (ok tt, "commit" ∷ "begin" ∷ "begin" ∷ []))
unfolding begin_tx begin_on ◌>>=◌
first_commit_lost_example =
    first_commit_lost logging (idle logging []) (record { tx_count = pos 1; db = "begin" ∷ [] })
      (record { tx_count = pos 2; db = "begin" ∷ "begin" ∷ [] }) 0 1 refl refl refl

-- A database that knows one transaction, and refuses a link that it has with the error for it, and
-- a link to another transaction with the error for a foreign key.
abbrev linked : Database Log
linked = record logging {
  exec = λ e statement values d. elim values [
    | text_value h ∷ _ ↦
        if str_eq h "0xa"
        then if contains "link" d
          then (err (pg_error "23505" "duplicate key"), d)
          else (ok tt, "link" ∷ d)
        else (err (pg_error "23503" "no such transaction"), d)
    | _ ↦ (ok tt, d)
  ];
}

linked-Accepts : Accepts linked (pos 5) (λ d. Unit {0}) tx
unfolding pg_code
linked-Accepts d ready = elim (Bool-cases (contains "link" d)) [
  | inl there ↦ rw there (refl, tt)
  | inr missing ↦ rw missing (tt, tt)
]

insert_transactions_user-IsDuplicate_example :
    (insert_transactions_user linked database (tx ∷ tx ∷ []) (pos 5) (idle linked [])).0 ≡ ok tt
insert_transactions_user-IsDuplicate_example =
    insert_transactions_user-IsDuplicate linked (pos 5) (λ d. Unit {0}) (tx ∷ tx ∷ [])
      (idle linked []) (linked-Accepts, (linked-Accepts, tt)) tt
