-- ===== src/Pg/Store/Generated/Tests.antt =====
-- The generated code over statements on committed rows and on those that a transaction has written.
use ethereum_fetcher.Prelude.{
  ℕ, String, ℤ, pos, ◌≡◌, refl, ap, subst, Bool, true, false, Option, none, some, List, [], ◌∷◌,
  ◌++◌, map, filter, All, contains, eq_refl, eq_iff, arith,
}
use ethereum_fetcher.Result.{Result, ok, err, no_rows, and_then}
use ethereum_fetcher.Exec.{annotate, ◌>>=◌}
use ethereum_fetcher.Exec.Rules.{ok-subst}
use ethereum_fetcher.Models.{User, Transaction}
use ethereum_fetcher.Providers.{app_context, request_context}
use ethereum_fetcher.Service.{World}
use ethereum_fetcher.Service as Service
use ethereum_fetcher.Service.Tests.{
  tx_of, HasRow, HasRow-append, Rows, rows_listed, answers, answering, hashes, answer,
}
use ethereum_fetcher.Pg.Database.{Value, text_value, texts_value, database}
use ethereum_fetcher.Pg.Relations.{add_users}
use ethereum_fetcher.Pg.Rows.Boiler.{Mod, Sql, Library}
use ethereum_fetcher.Pg.Rows.Queries
use ethereum_fetcher.Pg.Rows.Session.{with_row}
use ethereum_fetcher.Pg.Rows.Caches.{plan_upsert}
use ethereum_fetcher.Pg.Hooks.{do_hooks}
use ethereum_fetcher.Pg.Rows.Writes
use ethereum_fetcher.Pg.Store.{
  Store, get_transactions_by_hashes, insert_transactions, insert_transactions_user, insert_one_user,
  link_one, ignore_duplicate, insert_one, begin_tx, begin_on, or_rollback, settle, link_opened,
  commit_tx, provider,
}
use ethereum_fetcher.Pg.Store.Examples.{Disk, IsRow, IsPending, HasRow-append_left, rows_in}
use ethereum_fetcher.Pg.Store.Generated.{Boil, State, generated, my_query, user_query, hashes_query}
use ethereum_fetcher.Pg.Store.Generated.Statements.{Statements}
use ethereum_fetcher.Pg.Store.Generated.Upserts.{IsMade}
use ethereum_fetcher.Pg.Store.Generated.Again.{Selects, get_transactions_by_hashes_again}
use ethereum_fetcher.Pg.Store.Generated.Committed.{get_transactions_by_hashes-committed}

abbrev pub asked : List Mod → Transaction → Bool
asked (Mod.sql text (texts_value hs ∷ []) ∷ mods) t = contains t.tx_hash hs
asked _ t = true

abbrev pub tx_statements : Sql Disk Transaction
tx_statements = record {
  exec_context = λ e text values d. (ok (ok 1), record d { pending = rows_in values ++ d.pending });
  scan_row = λ e text values mapping (d, tx). (ok tt, (record d { pending = tx ∷ d.pending }, tx));
  scan_flag = λ e text values d. (ok false, d);
  bind_one = λ e mods d. (err no_rows, d);
  bind_all = λ e mods d. (ok (filter (asked mods) d.rows), d);
  scan_count = λ e mods d. (ok (pos 0), d);
  exec_query = λ e mods d. (ok (ok 0), d);
}

abbrev pub user_statements : Sql Disk User
user_statements = record {
  exec_context = λ e text values d. (ok (ok 1), d);
  scan_row = λ e text values mapping (d, o). (ok tt, (d, o));
  scan_flag = λ e text values d. (ok false, d);
  bind_one = λ e mods d. (err no_rows, d);
  bind_all = λ e mods d. (ok [], d);
  scan_count = λ e mods d. (ok (pos 0), d);
  exec_query = λ e mods d. (ok (ok 0), d);
}

abbrev pub library : {O : Type 0} → (O → Value) → Library O
library key = record {
  insert_column_set =
      λ columns all with_default without_default nz_defaults. (without_default, with_default);
  update_column_set = λ columns all primary_key. all;
  non_zero_default_set = λ with_default o. [];
  bind_mapping = λ names. ok (0 ∷ []);
  values_from_mapping = λ o mapping. key o ∷ [];
  placeholders = λ count start group. "$1";
  ident_quote = λ name. name;
  set_param_names = λ n names. "";
  where_clause = λ n names. "";
  where_clause_repeated = λ n names count. "";
  set_complement = λ names others. names;
  set_intersect = λ names others. names;
}

abbrev pub disk_boil : Boil Disk
disk_boil = record {
  begin = λ d. (ok 0, d);
  commit = λ t d. (ok tt, record { rows = d.pending ++ d.rows; pending = [] });
  rollback = λ t d. (ok tt, record d { pending = [] });
  tx_driver = tx_statements;
  user_driver = user_statements;
  tx_library = library λ tx. text_value tx.tx_hash;
  user_library = library λ user. text_value user.username;
  tx_mapping = 0 ∷ [];
  user_mapping = 0 ∷ [];
}

pub disk_statements : Statements disk_boil IsRow IsPending
disk_statements = record {
  listed = λ hs u d d' txs e.
      ok-subst (λ txs' v. All (λ t. IsRow v t.tx_hash) txs') e (rows_listed (asked _) d.rows);
  named = λ nz. refl;
  executed = λ t tx ret update insert mapping affected d d' names some_update mapped e.
      ok-subst (λ _ v. IsPending t v tx.tx_hash) e (rw (eq_refl tx.tx_hash));
  scanned = λ t tx tx' ret update insert mapping back d d' names some_update mapped e.
      subst (λ v. IsPending t v tx.tx_hash) (λ i. (e i).1.0) (rw (eq_refl tx.tx_hash));
  returned = λ e tx tx' ret update insert values back failure d d' some_column some_update h. cc;
  linked = λ t values h affected d d' e k.
      ok-subst (λ _ v. IsPending t v h) e (HasRow-append h (rows_in values) d.pending k);
  committed =
      λ t h d d' e k. ok-subst (λ _ v. IsRow v h) e (HasRow-append_left h d.pending d.rows k);
  begin_keeps = λ h d k. k;
  commit_keeps = λ t h d k. HasRow-append h d.pending d.rows k;
  rollback_keeps = λ t h d k. k;
  link_keeps = λ e values h d k. k;
  exec_keeps = λ e ret update insert values h d k. k;
  scan_keeps = λ e ret update insert values back h d k. k;
  select_keeps = λ hs u h d k. k;
}

abbrev pub start : World (Store (State Disk)) ℕ
start = record {
  store = record {
    tx_count = pos 0;
    db = record {
      db = record {
        db = record { rows = tx_of "b" ∷ []; pending = [] };
        insert_cache = [];
        update_cache = [];
        upsert_cache = [];
      };
      insert_cache = [];
      update_cache = [];
      upsert_cache = [];
    };
  };
  node = 0;
}

abbrev pub run : Result (List Transaction) × World (Store (State Disk)) ℕ
run =
    Service.get_transactions_by_hashes
      (record { ctx = app_context; st = provider (generated disk_boil) database; net = answering })
      (request_context 1) hashes (pos 5) start

pub served : run ≡ (ok answer, run.1)
unfolding Service.get_transactions_by_hashes get_transactions_by_hashes insert_transactions
    insert_transactions_user insert_one_user link_one ignore_duplicate insert_one begin_tx begin_on
    or_rollback settle link_opened commit_tx add_users annotate ◌>>=◌ Queries.all Queries.rows_of
    hashes_query Writes.upsert with_row do_hooks plan_upsert and_then
served = refl

get_transactions_by_hashes-committed_example :
    All (λ t. IsRow run.1.store.db.db.db t.tx_hash) answer × IsMade disk_boil run.1.store.db
get_transactions_by_hashes-committed_example =
    get_transactions_by_hashes-committed disk_boil disk_statements app_context (request_context 1)
      answering hashes (pos 5) start run.1 answer served tt refl

map_same : (hs : List String) → map (λ h. h) hs ≡ hs
map_same [] = refl
map_same (h ∷ hs) = ap (λ l. h ∷ l) (map_same hs)

filter_found :
    (h : String) (hs : List String) (rows : Rows)
    → HasRow rows h
    → contains h hs ≡ true
    → HasRow (filter (λ t. contains t.tx_hash hs) rows) h
filter_found h hs [] row c = row
filter_found h hs (t ∷ rows) row c = ground (arith, eq_iff t.tx_hash h, filter_found h hs rows)

asked_lem :
    (hs : List String) (u : Option ℤ)
    → asked (hashes_query (0 ∷ []) hs u) ≡ (λ t. contains t.tx_hash hs)
unfolding hashes_query Queries.rows_of
asked_lem hs none = refl
asked_lem hs (some u) = refl

disk_selects : Selects disk_boil (λ h. h) IsRow
disk_selects = record {
  found = λ h hs u d d' txs row c e.
      ok-subst (λ txs' v. HasRow txs' h) e
        (rw (asked_lem hs u)
          (filter_found h hs d.rows row (subst (λ ks. contains h ks ≡ true) (map_same hs) c)));
}

get_transactions_by_hashes_again_example :
    (Service.get_transactions_by_hashes
      (record { ctx = app_context; st = provider (generated disk_boil) database; net = answering })
      (request_context 2)
      hashes
      (pos 0)
      run.1).1.node
    ≡ run.1.node
get_transactions_by_hashes_again_example =
    get_transactions_by_hashes_again disk_boil disk_statements (λ h. h) disk_selects app_context
      (request_context 1) (request_context 2) answering (λ c. c) hashes (pos 5) (pos 0) start run.1
      run.1 answer answers refl served tt refl λ h row. row

-- The queries of the store: a query that selects nothing reads all columns of its table.
my_query_lem :
    my_query [] (pos 5)
    ≡ Mod.inner_join "user_transactions ut on ut.tx_hash = transactions.tx_hash"
      ∷ Mod.is_where "ut.user_id = ?" (Value.int_value (pos 5) ∷ [])
      ∷ Mod.from "\"transactions\""
      ∷ Mod.set_select ("\"transactions\".*" ∷ [])
      ∷ []
unfolding my_query Queries.rows_of
my_query_lem = refl

user_query_lem :
    user_query [] "bob" "secret"
    ≡ Mod.select "id"
      ∷ Mod.is_where "username=?" (text_value "bob" ∷ [])
      ∷ Mod.and_where "password= crypt(?, password)" (text_value "secret" ∷ [])
      ∷ Mod.from "\"users\""
      ∷ []
unfolding user_query Queries.rows_of
user_query_lem = refl
