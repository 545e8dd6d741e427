-- ===== src/Pg/Rows/Tests.antt =====
-- The generated code over a driver that logs its statements, newest first.
use ethereum_fetcher.Prelude.{String, ◌≡◌, refl, false, pos, List, [], ◌∷◌}
use ethereum_fetcher.Result.{ok, err, no_rows}
use ethereum_fetcher.Models.{User}
use ethereum_fetcher.Pg.Database.{database, text_value}
use ethereum_fetcher.Pg.Hooks.{Hooks}
use ethereum_fetcher.Pg.Rows.Boiler.{inferred, whitelist, Columns, Sql, Library}
use ethereum_fetcher.Pg.Rows.Caches.Keys.{make_cache_key-injective}
use ethereum_fetcher.Pg.Rows.Session.{Models}
use ethereum_fetcher.Pg.Rows.Tables.{transactions, users}
use ethereum_fetcher.Pg.Rows.Writes.{run_insert}
use ethereum_fetcher.Pg.Rows.Writes.Cached.{seen, plain_insert, IsTrue, run_insert-plain_insert}

abbrev hash_only : Columns
hash_only = record { kind = whitelist; cols = "tx_hash" ∷ "value" ∷ [] }

abbrev defaults : List String
defaults = "to_address" ∷ []

make_cache_key-injective_example : (hash_only ≡ hash_only) × (defaults ≡ defaults)
make_cache_key-injective_example =
    make_cache_key-injective (transactions []).all_columns refl hash_only hash_only defaults
      defaults ((refl, refl), ((refl, refl), tt)) ((refl, refl), ((refl, refl), tt))
      ((refl, refl), tt) ((refl, refl), tt) refl

abbrev Log : Type 0
Log = List String

abbrev logging : Sql Log User
logging = record {
  exec_context = λ e statement values d. (ok (ok 1), statement ∷ d);
  scan_row = λ e statement values mapping (d, o). (ok tt, (statement ∷ d, record o { id = pos 7 }));
  scan_flag = λ e statement values d. (ok false, statement ∷ d);
  bind_one = λ e mods d. (err no_rows, d);
  bind_all = λ e mods d. (ok [], d);
  scan_count = λ e mods d. (ok (pos 0), d);
  exec_query = λ e mods d. (ok (ok 0), d);
}

abbrev boiler : Library User
boiler = record {
  insert_column_set =
      λ columns all with_default without_default nz_defaults. (without_default, with_default);
  update_column_set = λ columns all primary_key. all;
  non_zero_default_set = λ with_default o. [];
  bind_mapping = λ names. ok (0 ∷ []);
  values_from_mapping = λ o mapping. text_value o.username ∷ [];
  placeholders = λ count start group. "$1,$2";
  ident_quote = λ name. name;
  set_param_names = λ n names. "";
  where_clause = λ n names. "";
  where_clause_repeated = λ n names count. "";
  set_complement = λ names others. names;
  set_intersect = λ names others. names;
}

abbrev bob : User
bob = record { id = pos 0; username = "bob"; password = "secret" }

abbrev idle : Models Log
idle = record { db = []; insert_cache = []; update_cache = []; upsert_cache = [] }

abbrev no_hooks : Hooks (Models Log) User
no_hooks point = []

run_insert-plain_insert_example :
    (seen logging boiler
        (users [])
        no_hooks
        false
        database
        (run_insert logging boiler (users []) no_hooks false database inferred (idle, bob))
      ≡ seen logging boiler
          (users [])
          no_hooks
          false
          database
          (plain_insert logging boiler (users []) no_hooks false database inferred (idle, bob)))
    × IsTrue boiler
        (users [])
        (run_insert logging boiler
          (users [])
          no_hooks
          false
          database
          inferred
          (idle, bob)).1.0.insert_cache
run_insert-plain_insert_example =
    run_insert-plain_insert logging boiler (users []) no_hooks false database inferred idle bob refl
      tt tt λ cols nz cache hc hn found. cc
