-- ===== src/Pg/Hooks/Tests.antt =====
-- Hooks that count.
use ethereum_fetcher.Prelude.{ℕ, suc, ◌+◌, ◌≡◌, false, [], ◌∷◌}
use ethereum_fetcher.Result.{ok}
use ethereum_fetcher.Exec.{◌>>◌}
use ethereum_fetcher.Pg.Database.{database}
use ethereum_fetcher.Pg.Hooks.{
  Hook, HookVariables, after_insert, add_transaction_hook, hooks_of, do_hooks,
}
use ethereum_fetcher.Pg.Hooks.Registered.{do_hooks-add_transaction_hook}

abbrev counting : Hook ℕ ℕ
counting exec (d, o) = (ok tt, (suc d, o))

abbrev doubling : Hook ℕ ℕ
doubling exec (d, o) = (ok tt, (d + d, o))

abbrev variables : HookVariables ℕ ℕ
variables = record {
  after_select_hooks = [];
  before_insert_hooks = [];
  after_insert_hooks = counting ∷ [];
  before_update_hooks = [];
  after_update_hooks = [];
  before_delete_hooks = [];
  after_delete_hooks = [];
  before_upsert_hooks = [];
  after_upsert_hooks = [];
}

do_hooks-add_transaction_hook_example :
    do_hooks false
      (hooks_of (add_transaction_hook after_insert doubling variables) after_insert)
      database
      (2, 0)
    ≡ (do_hooks false (hooks_of variables after_insert) database >> doubling database) (2, 0)
do_hooks-add_transaction_hook_example =
    do_hooks-add_transaction_hook after_insert after_insert doubling variables database (2, 0)
