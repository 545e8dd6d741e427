-- ===== src/Pg/Hooks.antt =====
-- internal/store/pg/models/transactions.go: the hooks of a row. The nine functions that run the
-- hooks of a point differ in the variable that they read, and are `do_hooks` on what `hooks_of` gives.
pub mod Registered
mod Tests
use ethereum_fetcher.Prelude.{Bool, List, [], ◌∷◌, ◌++◌, if◌then◌else◌}
use ethereum_fetcher.Exec.{Exec, pure, ◌>>=◌, ◌>>◌}
use ethereum_fetcher.Pg.Database.{Executor}

-- `boil.HookPoint`
pub data HookPoint : Type 0 where
  after_select before_insert after_insert before_update after_update before_delete after_delete
        before_upsert after_upsert :
      HookPoint

-- A hook changes the database and the row `O` that it is given, and may fail.
abbrev pub Hook : Type 0 → Type 0 → Type 0
Hook D O = Executor → Exec (D × O) (Unit {0})

abbrev pub Hooks : Type 0 → Type 0 → Type 0
Hooks D O = HookPoint → List (Hook D O)

-- the nine variables
pub record HookVariables (D O : Type 0) : Type 0 where
  pub after_select_hooks : List (Hook D O)
  pub before_insert_hooks : List (Hook D O)
  pub after_insert_hooks : List (Hook D O)
  pub before_update_hooks : List (Hook D O)
  pub after_update_hooks : List (Hook D O)
  pub before_delete_hooks : List (Hook D O)
  pub after_delete_hooks : List (Hook D O)
  pub before_upsert_hooks : List (Hook D O)
  pub after_upsert_hooks : List (Hook D O)

module _ {D O : Type 0} where
  -- `AddTransactionHook`, the `switch` on the hook point
  pub add_transaction_hook : HookPoint → Hook D O → HookVariables D O → HookVariables D O
  add_transaction_hook after_select hook v = record v {
    after_select_hooks = v.after_select_hooks ++ (hook ∷ []);
  }
  add_transaction_hook before_insert hook v = record v {
    before_insert_hooks = v.before_insert_hooks ++ (hook ∷ []);
  }
  add_transaction_hook after_insert hook v = record v {
    after_insert_hooks = v.after_insert_hooks ++ (hook ∷ []);
  }
  add_transaction_hook before_update hook v = record v {
    before_update_hooks = v.before_update_hooks ++ (hook ∷ []);
  }
  add_transaction_hook after_update hook v = record v {
    after_update_hooks = v.after_update_hooks ++ (hook ∷ []);
  }
  add_transaction_hook before_delete hook v = record v {
    before_delete_hooks = v.before_delete_hooks ++ (hook ∷ []);
  }
  add_transaction_hook after_delete hook v = record v {
    after_delete_hooks = v.after_delete_hooks ++ (hook ∷ []);
  }
  add_transaction_hook before_upsert hook v = record v {
    before_upsert_hooks = v.before_upsert_hooks ++ (hook ∷ []);
  }
  add_transaction_hook after_upsert hook v = record v {
    after_upsert_hooks = v.after_upsert_hooks ++ (hook ∷ []);
  }

  -- the variable that the `do...Hooks` of a point reads
  pub hooks_of : HookVariables D O → Hooks D O
  hooks_of v after_select = v.after_select_hooks
  hooks_of v before_insert = v.before_insert_hooks
  hooks_of v after_insert = v.after_insert_hooks
  hooks_of v before_update = v.before_update_hooks
  hooks_of v after_update = v.after_update_hooks
  hooks_of v before_delete = v.before_delete_hooks
  hooks_of v after_delete = v.after_delete_hooks
  hooks_of v before_upsert = v.before_upsert_hooks
  hooks_of v after_upsert = v.after_upsert_hooks

  -- the loop over the hooks, which stops at the first error
  unfoldable pub run_hooks : List (Hook D O) → Executor → Exec (D × O) (Unit {0})
  run_hooks [] exec = pure tt
  run_hooks (hook ∷ hooks) exec = hook exec >> run_hooks hooks exec

  -- `do...Hooks`; `skipped` is `boil.HooksAreSkipped(ctx)`
  unfoldable pub do_hooks : Bool → List (Hook D O) → Executor → Exec (D × O) (Unit {0})
  unfolding run_hooks
  do_hooks skipped hooks exec = if skipped then pure tt else run_hooks hooks exec
