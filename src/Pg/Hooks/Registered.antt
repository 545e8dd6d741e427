-- ===== src/Pg/Hooks/Registered.antt =====
-- Where and when a hook that is added runs.
use ethereum_fetcher.Prelude.{
  ℕ, ◌==◌, Bool, ap, ◌∙◌, ◌≡◌, refl, inl, inr, false, List, [], ◌∷◌, ◌++◌, if◌then◌else◌,
  Bool-cases,
}
use ethereum_fetcher.Result.{Result, ok, err, panic}
use ethereum_fetcher.Exec.{Exec, pure, proceed, ◌>>=◌, ◌>>◌}
use ethereum_fetcher.Pg.Database.{Executor}
use ethereum_fetcher.Pg.Hooks.{
  HookPoint, Hook, HookVariables, add_transaction_hook, hooks_of, run_hooks, do_hooks, after_select,
  before_insert, after_insert, before_update, after_update, before_delete, after_delete,
  before_upsert, after_upsert,
}

abbrev number : HookPoint → ℕ
number after_select = 0
number before_insert = 1
number after_insert = 2
number before_update = 3
number after_update = 4
number before_delete = 5
number after_delete = 6
number before_upsert = 7
number after_upsert = 8

abbrev pub same_point : HookPoint → HookPoint → Bool
same_point p q = number p == number q

module _ {D O : Type 0} where
  run_one : (r : Result (Unit {0})) (s : D × O) → proceed (λ _. pure tt) r s ≡ (r, s)
  run_one (ok x) s = refl
  run_one (err e) s = refl
  run_one panic s = refl

  run_after :
      (m n l : Exec (D × O) (Unit {0}))
      → ((s : D × O) → l s ≡ (m >> n) s)
      → (r : Result (Unit {0})) (s : D × O)
      → proceed (λ _. l) r s ≡ proceed (λ _. n) (proceed (λ _. m) r s).0 (proceed (λ _. m) r s).1
  unfolding ◌>>=◌
  run_after m n l h (ok x) s = h s
  run_after m n l h (err e) s = refl
  run_after m n l h panic s = refl

  run_hooks-append :
      (hooks : List (Hook D O)) (hook : Hook D O) (exec : Executor) (s : D × O)
      → run_hooks (hooks ++ (hook ∷ [])) exec s ≡ (run_hooks hooks exec >> hook exec) s
  unfolding run_hooks ◌>>=◌
  run_hooks-append [] hook exec s = run_one (hook exec s).0 (hook exec s).1
  run_hooks-append (k ∷ hooks) hook exec s =
      run_after (run_hooks hooks exec) (hook exec) (run_hooks (hooks ++ (hook ∷ [])) exec)
        (run_hooks-append hooks hook exec) (k exec s).0 (k exec s).1

  -- what a point runs once a hook is added, there or at another point
  abbrev appended : Bool → Hook D O → List (Hook D O) → List (Hook D O)
  appended b hook hooks = if b then hooks ++ (hook ∷ []) else hooks

  abbrev Adds : HookPoint → HookPoint → Hook D O → HookVariables D O → Type 0
  Adds p q hook v =
      hooks_of (add_transaction_hook p hook v) q ≡ appended (same_point p q) hook (hooks_of v q)

  hooks_of-add_transaction_hook :
      (p q : HookPoint) (hook : Hook D O) (v : HookVariables D O) → Adds p q hook v
  unfolding add_transaction_hook hooks_of
  hooks_of-add_transaction_hook after_select q hook v =
      elim q as (λ q. Adds after_select q hook v) [ after_select ↦ refl | _ ↦ refl ]
  hooks_of-add_transaction_hook before_insert q hook v =
      elim q as (λ q. Adds before_insert q hook v) [ before_insert ↦ refl | _ ↦ refl ]
  hooks_of-add_transaction_hook after_insert q hook v =
      elim q as (λ q. Adds after_insert q hook v) [ after_insert ↦ refl | _ ↦ refl ]
  hooks_of-add_transaction_hook before_update q hook v =
      elim q as (λ q. Adds before_update q hook v) [ before_update ↦ refl | _ ↦ refl ]
  hooks_of-add_transaction_hook after_update q hook v =
      elim q as (λ q. Adds after_update q hook v) [ after_update ↦ refl | _ ↦ refl ]
  hooks_of-add_transaction_hook before_delete q hook v =
      elim q as (λ q. Adds before_delete q hook v) [ before_delete ↦ refl | _ ↦ refl ]
  hooks_of-add_transaction_hook after_delete q hook v =
      elim q as (λ q. Adds after_delete q hook v) [ after_delete ↦ refl | _ ↦ refl ]
  hooks_of-add_transaction_hook before_upsert q hook v =
      elim q as (λ q. Adds before_upsert q hook v) [ before_upsert ↦ refl | _ ↦ refl ]
  hooks_of-add_transaction_hook after_upsert q hook v =
      elim q as (λ q. Adds after_upsert q hook v) [ after_upsert ↦ refl | _ ↦ refl ]

  -- After a hook is added, its own point runs what it ran before and then this hook, if none before
  -- it failed, and every other point runs what it ran before.
  pub do_hooks-add_transaction_hook :
      (p q : HookPoint) (hook : Hook D O) (v : HookVariables D O) (exec : Executor) (s : D × O)
      → do_hooks false (hooks_of (add_transaction_hook p hook v) q) exec s ≡ (
          if same_point p q
          then (do_hooks false (hooks_of v q) exec >> hook exec) s
          else do_hooks false (hooks_of v q) exec s)
  unfolding do_hooks
  do_hooks-add_transaction_hook p q hook v exec s =
      ap (λ hooks. run_hooks hooks exec s) (hooks_of-add_transaction_hook p q hook v)
      ∙ elim (Bool-cases (same_point p q)) [
        | inl same ↦ rw same (run_hooks-append (hooks_of v q) hook exec s)
        | inr other ↦ rw other refl
      ]
