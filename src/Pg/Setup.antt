-- ===== src/Pg/Setup.antt =====
-- internal/store/pg/setup.go: `NewStore`. A fatal log ends the program.
pub mod Connects
mod Tests
use ethereum_fetcher.Prelude.{
  ℕ, String, pos, ◌⊎◌, inl, inr, Bool, Option, none, some, if◌then◌else◌,
}
use ethereum_fetcher.Result.{Error, message, ◌+++◌}
use ethereum_fetcher.Exec.Retry.{retry}
use ethereum_fetcher.Pg.Store.{Store}
use ethereum_fetcher.Pg.Paths.{remove_overlap}

-- What the `select` between two attempts finds: the timer, a cancelled context, or neither.
pub data Wakeup : Type 0 where
  timer done again : Wakeup

pub data Start (D : Type 0) : Type 0 where
  started : Store D → Start D
  -- `return nil, err` and `return nil, nil`
  failed : Error → Start D
  no_store : Start D
  fatal : String → Start D

-- What `NewStore` calls: `none` is a nil error. `connect i` is `sql.Open` with `Ping` at the
-- attempt `i`, with the database where it is connected, and `wakeup i` the `select` after it.
pub record Environment (D : Type 0) : Type 0 where
  pub connect : ℕ → Error ⊎ D
  pub wakeup : ℕ → Wakeup
  pub with_instance : Option Error
  pub getwd : Error ⊎ String
  pub new_with_database_instance : String → Option Error
  pub up : Option Error
  -- `errors.Is(err, migrate.ErrNoChange)`
  pub is_no_change : Error → Bool

abbrev pub store_migration_relative_path : String
store_migration_relative_path = "internal/store/pg/migrations"

module _ {D : Type 0} (env : Environment D) where
  -- one round of the loop: `none` where it goes round again
  abbrev pub wake : Wakeup → Error → Option (Start D ⊎ D)
  wake timer e = some (inl (failed e))
  wake done e = some (inl no_store)
  wake again e = none

  abbrev pub attempt_of : Error ⊎ D → Wakeup → Option (Start D ⊎ D)
  attempt_of (inr db) w = some (inr db)
  attempt_of (inl e) w = wake w e

  abbrev pub attempt : ℕ → Option (Start D ⊎ D)
  attempt i = attempt_of (env.connect i) (env.wakeup i)

  pub run_migration : D → Option Error → Start D
  run_migration db none = started (record { tx_count = pos 0; db = db })
  run_migration db (some e) =
      if env.is_no_change e
      then started (record { tx_count = pos 0; db = db })
      else fatal ("migration failed: " +++ message e)

  pub migrate_from : D → String → Option Error → Start D
  unfolding run_migration
  migrate_from db migrations_dir none = run_migration db env.up
  migrate_from db migrations_dir (some e) = fatal (
      "cannot create migrate instance (with migrations path: "
      +++ migrations_dir
      +++ "): "
      +++ message e)

  pub migrate_in : D → Error ⊎ String → Start D
  unfolding migrate_from remove_overlap
  migrate_in db (inl e) = fatal "cannot get current dir"
  migrate_in db (inr cur_dir) =
      let migrations_dir = remove_overlap cur_dir store_migration_relative_path in
      migrate_from db migrations_dir (env.new_with_database_instance ("file://" +++ migrations_dir))

  pub set_up : D → Option Error → Start D
  unfolding migrate_in
  set_up db none = migrate_in db env.getwd
  set_up db (some e) = fatal ("cannot create postgres driver: " +++ message e)

  -- after the loop
  pub proceed_with : Start D ⊎ D → Start D
  unfolding set_up
  proceed_with (inl start) = start
  proceed_with (inr db) = set_up db env.with_instance

  abbrev pub map_start : Option (Start D ⊎ D) → Option (Start D)
  map_start none = none
  map_start (some s) = some (proceed_with s)

  unfoldable pub new_store : (fuel : ℕ) → Option (Start D)
  unfolding retry proceed_with
  new_store fuel = map_start (retry attempt fuel 0)
