-- ===== src/Process/Main.antt =====
-- main.go and cmd/logger.go.
use ethereum_fetcher.Prelude.{String, ℤ}
use ethereum_fetcher.Result.{Result, ok, err, panic, message, ◌+++◌}
use ethereum_fetcher.Exec.{Exec, ◌>>◌}
use ethereum_fetcher.Process.Config.{Viper, log_level, api_port}
use ethereum_fetcher.Process.Container.{Constructor, setup_container}

-- What the start of the program calls, on the state `C` of the container and of all that it holds:
-- `invoke` is dig's `Invoke` of a function of the configuration; `run` is `Run` of the web server and
-- `init_shutdown_handler` that of cmd/terminate.go, with the values that `invoke` hands over.
pub record Runtime (C V L : Type 0) : Type 0 where
  pub viper : Viper V
  pub provide : Constructor → Exec C (Unit {0})
  pub invoke : (V → Exec C (Unit {0})) → Exec C (Unit {0})
  pub set_formatter : Exec C (Unit {0})
  pub set_output : Exec C (Unit {0})
  pub parse_level : String → Result L
  pub info_level : L
  pub set_level : L → Exec C (Unit {0})
  pub info : String → Exec C (Unit {0})
  pub init_shutdown_handler : Exec C (Unit {0})
  pub run : ℤ → Exec C (Unit {0})

-- How `main` ends: it returns, or a fatal log ends it.
pub data Exit : Type 0 where
  returned : Exit
  fatal : String → Exit
  crashed : Exit

abbrev pub level_or : {L : Type 0} → L → Result L → L
level_or fallback (ok level) = level
level_or fallback (err e) = fallback
level_or fallback panic = fallback

module _ {C V L : Type 0} (rt : Runtime C V L) where
  -- `LogInit`
  pub log_init : String → Exec C (Unit {0})
  log_init level = do
    rt.set_formatter
    rt.set_output
    rt.set_level (level_or rt.info_level (rt.parse_level level))

  -- the function that `main` invokes
  pub start : V → Exec C (Unit {0})
  unfolding log_init
  start vp = do
    log_init (rt.viper.get_string vp log_level)
    rt.info "lime ethereum fetcher server"
    rt.init_shutdown_handler
    rt.run (rt.viper.get_int vp api_port)
    rt.info "nuit, nuit"

  -- `if err != nil { log.Fatalf(...) }`, and what follows
  pub or_fatal : String → (C → Exit × C) → Result (Unit {0}) → C → Exit × C
  or_fatal what next (ok x) s = next s
  or_fatal what next (err e) s = (fatal (what +++ message e), s)
  or_fatal what next panic s = (crashed, s)

  -- `main`, on a new container
  unfoldable pub main : C → Exit × C
  unfolding start or_fatal
  main s =
      let (r, s') = setup_container rt.provide s in
      or_fatal "cannot initialize dependencies: "
        (λ s.
          let (r, s') = rt.invoke start s in
          or_fatal "cannot invoke dependencies: " (λ s. (returned, s)) r s')
        r s'
