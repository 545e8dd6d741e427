-- ===== src/Process/Tests.antt =====
-- The start of the program on a container that is a list, and a configuration that is a function.
use ethereum_fetcher.Prelude.{
  String, pos, ◌≡◌, refl, true, false, none, some, Option, List, [], ◌∷◌, ◌⊎◌, inl, str_eq,
  if◌then◌else◌,
}
use ethereum_fetcher.Result.{ok, err, text}
use ethereum_fetcher.Exec.{Exec, ◌>>=◌}
use ethereum_fetcher.Server.Running.{returned}
use ethereum_fetcher.Process.Config.{Viper, Reading, value_of, new_viper}
use ethereum_fetcher.Process.Container.{Constructor, Kind, setup_container}
use ethereum_fetcher.Process.Container.Complete.{
  clashes, Provides, Buildable, givers, setup_container-Buildable,
}
use ethereum_fetcher.Process.Main.{Runtime, Exit, main}
use ethereum_fetcher.Process.Shutdown.{Program, new_program, notify, deliver, Moves, here, more}
use ethereum_fetcher.Process.Shutdown.Ends.{IsHeard, CanReturn, returned_why, heard_returns}

-- A container refuses what is given twice.
abbrev provide : Constructor → Exec (List Constructor) (Unit {0})
provide c cs = if clashes c cs then (err (text "already provided"), cs) else (ok tt, c ∷ cs)

provides : Provides provide (λ cs. cs)
provides = record { taken = λ c cs new acyclic. (c ∷ cs, rw new refl, refl) }

setup_container-Buildable_example :
    (cs : List Constructor) × (setup_container provide [] ≡ (ok tt, cs))
    × ((k : Kind) → Buildable cs k × (givers k cs ≡ 1))
setup_container-Buildable_example = setup_container-Buildable provide (λ cs. cs) provides [] refl

-- A configuration by what it has for each key, where the port and the level are set.
abbrev env : String → Option String
env x =
    if str_eq x "API_PORT" then some "9090" else if str_eq x "LOG_LEVEL" then some "debug" else none

abbrev own : String → Option String
own key = none

-- The lower case of the keys of the program.
abbrev to_lower : String → String
to_lower key =
    if str_eq key "APIPort"
    then "apiport"
    else if str_eq key "EthNodeURL"
    then "ethnodeurl"
    else if str_eq key "DBConnectionURL"
    then "dbconnectionurl"
    else if str_eq key "JWTSecret"
    then "jwtsecret"
    else if str_eq key "LogLevel"
    then "loglevel"
    else if str_eq key "NodeRateLimit"
    then "noderatelimit"
    else key

abbrev by_key : Viper (String → Reading)
by_key = record {
  new = λ key. record { automatic = none; bound = none; default = none };
  automatic_env = λ v key. record (v key) { automatic = own key };
  bind_env = λ j x v key.
      if str_eq (to_lower j) (to_lower key) then record (v key) { bound = env x } else v key;
  set_default = λ j x v key.
      if str_eq (to_lower j) (to_lower key) then record (v key) { default = some x } else v key;
  get_string = λ v key. value_of (v key);
  get_int = λ v key. pos 9090;
}

-- A signal that waits in the channel.
abbrev signalled : Program
signalled = record new_program { notified = true; pending = true }

to_signalled : Moves new_program signalled
to_signalled = more (more here (notify refl refl)) (deliver refl refl refl)

heard_returns_example : CanReturn signalled
heard_returns_example = heard_returns signalled to_signalled (inl refl)

returned_why_example :
    (signalled.server.caller ≡ returned → IsHeard signalled ⊎ (signalled.server.done_closed ≡ true))
    × (IsHeard signalled → signalled.killed ≡ false)
returned_why_example = returned_why signalled to_signalled

-- The program starts, and returns from `Run`.
abbrev runtime : Runtime (List Constructor) (String → Reading) String
runtime = record {
  viper = by_key;
  provide = provide;
  invoke = λ f cs. f (new_viper by_key) cs;
  set_formatter = λ cs. (ok tt, cs);
  set_output = λ cs. (ok tt, cs);
  parse_level = λ level. ok level;
  info_level = "info";
  set_level = λ level cs. (ok tt, cs);
  info = λ line cs. (ok tt, cs);
  init_shutdown_handler = λ cs. (ok tt, cs);
  run = λ port cs. (ok tt, cs);
}

main_lem : (main runtime []).0 ≡ Exit.returned
unfolding main setup_container ◌>>=◌
main_lem = refl
