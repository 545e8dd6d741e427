-- ===== src/Server/Running/Tests.antt =====
-- A server that fails to listen, and one that is shut down with a request at hand.
use ethereum_fetcher.Prelude.{◌≡◌, ◌≢◌, refl, ◌⊎◌, true, false}
use ethereum_fetcher.Server.Running.{
  shutting, ended, returned, Server, new_server, Step, listen_failed, Run, here, then,
}
use ethereum_fetcher.Server.Running.Ends.{returned-Step, returned_early}

abbrev port_in_use : Server
port_in_use = record new_server { caller = returned; done_closed = true; listening = false }

returned-Step_example :
    ((port_in_use.cancelled ≡ true) ⊎ (port_in_use.done_closed ≡ true))
    × ((port_in_use.watcher ≡ ended)
        ⊎ ((t : Server) × Step port_in_use t × (t.watcher ≢ port_in_use.watcher)))
returned-Step_example = returned-Step port_in_use (then here (listen_failed refl refl)) refl

returned_early_example :
    (s : Server) × Run new_server s
    × (s.caller ≡ returned)
    × (s.watcher ≡ shutting)
    × (s.in_flight ≡ 1)
returned_early_example = returned_early 1
