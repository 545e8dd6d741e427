-- ===== src/Network/Node/Tests.antt =====
-- Runs of the pool.
use ethereum_fetcher.Prelude.{◌≤◌, ◌≡◌, refl, false, true, [], ◌∷◌, All, arith}
use ethereum_fetcher.Network.Node.{
  dropped, working, Task, new_task, idle, Pool, here, call, cancel, hand_over, abandon_silent, drop,
  permit, Run, start, next, new_eth_node, max_fetch_workers,
}
use ethereum_fetcher.Network.Node.Workers.{permits_of, held_by, sum, IsProper, workers_bound}

-- a task whose context ended while the dispatcher held it, and nobody was receiving
abbrev dropped_task : Task
dropped_task = record { stage = dropped; sends = 0; closes = 1; cancelled = true }

abbrev later : Pool
later = record {
  dispatcher = idle;
  permits = 1;
  stopped = false;
  tasks = dropped_task ∷ record new_task { stage = working } ∷ [];
}

-- It is closed with nothing sent, while another task has a worker.
closed_with_nothing_sent : Run new_eth_node later
closed_with_nothing_sent = next call (
    next (hand_over refl refl here) (
      next (permit refl (omega arith) here) (
        next call (
          next (hand_over refl refl here) (
            next (cancel here)
              (next (abandon_silent refl refl here) (next (drop refl here) start)))))))

workers_bound_example :
    (1 ≤ max_fetch_workers)
    × (1 ≡ sum permits_of later.tasks)
    × (sum held_by later.tasks ≡ 0)
    × All IsProper later.tasks
workers_bound_example = workers_bound closed_with_nothing_sent
