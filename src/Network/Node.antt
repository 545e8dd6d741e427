-- ===== src/Network/Node.antt =====
-- internal/network/setup.go and node.go: the tasks, the goroutine that hands them to workers, and
-- the workers, as steps that may interleave in any order. A `select` with more than one ready case
-- may take any of them. A step is one operation on a channel. What a worker fetches is left open.
pub mod Workers
mod Tests
use ethereum_fetcher.Prelude.{ℕ, suc, ◌+◌, ◌-◌, ◌<◌, ◌≡◌, Bool, true, false, List, [], ◌∷◌}

-- `maxFetchWorkers`
abbrev pub max_fetch_workers : ℕ
max_fetch_workers = 20

-- Where a task stands: in the `select` of ScheduleTask; given up there; held by the dispatcher;
-- given up by it before and after its channel is closed; fetched by a worker; past the worker's
-- send; past the worker's close; and done, with the permit returned.
pub data Stage : Type 0 where
  scheduling refused held abandoned dropped working answered closed finished : Stage

-- `TxTask` by what happened to its channel: the sends and the closes so far. `cancelled` says that
-- its context is done.
pub record Task : Type 0 where
  pub stage : Stage
  pub sends : ℕ
  pub closes : ℕ
  pub cancelled : Bool

abbrev pub new_task : Task
new_task = record { stage = scheduling; sends = 0; closes = 0; cancelled = false }

-- The goroutine of NewEthNode: at the outer `select`, with a task, or returned.
pub data Dispatcher : Type 0 where
  idle busy gone : Dispatcher

-- `permits` is the number of values in `workersChan`; `stopped` says that the application's context
-- is done.
pub record Pool : Type 0 where
  pub dispatcher : Dispatcher
  pub permits : ℕ
  pub stopped : Bool
  pub tasks : List Task

-- One task of the list goes from `t` to `t'`.
pub data Moves (t t' : Task) : List Task → List Task → Type 0 where
  here : {ts : List Task} → Moves t t' (t ∷ ts) (t' ∷ ts)
  there : {u : Task} {ts us : List Task} → Moves t t' ts us → Moves t t' (u ∷ ts) (u ∷ us)

pub data Step (p : Pool) : Pool → Type 0 where
  -- ScheduleTask is called
  call : Step p (record p { tasks = new_task ∷ p.tasks })
  -- contexts end: a task's own, or the application's
  cancel :
      {t : Task} {us : List Task}
      → Moves t (record t { cancelled = true }) p.tasks us
      → Step p (record p { tasks = us })
  stop : Step p (record p { stopped = true })
  -- `case n.tasksChan <- task` meets `case task := <-tasksChan`
  hand_over :
      {t : Task} {us : List Task}
      → p.dispatcher ≡ idle
      → t.stage ≡ scheduling
      → Moves t (record t { stage = held }) p.tasks us
      → Step p (record p { dispatcher = busy; tasks = us })
  -- `case <-muxCtx.Done()` of ScheduleTask
  refuse :
      {t : Task} {us : List Task}
      → t.stage ≡ scheduling
      → t.cancelled ≡ true
      → Moves t (record t { stage = refused; closes = t.closes + 1 }) p.tasks us
      → Step p (record p { tasks = us })
  -- the dispatcher's `case <-task.Ctx.Done()`: the inner `select` sends when the service is
  -- receiving, and does nothing otherwise
  abandon_sent :
      {t : Task} {us : List Task}
      → t.stage ≡ held
      → t.cancelled ≡ true
      → Moves t (record t { stage = abandoned; sends = t.sends + 1 }) p.tasks us
      → Step p (record p { tasks = us })
  abandon_silent :
      {t : Task} {us : List Task}
      → t.stage ≡ held
      → t.cancelled ≡ true
      → Moves t (record t { stage = abandoned }) p.tasks us
      → Step p (record p { tasks = us })
  -- its `close(task.ResChan)`, and on to the next task or out
  drop :
      {t : Task} {us : List Task}
      → t.stage ≡ abandoned
      → Moves t (record t { stage = dropped; closes = t.closes + 1 }) p.tasks us
      → Step p (record p { dispatcher = idle; tasks = us })
  drop_last :
      {t : Task} {us : List Task}
      → t.stage ≡ abandoned
      → p.stopped ≡ true
      → Moves t (record t { stage = dropped; closes = t.closes + 1 }) p.tasks us
      → Step p (record p { dispatcher = gone; tasks = us })
  -- `case <-ctx.Done()` of the outer `select`
  quit : p.dispatcher ≡ idle → p.stopped ≡ true → Step p (record p { dispatcher = gone })
  -- `case workersChan <- struct{}{}`, and the worker starts
  permit :
      {t : Task} {us : List Task}
      → t.stage ≡ held
      → p.permits < max_fetch_workers
      → Moves t (record t { stage = working }) p.tasks us
      → Step p (record p { dispatcher = idle; permits = p.permits + 1; tasks = us })
  -- the worker's send, or none when the context is done and nobody receives
  answer :
      {t : Task} {us : List Task}
      → t.stage ≡ working
      → Moves t (record t { stage = answered; sends = t.sends + 1 }) p.tasks us
      → Step p (record p { tasks = us })
  answer_silent :
      {t : Task} {us : List Task}
      → t.stage ≡ working
      → t.cancelled ≡ true
      → Moves t (record t { stage = answered }) p.tasks us
      → Step p (record p { tasks = us })
  -- the deferred function: `close(task.ResChan)` and `<-workersChan`
  close :
      {t : Task} {us : List Task}
      → t.stage ≡ answered
      → Moves t (record t { stage = closed; closes = t.closes + 1 }) p.tasks us
      → Step p (record p { tasks = us })
  release :
      {t : Task} {us : List Task}
      → t.stage ≡ closed
      → 0 < p.permits
      → Moves t (record t { stage = finished }) p.tasks us
      → Step p (record p { permits = p.permits - 1; tasks = us })

pub data Run : Pool → Pool → Type 0 where
  start : {p : Pool} → Run p p
  next : {p q s : Pool} → Step p q → Run q s → Run p s

abbrev pub new_eth_node : Pool
new_eth_node = record { dispatcher = idle; permits = 0; stopped = false; tasks = [] }
