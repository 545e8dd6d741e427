-- ===== src/Process/Shutdown.antt =====
-- cmd/terminate.go: `InitShutdownHandler` and its goroutine, with the server that they end.
pub mod Ends
use ethereum_fetcher.Prelude.{◌≡◌, Bool, true, false}
use ethereum_fetcher.Server.Running.{Server, new_server, Step}

-- The goroutine: at the receive, before `cancel()`, or over.
pub data Stage : Type 0 where
  waiting received over : Stage

-- `notified` is whether `signal.Notify` has run, and `pending` whether a signal is in the channel,
-- which holds one. A signal that comes before ends the process: `killed`.
pub record Program : Type 0 where
  pub notified : Bool
  pub pending : Bool
  pub stage : Stage
  pub killed : Bool
  pub server : Server

abbrev pub new_program : Program
new_program = record {
  notified = false;
  pending = false;
  stage = waiting;
  killed = false;
  server = new_server;
}

-- `cancel()` is the one step that cancels the context of the server.
pub data Move (p : Program) : Program → Type 0 where
  notify : p.killed ≡ false → p.notified ≡ false → Move p (record p { notified = true })
  kill : p.killed ≡ false → p.notified ≡ false → Move p (record p { killed = true })
  deliver :
      p.killed ≡ false
      → p.notified ≡ true
      → p.pending ≡ false
      → Move p (record p { pending = true })
  -- a signal for which there is no room in the channel is dropped
  drop : p.killed ≡ false → p.notified ≡ true → p.pending ≡ true → Move p p
  receive :
      p.killed ≡ false
      → p.stage ≡ waiting
      → p.pending ≡ true
      → Move p (record p { pending = false; stage = received })
  cancel :
      p.killed ≡ false
      → p.stage ≡ received
      → Move p (record p { stage = over; server = record p.server { cancelled = true } })
  -- `Run` is called after `InitShutdownHandler`
  serve :
      {t : Server}
      → p.killed ≡ false
      → p.notified ≡ true
      → Step p.server t
      → t.cancelled ≡ p.server.cancelled
      → Move p (record p { server = t })

pub data Moves (p : Program) : Program → Type 0 where
  here : Moves p p
  more : {q r : Program} → Moves p q → Move q r → Moves p r
