-- ===== src/Server/Running.antt =====
-- internal/server/webapi.go: `Run`, the goroutine that it starts, and the server of net/http, whose
-- `ListenAndServe` returns `ErrServerClosed` as soon as `Shutdown` is called, while `Shutdown`
-- waits for the requests that are being answered.
pub mod Ends
mod Tests
use ethereum_fetcher.Prelude.{ℕ, suc, ◌≡◌, Bool, true, false}

-- The goroutine: in its `select`, in `Shutdown`, or over.
pub data Watcher : Type 0 where
  watching shutting ended : Watcher

-- `Run` itself.
pub data Caller : Type 0 where
  serving returned : Caller

-- `cancelled` is whether `web.ctx` is done, `done_closed` whether `httpServerDone` is closed.
pub record Server : Type 0 where
  pub cancelled : Bool
  pub done_closed : Bool
  pub listening : Bool
  pub in_flight : ℕ
  pub watcher : Watcher
  pub caller : Caller

abbrev pub new_server : Server
new_server = record {
  cancelled = false;
  done_closed = false;
  listening = true;
  in_flight = 0;
  watcher = watching;
  caller = serving;
}

pub data Step (s : Server) : Server → Type 0 where
  accept : s.listening ≡ true → Step s (record s { in_flight = suc s.in_flight })
  answered : {n : ℕ} → s.in_flight ≡ suc n → Step s (record s { in_flight = n })
  -- a signal cancels the context
  cancel : Step s (record s { cancelled = true })
  -- `case <-web.ctx.Done()`, and `Shutdown` closes the listener
  shut_down :
      s.watcher ≡ watching
      → s.cancelled ≡ true
      → Step s (record s { watcher = shutting; listening = false })
  -- `case <-httpServerDone`
  leave : s.watcher ≡ watching → s.done_closed ≡ true → Step s (record s { watcher = ended })
  -- `Shutdown` returns: nothing is being answered, or its two seconds are over
  all_answered : s.watcher ≡ shutting → s.in_flight ≡ 0 → Step s (record s { watcher = ended })
  timed_out : s.watcher ≡ shutting → Step s (record s { watcher = ended })
  -- `ListenAndServe` returns `ErrServerClosed`
  closed : s.caller ≡ serving → s.watcher ≡ shutting → Step s (record s { caller = returned })
  closed_late : s.caller ≡ serving → s.watcher ≡ ended → Step s (record s { caller = returned })
  -- `ListenAndServe` returns another error
  listen_failed :
      s.caller ≡ serving
      → s.listening ≡ true
      → Step s (record s { caller = returned; done_closed = true; listening = false })

pub data Run (s : Server) : Server → Type 0 where
  here : Run s s
  then : {t u : Server} → Run s t → Step t u → Run s u
