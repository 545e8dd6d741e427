-- ===== src/Server/Running/Ends.antt =====
-- How `Run` ends.
use ethereum_fetcher.Prelude.{ℕ, zero, suc, ◌≡◌, ◌≢◌, refl, ◌∙◌, ◌⊎◌, inl, inr, true, false}
use ethereum_fetcher.Server.Running.{
  Watcher, watching, shutting, ended, serving, returned, Server, new_server, Step, accept, answered,
  cancel, shut_down, leave, all_answered, timed_out, closed, closed_late, listen_failed, Run, here,
  then,
}

shutting≢watching : shutting ≢ watching
shutting≢watching p = cc

ended≢watching : ended ≢ watching
ended≢watching p = cc

ended≢shutting : ended ≢ shutting
ended≢shutting p = cc

-- What holds throughout: the goroutine has left its `select` for one of its two reasons, and `Run`
-- has returned because it left, or because the server failed.
record IsSound (s : Server) : Type 0 where
  shutting_cancelled : s.watcher ≡ shutting → s.cancelled ≡ true
  ended_why : s.watcher ≡ ended → (s.cancelled ≡ true) ⊎ (s.done_closed ≡ true)
  returned_why : s.caller ≡ returned → (s.cancelled ≡ true) ⊎ (s.done_closed ≡ true)

Step-IsSound : {s t : Server} → Step s t → IsSound s → IsSound t
Step-IsSound (accept h) i = record {
  shutting_cancelled = i.shutting_cancelled;
  ended_why = i.ended_why;
  returned_why = i.returned_why;
}
Step-IsSound (answered h) i = record {
  shutting_cancelled = i.shutting_cancelled;
  ended_why = i.ended_why;
  returned_why = i.returned_why;
}
Step-IsSound cancel i = record {
  shutting_cancelled = λ e. refl;
  ended_why = λ e. inl refl;
  returned_why = λ e. inl refl;
}
Step-IsSound (shut_down h c) i = record {
  shutting_cancelled = λ e. c;
  ended_why = λ e. inl c;
  returned_why = λ e. inl c;
}
Step-IsSound (leave h d) i = record {
  shutting_cancelled = λ e. cc;
  ended_why = λ e. inr d;
  returned_why = λ e. inr d;
}
Step-IsSound (all_answered h z) i = record {
  shutting_cancelled = λ e. cc;
  ended_why = λ e. inl (i.shutting_cancelled h);
  returned_why = i.returned_why;
}
Step-IsSound (timed_out h) i = record {
  shutting_cancelled = λ e. cc;
  ended_why = λ e. inl (i.shutting_cancelled h);
  returned_why = i.returned_why;
}
Step-IsSound (closed c h) i = record {
  shutting_cancelled = i.shutting_cancelled;
  ended_why = i.ended_why;
  returned_why = λ e. inl (i.shutting_cancelled h);
}
Step-IsSound (closed_late c h) i = record {
  shutting_cancelled = i.shutting_cancelled;
  ended_why = i.ended_why;
  returned_why = λ e. i.ended_why h;
}
Step-IsSound (listen_failed c l) i = record {
  shutting_cancelled = i.shutting_cancelled;
  ended_why = λ e. inr refl;
  returned_why = λ e. inr refl;
}

Run-IsSound : {s : Server} → Run new_server s → IsSound s
Run-IsSound here = record {
  shutting_cancelled = λ e. cc;
  ended_why = λ e. cc;
  returned_why = λ e. cc;
}
Run-IsSound (then run step) = Step-IsSound step (Run-IsSound run)

watcher-cases : (w : Watcher) → (w ≡ watching) ⊎ ((w ≡ shutting) ⊎ (w ≡ ended))
watcher-cases watching = inl refl
watcher-cases shutting = inr (inl refl)
watcher-cases ended = inr (inr refl)

-- `Run` has returned only if the context was cancelled or the server has failed, and then its
-- goroutine is over or has a step to take that brings it further.
pub returned-Step :
    (s : Server)
    → Run new_server s
    → s.caller ≡ returned
    → ((s.cancelled ≡ true) ⊎ (s.done_closed ≡ true))
      × ((s.watcher ≡ ended) ⊎ ((t : Server) × Step s t × (t.watcher ≢ s.watcher)))
returned-Step s run e =
    let why = (Run-IsSound run).returned_why e in
    (
      why,
      elim (watcher-cases s.watcher) [
        | inl waits ↦ elim why [
          | inl cancelled ↦ inr (
            record s { watcher = shutting; listening = false },
            shut_down waits cancelled,
            λ p. shutting≢watching (p ∙ waits),
          )
          | inr failed ↦
              inr
                (record s { watcher = ended }, leave waits failed, λ p. ended≢watching (p ∙ waits))
        ]
        | inr (inl shuts) ↦
            inr (record s { watcher = ended }, timed_out shuts, λ p. ended≢shutting (p ∙ shuts))
        | inr (inr over) ↦ inl over
      ],
    )

-- However many requests are being answered, `Run` may return before any of them is, while
-- `Shutdown` waits for them.
pub returned_early :
    (n : ℕ)
    → (s : Server) × Run new_server s
      × (s.caller ≡ returned)
      × (s.watcher ≡ shutting)
      × (s.in_flight ≡ n)
returned_early n =
    let (s, run, busy, fresh) = accepted n in
    (
      record s { cancelled = true; watcher = shutting; listening = false; caller = returned },
      then (then (then run cancel) (shut_down fresh.0 refl)) (closed fresh.1 refl),
      refl,
      refl,
      busy,
    )
  where
    accepted :
        (n : ℕ)
        → (s : Server) × Run new_server s
          × (s.in_flight ≡ n)
          × ((s.watcher ≡ watching) × (s.caller ≡ serving) × (s.listening ≡ true))
    accepted zero = (new_server, here, refl, (refl, refl, refl))
    accepted (suc n) =
        let (s, run, busy, (waits, serves, listens)) = accepted n in
        (
          record s { in_flight = suc s.in_flight },
          then run (accept listens),
          λ i. suc (busy i),
          (waits, serves, listens),
        )
