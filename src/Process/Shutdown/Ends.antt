-- ===== src/Process/Shutdown/Ends.antt =====
-- From a signal to the end of `Run`.
use ethereum_fetcher.Prelude.{
  ◌≡◌, ◌≢◌, refl, sym, ◌∙◌, ◌⊎◌, inl, inr, true, false, Bool-cases, false≢true,
}
use ethereum_fetcher.Server.Running.{
  Watcher, watching, shutting, ended, Caller, serving, returned, Server, new_server, Step,
  shut_down, closed, closed_late, leave, Run,
}
use ethereum_fetcher.Server.Running as Running
use ethereum_fetcher.Server.Running.Ends.{returned-Step}
use ethereum_fetcher.Process.Shutdown.{
  Stage, waiting, received, over, Program, new_program, Move, notify, kill, deliver, drop, receive,
  cancel, serve, Moves, here, more,
}

-- The steps of the server in a run of the program.
Moves-Run : {p : Program} → Moves new_program p → Run new_server p.server
Moves-Run here = Running.here
Moves-Run (more moves (notify k n)) = Moves-Run moves
Moves-Run (more moves (kill k n)) = Moves-Run moves
Moves-Run (more moves (deliver k n e)) = Moves-Run moves
Moves-Run (more moves (drop k n e)) = Moves-Run moves
Moves-Run (more moves (receive k w e)) = Moves-Run moves
Moves-Run (more moves (cancel k r)) = Running.then (Moves-Run moves) Running.cancel
Moves-Run (more moves (serve k n step same)) = Running.then (Moves-Run moves) step

-- A signal has come to the handler.
abbrev pub IsHeard : Program → Type 0
IsHeard p = (p.pending ≡ true) ⊎ (p.stage ≢ waiting)

record IsSound (p : Program) : Type 0 where
  heard_notified : IsHeard p → p.notified ≡ true
  killed_before : p.killed ≡ true → p.notified ≡ false
  over_cancelled : p.stage ≡ over → p.server.cancelled ≡ true
  cancelled_over : p.server.cancelled ≡ true → p.stage ≡ over

Move-IsSound : {p q : Program} → Move p q → IsSound p → IsSound q
Move-IsSound (notify k n) i = record {
  heard_notified = λ h. refl;
  killed_before = λ e. cc;
  over_cancelled = i.over_cancelled;
  cancelled_over = i.cancelled_over;
}
Move-IsSound (kill k n) i = record {
  heard_notified = i.heard_notified;
  killed_before = λ e. n;
  over_cancelled = i.over_cancelled;
  cancelled_over = i.cancelled_over;
}
Move-IsSound (deliver k n e) i = record {
  heard_notified = λ h. n;
  killed_before = i.killed_before;
  over_cancelled = i.over_cancelled;
  cancelled_over = i.cancelled_over;
}
Move-IsSound (drop k n e) i = i
Move-IsSound (receive k w e) i = record {
  heard_notified = λ h. i.heard_notified (inl e);
  killed_before = i.killed_before;
  over_cancelled = λ h. cc;
  cancelled_over = λ h. let was_over = i.cancelled_over h in cc;
}
Move-IsSound (cancel k r) i = record {
  heard_notified = λ h. i.heard_notified (inr λ w. cc);
  killed_before = i.killed_before;
  over_cancelled = λ h. refl;
  cancelled_over = λ h. refl;
}
Move-IsSound (serve k n step same) i = record {
  heard_notified = i.heard_notified;
  killed_before = i.killed_before;
  over_cancelled = λ h. same ∙ i.over_cancelled h;
  cancelled_over = λ h. i.cancelled_over (sym same ∙ h);
}

Moves-IsSound : {p : Program} → Moves new_program p → IsSound p
Moves-IsSound here = record {
  heard_notified = λ h. elim h [ inl e ↦ cc | inr w ↦ absurd (w refl) ];
  killed_before = λ e. cc;
  over_cancelled = λ e. cc;
  cancelled_over = λ e. cc;
}
Moves-IsSound (more moves move) = Move-IsSound move (Moves-IsSound moves)

caller-cases : (c : Caller) → (c ≡ serving) ⊎ (c ≡ returned)
caller-cases serving = inl refl
caller-cases returned = inr refl

watcher-cases : (w : Watcher) → (w ≡ watching) ⊎ ((w ≡ shutting) ⊎ (w ≡ ended))
watcher-cases watching = inl refl
watcher-cases shutting = inr (inl refl)
watcher-cases ended = inr (inr refl)

stage-cases : (t : Stage) → (t ≡ waiting) ⊎ ((t ≡ received) ⊎ (t ≡ over))
stage-cases waiting = inl refl
stage-cases received = inr (inl refl)
stage-cases over = inr (inr refl)

alive : {p : Program} → IsSound p → IsHeard p → p.killed ≡ false
alive {p} i h = elim (Bool-cases p.killed) [
  | inl killed ↦ absurd (false≢true (i.killed_before killed) (i.heard_notified h))
  | inr not_killed ↦ not_killed
]

-- `Run` of the web server has returned only if a signal has come to the handler or the server has
-- failed, and a program to which a signal has come is not killed by one.
pub returned_why :
    (p : Program)
    → Moves new_program p
    → (p.server.caller ≡ returned → IsHeard p ⊎ (p.server.done_closed ≡ true))
      × (IsHeard p → p.killed ≡ false)
returned_why p moves =
    let i = Moves-IsSound moves in
    (
      λ e. elim ((returned-Step p.server (Moves-Run moves) e).0) [
        | inl cancelled ↦ let done = i.cancelled_over cancelled in inl (inr λ w. cc)
        | inr failed ↦ inr failed
      ],
      alive i,
    )

-- A program that goes on from `p` until `Run` has returned.
abbrev pub CanReturn : Program → Type 0
CanReturn p = (q : Program) × Moves p q × (q.server.caller ≡ returned)

module _ (s : Program) where
  -- once the context is cancelled
  from_over :
      (p : Program)
      → Moves s p
      → p.killed ≡ false
      → p.notified ≡ true
      → p.server.cancelled ≡ true
      → CanReturn s
  from_over p moves k n c = elim (caller-cases p.server.caller) [
    | inr done ↦ (p, moves, done)
    | inl serves ↦ elim (watcher-cases p.server.watcher) [
      | inl waits ↦
          let shut : Server = record p.server { watcher = shutting; listening = false } in
          (
            record p { server = record shut { caller = returned } },
            more (more moves (serve k n (shut_down waits c) refl))
                (serve k n (closed serves refl) refl),
            refl,
          )
      | inr (inl shuts) ↦ (
        record p { server = record p.server { caller = returned } },
        more moves (serve k n (closed serves shuts) refl),
        refl,
      )
      | inr (inr gone) ↦ (
        record p { server = record p.server { caller = returned } },
        more moves (serve k n (closed_late serves gone) refl),
        refl,
      )
    ]
  ]

  from_received :
      (p : Program)
      → Moves s p
      → p.killed ≡ false
      → p.notified ≡ true
      → p.stage ≡ received
      → CanReturn s
  from_received p moves k n r =
      from_over (record p { stage = over; server = record p.server { cancelled = true } })
        (more moves (cancel k r)) k n refl

  from_waiting :
      (p : Program)
      → Moves s p
      → p.killed ≡ false
      → p.notified ≡ true
      → p.stage ≡ waiting
      → p.pending ≡ true
      → CanReturn s
  from_waiting p moves k n w e =
      from_received (record p { pending = false; stage = received }) (more moves (receive k w e)) k
        n refl

-- When a signal has come to the handler, the goroutines of the program have steps that end `Run`,
-- wherever they stand.
pub heard_returns : (p : Program) → Moves new_program p → IsHeard p → CanReturn p
heard_returns p moves h =
    let i = Moves-IsSound moves in
    let k = alive i h in
    let n = i.heard_notified h in
    elim (stage-cases p.stage) [
      | inl waits ↦ elim h [
        | inl there ↦ from_waiting p p here k n waits there
        | inr left ↦ absurd (left waits)
      ]
      | inr (inl got) ↦ from_received p p here k n got
      | inr (inr done) ↦ from_over p p here k n (i.over_cancelled done)
    ]
