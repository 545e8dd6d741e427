-- ===== src/Network/Node/Workers.antt =====
-- How many workers run, and what happens to a channel.
use ethereum_fetcher.Prelude.{ℕ, ◌+◌, ◌-◌, ◌≤◌, ◌≡◌, refl, ◌∙◌, List, [], ◌∷◌, All, arith}
use ethereum_fetcher.Network.Node.{
  Stage, scheduling, refused, held, abandoned, dropped, working, answered, closed, finished, Task,
  Dispatcher, idle, busy, gone, Pool, Moves, here, there, Step, call, cancel, stop, hand_over,
  refuse, abandon_sent, abandon_silent, drop, drop_last, quit, permit, answer, answer_silent, close,
  release, Run, start, next, new_eth_node, max_fetch_workers,
}

-- whether a task in this stage has a worker, and whether the dispatcher has it
abbrev pub permits_of : Stage → ℕ
permits_of working = 1
permits_of answered = 1
permits_of closed = 1
permits_of _ = 0

abbrev pub held_by : Stage → ℕ
held_by held = 1
held_by abandoned = 1
held_by _ = 0

abbrev pub held_now : Dispatcher → ℕ
held_now busy = 1
held_now _ = 0

abbrev pub sum : (Stage → ℕ) → List Task → ℕ
sum f [] = 0
sum f (t ∷ ts) = f t.stage + sum f ts

-- the closes that a task in this stage has had, and the sends that it may have had
abbrev pub closes_of : Stage → ℕ
closes_of refused = 1
closes_of dropped = 1
closes_of closed = 1
closes_of finished = 1
closes_of _ = 0

abbrev pub sends_of : Stage → ℕ
sends_of scheduling = 0
sends_of refused = 0
sends_of held = 0
sends_of working = 0
sends_of _ = 1

-- A channel is closed at most once and sent on at most once, and nothing is sent before its stage.
abbrev pub IsProper : Task → Type 0
IsProper t = (t.closes ≡ closes_of t.stage) × (t.sends ≤ sends_of t.stage)

-- Every permit is a task that has a worker, there are at most as many as the limit, the dispatcher
-- has a task exactly when it is busy, and all channels are proper.
abbrev pub IsSound : Pool → Type 0
IsSound p =
    (p.permits ≡ sum permits_of p.tasks)
    × (p.permits ≤ max_fetch_workers)
    × (sum held_by p.tasks ≡ held_now p.dispatcher)
    × All IsProper p.tasks

Moves-sum :
    (f : Stage → ℕ) {t t' : Task} {ts us : List Task}
    → Moves t t' ts us
    → sum f us + f t.stage ≡ sum f ts + f t'.stage
Moves-sum f here = omega arith
Moves-sum f (there m) = omega (arith, Moves-sum f m)

Moves-All :
    (P : Task → Type 0) {t t' : Task} {ts us : List Task}
    → Moves t t' ts us
    → (P t → P t')
    → All P ts
    → All P us
Moves-All P here f (p, ps) = (f p, ps)
Moves-All P (there m) f (p, ps) = (p, Moves-All P m f ps)

move_sums :
    {t t' : Task} {ts us : List Task} {a b : Stage}
    → Moves t t' ts us
    → t.stage ≡ a
    → t'.stage ≡ b
    → (sum permits_of us + permits_of a ≡ sum permits_of ts + permits_of b)
      × (sum held_by us + held_by a ≡ sum held_by ts + held_by b)
move_sums m e e' = (rw (← e, ← e') (Moves-sum permits_of m), rw (← e, ← e') (Moves-sum held_by m))

held_now-le : (d : Dispatcher) → held_now d ≤ 1
held_now-le idle = omega arith
held_now-le busy = omega arith
held_now-le gone = omega arith

-- A move from the stage `a` to the stage `b`, with its closes and sends, keeps a channel proper.
IsProper-move :
    (t t' : Task) {a b : Stage} (c s : ℕ)
    → t.stage ≡ a
    → t'.stage ≡ b
    → t'.closes ≡ t.closes + c
    → t'.sends ≡ t.sends + s
    → closes_of b ≡ closes_of a + c
    → sends_of a + s ≤ sends_of b
    → IsProper t
    → IsProper t'
IsProper-move t t' c s e e' hc hs kc ks (pc, ps) =
    (rw e' (hc ∙ omega (arith, rw e at pc)), rw e' (omega (arith, rw e at ps)))

-- A pool stays sound when a task moves and the dispatcher and the permits follow it.
IsSound-move :
    (p : Pool) (d : Dispatcher) (n : ℕ) {t t' : Task} {us : List Task} {a b : Stage} (c s : ℕ)
    → IsSound p
    → Moves t t' p.tasks us
    → t.stage ≡ a
    → t'.stage ≡ b
    → t'.closes ≡ t.closes + c
    → t'.sends ≡ t.sends + s
    → closes_of b ≡ closes_of a + c
    → sends_of a + s ≤ sends_of b
    → n + permits_of a ≡ p.permits + permits_of b
    → n ≤ max_fetch_workers
    → held_now d + held_by a ≡ held_now p.dispatcher + held_by b
    → IsSound (record p { dispatcher = d; permits = n; tasks = us })
IsSound-move p d n {t} {t'} c s (w, l, h, proper) m e e' hc hs kc ks kp kl kd =
    let (x, y) = move_sums m e e' in
    (
      omega arith,
      kl,
      omega arith,
      Moves-All IsProper m (IsProper-move t t' c s e e' hc hs kc ks) proper,
    )

-- The dispatcher that holds a task is busy.
holder_is_busy :
    (p : Pool) {t t' : Task} {us : List Task} {a b : Stage}
    → IsSound p
    → Moves t t' p.tasks us
    → t.stage ≡ a
    → t'.stage ≡ b
    → held_by a ≡ 1
    → held_by b ≡ 0
    → held_now p.dispatcher ≡ 1
holder_is_busy p (w, l, h, proper) m e e' k k' =
    omega (arith, (move_sums m e e').1, held_now-le p.dispatcher)

Step-IsSound : {p q : Pool} → Step p q → IsSound p → IsSound q
Step-IsSound call (w, l, h, a) = (omega arith, l, omega arith, ((refl, omega arith), a))
Step-IsSound (cancel m) (w, l, h, a) =
    let (x, y) = move_sums m refl refl in
    (omega arith, l, omega arith, Moves-All IsProper m (λ k. k) a)
Step-IsSound stop i = i
Step-IsSound {p} (hand_over d e m) i =
    IsSound-move p busy p.permits 0 0 i m e refl (omega arith) (omega arith) refl (omega arith)
      (omega arith) i.1 (rw d (omega arith))
Step-IsSound {p} (refuse e c m) i =
    IsSound-move p p.dispatcher p.permits 1 0 i m e refl refl (omega arith) refl (omega arith)
      (omega arith) i.1 (omega arith)
Step-IsSound {p} (abandon_sent e c m) i =
    IsSound-move p p.dispatcher p.permits 0 1 i m e refl (omega arith) refl refl (omega arith)
      (omega arith) i.1 (omega arith)
Step-IsSound {p} (abandon_silent e c m) i =
    IsSound-move p p.dispatcher p.permits 0 0 i m e refl (omega arith) (omega arith) refl
      (omega arith) (omega arith) i.1 (omega arith)
Step-IsSound {p} (drop e m) i =
    IsSound-move p idle p.permits 1 0 i m e refl refl (omega arith) refl (omega arith) (omega arith)
      i.1 (omega (arith, holder_is_busy p i m e refl refl refl))
Step-IsSound {p} (drop_last e c m) i =
    IsSound-move p gone p.permits 1 0 i m e refl refl (omega arith) refl (omega arith) (omega arith)
      i.1 (omega (arith, holder_is_busy p i m e refl refl refl))
Step-IsSound (quit d c) (w, l, h, a) = (w, l, h ∙ rw d refl, a)
Step-IsSound {p} (permit e free m) i =
    IsSound-move p idle (p.permits + 1) 0 0 i m e refl (omega arith) (omega arith) refl
      (omega arith) (omega arith) (omega arith)
      (omega (arith, holder_is_busy p i m e refl refl refl))
Step-IsSound {p} (answer e m) i =
    IsSound-move p p.dispatcher p.permits 0 1 i m e refl (omega arith) refl refl (omega arith)
      (omega arith) i.1 (omega arith)
Step-IsSound {p} (answer_silent e c m) i =
    IsSound-move p p.dispatcher p.permits 0 0 i m e refl (omega arith) (omega arith) refl
      (omega arith) (omega arith) i.1 (omega arith)
Step-IsSound {p} (close e m) i =
    IsSound-move p p.dispatcher p.permits 1 0 i m e refl refl (omega arith) refl (omega arith)
      (omega arith) i.1 (omega arith)
Step-IsSound {p} (release e there_is m) i =
    IsSound-move p p.dispatcher (p.permits - 1) 0 0 i m e refl (omega arith) (omega arith) refl
      (omega arith) (omega arith) (omega (arith, i.1)) (omega arith)

Run-IsSound : {p q : Pool} → Run p q → IsSound p → IsSound q
Run-IsSound start i = i
Run-IsSound (next st r) i = Run-IsSound r (Step-IsSound st i)

-- However calls, cancellations, the dispatcher and the workers interleave from the start on, at
-- most 20 tasks have a worker and each of them has one permit, the dispatcher has at most one task,
-- and each task's channel has been closed exactly as often as its stage says, at most once, and
-- sent on at most once, and not before it was given up or a worker was done.
pub workers_bound :
    {p : Pool}
    → Run new_eth_node p
    → (sum permits_of p.tasks ≤ max_fetch_workers)
      × (p.permits ≡ sum permits_of p.tasks)
      × (sum held_by p.tasks ≡ held_now p.dispatcher)
      × All IsProper p.tasks
workers_bound r =
    let (w, l, h, a) = Run-IsSound r (refl, omega arith, refl, tt) in (omega arith, w, h, a)
