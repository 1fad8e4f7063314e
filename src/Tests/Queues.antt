-- ===== src/Tests/Queues.antt =====
-- Runs of the writer's loop and of the reconciler.
use enigma_behemoth.Prelude.{◌≡◌, refl, List, [], ◌∷◌, ◌++◌, arith, All}
use enigma_behemoth.Writer.{Event, received, closed, timer_fired, idle, loop, round}
use enigma_behemoth.Writer.Loop.{IsBatch, IsWaiting, concat, requests, loop_total}
use enigma_behemoth.Writer.{WriterConfig, new_writer}
use enigma_behemoth.Writer.Pool.{Pool, Runs, start, idle_loops, submits, takes, works}
use enigma_behemoth.Writer.Pool
use enigma_behemoth.Writer.Pool.Kept.{IsKept, Runs-IsKept}
use enigma_behemoth.Recovery.Reconcile.{
  Reconciler, new_reconciler, mark, send, marks, sends, Reaches, here, next,
}
use enigma_behemoth.Recovery.Reconcile.Coalesce.{IsCoalesced, Reaches-IsCoalesced}
use enigma_behemoth.Tests.Data.{waiting}

-- Three requests, the timer, a fourth request, and the end.
abbrev events : List Event
events =
    received waiting ∷ received waiting ∷ received waiting ∷ timer_fired ∷ received waiting ∷ []

loop_total_example :
    let p = loop 2 events idle in
    All (IsBatch 2) p.1 × (concat p.1 ++ p.0.batch ≡ requests events) × IsWaiting 2 p.0
loop_total_example = loop_total 2 events (omega arith)

-- The batches of the run: two, then the one that the timer flushes, then the one at the end.
loop_run :
    (loop 2 (events ++ closed ∷ []) idle).1
    ≡ (waiting ∷ waiting ∷ []) ∷ (waiting ∷ []) ∷ (waiting ∷ []) ∷ []
unfolding loop round
loop_run = refl

-- A boss is enqueued twice, sent once, and received.
abbrev after_marks : Reconciler
after_marks = mark "b" (mark "b" new_reconciler)

abbrev after_send : Reconciler
after_send = send "b" after_marks

marked_twice : Reaches new_reconciler after_marks
marked_twice =
    next _ _ _ (next _ _ _ (here new_reconciler) (marks "b" new_reconciler)) (marks "b" _)

sent_once : Reaches new_reconciler after_send
unfolding mark send
sent_once = next _ _ _ marked_twice (sends "b" after_marks refl)

Reaches-IsCoalesced_example : IsCoalesced after_send
Reaches-IsCoalesced_example = Reaches-IsCoalesced after_send sent_once

-- Two loops, batches of two: one request is submitted and the second loop takes it.
abbrev two_loops : WriterConfig
two_loops = record { queue_size = 4; max_batch = 2; concurrency = 2 }

abbrev submitted_one : Pool
submitted_one = record (start two_loops) { queue = waiting ∷ []; submitted = waiting ∷ [] }

abbrev taken_one : Pool
taken_one = record submitted_one {
  queue = [];
  loops = idle ∷ (round 2 (received waiting) idle).0 ∷ [];
  committed = [];
}

taken : Runs two_loops (start two_loops) taken_one
unfolding start idle_loops round new_writer
taken =
    Pool.next _ _ _
      (Pool.next _ _ _ (Pool.here (start two_loops)) (submits waiting (start two_loops) refl))
      (works _ _ (takes waiting [] (idle ∷ []) [] idle submitted_one refl refl))

Runs-IsKept_example : IsKept two_loops taken_one
Runs-IsKept_example = Runs-IsKept two_loops taken_one (omega arith) taken
