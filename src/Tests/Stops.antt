-- ===== src/Tests/Stops.antt =====
-- A run of the writer up to the end of Stop.
use enigma_behemoth.Prelude.{ℕ, ◌≤◌, ◌≡◌, ◌⊎◌, refl, [], ◌∷◌, true, arith, All}
use enigma_behemoth.Writer.{WriteReq, WriterConfig, LoopState, Outcome, idle, round, new_writer}
use enigma_behemoth.Writer.Loop.{IsBatch, concat}
use enigma_behemoth.Writer.Pool.{start, idle_loops, submits, takes}
use enigma_behemoth.Writer.Pool.Kept.{tally}
use enigma_behemoth.Writer.Pool.Told.{told, waits, answers}
use enigma_behemoth.Writer.Pool.Stop.{
  Writer, started, close, leave, Drain, works, leaves, turns, stops, drains, Shifts, Drains,
}
use enigma_behemoth.Writer.Pool.Stop
use enigma_behemoth.Writer.Pool.Stop.Drained.{drained}
use enigma_behemoth.Writer.Pool.Stop.Ends.{work_left, close_ends}
use enigma_behemoth.Errors.{opaque}
use enigma_behemoth.Postgres.Batch.{ack_lost}
use enigma_behemoth.Writer.Durable.{
  Attempt, calls, unheard_all, commit_all, IsDurable, drained-IsDurable,
}
use enigma_behemoth.Tests.Data.{waiting, tables}

-- A concurrency of zero means one loop.
abbrev one_loop : WriterConfig
one_loop = record { queue_size = 4; max_batch = 2; concurrency = 0 }

abbrev holding : LoopState
holding = record { batch = waiting ∷ []; timer_active = true }

-- A request is submitted, Stop closes the channel, the loop takes the request, and leaves.
abbrev submitted_one : Writer
submitted_one = record (started one_loop) {
  pool = record (start one_loop) { queue = waiting ∷ []; submitted = waiting ∷ [] };
}

abbrev taken_one : Writer
taken_one = record (close submitted_one) {
  pool = record (submitted_one.pool) { queue = []; loops = holding ∷ [] };
}

abbrev stopped : Writer
stopped = leave one_loop [] holding [] taken_one

takes_one : Drain one_loop (close submitted_one) taken_one
unfolding close start idle_loops new_writer round
takes_one =
    works (taken_one.pool) (close submitted_one)
      (takes waiting [] [] [] idle (submitted_one.pool) refl refl)

leaves_one : Drain one_loop taken_one stopped
leaves_one = leaves [] [] holding taken_one refl refl

closed_run : Shifts one_loop (started one_loop) (close submitted_one)
unfolding start
closed_run =
    Stop.next _ _ _
      (Stop.next _ _ _ (Stop.here (started one_loop))
        (turns submitted_one.pool (started one_loop) refl (submits waiting (start one_loop) refl)))
      (stops submitted_one)

stopped_run : Shifts one_loop (started one_loop) stopped
unfolding close
stopped_run =
    Stop.next _ _ _ (Stop.next _ _ _ closed_run (drains _ _ refl takes_one))
      (drains _ _ refl leaves_one)

drained_example :
    (stopped.is_closed ≡ true)
    × ((stopped.pool).queue ≡ [])
    × ((v : WriteReq → ℕ)
        → tally v (stopped.pool).submitted ≡ tally v (concat (stopped.pool).committed))
    × All (IsBatch 2) (stopped.pool).committed
    × ((outs : ℕ → Outcome) (d : ℕ)
        → told d (answers outs 0 (stopped.pool).committed)
          ≡ tally (waits d) (stopped.pool).submitted)
unfolding leave
drained_example = drained one_loop stopped (omega arith) stopped_run refl

close_ends_example :
    (2 ≤ work_left (close submitted_one))
    × (((stopped.pool).loops ≡ []) ⊎ ((w : Writer) × Drain one_loop stopped w))
close_ends_example =
    close_ends one_loop 2 submitted_one stopped
      (Drains.next 1 _ _ _ takes_one (Drains.next 0 _ _ _ leaves_one (Drains.here stopped)))

-- The answer to COMMIT is lost.
abbrev unlucky : ℕ → Attempt
unlucky n = calls (ack_lost (opaque "eof")) (λ ks. ks) (λ ks. ks) 9

drained-IsDurable_example :
    IsDurable
      (λ d. unheard_all d unlucky 0 (stopped.pool).committed)
      (stopped.pool).submitted
      tables
      (commit_all unlucky 0 (stopped.pool).committed tables)
unfolding leave
drained-IsDurable_example =
    drained-IsDurable one_loop stopped unlucky tables (omega arith) stopped_run refl
