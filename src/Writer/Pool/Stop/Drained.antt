-- ===== src/Writer/Pool/Stop/Drained.antt =====
-- Stop returns, and then every request that was submitted is in a committed batch.
use enigma_behemoth.Prelude.{
  ℕ, zero, suc, ◌+◌, ◌<◌, ◌≡◌, refl, ap, subst, List, [], ◌∷◌, ◌++◌, Bool, true, false, All, arith,
  length,
}
use enigma_behemoth.Writer.{
  WriteReq, WriterConfig, LoopState, Outcome, closed, received, timer_fired, round, flush,
  new_writer,
}
use enigma_behemoth.Writer.Loop.{IsBatch, IsWaiting, concat}
use enigma_behemoth.Writer.Pool.{Pool, start, idle_loops, Work, takes, fires, Turn}
use enigma_behemoth.Writer.Pool
use enigma_behemoth.Writer.Pool.Kept.{
  IsKept, tally, tally_loops, tally_loops-append, All-append, All-parts, round-IsKept, Work-IsKept,
  Turn-IsKept, start-IsKept,
}
use enigma_behemoth.Writer.Pool.Told.{told, waits, answers, told-answers}
use enigma_behemoth.Writer.Pool.Stop
use enigma_behemoth.Writer.Pool.Stop.{
  Writer, started, close, leave, Drain, works, leaves, Shift, turns, stops, drains, Shifts, Drains,
}

-- The pool is kept, the loops that wait and those that have left are all there are, and a loop has left only
-- from a closed and empty channel.
record IsSound (cfg : WriterConfig) (w : Writer) : Type 0 where
  pub kept : IsKept cfg w.pool
  pub loops : length (w.pool).loops + w.ended ≡ (new_writer cfg).concurrency
  pub empty : (0 < w.ended) → (w.is_closed ≡ true) × ((w.pool).queue ≡ [])

open_closed : {b : Bool} → b ≡ false → b ≡ true → ⊥
open_closed h k = cc

length-loops :
    (xs ys : List LoopState) (s : LoopState) → length (xs ++ s ∷ ys) ≡ suc (length (xs ++ ys))
length-loops [] ys s = refl
length-loops (x ∷ xs) ys s = omega (arith, length-loops xs ys s)

flush-empties :
    (b : List WriteReq) (t : Bool) → (flush (record { batch = b; timer_active = t })).0.batch ≡ []
unfolding flush
flush-empties [] t = refl
flush-empties (r ∷ rs) t = refl

closed-flushes : (n : ℕ) (s : LoopState) → (round n closed s).0.batch ≡ []
unfolding round
closed-flushes n s = flush-empties s.batch s.timer_active

length-idle_loops : (n : ℕ) → length (idle_loops n) ≡ n
unfolding idle_loops
length-idle_loops zero = refl
length-idle_loops (suc n) = omega (arith, length-idle_loops n)

new_writer-positive : (cfg : WriterConfig) → 0 < (new_writer cfg).concurrency
unfolding new_writer
new_writer-positive cfg = ground arith

module _ (cfg : WriterConfig) (room : 0 < cfg.max_batch) where
  -- A step of a loop keeps the number of loops and takes nothing from an empty channel but nothing.
  Work-frame :
      {p q : Pool}
      → Work cfg p q
      → (length q.loops ≡ length p.loops) × (p.queue ≡ [] → q.queue ≡ [])
  Work-frame (takes r rest xs ys s p oldest eq) = (
    omega (
      arith,
      ap length eq,
      length-loops xs ys s,
      length-loops xs ys (round cfg.max_batch (received r) s).0,
    ),
    λ none. ground (arith, none, oldest),
  )
  Work-frame (fires xs ys s p eq on) = (
    omega (
      arith,
      ap length eq,
      length-loops xs ys s,
      length-loops xs ys (round cfg.max_batch timer_fired s).0,
    ),
    λ none. none,
  )

  Turn-frame : {p q : Pool} → Turn cfg p q → length q.loops ≡ length p.loops
  Turn-frame (Pool.submits r p full) = refl
  Turn-frame (Pool.works p q step) = (Work-frame step).0

  -- A loop without a batch can go.
  without :
      (xs ys : List LoopState) (s : LoopState) (p : Pool)
      → p.loops ≡ xs ++ s ∷ ys
      → s.batch ≡ []
      → IsKept cfg p
      → IsKept cfg (record p { loops = xs ++ ys })
  without xs ys s p eq none k =
      let parts =
        All-parts (IsWaiting cfg.max_batch) xs (s ∷ ys)
          (subst (All (IsWaiting cfg.max_batch)) eq k.waiting) in
      record {
        kept = λ w. omega (
          arith,
          k.kept w,
          ap (tally_loops w) eq,
          ap (tally w) none,
          tally_loops-append w xs (s ∷ ys),
          tally_loops-append w xs ys,
        );
        waiting = All-append (IsWaiting cfg.max_batch) xs ys parts.0 parts.1.1;
        batches = k.batches;
        bounded = k.bounded;
      }

  leave-IsKept :
      (xs ys : List LoopState) (s : LoopState) (w : Writer)
      → (w.pool).loops ≡ xs ++ s ∷ ys
      → IsKept cfg w.pool
      → IsKept cfg (leave cfg xs s ys w).pool
  unfolding leave
  leave-IsKept xs ys s w eq k =
      without xs ys _ _ refl (closed-flushes cfg.max_batch s) (
        round-IsKept cfg room closed xs ys s w.pool (w.pool).queue eq (λ v. omega arith) k.bounded
          k)

  Drain-IsSound :
      {a b : Writer} → a.is_closed ≡ true → Drain cfg a b → IsSound cfg a → IsSound cfg b
  unfolding leave
  Drain-IsSound shut (works q w step) v =
      let frame = Work-frame step in
      record {
        kept = Work-IsKept cfg room step v.kept;
        loops = omega (arith, frame.0, v.loops);
        empty = λ some. (shut, frame.1 (v.empty some).1);
      }
  Drain-IsSound shut (leaves xs ys s w none eq) v = record {
    kept = leave-IsKept xs ys s w eq v.kept;
    loops = omega (arith, ap length eq, length-loops xs ys s, v.loops);
    empty = λ some. (shut, none);
  }

  Shift-IsSound : {a b : Writer} → Shift cfg a b → IsSound cfg a → IsSound cfg b
  unfolding close
  Shift-IsSound (turns q w open_yet step) v = record {
    kept = Turn-IsKept cfg room step v.kept;
    loops = omega (arith, Turn-frame step, v.loops);
    empty = λ some. absurd (open_closed open_yet (v.empty some).0);
  }
  Shift-IsSound (stops w) v = record {
    kept = v.kept;
    loops = v.loops;
    empty = λ some. (refl, (v.empty some).1);
  }
  Shift-IsSound (drains w w' shut step) v = Drain-IsSound shut step v

  Shifts-IsSound : {a b : Writer} → Shifts cfg a b → IsSound cfg a → IsSound cfg b
  Shifts-IsSound (Stop.here w) v = v
  Shifts-IsSound (Stop.next a b c ss step) v = Shift-IsSound step (Shifts-IsSound ss v)

  started-IsSound : IsSound cfg (started cfg)
  unfolding start
  started-IsSound = record {
    kept = start-IsKept cfg room;
    loops = omega (arith, length-idle_loops (new_writer cfg).concurrency);
    empty = λ some. absurd (omega arith);
  }

-- Once all loops have left, which Stop waits for, in any interleaving of Submit, the loops and Stop: the
-- channel is closed and empty, each request that was submitted is once in a committed batch, and nothing
-- else is, each of these batches has between one and `max_batch` requests, and, however the commits end,
-- each waiter is sent one answer for each of its requests that was submitted.
pub drained :
    (cfg : WriterConfig) (w : Writer)
    → 0 < cfg.max_batch
    → Shifts cfg (started cfg) w
    → (w.pool).loops ≡ []
    → (w.is_closed ≡ true)
      × ((w.pool).queue ≡ [])
      × ((v : WriteReq → ℕ) → tally v (w.pool).submitted ≡ tally v (concat (w.pool).committed))
      × All (IsBatch cfg.max_batch) (w.pool).committed
      × ((outs : ℕ → Outcome) (d : ℕ)
          → told d (answers outs 0 (w.pool).committed) ≡ tally (waits d) (w.pool).submitted)
drained cfg w room run gone =
    let v = Shifts-IsSound cfg room run (started-IsSound cfg room) in
    let all_left : 0 < w.ended = omega (arith, ap length gone, v.loops, new_writer-positive cfg) in
    let (shut, none) = v.empty all_left in
    (
      shut,
      none,
      λ t. omega (arith, (v.kept).kept t, ap (tally_loops t) gone, ap (tally t) none),
      (v.kept).batches,
      λ outs d. omega (
        arith,
        told-answers d outs 0 (w.pool).committed,
        (v.kept).kept (waits d),
        ap (tally_loops (waits d)) gone,
        ap (tally (waits d)) none,
      ),
    )
