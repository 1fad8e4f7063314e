-- ===== src/Writer/Pool/Kept.antt =====
-- No interleaving of the loops loses or repeats a request.
use enigma_behemoth.Prelude.{
  ℕ, zero, suc, ◌+◌, ◌<◌, ◌≤◌, ◌≡◌, refl, ap, subst, List, [], ◌∷◌, ◌++◌, All, arith, length,
  length-append,
}
use enigma_behemoth.Writer.{
  WriteReq, WriterConfig, LoopState, Event, received, timer_fired, round, new_writer,
}
use enigma_behemoth.Writer.Loop.{
  IsWaiting, IsBatch, concat, arrived, round-IsWaiting, round-IsBatch, round-keeps,
}
use enigma_behemoth.Writer.Pool.{
  Pool, start, idle_loops, Work, takes, fires, Turn, submits, works, Runs, here, next,
}

-- The sum of a weight over requests, over the batches of the loops, and over batches.
abbrev pub tally : (WriteReq → ℕ) → List WriteReq → ℕ
tally w [] = 0
tally w (r ∷ rs) = w r + tally w rs

abbrev pub tally_loops : (WriteReq → ℕ) → List LoopState → ℕ
tally_loops w [] = 0
tally_loops w (s ∷ ss) = tally w s.batch + tally_loops w ss

pub tally-append :
    (w : WriteReq → ℕ) (xs ys : List WriteReq) → tally w (xs ++ ys) ≡ tally w xs + tally w ys
tally-append w [] ys = omega arith
tally-append w (x ∷ xs) ys = omega (arith, tally-append w xs ys)

pub tally_loops-append :
    (w : WriteReq → ℕ) (xs ys : List LoopState)
    → tally_loops w (xs ++ ys) ≡ tally_loops w xs + tally_loops w ys
tally_loops-append w [] ys = omega arith
tally_loops-append w (x ∷ xs) ys = omega (arith, tally_loops-append w xs ys)

pub tally-concat :
    (w : WriteReq → ℕ) (xs ys : List (List WriteReq))
    → tally w (concat (xs ++ ys)) ≡ tally w (concat xs) + tally w (concat ys)
tally-concat w [] ys = omega arith
tally-concat w (x ∷ xs) ys = omega (
  arith,
  tally-concat w xs ys,
  tally-append w x (concat xs),
  tally-append w x (concat (xs ++ ys)),
)

-- Whatever is counted, what was submitted is what is in the channel, in the loops and in the committed
-- batches; each loop waits with less than a batch and with a timer; each batch is within its limit.
pub record IsKept (cfg : WriterConfig) (p : Pool) : Type 0 where
  pub kept :
      (w : WriteReq → ℕ)
      → tally w p.submitted
        ≡ tally w p.queue + (tally_loops w p.loops + tally w (concat p.committed))
  pub waiting : All (IsWaiting cfg.max_batch) p.loops
  pub batches : All (IsBatch cfg.max_batch) p.committed
  pub bounded : length p.queue ≤ cfg.queue_size

module _ {A : Type 0} (P : A → Type 0) where
  pub All-append : (xs ys : List A) → All P xs → All P ys → All P (xs ++ ys)
  All-append [] ys hx hy = hy
  All-append (x ∷ xs) ys hx hy = (hx.0, All-append xs ys hx.1 hy)

  pub All-parts : (xs ys : List A) → All P (xs ++ ys) → All P xs × All P ys
  All-parts [] ys h = (tt, h)
  All-parts (x ∷ xs) ys h = let r = All-parts xs ys h.1 in ((h.0, r.0), r.1)

module _ (cfg : WriterConfig) (room : 0 < cfg.max_batch) where
  -- A round of one loop between the others.
  pub round-IsKept :
      (e : Event) (xs ys : List LoopState) (s : LoopState) (p : Pool) (queue : List WriteReq)
      → p.loops ≡ xs ++ s ∷ ys
      → ((w : WriteReq → ℕ)
          → tally w p.queue ≡ tally w queue + tally w (arrived cfg.max_batch room e))
      → length queue ≤ cfg.queue_size
      → IsKept cfg p
      → IsKept cfg (record p {
        queue = queue;
        loops = xs ++ (round cfg.max_batch e s).0 ∷ ys;
        committed = p.committed ++ (round cfg.max_batch e s).1;
      })
  round-IsKept e xs ys s p queue eq moved short k =
      let q = round cfg.max_batch e s in
      let parts =
        All-parts (IsWaiting cfg.max_batch) xs (s ∷ ys)
          (subst (All (IsWaiting cfg.max_batch)) eq k.waiting) in
      record {
        kept = λ w. omega (
          arith,
          k.kept w,
          moved w,
          ap (tally_loops w) eq,
          tally_loops-append w xs (s ∷ ys),
          tally_loops-append w xs (q.0 ∷ ys),
          tally-concat w p.committed q.1,
          ap (tally w) (round-keeps cfg.max_batch room e s),
          tally-append w (concat q.1) q.0.batch,
          tally-append w s.batch (arrived cfg.max_batch room e),
        );
        waiting =
            All-append (IsWaiting cfg.max_batch) xs (q.0 ∷ ys) parts.0
              (round-IsWaiting cfg.max_batch room e s parts.1.0, parts.1.1);
        batches =
            All-append (IsBatch cfg.max_batch) p.committed q.1 k.batches
              (round-IsBatch cfg.max_batch room e s parts.1.0);
        bounded = short;
      }

  pub Work-IsKept : {a b : Pool} → Work cfg a b → IsKept cfg a → IsKept cfg b
  Work-IsKept (takes r rest xs ys s p oldest eq) k =
      round-IsKept (received r) xs ys s p rest eq (λ w. omega (arith, ap (tally w) oldest))
        (omega (arith, ap length oldest, k.bounded)) k
  Work-IsKept (fires xs ys s p eq on) k =
      round-IsKept timer_fired xs ys s p p.queue eq (λ w. omega arith) k.bounded k

  pub Turn-IsKept : {a b : Pool} → Turn cfg a b → IsKept cfg a → IsKept cfg b
  Turn-IsKept (submits r p full) k = record {
    kept = λ w.
        omega
          (arith, k.kept w, tally-append w p.queue (r ∷ []), tally-append w p.submitted (r ∷ []));
    waiting = k.waiting;
    batches = k.batches;
    bounded = ground (arith, full, length-append p.queue (r ∷ []));
  }
  Turn-IsKept (works p q step) k = Work-IsKept step k

  idle_loops-IsWaiting :
      (n : ℕ)
      → All (IsWaiting cfg.max_batch) (idle_loops n)
        × ((w : WriteReq → ℕ) → tally_loops w (idle_loops n) ≡ 0)
  unfolding idle_loops
  idle_loops-IsWaiting zero = (tt, λ w. refl)
  idle_loops-IsWaiting (suc n) =
      let r = idle_loops-IsWaiting n in
      ((record { short = room; timed = refl }, r.0), λ w. omega (arith, r.1 w))

  Runs-keeps : {a b : Pool} → Runs cfg a b → IsKept cfg a → IsKept cfg b
  Runs-keeps (here p) k = k
  Runs-keeps (next a b c p s) k = Turn-IsKept s (Runs-keeps p k)

pub start-IsKept : (cfg : WriterConfig) → 0 < cfg.max_batch → IsKept cfg (start cfg)
unfolding start
start-IsKept cfg room =
    let begin = idle_loops-IsWaiting cfg room (new_writer cfg).concurrency in
    record {
      kept = λ w. omega (arith, begin.1 w);
      waiting = begin.0;
      batches = tt;
      bounded = omega arith;
    }

-- In every state that Submit and the loops of Start reach, in any interleaving, each request that was
-- submitted is once in the channel, in the batch of a loop or in a committed batch, and nothing else is;
-- each loop waits with less than a batch, with its timer running exactly if it holds a request; each
-- committed batch has between one and `max_batch` requests; and the channel is within its size.
pub Runs-IsKept :
    (cfg : WriterConfig) (p : Pool) → 0 < cfg.max_batch → Runs cfg (start cfg) p → IsKept cfg p
Runs-IsKept cfg p room run = Runs-keeps cfg room run (start-IsKept cfg room)
