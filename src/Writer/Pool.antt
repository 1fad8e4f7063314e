-- ===== src/Writer/Pool.antt =====
-- Start: several loops that receive from one channel, in any interleaving.
pub mod Kept
pub mod Told
pub mod Stop
use enigma_behemoth.Prelude.{ℕ, zero, suc, ◌≡◌, List, [], ◌∷◌, ◌++◌, true, length, ltb}
use enigma_behemoth.Writer.{
  WriteReq, WriterConfig, LoopState, idle, received, timer_fired, round, new_writer,
}

-- `submitted` is the history of what Submit has queued, `committed` that of the batches handed to commit.
pub record Pool : Type 0 where
  pub queue : List WriteReq
  pub loops : List LoopState
  pub committed : List (List WriteReq)
  pub submitted : List WriteReq

unfoldable pub idle_loops : ℕ → List LoopState
idle_loops zero = []
idle_loops (suc n) = idle ∷ idle_loops n

-- NewWriter and Start.
unfoldable pub start : WriterConfig → Pool
unfolding idle_loops
start cfg = record {
  queue = [];
  loops = idle_loops (new_writer cfg).concurrency;
  committed = [];
  submitted = [];
}

-- One loop receives the oldest request, or its timer fires. The loop stands between the others, `xs` and
-- `ys`.
pub data Work (cfg : WriterConfig) : Pool → Pool → Type 0 where
  takes :
      (r : WriteReq) (rest : List WriteReq) (xs ys : List LoopState) (s : LoopState) (p : Pool)
      → p.queue ≡ r ∷ rest
      → p.loops ≡ xs ++ s ∷ ys
      → Work cfg p (record p {
        queue = rest;
        loops = xs ++ (round cfg.max_batch (received r) s).0 ∷ ys;
        committed = p.committed ++ (round cfg.max_batch (received r) s).1;
      })
  fires :
      (xs ys : List LoopState) (s : LoopState) (p : Pool)
      → p.loops ≡ xs ++ s ∷ ys
      → s.timer_active ≡ true
      → Work cfg p (record p {
        loops = xs ++ (round cfg.max_batch timer_fired s).0 ∷ ys;
        committed = p.committed ++ (round cfg.max_batch timer_fired s).1;
      })

-- One Submit queues its request, or one loop works.
pub data Turn (cfg : WriterConfig) : Pool → Pool → Type 0 where
  submits :
      (r : WriteReq) (p : Pool)
      → ltb (length p.queue) cfg.queue_size ≡ true
      → Turn cfg p (record p { queue = p.queue ++ r ∷ []; submitted = p.submitted ++ r ∷ [] })
  works : (p q : Pool) → Work cfg p q → Turn cfg p q

pub data Runs (cfg : WriterConfig) : Pool → Pool → Type 0 where
  here : (p : Pool) → Runs cfg p p
  next : (a b c : Pool) → Runs cfg a b → Turn cfg b c → Runs cfg a c
