-- ===== src/Writer/Pool/Stop.antt =====
-- Writer.Stop beside the loops of Start: the channel is closed once, and each loop leaves when it finds the
-- channel closed and empty.
pub mod Drained
pub mod Ends
use enigma_behemoth.Prelude.{ℕ, suc, ◌+◌, ◌≡◌, List, [], ◌∷◌, ◌++◌, Bool, true, false}
use enigma_behemoth.Writer.{WriterConfig, LoopState, closed, round}
use enigma_behemoth.Writer.Pool.{Pool, start, Work, Turn}

-- The pool, whether the channel is closed, and how many loops have called `wg.Done`.
pub record Writer : Type 0 where
  pub pool : Pool
  pub is_closed : Bool
  pub ended : ℕ

abbrev pub started : WriterConfig → Writer
started cfg = record { pool = start cfg; is_closed = false; ended = 0 }

-- The first part of Stop, under closeOne.
unfoldable pub close : Writer → Writer
close w = record w { is_closed = true }

-- A loop that receives from the closed channel: the last flush, and the return.
unfoldable pub leave : WriterConfig → List LoopState → LoopState → List LoopState → Writer → Writer
leave cfg xs s ys w = record w {
  pool = record (w.pool) {
    loops = xs ++ ys;
    committed = (w.pool).committed ++ (round cfg.max_batch closed s).1;
  };
  ended = suc w.ended;
}

-- What the loops do once the channel is closed.
pub data Drain (cfg : WriterConfig) : Writer → Writer → Type 0 where
  works : (q : Pool) (w : Writer) → Work cfg w.pool q → Drain cfg w (record w { pool = q })
  leaves :
      (xs ys : List LoopState) (s : LoopState) (w : Writer)
      → (w.pool).queue ≡ []
      → (w.pool).loops ≡ xs ++ s ∷ ys
      → Drain cfg w (leave cfg xs s ys w)

-- Submit and the loops before Stop, Stop, and the loops after it. A send on the closed channel would
-- panic, so nothing is submitted after Stop.
pub data Shift (cfg : WriterConfig) : Writer → Writer → Type 0 where
  turns :
      (q : Pool) (w : Writer)
      → w.is_closed ≡ false
      → Turn cfg w.pool q
      → Shift cfg w (record w { pool = q })
  stops : (w : Writer) → Shift cfg w (close w)
  drains : (w w' : Writer) → w.is_closed ≡ true → Drain cfg w w' → Shift cfg w w'

pub data Shifts (cfg : WriterConfig) : Writer → Writer → Type 0 where
  here : (w : Writer) → Shifts cfg w w
  next : (a b c : Writer) → Shifts cfg a b → Shift cfg b c → Shifts cfg a c

-- So many steps of the loops after the close.
pub data Drains (cfg : WriterConfig) : ℕ → Writer → Writer → Type 0 where
  here : (w : Writer) → Drains cfg 0 w w
  next : (n : ℕ) (a b c : Writer) → Drain cfg a b → Drains cfg n b c → Drains cfg (suc n) a c
