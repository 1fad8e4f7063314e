-- ===== src/Writer/Pool/Stop/Ends.antt =====
-- Stop returns: once the channel is closed, the loops take a bounded number of steps until all have left.
use mathlib.Core.Logic.{◌⊎◌, inl, inr}
use enigma_behemoth.Prelude.{
  ℕ, ◌+◌, ◌*◌, ◌<◌, ◌≤◌, ◌≡◌, refl, ap, List, [], ◌∷◌, ◌++◌, false, arith, length, if◌then◌else◌,
}
use enigma_behemoth.Writer.{WriteReq, WriterConfig, LoopState, received, timer_fired, round, flush}
use enigma_behemoth.Writer.Pool.{takes, fires}
use enigma_behemoth.Writer.Pool.Stop
use enigma_behemoth.Writer.Pool.Stop.{Writer, close, leave, Drain, works, leaves, Drains}

-- A loop counts once, and once more while its timer runs.
abbrev pub weight : List LoopState → ℕ
weight [] = 0
weight (s ∷ ss) = (if s.timer_active then 2 else 1) + weight ss

-- What bounds the steps that are left.
abbrev pub work_left : Writer → ℕ
work_left w = 2 * length (w.pool).queue + weight (w.pool).loops

weight-append : (xs ys : List LoopState) → weight (xs ++ ys) ≡ weight xs + weight ys
weight-append [] ys = omega arith
weight-append (x ∷ xs) ys = omega (arith, weight-append xs ys)

flush-stops :
    (b : List WriteReq)
    → (flush (record { batch = b; timer_active = false })).0.timer_active ≡ false
unfolding flush
flush-stops [] = refl
flush-stops (r ∷ rs) = refl

fires-stops : (n : ℕ) (s : LoopState) → (round n timer_fired s).0.timer_active ≡ false
unfolding round
fires-stops n s = flush-stops s.batch

module _ (cfg : WriterConfig) where
  -- Each step leaves less work.
  Drain-falls : {a b : Writer} → Drain cfg a b → work_left b < work_left a
  unfolding leave
  Drain-falls (works q w (takes r rest xs ys s p oldest eq)) = ground (
    arith,
    ap weight eq,
    ap length oldest,
    weight-append xs (s ∷ ys),
    weight-append xs ((round cfg.max_batch (received r) s).0 ∷ ys),
  )
  Drain-falls (works q w (fires xs ys s p eq on)) = ground (
    arith,
    ap weight eq,
    fires-stops cfg.max_batch s,
    weight-append xs (s ∷ ys),
    weight-append xs ((round cfg.max_batch timer_fired s).0 ∷ ys),
  )
  Drain-falls (leaves xs ys s w none eq) =
      ground (arith, ap weight eq, weight-append xs (s ∷ ys), weight-append xs ys)

  Drains-bounded : (n : ℕ) {a b : Writer} → Drains cfg n a b → n ≤ work_left a
  Drains-bounded n (Stop.here w) = omega arith
  Drains-bounded n (Stop.next k a b c step rest) =
      omega (arith, Drain-falls step, Drains-bounded k rest)

  go_on :
      (queue : List WriteReq) (loops : List LoopState) (w : Writer)
      → (w.pool).queue ≡ queue
      → (w.pool).loops ≡ loops
      → ((w.pool).loops ≡ []) ⊎ ((w' : Writer) × Drain cfg w w')
  go_on queue [] w q l = inl l
  go_on [] (s ∷ ss) w q l = inr (_, leaves [] ss s w q l)
  go_on (r ∷ rest) (s ∷ ss) w q l = inr (_, works _ w (takes r rest [] ss s w.pool q l))

-- After Stop has closed the channel, in whatever state the writer is: the loops take at most `work_left`
-- steps, in any interleaving, and after any steps either all loops have left, so that Stop returns, or some
-- loop can take a step. So Stop does not wait for ever.
pub close_ends :
    (cfg : WriterConfig) (n : ℕ) (w w' : Writer)
    → Drains cfg n (close w) w'
    → (n ≤ work_left (close w)) × (((w'.pool).loops ≡ []) ⊎ ((w'' : Writer) × Drain cfg w' w''))
close_ends cfg n w w' run =
    (Drains-bounded cfg n run, go_on cfg (w'.pool).queue (w'.pool).loops w' refl refl)
