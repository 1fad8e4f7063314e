-- ===== src/Writer/Pool/Told.antt =====
-- What the waiters of committed batches are told: `commit` sends each one answer, however it ends.
use enigma_behemoth.Prelude.{
  ℕ, suc, ◌+◌, ◌≡◌, refl, Option, List, [], ◌∷◌, ◌++◌, eqb, arith, if◌then◌else◌,
}
use enigma_behemoth.Errors.{Err}
use enigma_behemoth.Writer.{WriteReq, Outcome, commit}
use enigma_behemoth.Writer.Loop.{concat}
use enigma_behemoth.Writer.Pool.Kept.{tally, tally-append}

-- How often a waiter is sent an answer.
abbrev pub told : ℕ → List (ℕ × Option Err) → ℕ
told d [] = 0
told d ((e, a) ∷ rest) = (if eqb e d then 1 else 0) + told d rest

-- The requests of a waiter.
abbrev pub waits : ℕ → WriteReq → ℕ
waits d r = if eqb r.done d then 1 else 0

-- The answers to all batches, of which batch `n` ends as `outs n` says.
abbrev pub answers : (ℕ → Outcome) → ℕ → List (List WriteReq) → List (ℕ × Option Err)
answers outs n [] = []
answers outs n (b ∷ bs) = commit (outs n) b ++ answers outs (suc n) bs

told-append : (d : ℕ) (xs ys : List (ℕ × Option Err)) → told d (xs ++ ys) ≡ told d xs + told d ys
told-append d [] ys = omega arith
told-append d ((e, a) ∷ xs) ys = omega (arith, told-append d xs ys)

told-commit :
    (d : ℕ) (out : Outcome) (batch : List WriteReq)
    → told d (commit out batch) ≡ tally (waits d) batch
unfolding commit
told-commit d out [] = refl
told-commit d out (r ∷ rs) = omega (arith, told-commit d out rs)

pub told-answers :
    (d : ℕ) (outs : ℕ → Outcome) (n : ℕ) (bs : List (List WriteReq))
    → told d (answers outs n bs) ≡ tally (waits d) (concat bs)
told-answers d outs n [] = refl
told-answers d outs n (b ∷ bs) = omega (
  arith,
  told-append d (commit (outs n) b) (answers outs (suc n) bs),
  told-commit d (outs n) b,
  told-answers d outs (suc n) bs,
  tally-append (waits d) b (concat bs),
)
