-- ===== src/LoadProbe/Workers/Taken.antt =====
-- What a worker does with one answer.
use enigma_behemoth.Prelude.{
  ℕ, ◌+◌, ◌≡◌, refl, String, Option, some, List, [], ◌∷◌, ◌++◌, leb, eqb, length, length-append,
  arith, inl, inr, Bool-cases,
}
use enigma_behemoth.LoadProbe.{Answer, transport_error, status, Tally, count_answer, count_answers}
use enigma_behemoth.LoadProbe.Verdict.{latencies, below, below-append, latencies-cons}
use enigma_behemoth.LoadProbe.Workers.{testing, Worker, Probe, take_answer}

-- The text of the last transport error.
abbrev pub last_error : List Answer → Option String → Option String
last_error [] old = old
last_error (transport_error text ∷ rest) old = last_error rest (some text)
last_error (status code elapsed ∷ rest) old = last_error rest old

-- The four counters of two tallies.
abbrev pub SameCounts : Tally → Tally → Type 0
SameCounts t u =
    (t.succeeded ≡ u.succeeded)
    × (t.transport_errors ≡ u.transport_errors)
    × (t.s503 ≡ u.s503)
    × (t.s5xx ≡ u.s5xx)

pub count_answers-append :
    (as_left : List Answer) (a : Answer) (t : Tally)
    → count_answers (as_left ++ a ∷ []) t ≡ count_answer a (count_answers as_left t)
unfolding count_answers
count_answers-append [] a t = refl
count_answers-append (x ∷ xs) a t = count_answers-append xs a (count_answer x t)

pub last_error-append :
    (as_left : List Answer) (a : Answer) (old : Option String)
    → last_error (as_left ++ a ∷ []) old ≡ last_error (a ∷ []) (last_error as_left old)
last_error-append [] a old = refl
last_error-append (transport_error text ∷ xs) a old = last_error-append xs a (some text)
last_error-append (status code elapsed ∷ xs) a old = last_error-append xs a old

pub latencies-append :
    (b : ℕ) (xs ys : List Answer)
    → (below b (latencies (xs ++ ys)) ≡ below b (latencies xs) + below b (latencies ys))
      × (length (latencies (xs ++ ys)) ≡ length (latencies xs) + length (latencies ys))
latencies-append b [] ys = (omega arith, omega arith)
latencies-append b (x ∷ xs) ys =
    let r = latencies-append b xs ys in
    let one = latencies-cons b x xs in
    let all = latencies-cons b x (xs ++ ys) in
    (omega (arith, r.0, one.0, all.0), omega (arith, r.1, one.1, all.1))

-- What a worker does with an answer, beside what the answer comes to in a tally.
pub record IsTaken (a : Answer) (w : Worker) (p : Probe) (t : Tally) (r : Worker × Probe)
    : Type 0 where
  pub tested : r.0.phase ≡ testing
  pub kept : r.1.tally.lats ≡ p.tally.lats
  pub logged : r.1.answers ≡ p.answers ++ a ∷ []
  pub sampled : r.1.sample ≡ last_error (a ∷ []) p.sample
  pub counts : SameCounts r.1.tally (count_answer a t)
  pub fast : (b : ℕ) → below b r.0.local ≡ below b w.local + below b (latencies (a ∷ []))
  pub many : length r.0.local ≡ length w.local + length (latencies (a ∷ []))

pub take_answer-IsTaken :
    (a : Answer) (w : Worker) (p : Probe) (t : Tally)
    → SameCounts p.tally t
    → IsTaken a w p t (take_answer a w p)
unfolding take_answer count_answer
take_answer-IsTaken (transport_error text) w p t (s, e, u, v) = record {
  tested = refl;
  kept = refl;
  logged = refl;
  sampled = refl;
  counts = (s, omega (arith, e), u, v);
  fast = λ b. omega arith;
  many = omega arith;
}
take_answer-IsTaken (status code elapsed) w p t (s, e, u, v) = elim (Bool-cases (eqb code 503)) [
  | inl h ↦ rw h (record {
    tested = refl;
    kept = refl;
    logged = refl;
    sampled = refl;
    counts = rw (h, count_answer) (s, e, omega (arith, u), v);
    fast = λ b. ground (arith, h);
    many = ground (arith, h);
  })
  | inr h ↦ elim (Bool-cases (leb 500 code)) [
    | inl g ↦
        rw (h, g)
          (record {
            tested = refl;
            kept = refl;
            logged = refl;
            sampled = refl;
            counts = rw (h, g, count_answer) (s, e, u, omega (arith, v));
            fast = λ b. ground (arith, g);
            many = ground (arith, g);
          })
    | inr g ↦
        rw (h, g)
          (record {
            tested = refl;
            kept = refl;
            logged = refl;
            sampled = refl;
            counts = rw (h, g, count_answer) (omega (arith, s), e, u, v);
            fast = λ b. ground (arith, g, below-append b w.local (elapsed ∷ []));
            many = ground (arith, g, length-append w.local (elapsed ∷ []));
          })
  ]
]
