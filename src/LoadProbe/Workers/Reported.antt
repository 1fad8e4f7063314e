-- ===== src/LoadProbe/Workers/Reported.antt =====
-- The report of the probe, against the answers counted one after another.
use enigma_behemoth.Prelude.{
  ℕ, suc, ◌+◌, ◌≤◌, ◌≡◌, refl, sym, ap, ◌∙◌, String, Option, none, List, [], ◌∷◌, ◌||◌, ltb, eqb,
  length, arith, inl, inr, Bool-cases, if◌then◌else◌,
}
use enigma_behemoth.LoadProbe.{
  Answer, transport_error, status, Tally, no_requests, count_answer, count_answers, sort_lats,
  limit, verdict,
}
use enigma_behemoth.LoadProbe.Verdict.{
  latencies, below, chosen, AtLeast, IsSorted, sort_lats-IsSorted, below-sort_lats, below_none,
  count_answers-lats, verdict-below,
}
use enigma_behemoth.LoadProbe.Workers.{
  Probe, Settings, settings, start_workers, PostOutcome, Runs, here, next, AllGone,
}
use enigma_behemoth.LoadProbe.Workers.Taken.{last_error, SameCounts}
use enigma_behemoth.LoadProbe.Workers.Counted.{
  IsCounted, Runs-IsCounted, start_workers-IsCounted, AllGone-held,
}
use enigma_behemoth.LoadProbe.Workers.Report.{report, exit_code}

head_le :
    (x y : ℕ) (xs ys : List ℕ)
    → AtLeast x xs
    → below (suc y) (x ∷ xs) ≡ below (suc y) (y ∷ ys)
    → x ≤ y
head_le x y xs ys least same = elim (Bool-cases (ltb y x)) [
  | inl e ↦ absurd (ground (arith, e, same, below_none (suc y) x xs (ground (arith, e)) least))
  | inr e ↦ ground (arith, e)
]

-- Sorted lists with as many entries below every bound are the same.
sorted_unique :
    (xs ys : List ℕ)
    → IsSorted xs
    → IsSorted ys
    → ((b : ℕ) → below b xs ≡ below b ys)
    → length xs ≡ length ys
    → xs ≡ ys
sorted_unique [] [] s t same long = refl
sorted_unique [] (y ∷ ys) s t same long = absurd (omega (arith, long))
sorted_unique (x ∷ xs) [] s t same long = absurd (omega (arith, long))
sorted_unique (x ∷ xs) (y ∷ ys) s t same long =
    let eq : x ≡ y =
      omega
        (arith, head_le x y xs ys s.0 (same (suc y)), head_le y x ys xs t.0 (sym (same (suc x)))) in
    let rest : (b : ℕ) → below b xs ≡ below b ys =
      λ b. omega (arith, same b, ap {B = ℕ} (λ n. if ltb n b then 1 else 0) eq) in
    λ i. eq i ∷ sorted_unique xs ys s.1 t.1 rest (omega (arith, long)) i

sort_lats_unique :
    (xs ys : List ℕ)
    → ((b : ℕ) → below b xs ≡ below b ys)
    → length xs ≡ length ys
    → sort_lats xs ≡ sort_lats ys
sort_lats_unique xs ys same long =
    sorted_unique (sort_lats xs) (sort_lats ys) (sort_lats-IsSorted xs) (sort_lats-IsSorted ys)
      (λ b. omega (arith, same b, (below-sort_lats b xs).0, (below-sort_lats b ys).0))
      (omega (arith, long, (below-sort_lats 0 xs).1, (below-sort_lats 0 ys).1))

-- A report does not depend on the order of the latencies.
report_unique :
    (index rate : ℕ → ℕ → ℕ) (s : Settings) (t u : Tally) (sample : Option String)
    → SameCounts t u
    → sort_lats t.lats ≡ sort_lats u.lats
    → report index rate s t sample ≡ report index rate s u sample
unfolding report
report_unique index rate s t u sample (a, b, c, d) e = rw (a, b, c, d, e) refl

-- The requests that are counted.
abbrev total_of : Tally → ℕ
total_of t = t.succeeded + (t.transport_errors + t.s503 + t.s5xx)

count_answer-total : (a : Answer) (t : Tally) → total_of (count_answer a t) ≡ suc (total_of t)
unfolding count_answer
count_answer-total (transport_error text) t = omega arith
count_answer-total (status code elapsed) t = ground arith

count_answers-total :
    (as_left : List Answer) (t : Tally)
    → total_of (count_answers as_left t) ≡ length as_left + total_of t
unfolding count_answers
count_answers-total [] t = omega arith
count_answers-total (a ∷ as_left) t =
    omega (arith, count_answers-total as_left (count_answer a t), count_answer-total a t)

-- What the report says of the answers.
pub record IsReported (index rate : ℕ → ℕ → ℕ) (s : Settings) (p : Probe) : Type 0 where
  pub sequential :
      report index rate s p.tally p.sample
      ≡ report index rate s (count_answers p.answers no_requests) (last_error p.answers none)
  pub total : (report index rate s p.tally p.sample).total ≡ length p.answers
  pub code : exit_code (report index rate s p.tally p.sample) ≡ (
      let lats = latencies p.answers in
      let n = length lats in
      if eqb n 0 || ltb (chosen (index 990) n) (below limit lats) then 0 else 1)

IsCounted-sort_lats :
    (p : Probe)
    → IsCounted p
    → AllGone p.workers
    → sort_lats p.tally.lats ≡ sort_lats (count_answers p.answers no_requests).lats
IsCounted-sort_lats p c g =
    sort_lats_unique p.tally.lats (count_answers p.answers no_requests).lats
      (λ b. omega (
        arith,
        c.fast b,
        (AllGone-held b p.workers g).0,
        (count_answers-lats b p.answers no_requests).0,
      ))
      (omega (
        arith,
        c.many,
        (AllGone-held 0 p.workers g).1,
        (count_answers-lats 0 p.answers no_requests).1,
      ))

-- When all workers have ended, in any interleaving, the report is that of the answers counted one after
-- another, in the order in which they were counted; its total is their number; and the exit code is 0 if
-- and only if no request succeeded, or more requests succeeded in under 100 ms than the index of the 99th
-- percentile.
pub Runs-IsReported :
    (index rate : ℕ → ℕ → ℕ) (lookup : String → String) (now : ℕ) (quote : String → List ℕ)
    (may : List ℕ → PostOutcome → Type 0) (p : Probe)
    → Runs quote may (settings lookup).boss (start_workers (settings lookup) now) p
    → AllGone p.workers
    → IsReported index rate (settings lookup) p
unfolding report exit_code verdict
Runs-IsReported index rate lookup now quote may p run g =
    let s = settings lookup in
    let c = Runs-IsCounted quote may s.boss run (start_workers-IsCounted s now) in
    let sorted = IsCounted-sort_lats p c g in
    let same =
      report_unique index rate s p.tally (count_answers p.answers no_requests) p.sample c.counts
        sorted
      ∙ ap (report index rate s (count_answers p.answers no_requests)) c.sampled in
    record {
      sequential = same;
      total = omega (arith, c.counts, count_answers-total p.answers no_requests);
      code =
          ap exit_code same
          ∙ ap {B = ℕ} (λ b. if b then 0 else 1) (verdict-below (index 990) p.answers);
    }

pub Runs-trans :
    {quote : String → List ℕ} {may : List ℕ → PostOutcome → Type 0} {boss : String} {a b c : Probe}
    → Runs quote may boss a b
    → Runs quote may boss b c
    → Runs quote may boss a c
Runs-trans first (here p) = first
Runs-trans first (next a b c more step) = next _ b c (Runs-trans first more) step
