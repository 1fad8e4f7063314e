-- ===== src/LoadProbe/Workers/Counted.antt =====
-- What the workers have counted is what their answers come to, in any interleaving.
use enigma_behemoth.Prelude.{
  ℕ, zero, suc, ◌+◌, ◌-◌, ◌≡◌, refl, sym, ap, subst, ◌∙◌, String, none, List, [], ◌∷◌, ◌++◌, length,
  length-append, arith,
}
use enigma_behemoth.LoadProbe.{Answer, no_requests, count_answers}
use enigma_behemoth.LoadProbe.Verdict.{latencies, below, below-append}
use enigma_behemoth.LoadProbe.Workers.{
  Phase, testing, posting, gone, Worker, Probe, Settings, new_workers, start_workers, PostOutcome,
  answer_of, take_answer, WorkerStep, passes, posts, answers, leaves, Runs, here, next, AllGone,
}
use enigma_behemoth.LoadProbe.Workers.Taken.{
  last_error, SameCounts, count_answers-append, last_error-append, latencies-append,
  take_answer-IsTaken,
}

-- The latencies that a worker has not given up yet.
abbrev pub held_in : Phase → List ℕ → List ℕ
held_in testing local = local
held_in (posting body since) local = local
held_in gone local = []

abbrev pub held_below : ℕ → List Worker → ℕ
held_below b [] = 0
held_below b (w ∷ ws) = below b (held_in w.phase w.local) + held_below b ws

abbrev pub held_count : List Worker → ℕ
held_count [] = 0
held_count (w ∷ ws) = length (held_in w.phase w.local) + held_count ws

-- The counters and the sample are those of the answers, and the latencies of the answers are once among
-- those put together or with a worker.
pub record IsCounted (p : Probe) : Type 0 where
  pub counts : SameCounts p.tally (count_answers p.answers no_requests)
  pub sampled : p.sample ≡ last_error p.answers none
  pub fast : (b : ℕ) → below b p.tally.lats + held_below b p.workers ≡ below b (latencies p.answers)
  pub many : length p.tally.lats + held_count p.workers ≡ length (latencies p.answers)

held-append :
    (b : ℕ) (xs ys : List Worker)
    → (held_below b (xs ++ ys) ≡ held_below b xs + held_below b ys)
      × (held_count (xs ++ ys) ≡ held_count xs + held_count ys)
held-append b [] ys = (omega arith, omega arith)
held-append b (x ∷ xs) ys = let r = held-append b xs ys in (omega (arith, r.0), omega (arith, r.1))

-- One worker between the others, whatever is held by it.
split_held :
    (b : ℕ) (xs ys : List Worker) (w : Worker) (all : List Worker) (phase : Phase)
    → all ≡ xs ++ w ∷ ys
    → w.phase ≡ phase
    → (held_below b all ≡ held_below b xs + (below b (held_in phase w.local) + held_below b ys))
      × (held_count all ≡ held_count xs + (length (held_in phase w.local) + held_count ys))
split_held b xs ys w all phase eq at =
    let r = held-append b xs (w ∷ ys) in
    let held : held_in w.phase w.local ≡ held_in phase w.local = ap (λ q. held_in q w.local) at in
    (
      omega (arith, ap (held_below b) eq, r.0, ap (below b) held),
      omega (arith, ap held_count eq, r.1, ap length held),
    )

taken-IsCounted :
    (xs ys : List Worker) (w : Worker) (body : List ℕ) (since : ℕ) (a : Answer) (p : Probe)
    → p.workers ≡ xs ++ w ∷ ys
    → w.phase ≡ posting body since
    → IsCounted p
    → let r = take_answer a w p in IsCounted (record r.1 { workers = xs ++ r.0 ∷ ys })
taken-IsCounted xs ys w body since a p eq at c =
    let r = take_answer a w p in
    let before = count_answers p.answers no_requests in
    let k = take_answer-IsTaken a w p before c.counts in
    record {
      counts =
          subst (SameCounts r.1.tally)
            (sym (
              ap (λ as_left. count_answers as_left no_requests) k.logged
              ∙ count_answers-append p.answers a no_requests))
            k.counts;
      sampled =
          k.sampled
          ∙ ap (last_error (a ∷ [])) c.sampled
          ∙ sym (last_error-append p.answers a none)
          ∙ ap (λ as_left. last_error as_left none) (sym k.logged);
      fast = λ b. omega (
        arith,
        c.fast b,
        (split_held b xs ys w p.workers (posting body since) eq at).0,
        (split_held b xs ys r.0 (xs ++ r.0 ∷ ys) testing refl k.tested).0,
        k.fast b,
        ap (below b) k.kept,
        ap (λ as_left. below b (latencies as_left)) k.logged,
        (latencies-append b p.answers (a ∷ [])).0,
      );
      many = omega (
        arith,
        c.many,
        (split_held 0 xs ys w p.workers (posting body since) eq at).1,
        (split_held 0 xs ys r.0 (xs ++ r.0 ∷ ys) testing refl k.tested).1,
        k.many,
        ap length k.kept,
        ap (λ as_left. length (latencies as_left)) k.logged,
        (latencies-append 0 p.answers (a ∷ [])).1,
      );
    }

module _ (quote : String → List ℕ) (may : List ℕ → PostOutcome → Type 0) (boss : String) where
  WorkerStep-IsCounted : {p q : Probe} → WorkerStep quote may boss p q → IsCounted p → IsCounted q
  WorkerStep-IsCounted (passes p later h) c = record {
    counts = c.counts;
    sampled = c.sampled;
    fast = c.fast;
    many = c.many;
  }
  WorkerStep-IsCounted (posts xs ys w player p eq at early drawn) c = record {
    counts = c.counts;
    sampled = c.sampled;
    fast = λ b. omega (
      arith,
      c.fast b,
      (split_held b xs ys w p.workers testing eq at).0,
      (held-append b xs (record w { phase = posting _ p.now } ∷ ys)).0,
    );
    many = omega (
      arith,
      c.many,
      (split_held 0 xs ys w p.workers testing eq at).1,
      (held-append 0 xs (record w { phase = posting _ p.now } ∷ ys)).1,
    );
  }
  WorkerStep-IsCounted (answers xs ys w body since o p eq at m) c =
      taken-IsCounted xs ys w body since (answer_of o (p.now - since)) p eq at c
  WorkerStep-IsCounted (leaves xs ys w p eq at late) c = record {
    counts = c.counts;
    sampled = c.sampled;
    fast = λ b. omega (
      arith,
      c.fast b,
      (split_held b xs ys w p.workers testing eq at).0,
      (held-append b xs (record w { phase = gone } ∷ ys)).0,
      below-append b p.tally.lats w.local,
    );
    many = omega (
      arith,
      c.many,
      (split_held 0 xs ys w p.workers testing eq at).1,
      (held-append 0 xs (record w { phase = gone } ∷ ys)).1,
      length-append p.tally.lats w.local,
    );
  }

  pub Runs-IsCounted : {p q : Probe} → Runs quote may boss p q → IsCounted p → IsCounted q
  Runs-IsCounted (here p) c = c
  Runs-IsCounted (next a b d run step) c = WorkerStep-IsCounted step (Runs-IsCounted run c)

new_workers-held : (b n : ℕ) → (held_below b (new_workers n) ≡ 0) × (held_count (new_workers n) ≡ 0)
unfolding new_workers
new_workers-held b zero = (refl, refl)
new_workers-held b (suc n) =
    let r = new_workers-held b n in (omega (arith, r.0), omega (arith, r.1))

pub start_workers-IsCounted : (s : Settings) (now : ℕ) → IsCounted (start_workers s now)
unfolding start_workers count_answers
start_workers-IsCounted s now = record {
  counts = (refl, refl, refl, refl);
  sampled = refl;
  fast = λ b. omega (arith, (new_workers-held b s.concurrency).0);
  many = omega (arith, (new_workers-held 0 s.concurrency).1);
}

pub AllGone-held :
    (b : ℕ) (ws : List Worker) → AllGone ws → (held_below b ws ≡ 0) × (held_count ws ≡ 0)
AllGone-held b [] g = (refl, refl)
AllGone-held b (w ∷ ws) g =
    let r = AllGone-held b ws g.1 in
    let held : held_in w.phase w.local ≡ [] = ap (λ q. held_in q w.local) g.0 in
    (omega (arith, ap (below b) held, r.0), omega (arith, ap length held, r.1))
