-- ===== src/LoadProbe/Workers/Ends.antt =====
-- Once the deadline has passed the workers can end, whatever they are doing.
use mathlib.Core.List.{append_assoc}
use enigma_behemoth.Prelude.{
  ℕ, ◌+◌, ◌-◌, ◌≡◌, refl, sym, ap, subst, ◌∙◌, String, List, [], ◌∷◌, ◌++◌, false, ◌⊎◌, inl, inr,
  ltb, leb, eqb, arith, Bool-cases,
}
use enigma_behemoth.LoadProbe.{Answer, transport_error, status}
use enigma_behemoth.LoadProbe.Workers.{
  Phase, testing, posting, gone, Worker, Probe, PostOutcome, answer_of, take_answer, passes,
  answers, leaves, Runs, here, next, AllGone,
}

Phase-cases :
    (q : Phase)
    → (q ≡ gone) ⊎ ((q ≡ testing) ⊎ ((body : List ℕ) × (since : ℕ) × (q ≡ posting body since)))
Phase-cases gone = inl refl
Phase-cases testing = inr (inl refl)
Phase-cases (posting body since) = inr (inr (body, since, refl))

take_answer-tested :
    (a : Answer) (w : Worker) (p : Probe)
    → let r = take_answer a w p in
      (r.0.phase ≡ testing) × (r.1.now ≡ p.now) × (r.1.deadline ≡ p.deadline)
unfolding take_answer
take_answer-tested (transport_error text) w p = (refl, refl, refl)
take_answer-tested (status code elapsed) w p = elim (Bool-cases (eqb code 503)) [
  | inl h ↦ rw h (refl, refl, refl)
  | inr h ↦ elim (Bool-cases (leb 500 code)) [
    | inl g ↦ rw (h, g) (refl, refl, refl)
    | inr g ↦ rw (h, g) (refl, refl, refl)
  ]
]

AllGone-append :
    (xs : List Worker) (w : Worker) → AllGone xs → w.phase ≡ gone → AllGone (xs ++ w ∷ [])
AllGone-append [] w g h = (h, tt)
AllGone-append (x ∷ xs) w g h = (g.0, AllGone-append xs w g.1 h)

append_nil : (xs : List Worker) → AllGone xs → AllGone (xs ++ [])
append_nil [] g = tt
append_nil (x ∷ xs) g = (g.0, append_nil xs g.1)

module _ (quote : String → List ℕ) (may : List ℕ → PostOutcome → Type 0) (boss : String)
    (answered : (body : List ℕ) → (o : PostOutcome) × may body o) (from : Probe) where
  abbrev Reached : (Probe → Type 0) → Type 0
  Reached P = (q : Probe) × Runs quote may boss from q × P q

  -- One worker is gone, with the others as they are, and the deadline is over.
  abbrev HasLeft : List Worker → List Worker → Probe → Type 0
  HasLeft xs ys q =
      (w : Worker) × (q.workers ≡ xs ++ w ∷ ys) × (w.phase ≡ gone) × (ltb q.now q.deadline ≡ false)

  leave_loop :
      (xs ys : List Worker) (w : Worker) (p : Probe)
      → Runs quote may boss from p
      → p.workers ≡ xs ++ w ∷ ys
      → w.phase ≡ testing
      → ltb p.now p.deadline ≡ false
      → Reached (HasLeft xs ys)
  leave_loop xs ys w p run eq at late =
      (_, next _ p _ run (leaves xs ys w p eq at late), (_, refl, refl, late))

  end_one :
      (xs ys : List Worker) (w : Worker) (p : Probe)
      → Runs quote may boss from p
      → p.workers ≡ xs ++ w ∷ ys
      → ltb p.now p.deadline ≡ false
      → Reached (HasLeft xs ys)
  end_one xs ys w p run eq late = elim (Phase-cases w.phase) [
    | inl at ↦ (p, run, (w, eq, at, late))
    | inr (inl at) ↦ leave_loop xs ys w p run eq at late
    | inr (inr (body, since, at)) ↦
        let (o, m) = answered body in
        let r = take_answer (answer_of o (p.now - since)) w p in
        let (tested, same, ends) = take_answer-tested (answer_of o (p.now - since)) w p in
        leave_loop xs ys r.0 (record r.1 { workers = xs ++ r.0 ∷ ys })
          (next _ p _ run (answers xs ys w body since o p eq at m)) refl tested
          (ap (λ n. ltb n r.1.deadline) same ∙ ap (ltb p.now) ends ∙ late)
  ]

  end_all :
      (xs ys : List Worker) (p : Probe)
      → Runs quote may boss from p
      → p.workers ≡ xs ++ ys
      → AllGone xs
      → ltb p.now p.deadline ≡ false
      → Reached (λ q. AllGone q.workers)
  end_all xs [] p run eq g late = (p, run, subst AllGone (sym eq) (append_nil xs g))
  end_all xs (y ∷ ys) p run eq g late =
      let (q, further, (w, now, left, after)) = end_one xs ys y p run eq late in
      end_all (xs ++ w ∷ []) ys q further (now ∙ sym (append_assoc xs (w ∷ []) ys))
        (AllGone-append xs w g left) after

  -- If every body can be answered, the workers can end.
  pub Runs-can_end : Reached (λ q. AllGone q.workers)
  Runs-can_end =
      let later = from.now + from.deadline in
      end_all [] from.workers (record from { now = later })
        (next _ from _ (here from) (passes from later (omega arith))) refl tt (ground arith)
