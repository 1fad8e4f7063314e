-- ===== src/LoadProbe/Verdict.antt =====
-- What a verdict of the probe says of the answers.
use enigma_behemoth.Prelude.{
  ℕ, zero, suc, ◌+◌, ◌-◌, ◌<◌, ◌≤◌, ◌≡◌, refl, ap, ◌∙◌, List, [], ◌∷◌, ◌++◌, Bool, ◌||◌, ltb, leb,
  eqb, length, length-append, All, arith, inl, inr, Bool-cases, if◌then◌else◌,
}
use enigma_behemoth.LoadProbe.{
  Answer, transport_error, status, Tally, no_requests, count_answer, count_answers, place,
  sort_lats, at_index, pct, limit, verdict,
}

-- The latencies of the answers that count as successes.
abbrev pub succeeds : ℕ → Bool
succeeds code = leb code 499

abbrev pub latencies : List Answer → List ℕ
latencies [] = []
latencies (transport_error text ∷ rest) = latencies rest
latencies (status code elapsed ∷ rest) =
    let more = latencies rest in if succeeds code then elapsed ∷ more else more

-- How many are below a bound.
abbrev pub below : ℕ → List ℕ → ℕ
below b [] = 0
below b (x ∷ xs) = (if ltb x b then 1 else 0) + below b xs

pub below-append : (b : ℕ) (xs ys : List ℕ) → below b (xs ++ ys) ≡ below b xs + below b ys
below-append b [] ys = omega arith
below-append b (x ∷ xs) ys = omega (arith, below-append b xs ys)

count_answer-lats :
    (b : ℕ) (a : Answer) (t : Tally)
    → (below b (count_answer a t).lats ≡ below b t.lats + below b (latencies (a ∷ [])))
      × (length (count_answer a t).lats ≡ length t.lats + length (latencies (a ∷ [])))
unfolding count_answer
count_answer-lats b (transport_error text) t = (omega arith, omega arith)
count_answer-lats b (status code elapsed) t =
    ground (arith, below-append b t.lats (elapsed ∷ []), length-append t.lats (elapsed ∷ []))

pub latencies-cons :
    (b : ℕ) (a : Answer) (rest : List Answer)
    → (below b (latencies (a ∷ rest)) ≡ below b (latencies (a ∷ [])) + below b (latencies rest))
      × (length (latencies (a ∷ rest)) ≡ length (latencies (a ∷ [])) + length (latencies rest))
latencies-cons b (transport_error text) rest = (omega arith, omega arith)
latencies-cons b (status code elapsed) rest = ground arith

pub count_answers-lats :
    (b : ℕ) (answers : List Answer) (t : Tally)
    → (below b (count_answers answers t).lats ≡ below b t.lats + below b (latencies answers))
      × (length (count_answers answers t).lats ≡ length t.lats + length (latencies answers))
unfolding count_answers
count_answers-lats b [] t = (omega arith, omega arith)
count_answers-lats b (a ∷ rest) t =
    let step = count_answer-lats b a t in
    let more = count_answers-lats b rest (count_answer a t) in
    let parts = latencies-cons b a rest in
    (omega (arith, step.0, more.0, parts.0), omega (arith, step.1, more.1, parts.1))

-- Sorted: no entry above a later one.
abbrev pub AtLeast : ℕ → List ℕ → Type 0
AtLeast x ys = All (λ (y : ℕ). x ≤ y) ys

abbrev pub IsSorted : List ℕ → Type 0
IsSorted [] = Unit {0}
IsSorted (x ∷ xs) = AtLeast x xs × IsSorted xs

below-place :
    (b x : ℕ) (xs : List ℕ)
    → (below b (place x xs) ≡ below b (x ∷ xs)) × (length (place x xs) ≡ suc (length xs))
unfolding place
below-place b x [] = (refl, refl)
below-place b x (y ∷ ys) = let rest = below-place b x ys in ground (arith, rest.0, rest.1)

pub below-sort_lats :
    (b : ℕ) (xs : List ℕ)
    → (below b (sort_lats xs) ≡ below b xs) × (length (sort_lats xs) ≡ length xs)
unfolding sort_lats
below-sort_lats b [] = (refl, refl)
below-sort_lats b (x ∷ xs) =
    let here = below-place b x (sort_lats xs) in
    let rest = below-sort_lats b xs in
    (omega (arith, here.0, rest.0), omega (arith, here.1, rest.1))

place-AtLeast : (z x : ℕ) (xs : List ℕ) → z ≤ x → AtLeast z xs → AtLeast z (place x xs)
unfolding place
place-AtLeast z x [] h all = (h, tt)
place-AtLeast z x (y ∷ ys) h all = elim (Bool-cases (ltb y x)) [
  | inl e ↦ rw e (all.0, place-AtLeast z x ys h all.1)
  | inr e ↦ rw e (h, all)
]

AtLeast-le : (z x : ℕ) (ys : List ℕ) → z ≤ x → AtLeast x ys → AtLeast z ys
AtLeast-le z x [] h all = tt
AtLeast-le z x (y ∷ ys) h all = (omega (arith, all.0), AtLeast-le z x ys h all.1)

place-IsSorted : (x : ℕ) (xs : List ℕ) → IsSorted xs → IsSorted (place x xs)
unfolding place
place-IsSorted x [] s = (tt, tt)
place-IsSorted x (y ∷ ys) s = elim (Bool-cases (ltb y x)) [
  | inl e ↦ rw e (place-AtLeast y x ys (ground (arith, e)) s.0, place-IsSorted x ys s.1)
  | inr e ↦ rw e ((ground (arith, e), AtLeast-le x y ys (ground (arith, e)) s.0), s)
]

pub sort_lats-IsSorted : (xs : List ℕ) → IsSorted (sort_lats xs)
unfolding sort_lats
sort_lats-IsSorted [] = tt
sort_lats-IsSorted (x ∷ xs) = place-IsSorted x (sort_lats xs) (sort_lats-IsSorted xs)

pub below_none : (b x : ℕ) (xs : List ℕ) → b ≤ x → AtLeast x xs → below b xs ≡ 0
below_none b x [] h all = refl
below_none b x (y ∷ ys) h all = ground (arith, below_none b x ys h all.1, all.0)

AtLeast-at_index : (x : ℕ) (xs : List ℕ) (i : ℕ) → AtLeast x xs → i < length xs → x ≤ at_index xs i
AtLeast-at_index x [] i all h = absurd (omega arith)
AtLeast-at_index x (y ∷ ys) zero all h = all.0
AtLeast-at_index x (y ∷ ys) (suc i) all h = AtLeast-at_index x ys i all.1 (omega arith)

-- An entry of a sorted list is below a bound if and only if more entries are than stand before it.
ltb-at_index :
    (b : ℕ) (xs : List ℕ) (i : ℕ)
    → IsSorted xs
    → i < length xs
    → ltb (at_index xs i) b ≡ ltb i (below b xs)
ltb-at_index b [] i s h = absurd (omega arith)
ltb-at_index b (x ∷ xs) zero s h = elim (Bool-cases (ltb x b)) [
  | inl e ↦ ground (arith, e)
  | inr e ↦ ground (arith, e, below_none b x xs (ground (arith, e)) s.0)
]
ltb-at_index b (x ∷ xs) (suc i) s h = elim (Bool-cases (ltb x b)) [
  | inl e ↦ ground (arith, e, ltb-at_index b xs i s.1 (omega arith))
  | inr e ↦ ground (
    arith,
    e,
    below_none b x xs (ground (arith, e)) s.0,
    AtLeast-at_index x xs i s.0 (omega arith),
  )
]

-- The index that is read for `n` latencies.
abbrev pub chosen : (ℕ → ℕ) → ℕ → ℕ
chosen index n = if leb n (index n) then n - 1 else index n

or_zero : (n : ℕ) (x : Bool) → x ≡ (eqb (suc n) 0 || x)
or_zero n x = ground arith

pct-below :
    (index : ℕ → ℕ) (b : ℕ) (xs : List ℕ)
    → 0 < b
    → IsSorted xs
    → ltb (pct index xs) b ≡ (eqb (length xs) 0 || ltb (chosen index (length xs)) (below b xs))
unfolding pct
pct-below index b [] h s = ground arith
pct-below index b (x ∷ xs) h s =
    ltb-at_index b (x ∷ xs) (chosen index (suc (length xs))) s (ground arith)
    ∙ or_zero (length xs) _

-- The probe passes if and only if no request succeeded, or more requests succeeded in under 100 ms than the
-- index of the percentile. So it also passes where every request failed.
pub verdict-below :
    (index : ℕ → ℕ) (answers : List Answer)
    → let lats = latencies answers in
      verdict index answers
      ≡ (eqb (length lats) 0 || ltb (chosen index (length lats)) (below limit lats))
unfolding verdict
verdict-below index answers =
    let lats = (count_answers answers no_requests).lats in
    let counted = count_answers-lats limit answers no_requests in
    let sorted = below-sort_lats limit lats in
    let many : length (sort_lats lats) ≡ length (latencies answers) =
      omega (arith, sorted.1, counted.1) in
    let fast : below limit (sort_lats lats) ≡ below limit (latencies answers) =
      omega (arith, sorted.0, counted.0) in
    pct-below index limit (sort_lats lats) (omega arith) (sort_lats-IsSorted lats)
    ∙ ap (λ (n : ℕ). eqb n 0 || ltb (chosen index n) (below limit (sort_lats lats))) many
    ∙ ap
        (λ (k : ℕ).
          eqb (length (latencies answers)) 0 || ltb (chosen index (length (latencies answers))) k)
        fast
