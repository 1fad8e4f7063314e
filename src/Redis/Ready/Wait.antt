-- ===== src/Redis/Ready/Wait.antt =====
-- The wait for Redis ends: each round that goes on takes at least the first backoff.
use enigma_behemoth.Prelude.{
  ℕ, zero, suc, ◌+◌, ◌*◌, ◌<◌, ◌≤◌, ◌≡◌, refl, sym, ◌∙◌, String, none, some, true, leb, eqb, arith,
  List, ◌⊎◌, inl, inr, Bool-cases, Option-cases, subst,
}
use enigma_behemoth.Prelude.Int.{pos}
use enigma_behemoth.Errors.{
  Err, Result, ok, err, opaque, wrap, sentinel, deadline_exceeded, Result-cases,
}
use enigma_behemoth.Redis.Ready.{
  Ping, base_backoff, max_backoff, redis_starting, cuts, next_backoff, attempt, wait_redis_ready,
  RedisOption, apply_options, new_redis_store,
}

-- A PING that fails as it does while Redis starts.
abbrev pub IsStarting : Ping → Type 0
IsStarting p = (msg : String) × (p.error ≡ some msg) × (redis_starting msg ≡ true)

-- What the last PING says of the result.
abbrev pub Explains : Ping → Result (Unit {0}) → Type 0
Explains p (ok u) = p.error ≡ none
Explains p (err e) =
    (msg : String) × (p.error ≡ some msg)
    × ((e ≡ wrap "redis ping" (opaque msg)) ⊎ (e ≡ wrap "redis ping" (sentinel deadline_exceeded)))

-- A wait from round `n` on: it ends with round `last`, the ones before failed as they do while Redis
-- starts, and the result is that of the last.
pub record Ends (pings : ℕ → Ping) (n : ℕ) (r : Result (Unit {0})) : Type 0 where
  pub last : ℕ
  pub at : n ≤ last
  pub before : (j : ℕ) → n ≤ j → j < last → IsStarting (pings j)
  pub result : Explains (pings last) r

some_inj : {a b : Result (Unit {0})} → some a ≡ some b → a ≡ b
some_inj h = cc

attempt-ends :
    (deadline : ℕ) (p : Ping) (now backoff : ℕ) (r : Result (Unit {0}))
    → attempt deadline p now backoff ≡ some r
    → Explains p r
unfolding attempt
attempt-ends deadline p now backoff r h =
    let round = attempt deadline p now backoff in
    let failed = now + p.took in
    let by : (q : Result (Unit {0})) → round ≡ some q → Explains p q → Explains p r =
      λ q e x. subst (Explains p) (some_inj (sym e ∙ h)) x in
    elim (Option-cases p.error) [
      | inl e ↦ by (ok tt) (rw e refl) e
      | inr (msg, e) ↦
          let bare : Err = wrap "redis ping" (opaque msg) in
          elim (Bool-cases (leb deadline failed)) [
            | inl a ↦ by (err bare) (rw (e, a) refl) (msg, e, inl refl)
            | inr a ↦ elim (Bool-cases (redis_starting msg)) [
              | inr b ↦ by (err bare) (rw (e, a, b) refl) (msg, e, inl refl)
              | inl b ↦ elim (Bool-cases (cuts deadline (failed + backoff) p)) [
                | inl c ↦
                    by (err (wrap "redis ping" (sentinel deadline_exceeded))) (rw (e, a, b, c) refl)
                      (msg, e, inr refl)
                | inr c ↦ ground (arith, e, a, b, c, h)
              ]
            ]
          ]
    ]

-- A round that goes on leaves the deadline ahead.
attempt-goes_on :
    (deadline : ℕ) (p : Ping) (now backoff : ℕ)
    → attempt deadline p now backoff ≡ none
    → IsStarting p × (now + p.took + backoff ≤ deadline)
unfolding attempt
attempt-goes_on deadline p now backoff h =
    let failed = now + p.took in
    elim (Option-cases p.error) [
      | inl e ↦ ground (arith, e, h)
      | inr (msg, e) ↦ elim (Bool-cases (leb deadline failed)) [
        | inl a ↦ ground (arith, e, a, h)
        | inr a ↦ elim (Bool-cases (redis_starting msg)) [
          | inr b ↦ ground (arith, e, a, b, h)
          | inl b ↦ elim (Bool-cases (cuts deadline (failed + backoff) p)) [
            | inl c ↦ ground (arith, e, a, b, c, h)
            | inr c ↦ ((msg, e, b), ground (arith, c))
          ]
        ]
      ]
    ]

next_backoff_bounds :
    (b : ℕ) → base_backoff ≤ b → (base_backoff ≤ next_backoff b) × (next_backoff b ≤ max_backoff)
unfolding next_backoff
next_backoff_bounds b h = ground arith

later :
    {pings : ℕ → Ping} {r : Result (Unit {0})} (n : ℕ)
    → IsStarting (pings n)
    → Ends pings (suc n) r
    → Ends pings n r
later {pings} {r} n starting ends = record {
  last = ends.last;
  at = omega (arith, ends.at);
  before = λ j from below. elim (Bool-cases (eqb n j)) [
    | inl e ↦ subst (λ (k : ℕ). IsStarting (pings k)) (ground (arith, e)) starting
    | inr e ↦ ends.before j (ground (arith, e)) below
  ];
  result = ends.result;
}

module _ (deadline : ℕ) (pings : ℕ → Ping) (fuel n now backoff : ℕ) where
  wait_stops :
      (r : Result (Unit {0}))
      → attempt deadline (pings n) now backoff ≡ some r
      → wait_redis_ready (suc fuel) deadline pings n now backoff ≡ some r
  unfolding wait_redis_ready
  wait_stops r e = rw (e, wait_redis_ready) refl

  wait_goes_on :
      attempt deadline (pings n) now backoff ≡ none
      → wait_redis_ready (suc fuel) deadline pings n now backoff
        ≡ wait_redis_ready fuel deadline pings
            (suc n)
            (now + (pings n).took + backoff)
            (next_backoff backoff)
  unfolding wait_redis_ready
  wait_goes_on e = rw (e, wait_redis_ready) refl

module _ (deadline : ℕ) (pings : ℕ → Ping) where
  wait_ends :
      (fuel n now backoff : ℕ)
      → 0 < fuel
      → deadline < now + fuel * base_backoff
      → base_backoff ≤ backoff
      → (r : Result (Unit {0})) × (wait_redis_ready fuel deadline pings n now backoff ≡ some r)
        × Ends pings n r
  wait_ends zero n now backoff some_fuel enough pause = absurd (omega arith)
  wait_ends (suc fuel) n now backoff some_fuel enough pause =
      elim (Option-cases (attempt deadline (pings n) now backoff)) [
        | inr (r, e) ↦ (
          r,
          wait_stops deadline pings fuel n now backoff r e,
          record {
            last = n;
            at = omega arith;
            before = λ j from below. absurd (omega arith);
            result = attempt-ends deadline (pings n) now backoff r e;
          },
        )
        | inl e ↦
            let (starting, ahead) = attempt-goes_on deadline (pings n) now backoff e in
            let (r, eq, ends) =
              wait_ends fuel (suc n) (now + (pings n).took + backoff) (next_backoff backoff)
                (omega arith) (omega arith) (next_backoff_bounds backoff pause).0 in
            (r, wait_goes_on deadline pings fuel n now backoff e ∙ eq, later n starting ends)
      ]

-- Whatever Redis answers: the wait ends after at most a round for each 100 ms up to the deadline, and one
-- more, with a result. If that is a success, the last PING was answered; if not, the last PING failed, and
-- the error is its error or that of the deadline. All PINGs before the last failed with an error that
-- Redis gives while it starts.
pub wait_redis_ready-Ends :
    (deadline : ℕ) (pings : ℕ → Ping) (rounds now : ℕ)
    → deadline < now + rounds * base_backoff
    → (r : Result (Unit {0})) × (wait_redis_ready (suc rounds) deadline pings 0 now base_backoff
        ≡ some r)
      × Ends pings 0 r
wait_redis_ready-Ends deadline pings rounds now enough =
    wait_ends deadline pings (suc rounds) 0 now base_backoff (omega arith) (omega arith)
      (omega arith)

-- NewRedisStore comes back, with the error of the wait or with its options applied.
pub new_redis_store-ends :
    (deadline : ℕ) (pings : ℕ → Ping) (rounds now : ℕ) (opts : List RedisOption)
    → deadline < now + rounds * base_backoff
    → ((e : Err) × (new_redis_store (suc rounds) deadline pings now opts ≡ some (err e)))
      ⊎ (new_redis_store (suc rounds) deadline pings now opts
          ≡ some (ok (apply_options opts (pos 0))))
unfolding new_redis_store
new_redis_store-ends deadline pings rounds now opts enough =
    let (r, e, ends) = wait_redis_ready-Ends deadline pings rounds now enough in
    elim (Result-cases r) [
      | inl (u, o) ↦ inr (rw (e, o, new_redis_store) refl)
      | inr (x, o) ↦ inl (x, rw (e, o, new_redis_store) refl)
    ]
