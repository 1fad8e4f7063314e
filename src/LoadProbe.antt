-- ===== src/LoadProbe.antt =====
-- scripts/loadprobe/main.go: what the probe makes of the answers to its requests. The index of a percentile
-- is computed in float64, and an argument here. Durations are nanoseconds.
pub mod Verdict
pub mod Workers
use enigma_behemoth.Prelude.{
  ℕ, zero, suc, ◌+◌, ◌-◌, ◌<◌, ◌≡◌, refl, String, Option, none, some, List, [], ◌∷◌, ◌++◌, Bool,
  true, false, ◌==◌, ltb, leb, eqb, length, if◌then◌else◌,
}

-- os.Getenv gives the empty text for a variable that is not set.
unfoldable pub getenv : (String → String) → String → String → String
getenv lookup k def = if lookup k == "" then def else lookup k

-- How a request ends: with the text of an error, or with a status after a time.
pub data Answer : Type 0 where
  transport_error : String → Answer
  status : ℕ → ℕ → Answer

-- The four counters, and the latencies of the requests that count as successes.
pub record Tally : Type 0 where
  pub succeeded : ℕ
  pub transport_errors : ℕ
  pub s503 : ℕ
  pub s5xx : ℕ
  pub lats : List ℕ

abbrev pub no_requests : Tally
no_requests = record { succeeded = 0; transport_errors = 0; s503 = 0; s5xx = 0; lats = [] }

-- One request, with its latency at once among those of the others: what the workers come to together.
unfoldable pub count_answer : Answer → Tally → Tally
count_answer (transport_error text) t = record t { transport_errors = t.transport_errors + 1 }
count_answer (status code elapsed) t =
    if eqb code 503
    then record t { s503 = t.s503 + 1 }
    else if leb 500 code
    then record t { s5xx = t.s5xx + 1 }
    else record t { succeeded = t.succeeded + 1; lats = t.lats ++ elapsed ∷ [] }

unfoldable pub count_answers : List Answer → Tally → Tally
count_answers [] t = t
count_answers (a ∷ as_left) t = count_answers as_left (count_answer a t)

-- sort.Slice
unfoldable pub place : ℕ → List ℕ → List ℕ
place x [] = x ∷ []
place x (y ∷ ys) = let rest = place x ys in if ltb y x then y ∷ rest else x ∷ y ∷ ys

unfoldable pub sort_lats : List ℕ → List ℕ
unfolding place
sort_lats [] = []
sort_lats (x ∷ xs) = place x (sort_lats xs)

abbrev pub at_index : List ℕ → ℕ → ℕ
at_index [] i = 0
at_index (x ∷ xs) zero = x
at_index (x ∷ xs) (suc i) = at_index xs i

-- The latency at a percentile: `index n` is int(p / 100 * float64(n)).
unfoldable pub pct : (ℕ → ℕ) → List ℕ → ℕ
pct index lats =
    let n = length lats in
    elim lats [ [] ↦ 0 | x ∷ xs ↦ at_index (x ∷ xs) (if leb n (index n) then n - 1 else index n) ]

abbrev pub limit : ℕ
limit = 100000000

-- Whether the probe prints PASS and exits with 0.
unfoldable pub verdict : (ℕ → ℕ) → List Answer → Bool
unfolding sort_lats pct count_answers
verdict index answers = ltb (pct index (sort_lats (count_answers answers no_requests).lats)) limit
