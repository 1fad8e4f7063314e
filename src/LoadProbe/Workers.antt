-- ===== src/LoadProbe/Workers.antt =====
-- The workers of scripts/loadprobe/main.go, in any interleaving. How %q writes the name of the boss is an
-- argument, and so are the answers that a body may get. Times are nanoseconds.
pub mod Taken
pub mod Counted
pub mod Report
pub mod Ends
pub mod Reported
use enigma_behemoth.Prelude.{
  ℕ, zero, suc, ◌+◌, ◌-◌, ◌*◌, ◌≤◌, ◌≡◌, String, Option, none, some, List, [], ◌∷◌, ◌++◌, Bool,
  true, false, ltb, leb, eqb, if◌then◌else◌,
}
use enigma_behemoth.Prelude.Int.{pos}
use enigma_behemoth.Text.{codes, print_int}
use enigma_behemoth.LoadProbe.{Answer, transport_error, status, Tally, no_requests, getenv}

pub record Settings : Type 0 where
  pub base : String
  pub boss : String
  pub concurrency : ℕ
  pub duration : ℕ

unfoldable pub settings : (String → String) → Settings
unfolding getenv
settings lookup = record {
  base = getenv lookup "BASE_URL" "http://localhost:8080";
  boss = getenv lookup "BOSS_ID" "boss-1";
  concurrency = 200;
  duration = 15 * 1000000000;
}

-- A worker is before the test of its loop, in a call of Post with a body since a time, or has ended.
pub data Phase : Type 0 where
  testing : Phase
  posting : List ℕ → ℕ → Phase
  gone : Phase

pub record Worker : Type 0 where
  pub local : List ℕ
  pub phase : Phase

-- `answers` is the history of the answers, in the order in which they are counted.
pub record Probe : Type 0 where
  pub now : ℕ
  pub deadline : ℕ
  pub workers : List Worker
  pub tally : Tally
  pub sample : Option String
  pub answers : List Answer

unfoldable pub new_workers : ℕ → List Worker
new_workers zero = []
new_workers (suc n) = record { local = []; phase = testing } ∷ new_workers n

-- The probe as its workers are started.
unfoldable pub start_workers : Settings → ℕ → Probe
unfolding new_workers
start_workers s now = record {
  now = now;
  deadline = now + s.duration;
  workers = new_workers s.concurrency;
  tally = no_requests;
  sample = none;
  answers = [];
}

-- The body of a request, of the player that the worker draws.
unfoldable pub request_body : (String → List ℕ) → ℕ → String → List ℕ
request_body quote player boss =
    codes "{\"player_id\":\"p-"
    ++ print_int (pos player)
    ++ codes "\",\"boss_id\":"
    ++ quote boss
    ++ codes ",\"damage_amount\":1}"

-- How a call of Post ends: with the text of an error, or with a status.
pub data PostOutcome : Type 0 where
  failed : String → PostOutcome
  responded : ℕ → PostOutcome

unfoldable pub answer_of : PostOutcome → ℕ → Answer
answer_of (failed text) elapsed = transport_error text
answer_of (responded code) elapsed = status code elapsed

-- What a worker does with an answer.
unfoldable pub take_answer : Answer → Worker → Probe → Worker × Probe
take_answer (transport_error text) w p = (
  record w { phase = testing },
  record p {
    tally = record p.tally { transport_errors = p.tally.transport_errors + 1 };
    sample = some text;
    answers = p.answers ++ transport_error text ∷ [];
  },
)
take_answer (status code elapsed) w p =
    let q = record p { answers = p.answers ++ status code elapsed ∷ [] } in
    if eqb code 503
    then (
      record w { phase = testing },
      record q { tally = record p.tally { s503 = p.tally.s503 + 1 } },
    )
    else if leb 500 code
    then (
      record w { phase = testing },
      record q { tally = record p.tally { s5xx = p.tally.s5xx + 1 } },
    )
    else (
      record w { local = w.local ++ elapsed ∷ []; phase = testing },
      record q { tally = record p.tally { succeeded = p.tally.succeeded + 1 } },
    )

-- Time passes, or one worker goes on, between the others. `may b o` holds of the outcomes of a body.
pub data WorkerStep (quote : String → List ℕ) (may : List ℕ → PostOutcome → Type 0) (boss : String)
    : Probe → Probe → Type 0 where
  passes :
      (p : Probe) (later : ℕ)
      → p.now ≤ later
      → WorkerStep quote may boss p (record p { now = later })
  posts :
      (xs ys : List Worker) (w : Worker) (player : ℕ) (p : Probe)
      → p.workers ≡ xs ++ w ∷ ys
      → w.phase ≡ testing
      → ltb p.now p.deadline ≡ true
      → ltb player 20000 ≡ true
      → WorkerStep quote may boss p (record p {
        workers = xs ++ record w { phase = posting (request_body quote player boss) p.now } ∷ ys;
      })
  answers :
      (xs ys : List Worker) (w : Worker) (body : List ℕ) (since : ℕ) (o : PostOutcome) (p : Probe)
      → p.workers ≡ xs ++ w ∷ ys
      → w.phase ≡ posting body since
      → may body o
      → WorkerStep quote may boss p (
          let r = take_answer (answer_of o (p.now - since)) w p in
          record r.1 { workers = xs ++ r.0 ∷ ys })
  leaves :
      (xs ys : List Worker) (w : Worker) (p : Probe)
      → p.workers ≡ xs ++ w ∷ ys
      → w.phase ≡ testing
      → ltb p.now p.deadline ≡ false
      → WorkerStep quote may boss p (record p {
        workers = xs ++ record w { phase = gone } ∷ ys;
        tally = record p.tally { lats = p.tally.lats ++ w.local };
      })

pub data Runs (quote : String → List ℕ) (may : List ℕ → PostOutcome → Type 0) (boss : String)
    : Probe → Probe → Type 0 where
  here : (p : Probe) → Runs quote may boss p p
  next :
      (a b c : Probe)
      → Runs quote may boss a b
      → WorkerStep quote may boss b c
      → Runs quote may boss a c

-- What Wait waits for.
abbrev pub AllGone : List Worker → Type 0
AllGone [] = Unit
AllGone (w ∷ ws) = (w.phase ≡ gone) × AllGone ws
