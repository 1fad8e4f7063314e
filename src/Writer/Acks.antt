-- ===== src/Writer/Acks.antt =====
-- `commit` of the writer on CommitBatch: what the waiters of a batch are told, and what is durable.
use enigma_behemoth.Prelude.{ℕ, ◌≡◌, refl, ap, ◌∙◌, Option, none, some, List, map, true, inl, inr}
use enigma_behemoth.Errors.{Err, Result, ok, err, is, wrap, commit_failed, join, sentinel}
use enigma_behemoth.Store.{DamageEvent}
use enigma_behemoth.Postgres.Tables.{Tables}
use enigma_behemoth.Postgres.Batch.{Key, Link, ack_lost, commit_batch}
use enigma_behemoth.Postgres.Batch.Commit.{IsOrder, Fits}
use enigma_behemoth.Postgres.Batch.Effect.{Committed, commit_batch-Committed}
use enigma_behemoth.Postgres.Batch.Atomic.{commit_batch-IsWhole}
use enigma_behemoth.Writer.{WriteReq, Outcome, returned, release_error, commit}

-- The outcome that `commit` sees of CommitBatch, if it does not panic.
abbrev pub outcome_of : Result (Unit {0}) → Outcome
outcome_of (ok u) = returned none
outcome_of (err e) = returned (some e)

abbrev pub events_of : List WriteReq → List DamageEvent
events_of batch = map (λ r. WriteReq.ev r) batch

-- What each waiter of the batch is sent, and the tables afterwards.
unfoldable pub commit_events :
    Link
    → (List Key → List Key)
    → (List Key → List Key)
    → ℕ
    → List WriteReq
    → Tables
    → List (ℕ × Option Err) × Tables
commit_events link order boss_order now batch t =
    let (r, t') = commit_batch link order boss_order now (events_of batch) t in
    (commit (outcome_of r) batch, t')

-- Every waiter is sent one answer.
abbrev pub all_told : Option Err → List WriteReq → List (ℕ × Option Err)
all_told a batch = map (λ r. (WriteReq.done r, a)) batch

commit_told :
    (out : Outcome) (batch : List WriteReq) → commit out batch ≡ all_told (release_error out) batch
unfolding commit
commit_told out batch = refl

-- An acknowledged batch is durable; a batch that failed is not, unless the answer of COMMIT was lost.
pub data IsAcked (link : Link) (batch : List WriteReq) (t : Tables)
    : List (ℕ × Option Err) × Tables → Type 0 where
  acknowledged :
      (p : List (ℕ × Option Err) × Tables)
      → p.0 ≡ all_told none batch
      → Committed (events_of batch) t p.1
      → IsAcked link batch t p
  refused :
      (p : List (ℕ × Option Err) × Tables) (e : Err)
      → p.0 ≡ all_told (some e) batch
      → is e commit_failed ≡ true
      → p.1 ≡ t
      → IsAcked link batch t p
  unknown :
      (p : List (ℕ × Option Err) × Tables) (e x : Err)
      → p.0 ≡ all_told (some e) batch
      → is e commit_failed ≡ true
      → link ≡ ack_lost x
      → Committed (events_of batch) t p.1
      → IsAcked link batch t p

-- Whatever happens to the connection, all waiters of a batch that fits the tables are told the same. If
-- they are told of no error, the events of the batch are committed. If they are told of an error, it is a
-- commit failure, and the tables are as they were, or the connection was lost between COMMIT and its
-- answer, and the events are committed.
commit_events-IsAcked :
    (link : Link) (order boss_order : List Key → List Key) (now : ℕ) (batch : List WriteReq)
    (t : Tables)
    → IsOrder order
    → IsOrder boss_order
    → Fits (events_of batch) t
    → IsAcked link batch t (commit_events link order boss_order now batch t)
unfolding commit_events release_error
commit_events-IsAcked link order boss_order now batch t walk boss_walk fits =
    let es = events_of batch in
    let (t', eq, done) = commit_batch-Committed order boss_order now es t walk boss_walk fits in
    elim (commit_batch-IsWhole link order boss_order now es t) [
      | inl whole ↦ rw (whole ∙ eq) (acknowledged _ (commit_told (returned none) batch) done)
      | inr (inl (e, failed)) ↦ rw failed (
          refused _ (join (sentinel commit_failed) e) (commit_told (returned (some e)) batch) refl
            refl)
      | inr (inr (e, lost, failed)) ↦
          rw
            (failed
              ∙ ap (λ (p : Result (Unit {0}) × Tables). (err (wrap "commit batch" e), p.1)) eq)
            (unknown _ (join (sentinel commit_failed) (wrap "commit batch" e)) e
              (commit_told (returned (some (wrap "commit batch" e))) batch) refl lost done)
    ]
