-- ===== src/Writer/Durable.antt =====
-- The writer on the tables, from Start to the end of Stop: the batches that the loops hand to `commit`, each
-- on its own connection and at its own time, one transaction after another.
use mathlib.Core.List.{append-nil, append_assoc}
use enigma_behemoth.Prelude.{
  ℕ, suc, ◌+◌, ◌≤◌, ◌<◌, ◌≡◌, refl, sym, ap, ◌∙◌, String, Option, none, some, List, [], ◌∷◌, ◌++◌,
  map, eqb, arith, if◌then◌else◌,
}
use enigma_behemoth.Errors.{Err, Result}
use enigma_behemoth.Postgres.Tables.{Tables}
use enigma_behemoth.Postgres.Batch.{Key, Link, ack_lost}
use enigma_behemoth.Postgres.Batch.Commit.{row_of}
use enigma_behemoth.Postgres.Batch.Log.{IsLogged, logged, unchanged, unsure, commit_batch-IsLogged}
use enigma_behemoth.Writer.{WriteReq, WriterConfig, returned, panicked, release_error, commit}
use enigma_behemoth.Writer.Acks.{commit_events, events_of, outcome_of}
use enigma_behemoth.Writer.Loop.{concat}
use enigma_behemoth.Writer.Pool.Kept.{tally, tally-append}
use enigma_behemoth.Writer.Pool.Told.{waits}
use enigma_behemoth.Writer.Pool.Stop.{Writer, started, Shifts}
use enigma_behemoth.Writer.Pool.Stop.Drained.{drained}

-- What happens to one call of CommitBatch, the orders of its maps included. A panic in it rolls the
-- transaction back.
pub data Attempt : Type 0 where
  calls : Link → (List Key → List Key) → (List Key → List Key) → ℕ → Attempt
  panics : String → Attempt

unfoldable pub attempt_commit : Attempt → List WriteReq → Tables → List (ℕ × Option Err) × Tables
attempt_commit (calls link order boss_order now) batch t =
    commit_events link order boss_order now batch t
attempt_commit (panics r) batch t = (commit (panicked r) batch, t)

-- The answers to all batches, of which batch `n` meets `how n`, and the tables after them.
abbrev pub commit_all :
    (ℕ → Attempt) → ℕ → List (List WriteReq) → Tables → List (ℕ × Option Err) × Tables
commit_all how n [] t = ([], t)
commit_all how n (b ∷ bs) t =
    let (told, t') = attempt_commit (how n) b t in
    let (rest, t'') = commit_all how (suc n) bs t' in (told ++ rest, t'')

-- How often a waiter is told of success.
abbrev pub acks : ℕ → List (ℕ × Option Err) → ℕ
acks d [] = 0
acks d ((e, none) ∷ rest) = (if eqb e d then 1 else 0) + acks d rest
acks d ((e, some x) ∷ rest) = acks d rest

-- The requests of a waiter in batches whose COMMIT lost its answer.
abbrev pub unheard : ℕ → Attempt → List WriteReq → ℕ
unheard d (calls (ack_lost e) order boss_order now) batch = tally (waits d) batch
unheard d _ batch = 0

abbrev pub unheard_all : ℕ → (ℕ → Attempt) → ℕ → List (List WriteReq) → ℕ
unheard_all d how n [] = 0
unheard_all d how n (b ∷ bs) = unheard d (how n) b + unheard_all d how (suc n) bs

acks-append : (d : ℕ) (xs ys : List (ℕ × Option Err)) → acks d (xs ++ ys) ≡ acks d xs + acks d ys
acks-append d [] ys = omega arith
acks-append d ((e, none) ∷ xs) ys = omega (arith, acks-append d xs ys)
acks-append d ((e, some x) ∷ xs) ys = omega (arith, acks-append d xs ys)

acks-commit_ok :
    (d : ℕ) (batch : List WriteReq) → acks d (commit (returned none) batch) ≡ tally (waits d) batch
unfolding commit release_error
acks-commit_ok d [] = refl
acks-commit_ok d (r ∷ rs) = omega (arith, acks-commit_ok d rs)

acks-commit_err :
    (d : ℕ) (e : Err) (batch : List WriteReq) → acks d (commit (returned (some e)) batch) ≡ 0
unfolding commit release_error
acks-commit_err d e [] = refl
acks-commit_err d e (r ∷ rs) = acks-commit_err d e rs

acks-commit_panic :
    (d : ℕ) (x : String) (batch : List WriteReq) → acks d (commit (panicked x) batch) ≡ 0
unfolding commit release_error
acks-commit_panic d x [] = refl
acks-commit_panic d x (r ∷ rs) = acks-commit_panic d x rs

-- The requests that are durable: they are the rows that the log has got, in order; each acknowledgement
-- is one of them; what is durable and not acknowledged is in a batch whose COMMIT lost its answer.
pub record IsDurable (lost : ℕ → ℕ) (all : List WriteReq) (t : Tables)
    (r : List (ℕ × Option Err) × Tables) : Type 0 where
  pub durable : List WriteReq
  pub log : r.1.damage_events ≡ t.damage_events ++ map row_of (events_of durable)
  pub within : (w : WriteReq → ℕ) → tally w durable ≤ tally w all
  pub acked : (d : ℕ) → acks d r.0 ≤ tally (waits d) durable
  pub heard : (d : ℕ) → tally (waits d) durable ≤ acks d r.0 + lost d

rows-append :
    (xs ys : List WriteReq)
    → map row_of (events_of (xs ++ ys)) ≡ map row_of (events_of xs) ++ map row_of (events_of ys)
rows-append [] ys = refl
rows-append (x ∷ xs) ys = ap (λ l. row_of x.ev ∷ l) (rows-append xs ys)

none-IsDurable :
    (lost : ℕ → ℕ) (batch : List WriteReq) (t : Tables) (r : List (ℕ × Option Err) × Tables)
    → ((d : ℕ) → acks d r.0 ≡ 0)
    → r.1 ≡ t
    → IsDurable lost batch t r
none-IsDurable lost batch t r silent same = record {
  durable = [];
  log = ap (λ (x : Tables). x.damage_events) same ∙ sym (append-nil t.damage_events);
  within = λ w. omega arith;
  acked = λ d. omega (arith, silent d);
  heard = λ d. omega arith;
}

all-IsDurable :
    (lost : ℕ → ℕ) (batch : List WriteReq) (t : Tables) (r : List (ℕ × Option Err) × Tables)
    → r.1.damage_events ≡ t.damage_events ++ map row_of (events_of batch)
    → ((d : ℕ) → acks d r.0 ≤ tally (waits d) batch)
    → ((d : ℕ) → tally (waits d) batch ≤ acks d r.0 + lost d)
    → IsDurable lost batch t r
all-IsDurable lost batch t r log acked heard = record {
  durable = batch;
  log = log;
  within = λ w. omega arith;
  acked = acked;
  heard = heard;
}

call-IsDurable :
    (link : Link) (order boss_order : List Key → List Key) (now : ℕ) (batch : List WriteReq)
    (t : Tables) (r : Result (Unit {0}) × Tables)
    → IsLogged link (events_of batch) t r
    → IsDurable
        (λ d. unheard d (calls link order boss_order now) batch)
        batch
        t
        (commit (outcome_of r.0) batch, r.1)
call-IsDurable link order boss_order now batch t r (logged _ fine log) = rw fine (
    all-IsDurable _ batch t _ log (λ d. omega (arith, acks-commit_ok d batch))
      (λ d. omega (arith, acks-commit_ok d batch)))
call-IsDurable link order boss_order now batch t r (unchanged e _ failed same) =
    rw failed (none-IsDurable _ batch t _ (λ d. acks-commit_err d e batch) same)
call-IsDurable link order boss_order now batch t r (unsure e x _ failed lost log) =
    rw (failed, lost)
      (all-IsDurable _ batch t _ log (λ d. omega (arith, acks-commit_err d e batch))
        (λ d. omega arith))

attempt_commit-IsDurable :
    (a : Attempt) (batch : List WriteReq) (t : Tables)
    → IsDurable (λ d. unheard d a batch) batch t (attempt_commit a batch t)
unfolding attempt_commit commit_events
attempt_commit-IsDurable (calls link order boss_order now) batch t =
    call-IsDurable link order boss_order now batch t _
      (commit_batch-IsLogged link order boss_order now (events_of batch) t)
attempt_commit-IsDurable (panics x) batch t =
    none-IsDurable _ batch t _ (λ d. acks-commit_panic d x batch) refl

after-IsDurable :
    (lost lost' : ℕ → ℕ) (xs ys : List WriteReq) (t : Tables)
    (r r' : List (ℕ × Option Err) × Tables)
    → IsDurable lost xs t r
    → IsDurable lost' ys r.1 r'
    → IsDurable (λ d. lost d + lost' d) (xs ++ ys) t (r.0 ++ r'.0, r'.1)
after-IsDurable lost lost' xs ys t r r' a b = record {
  durable = a.durable ++ b.durable;
  log =
      b.log
      ∙ ap (λ l. l ++ map row_of (events_of b.durable)) a.log
      ∙ append_assoc t.damage_events _ _
      ∙ ap (λ l. t.damage_events ++ l) (sym (rows-append a.durable b.durable));
  within = λ w.
      omega
        (arith, a.within w, b.within w, tally-append w xs ys, tally-append w a.durable b.durable);
  acked = λ d. omega (
    arith,
    a.acked d,
    b.acked d,
    acks-append d r.0 r'.0,
    tally-append (waits d) a.durable b.durable,
  );
  heard = λ d. omega (
    arith,
    a.heard d,
    b.heard d,
    acks-append d r.0 r'.0,
    tally-append (waits d) a.durable b.durable,
  );
}

commit_all-IsDurable :
    (how : ℕ → Attempt) (n : ℕ) (bs : List (List WriteReq)) (t : Tables)
    → IsDurable (λ d. unheard_all d how n bs) (concat bs) t (commit_all how n bs t)
commit_all-IsDurable how n [] t = none-IsDurable _ [] t _ (λ d. refl) refl
commit_all-IsDurable how n (b ∷ bs) t =
    let first = attempt_commit (how n) b t in
    after-IsDurable _ _ b (concat bs) t first _ (attempt_commit-IsDurable (how n) b t)
      (commit_all-IsDurable how (suc n) bs first.1)

-- A run of the writer from Start to the end of Stop, in any interleaving of Submit, the loops and Stop, on
-- any tables, whatever happens to the connection of each batch, a panic included: there are requests that are
-- durable, such that the audit log has got their rows and no others; each of them was submitted, no request
-- is durable more often than it was submitted; each waiter is told of success at most as often as it has
-- durable requests; and its durable requests that it is not told of are in batches whose COMMIT lost its
-- answer.
pub drained-IsDurable :
    (cfg : WriterConfig) (w : Writer) (how : ℕ → Attempt) (t : Tables)
    → 0 < cfg.max_batch
    → Shifts cfg (started cfg) w
    → (w.pool).loops ≡ []
    → IsDurable
        (λ d. unheard_all d how 0 (w.pool).committed)
        (w.pool).submitted
        t
        (commit_all how 0 (w.pool).committed t)
drained-IsDurable cfg w how t room run gone =
    let end = drained cfg w room run gone in
    let r = commit_all-IsDurable how 0 (w.pool).committed t in
    record {
      durable = r.durable;
      log = r.log;
      within = λ v. omega (arith, r.within v, end.2 v);
      acked = r.acked;
      heard = r.heard;
    }
