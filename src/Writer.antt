-- ===== src/Writer.antt =====
-- internal/store/writer.go: the group-commit writer. A waiter's `done` channel is a number.
pub mod Acks
pub mod Loop
pub mod Pool
pub mod Durable
use enigma_behemoth.Prelude.{
  ℕ, String, Option, none, some, List, [], ◌∷◌, ◌++◌, map, Bool, true, false, length, leb, ltb,
  if◌then◌else◌,
}
use enigma_behemoth.Prelude.Int.{ℤ}
use enigma_behemoth.Errors.{
  Err, Sentinel, Result, ok, err, sentinel, opaque, join, queue_full, commit_failed, canceled,
  deadline_exceeded,
}
use enigma_behemoth.Store.{DamageEvent}

pub record WriteReq : Type 0 where
  pub ev : DamageEvent
  pub done : ℕ

pub record WriterConfig : Type 0 where
  pub queue_size : ℕ
  pub max_batch : ℕ
  pub concurrency : ℕ

-- The clamp of NewWriter. No concurrency below one.
unfoldable pub new_writer : WriterConfig → WriterConfig
new_writer cfg = if ltb cfg.concurrency 1 then record cfg { concurrency = 1 } else cfg

-- The state of one goroutine of Start: its batch, oldest first, and whether its timer runs.
pub record LoopState : Type 0 where
  pub batch : List WriteReq
  pub timer_active : Bool

abbrev pub idle : LoopState
idle = record { batch = []; timer_active = false }

-- What the `select` of the loop receives.
pub data Event : Type 0 where
  received : WriteReq → Event
  closed : Event
  timer_fired : Event

-- `flush`: the batches that it hands to `commit`, none if it is empty, and the state after it.
unfoldable pub flush : LoopState → LoopState × List (List WriteReq)
flush s = elim s.batch [
  | [] ↦ (s, [])
  | r ∷ rs ↦ (record { batch = []; timer_active = false }, (r ∷ rs) ∷ [])
]

-- One round of the loop.
unfoldable pub round : ℕ → Event → LoopState → LoopState × List (List WriteReq)
unfolding flush
round max_batch (received r) s =
    let batch = s.batch ++ r ∷ [] in
    if leb max_batch (length batch)
    then flush (record s { batch = batch })
    else (record { batch = batch; timer_active = true }, [])
round max_batch closed s = flush s
round max_batch timer_fired s = flush (record s { timer_active = false })

-- The loop over the events that it receives until the channel is closed: the batches that it commits,
-- in order, and the state in which it waits or returns.
unfoldable pub loop : ℕ → List Event → LoopState → LoopState × List (List WriteReq)
loop max_batch [] s = (s, [])
loop max_batch (closed ∷ es) s = round max_batch closed s
loop max_batch (e ∷ es) s =
    let (s', out) = round max_batch e s in
    let (s'', rest) = loop max_batch es s' in (s'', out ++ rest)

-- How CommitBatch ends, seen from `commit`.
pub data Outcome : Type 0 where
  returned : Option Err → Outcome
  panicked : String → Outcome

-- The error that `commit` releases its waiters with.
unfoldable pub release_error : Outcome → Option Err
release_error (returned none) = none
release_error (returned (some e)) = some (join (sentinel commit_failed) e)
release_error (panicked r) = some (join (sentinel commit_failed) (opaque "writer panic"))

-- Every waiter of the batch is sent the error.
unfoldable pub commit : Outcome → List WriteReq → List (ℕ × Option Err)
unfolding release_error
commit out batch = map (λ r. (r.done, release_error out)) batch

-- What Submit sees after it has queued its event: the writer's answer, or the end of its context.
pub data Wait : Type 0 where
  answered : Option Err → Wait
  cancelled expired : Wait

unfoldable pub await : Wait → Result (Unit {0})
await (answered none) = ok tt
await (answered (some e)) = err e
await cancelled = err (sentinel canceled)
await expired = err (sentinel deadline_exceeded)

-- Submit, on a channel that holds `queue` and has room for `size`.
unfoldable pub submit : ℕ → Wait → WriteReq → List WriteReq → Result (Unit {0}) × List WriteReq
unfolding await
submit size w req queue =
    if ltb (length queue) size
    then (await w, queue ++ req ∷ [])
    else (err (sentinel queue_full), queue)
