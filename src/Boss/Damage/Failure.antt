-- ===== src/Boss/Damage/Failure.antt =====
-- What Damage leaves behind when the durable write fails: an undo where the write is known not to have
-- persisted, a scheduled rebuild where it may have, or where the undo failed.
use mathlib.Core.List.{append-nil}
use enigma_behemoth.Prelude.{
  String, ◌≡◌, refl, sym, true, false, none, some, [], ◌∷◌, ◌++◌, length, ltb, arith, ◌||◌, ◌==◌,
  if◌then◌else◌, inl, inr, Bool-cases, ◌⊎◌,
}
use enigma_behemoth.Prelude.Int.{ℤ}
use enigma_behemoth.Errors.{
  Err, Result, ok, err, sentinel, is, queue_full, commit_failed, overloaded, canceled,
  deadline_exceeded,
}
use enigma_behemoth.Store.{ApplyResult}
use enigma_behemoth.Redis.Server.{Server, Delivery, answered, refused, lost, call}
use enigma_behemoth.Redis.Snapshot.{Snapshot, snapshot, undo}
use enigma_behemoth.Redis.Client.{compensate_damage}
use enigma_behemoth.Redis.Calls.{compensate_damage-undo}
use enigma_behemoth.Writer.{WriteReq, Outcome, returned, panicked, release_error, await}
use enigma_behemoth.Writer
use enigma_behemoth.Boss.Service.{
  Config, World, Env, schedule_reconcile, undo_hit, reconcile_failed_write, make_durable,
}
use enigma_behemoth.Boss.Damage.Durable.{request, make_durable-refused, make_durable-failed}

-- What a commit that fails releases its waiters with is a commit failure.
pub release_error-IsCommitFailed :
    (out : Outcome) (e : Err) → release_error out ≡ some e → is e commit_failed ≡ true
unfolding release_error
release_error-IsCommitFailed (returned none) e h = ground arith
release_error-IsCommitFailed (returned (some x)) e h = ground arith
release_error-IsCommitFailed (panicked r) e h = ground arith

module _ (S : Server) (cfg : Config) (env : Env S) (id player : String) where
  open S use {Db, contents}

  abbrev seen : String → World S → Snapshot
  seen j w = snapshot env.undo_at j (contents w.db)

  -- The cache after the undo of a hit, with nothing else changed.
  pub record IsUndone (applied : ℤ) (before after : World S) : Type 0 where
    pub undone : seen id after ≡ undo player applied (seen id before)
    pub others : (j : String) → (id == j) ≡ false → seen j after ≡ seen j before
    pub queue : after.queue ≡ before.queue
    pub enqueued : after.enqueued ≡ before.enqueued

  abbrev compensated : Delivery → ℤ → Db → Result ℤ × Db
  compensated net applied db = compensate_damage S cfg.ttl net env.undo_at id player applied db

  compensated-ok : (applied : ℤ) (db : Db) → (n : ℤ) × ((compensated answered applied db).0 ≡ ok n)
  unfolding compensate_damage call
  compensated-ok applied db = (_, refl)

  undo_hit-compensated :
      (applied : ℤ) (w : World S)
      → env.undo ≡ answered
      → undo_hit S cfg env id player applied w
        ≡ record w { db = (compensated answered applied w.db).1 }
  unfolding undo_hit
  undo_hit-compensated applied w up = ground (arith, up, (compensated-ok applied w.db).1)

  compensated-IsUndone :
      (applied : ℤ) (w : World S)
      → IsUndone applied w (record w { db = (compensated answered applied w.db).1 })
  compensated-IsUndone applied w =
      let p = compensate_damage-undo S cfg.ttl env.undo_at id player applied w.db in
      record { undone = p.0; others = p.1; queue = refl; enqueued = refl }

  undo_hit-IsUndone :
      (applied : ℤ) (w : World S)
      → env.undo ≡ answered
      → IsUndone applied w (undo_hit S cfg env id player applied w)
  undo_hit-IsUndone applied w up =
      rw (undo_hit-compensated applied w up) (compensated-IsUndone applied w)

  -- An error that tells of a write that did not persist undoes the hit.
  reconcile-definite :
      (applied : ℤ) (e : Err) (w : World S)
      → is e queue_full || is e commit_failed ≡ true
      → reconcile_failed_write S cfg env id player applied e w ≡ (
        if is e queue_full then sentinel overloaded else e,
        undo_hit S cfg env id player applied w,
      )
  unfolding reconcile_failed_write
  reconcile-definite applied e w h = rw h refl

  -- A hit that the full queue refuses is undone, if the undo is answered, and the answer is `overloaded`:
  -- the boss is as after an undo, and the other bosses, the queue and the reconciler's calls are as they
  -- were when Submit returned.
  pub make_durable_overloaded :
      (res : ApplyResult) (w : World S)
      → ltb (length w.queue) cfg.queue_size ≡ false
      → env.undo ≡ answered
      → let r = make_durable S cfg env id player res w in
        (r.0 ≡ err (sentinel overloaded)) × IsUndone res.applied (env.waited w) r.1
  make_durable_overloaded res w full up =
      rw
        (
          make_durable-refused S cfg env id player res w full,
          reconcile-definite res.applied (sentinel queue_full) (env.waited w) refl,
        )
        (refl, undo_hit-IsUndone res.applied (env.waited w) up)

  -- A hit whose event was queued and whose commit fails, by whatever error but one that is a full queue (a
  -- deadline of the transaction and a panic included), is undone, if the undo is answered; the answer is
  -- the error of the commit, which is a commit failure.
  pub make_durable_commit_failed :
      (res : ApplyResult) (w : World S) (out : Outcome) (e : Err)
      → release_error out ≡ some e
      → is e queue_full ≡ false
      → env.wait ≡ Writer.answered (release_error out)
      → ltb (length w.queue) cfg.queue_size ≡ true
      → env.undo ≡ answered
      → let w' = env.waited (record w { queue = w.queue ++ request env id player res ∷ [] }) in
        let r = make_durable S cfg env id player res w in
        (is e commit_failed ≡ true) × (r.0 ≡ err e) × IsUndone res.applied w' r.1
  unfolding await
  make_durable_commit_failed res w out e fails driver heard room up =
      let failed = release_error-IsCommitFailed out e fails in
      let w' = env.waited (record w { queue = w.queue ++ request env id player res ∷ [] }) in
      let bad : await env.wait ≡ err e = ground (arith, fails, heard) in
      rw
        (
          make_durable-failed S cfg env id player res w e room bad,
          reconcile-definite res.applied e w' (ground (arith, failed)),
          driver,
        )
        (failed, refl, undo_hit-IsUndone res.applied w' up)

  -- The boss is handed to the reconciler, if there is one, and nothing else happens.
  abbrev pub IsScheduled : World S → World S → Type 0
  IsScheduled before after =
      (after.queue ≡ before.queue)
      × (after.enqueued ≡ before.enqueued ++ (if cfg.has_reconciler then id ∷ [] else []))

  schedule_reconcile-IsScheduled : (w : World S) → IsScheduled w (schedule_reconcile S cfg id w)
  unfolding schedule_reconcile
  schedule_reconcile-IsScheduled w = elim (Bool-cases cfg.has_reconciler) [
    | inl on ↦ rw on (refl, refl)
    | inr off ↦ rw off (refl, sym (append-nil w.enqueued))
  ]

  scheduled-db : (w : World S) → (schedule_reconcile S cfg id w).db ≡ w.db
  unfolding schedule_reconcile
  scheduled-db w = ground arith

  reconcile-canceled :
      (applied : ℤ) (w : World S)
      → reconcile_failed_write S cfg env id player applied (sentinel canceled) w
        ≡ (sentinel canceled, schedule_reconcile S cfg id w)
  unfolding reconcile_failed_write
  reconcile-canceled applied w = refl

  reconcile-expired :
      (applied : ℤ) (w : World S)
      → reconcile_failed_write S cfg env id player applied (sentinel deadline_exceeded) w
        ≡ (sentinel deadline_exceeded, schedule_reconcile S cfg id w)
  unfolding reconcile_failed_write
  reconcile-expired applied w = refl

  compensated-refused :
      (d : Err) (applied : ℤ) (db : Db) → (compensated (refused d) applied db).0 ≡ err d
  unfolding compensate_damage call
  compensated-refused d applied db = refl

  compensated-lost : (d : Err) (applied : ℤ) (db : Db) → (compensated (lost d) applied db).0 ≡ err d
  unfolding compensate_damage call
  compensated-lost d applied db = refl

  undo_hit-fails :
      (applied : ℤ) (d : Err) (w : World S)
      → (compensated env.undo applied w.db).0 ≡ err d
      → undo_hit S cfg env id player applied w
        ≡ schedule_reconcile S cfg id (record w { db = (compensated env.undo applied w.db).1 })
  unfolding undo_hit
  undo_hit-fails applied d w h = ground (arith, h)

  -- A wait, for an event that was queued, that the context ends leaves the cache as it is, since the event
  -- may still commit, and has the boss rebuilt, if there is a reconciler; the answer is
  -- `canceled` if the context was cancelled, and `deadline_exceeded` if its deadline passed.
  pub make_durable_uncertain :
      (res : ApplyResult) (w : World S)
      → ltb (length w.queue) cfg.queue_size ≡ true
      → (env.wait ≡ Writer.cancelled) ⊎ (env.wait ≡ Writer.expired)
      → let w' = env.waited (record w { queue = w.queue ++ request env id player res ∷ [] }) in
        let r = make_durable S cfg env id player res w in
        (((env.wait ≡ Writer.cancelled) × (r.0 ≡ err (sentinel canceled)))
          ⊎ ((env.wait ≡ Writer.expired) × (r.0 ≡ err (sentinel deadline_exceeded))))
        × (r.1.db ≡ w'.db)
        × IsScheduled w' r.1
  unfolding await
  make_durable_uncertain res w room (inl e) =
      let w' = env.waited (record w { queue = w.queue ++ request env id player res ∷ [] }) in
      rw
        (
          make_durable-failed S cfg env id player res w (sentinel canceled) room
              (ground (arith, e)),
          reconcile-canceled res.applied w',
        )
        (inl (e, refl), scheduled-db w', schedule_reconcile-IsScheduled w')
  make_durable_uncertain res w room (inr e) =
      let w' = env.waited (record w { queue = w.queue ++ request env id player res ∷ [] }) in
      rw
        (
          make_durable-failed S cfg env id player res w (sentinel deadline_exceeded) room
              (ground (arith, e)),
          reconcile-expired res.applied w',
        )
        (inr (e, refl), scheduled-db w', schedule_reconcile-IsScheduled w')

  -- After an error that tells of a full queue or of a failed commit, an undo that is refused or whose
  -- answer is lost has the boss rebuilt, if there is a reconciler.
  pub reconcile_failed_write_undo_fails :
      (applied : ℤ) (e d : Err) (w : World S)
      → is e queue_full || is e commit_failed ≡ true
      → (env.undo ≡ refused d) ⊎ (env.undo ≡ lost d)
      → IsScheduled w (reconcile_failed_write S cfg env id player applied e w).1
  reconcile_failed_write_undo_fails applied e d w h f =
      let failed : (compensated env.undo applied w.db).0 ≡ err d = elim f [
        | inl r ↦ rw r (compensated-refused d applied w.db)
        | inr l ↦ rw l (compensated-lost d applied w.db)
      ] in
      let w' = record w { db = (compensated env.undo applied w.db).1 } in
      rw (reconcile-definite applied e w h, undo_hit-fails applied d w failed)
        (schedule_reconcile-IsScheduled w')
