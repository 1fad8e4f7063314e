-- ===== src/Postgres/Batch/Atomic.antt =====
-- A batch is committed as a whole or not at all, wherever the connection fails.
use enigma_behemoth.Prelude.{
  ℕ, String, ◌≡◌, refl, Option, none, some, List, [], ◌∷◌, arith, ◌⊎◌, inl, inr,
}
use enigma_behemoth.Errors.{Err, Result, ok, err, wrap, ◌>>=◌, Result-cases}
use enigma_behemoth.Store.{DamageEvent}
use enigma_behemoth.Postgres.Tables.{Tables}
use enigma_behemoth.Postgres.Batch.{
  Key, Link, sound, broken, ack_lost, Stage, at_begin, at_copy, at_exec, at_close, at_commit, step,
  batch_tx, settle_tx, commit_batch,
}

-- A step that succeeds succeeds with a sound connection too.
module _ {ℓ} {A : Type ℓ} where
  step-sound :
      (link : Link) (at : Stage) (msg : String) (x : Option A) (a : A)
      → step link at msg x ≡ ok a
      → step sound at msg x ≡ ok a
  unfolding step
  step-sound sound at msg x a h = h
  step-sound (ack_lost e) at msg none a h = h
  step-sound (ack_lost e) at msg (some x) a h = h
  step-sound (broken s e) at msg none a h = ground arith
  step-sound (broken s e) at msg (some x) a h = ground arith

bind_ok :
    {A B : Type 0} (r r' : Result A) (f f' : A → Result B) (b : B)
    → ((a : A) → r ≡ ok a → r' ≡ ok a)
    → ((a : A) → f a ≡ ok b → f' a ≡ ok b)
    → (r >>= f) ≡ ok b
    → (r' >>= f') ≡ ok b
bind_ok (ok a) r' f f' b hr hf h = rw (hr a refl) (hf a h)
bind_ok (err e) r' f f' b hr hf h = cc

module _ (link : Link) (order boss_order : List Key → List Key) (now : ℕ) (es : List DamageEvent)
    (t : Tables) where
  batch_tx-sound :
      (t' : Tables)
      → batch_tx link order boss_order now es t ≡ ok t'
      → batch_tx sound order boss_order now es t ≡ ok t'
  unfolding batch_tx
  batch_tx-sound t' = bind_ok _ _ _ _ t' (step-sound link at_begin _ _) λ _.
      bind_ok _ _ _ _ t' (step-sound link at_copy _ _) λ log.
        bind_ok _ _ _ _ t' (step-sound link at_exec _ _) λ rows.
          bind_ok _ _ _ _ t' (step-sound link at_exec _ _) λ bosses.
            bind_ok _ _ _ _ t' (step-sound link at_close _ _) λ _. step-sound link at_commit _ _ t'

-- What is left of a run of CommitBatch: that of a sound connection; an error with the tables as they
-- were; or a COMMIT whose answer is lost, with the tables of a sound connection.
abbrev pub IsWhole :
    Link → Tables → Result (Unit {0}) × Tables → Result (Unit {0}) × Tables → Type 0
IsWhole link t whole r =
    (r ≡ whole)
    ⊎ (((e : Err) × (r ≡ (err e, t)))
        ⊎ ((e : Err) × (link ≡ ack_lost e) × (r ≡ (err (wrap "commit batch" e), whole.1))))

settle_tx-IsWhole :
    (link : Link) (t t' : Tables) → IsWhole link t (ok tt, t') (settle_tx link t (ok t'))
unfolding settle_tx
settle_tx-IsWhole sound t t' = inl refl
settle_tx-IsWhole (broken s e) t t' = inl refl
settle_tx-IsWhole (ack_lost e) t t' = inr (inr (e, refl, refl))

settled-IsWhole :
    (link : Link) (t : Tables) (r sound_r : Result Tables)
    → ((t' : Tables) → r ≡ ok t' → sound_r ≡ ok t')
    → IsWhole link t (settle_tx sound t sound_r) (settle_tx link t r)
unfolding settle_tx
settled-IsWhole link t r sound_r h = elim (Result-cases r) [
  | inr (e, x) ↦ rw x (inr (inl (e, refl)))
  | inl (t', x) ↦ rw (x, h t' x) (settle_tx-IsWhole link t t')
]

-- Wherever the connection fails, CommitBatch ends as with a sound connection; or with an error and the
-- tables as they were; or, if the answer to COMMIT is lost, with an error and the tables of a sound
-- connection.
pub commit_batch-IsWhole :
    (link : Link) (order boss_order : List Key → List Key) (now : ℕ) (es : List DamageEvent)
    (t : Tables)
    → IsWhole link t
        (commit_batch sound order boss_order now es t)
        (commit_batch link order boss_order now es t)
unfolding commit_batch
commit_batch-IsWhole link order boss_order now [] t = inl refl
commit_batch-IsWhole link order boss_order now (e ∷ es) t =
    settled-IsWhole link t _ _ (batch_tx-sound link order boss_order now (e ∷ es) t)
