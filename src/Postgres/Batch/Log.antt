-- ===== src/Postgres/Batch/Log.antt =====
-- What CommitBatch does to the audit log, on any batch, any tables and any connection.
use mathlib.Core.List.{append-nil, append_assoc}
use enigma_behemoth.Prelude.{
  ℕ, String, ◌≡◌, refl, sym, ap, ◌∙◌, Option, none, some, List, [], ◌∷◌, ◌++◌, map, arith, inl, inr,
  Bool-cases,
}
use enigma_behemoth.Prelude.Int.{ℤ, pos, negsuc}
use enigma_behemoth.Errors.{Err, Result, ok, err, wrap, ◌>>=◌}
use enigma_behemoth.Store.{DamageEvent}
use enigma_behemoth.Postgres.Tables.{Tables, Boss, EventRow, find_boss, is_some, copy_rows}
use enigma_behemoth.Postgres.Batch.{
  Key, Link, sound, broken, ack_lost, Stage, at_begin, at_copy, at_exec, at_close, at_commit, step,
  batch_tx, settle_tx, commit_batch,
}
use enigma_behemoth.Postgres.Batch.Commit.{row_of}

bind_gives :
    {A B : Type 0} (r : Result A) (f : A → Result B) (x : Option A) (P : B → Type 0) (b : B)
    → ((a : A) → r ≡ ok a → x ≡ some a)
    → ((a : A) → x ≡ some a → f a ≡ ok b → P b)
    → (r >>= f) ≡ ok b
    → P b
bind_gives (ok a) f x P b s k h = k a (s a refl) h
bind_gives (err e) f x P b s k h = cc

tables_inj : {a b : Tables} → some a ≡ some b → a ≡ b
tables_inj h = cc

step-some :
    {A : Type 0} (link : Link) (at : Stage) (msg : String) (x : Option A) (a : A)
    → step link at msg x ≡ ok a
    → x ≡ some a
unfolding step
step-some sound at msg none a h = ground arith
step-some sound at msg (some x) a h = ground arith
step-some (ack_lost e) at msg none a h = ground arith
step-some (ack_lost e) at msg (some x) a h = ground arith
step-some (broken s e) at msg none a h = ground arith
step-some (broken s e) at msg (some x) a h = ground arith

some_inj : {a b : List EventRow} → some a ≡ some b → a ≡ b
some_inj h = cc

abbrev IsCopied : List Boss → List DamageEvent → List EventRow → Type 0
IsCopied bosses es log' =
    (log : List EventRow) → copy_rows bosses es log ≡ some log' → log' ≡ log ++ map row_of es

event-IsCopied :
    (bosses : List Boss) (b p : String) (a : ℤ) (es : List DamageEvent) (log' : List EventRow)
    → IsCopied bosses es log'
    → IsCopied bosses (record { boss_id = b; player_id = p; applied = a } ∷ es) log'
unfolding copy_rows
event-IsCopied bosses b p (negsuc n) es log' ih log h = ground arith
event-IsCopied bosses b p (pos n) es log' ih log h =
    elim (Bool-cases (is_some (find_boss b bosses))) [
      | inl known ↦
          let row : EventRow = record { boss_id = b; player_id = p; damage_applied = n } in
          ih (log ++ row ∷ []) (sym (rw known refl) ∙ h)
          ∙ append_assoc log (row ∷ []) (map row_of es)
      | inr unknown ↦ ground (arith, unknown)
    ]

copy_rows-IsCopied :
    (bosses : List Boss) (es : List DamageEvent) (log' : List EventRow) → IsCopied bosses es log'
unfolding copy_rows
copy_rows-IsCopied bosses [] log' log h = sym (some_inj h) ∙ sym (append-nil log)
copy_rows-IsCopied bosses (e ∷ es) log' log h =
    event-IsCopied bosses e.boss_id e.player_id e.applied es log'
      (copy_rows-IsCopied bosses es log') log h

module _ (link : Link) (order boss_order : List Key → List Key) (now : ℕ) (es : List DamageEvent)
    (t : Tables) where
  abbrev IsAppended : Tables → Type 0
  IsAppended t' = t'.damage_events ≡ t.damage_events ++ map row_of es

  batch_tx-log : (t' : Tables) → batch_tx link order boss_order now es t ≡ ok t' → IsAppended t'
  unfolding batch_tx
  batch_tx-log t' = bind_gives _ _ _ IsAppended t' (step-some link at_begin _ _) λ u begun.
      bind_gives _ _ _ IsAppended t' (step-some link at_copy _ _) λ log copied.
        bind_gives _ _ _ IsAppended t' (step-some link at_exec _ _) λ rows added.
          bind_gives _ _ _ IsAppended t' (step-some link at_exec _ _) λ bosses hurt.
            bind_gives _ _ _ IsAppended t' (step-some link at_close _ _) λ v closed done.
              ap (λ (x : Tables). x.damage_events)
                (sym (tables_inj (step-some link at_commit _ _ t' done)))
              ∙ copy_rows-IsCopied t.bosses es log t.damage_events copied

-- CommitBatch answers without an error and has appended one row per event to the log, in order; or it
-- answers with an error, and the tables are as they were, or the answer to COMMIT is lost and the rows are
-- appended.
pub data IsLogged (link : Link) (es : List DamageEvent) (t : Tables)
    : Result (Unit {0}) × Tables → Type 0 where
  logged :
      (r : Result (Unit {0}) × Tables)
      → r.0 ≡ ok tt
      → r.1.damage_events ≡ t.damage_events ++ map row_of es
      → IsLogged link es t r
  unchanged :
      (e : Err) (r : Result (Unit {0}) × Tables) → r.0 ≡ err e → r.1 ≡ t → IsLogged link es t r
  unsure :
      (e x : Err) (r : Result (Unit {0}) × Tables)
      → r.0 ≡ err e
      → link ≡ ack_lost x
      → r.1.damage_events ≡ t.damage_events ++ map row_of es
      → IsLogged link es t r

settle_tx-IsLogged :
    (link : Link) (es : List DamageEvent) (t : Tables) (r : Result Tables)
    → ((t' : Tables) → r ≡ ok t' → t'.damage_events ≡ t.damage_events ++ map row_of es)
    → IsLogged link es t (settle_tx link t r)
unfolding settle_tx
settle_tx-IsLogged link es t (err e) h = unchanged e _ refl refl
settle_tx-IsLogged sound es t (ok t') h = logged _ refl (h t' refl)
settle_tx-IsLogged (broken s e) es t (ok t') h = logged _ refl (h t' refl)
settle_tx-IsLogged (ack_lost e) es t (ok t') h =
    unsure (wrap "commit batch" e) e _ refl refl (h t' refl)

pub commit_batch-IsLogged :
    (link : Link) (order boss_order : List Key → List Key) (now : ℕ) (es : List DamageEvent)
    (t : Tables)
    → IsLogged link es t (commit_batch link order boss_order now es t)
unfolding commit_batch
commit_batch-IsLogged link order boss_order now [] t =
    logged _ refl (sym (append-nil t.damage_events))
commit_batch-IsLogged link order boss_order now (e ∷ es) t =
    settle_tx-IsLogged link (e ∷ es) t _ (batch_tx-log link order boss_order now (e ∷ es) t)
