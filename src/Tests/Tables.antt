-- ===== src/Tests/Tables.antt =====
-- CommitBatch on concrete tables.
use mathlib.Core.List.Perm
use enigma_behemoth.Prelude.{◌≡◌, refl, [], ◌∷◌, arith}
use enigma_behemoth.Errors.{ok, opaque}
use enigma_behemoth.Postgres.Tables.{Tables, find_boss, find_total, sum_of}
use enigma_behemoth.Postgres.Batch.Books.{IsBooked}
use enigma_behemoth.Postgres.Batch.Atomic.{IsWhole, commit_batch-IsWhole}
use enigma_behemoth.Postgres.Batch.{ack_lost, key_of, sound, commit_batch, same_key}
use enigma_behemoth.Postgres.Batch.Commit.{Fits}
use enigma_behemoth.Postgres.Batch.Effect.{Committed, commit_batch-Committed}
use enigma_behemoth.Tests.Data.{tables, event}

fits : Fits (event ∷ event ∷ []) tables
unfolding find_boss find_total key_of same_key
fits = record {
  gains = (refl, (refl, tt));
  known = (refl, (refl, tt));
  small = omega arith;
  room = λ k. ground arith;
  settled = (record { fits = omega arith; state = refl }, tt);
}

commit_batch-Committed_example :
    (t' : Tables) × (commit_batch sound (λ ks. ks) (λ ks. ks) 9 (event ∷ event ∷ []) tables
      ≡ (ok tt, t'))
    × Committed (event ∷ event ∷ []) tables t'
commit_batch-Committed_example =
    commit_batch-Committed (λ ks. ks) (λ ks. ks) 9 (event ∷ event ∷ []) tables (λ ks. Perm.refl ks)
      (λ ks. Perm.refl ks) fits

commit_batch-IsWhole_example :
    IsWhole
      (ack_lost (opaque "eof"))
      tables
      (commit_batch sound (λ ks. ks) (λ ks. ks) 9 (event ∷ []) tables)
      (commit_batch (ack_lost (opaque "eof")) (λ ks. ks) (λ ks. ks) 9 (event ∷ []) tables)
commit_batch-IsWhole_example =
    commit_batch-IsWhole (ack_lost (opaque "eof")) (λ ks. ks) (λ ks. ks) 9 (event ∷ []) tables

pub booked : IsBooked tables
unfolding find_total sum_of
booked = record { totals = λ k. ground arith; sums = λ b. ground arith; charged = (refl, tt) }
