-- ===== src/System/Scores/Commits.antt =====
-- A commit of pending events keeps the leaderboard.
use mathlib.Core.List.{Perm}
use enigma_behemoth.Prelude.{ℕ, String, ◌≡◌, refl, subst, List, ◌++◌, arith}
use enigma_behemoth.Prelude.Int.{ℤ}
use enigma_behemoth.Store.{DamageEvent}
use enigma_behemoth.Redis.Server.{Server}
use enigma_behemoth.Redis.Snapshot.{Snapshot}
use enigma_behemoth.Postgres.Tables.{Tables}
use enigma_behemoth.Postgres.Batch.{Key, sound, commit_batch}
use enigma_behemoth.Postgres.Batch.Sums.{IsGain}
use enigma_behemoth.Postgres.Batch.Commit.{IsOrder, Fits}
use enigma_behemoth.Postgres.Batch.Effect.{commit_batch-Committed}
use enigma_behemoth.Postgres.Batch.Reorder.{dealt-perm, dealt-append, IsGain-perm, All_rest}
use enigma_behemoth.System.{System}
use enigma_behemoth.System.Scores.Snapshots.{HasScore, key}
use enigma_behemoth.System.Scores.Defs

module _ (S : Server) (ttl : ℤ) (id q : String) where
  abbrev view : System S ttl → Snapshot
  view = Defs.view S ttl id q id

  abbrev IsScored : System S ttl → Type 0
  IsScored = Defs.IsScored S ttl id q

  pub commits-IsScored :
      (order boss_order : List Key → List Key) (es rest : List DamageEvent) (s : System S ttl)
      → IsOrder order
      → IsOrder boss_order
      → Perm s.pending (es ++ rest)
      → Fits es s.tables
      → IsScored s
      → IsScored (record s {
        pending = rest;
        tables = (commit_batch sound order boss_order s.now es s.tables).1;
      })
  commits-IsScored order boss_order es rest s walk boss_walk p fits v =
      let (t', eq, done) =
        commit_batch-Committed order boss_order s.now es s.tables walk boss_walk fits in
      let same : t' ≡ (commit_batch sound order boss_order s.now es s.tables).1 = rw eq refl in
      subst (λ (x : Tables). IsScored (record s { pending = rest; tables = x })) same
        (record {
          scored =
              subst (λ (n : ℕ). HasScore q n (view s))
                (omega (
                  arith,
                  dealt-perm (key id q) p,
                  dealt-append (key id q) es rest,
                  done.totals (key id q),
                ))
                v.scored;
          gains = All_rest IsGain es rest (IsGain-perm p v.gains);
          keyed = done.keyed v.keyed;
          aligned = v.aligned;
        })
