-- ===== src/Recovery/Rehydrate.antt =====
-- internal/recovery/recovery.go.
use enigma_behemoth.Prelude.{ℕ, String, none, some, List, [], ◌∷◌, Bool, true, false}
use enigma_behemoth.Prelude.Int.{ℤ}
use enigma_behemoth.Errors.{Result, ok, err}
use enigma_behemoth.Store.{LeaderEntry, RecoveryState}
use enigma_behemoth.Redis.Server.{Server, Delivery}
use enigma_behemoth.Redis.Client.{rehydrate}
use enigma_behemoth.Postgres.Tables.{Tables}
use enigma_behemoth.Postgres.Claims.{Fault}
use enigma_behemoth.Postgres.Reads.{list_boss_ids, recovery_state, contributions}

-- What the surroundings do to one rebuild: the two queries may fail and may see different tables, and
-- the pipeline runs at `at`.
pub record Rebuild : Type 0 where
  pub state_fault : Fault
  pub state_tables : Tables
  pub rows_fault : Fault
  pub rows_tables : Tables
  pub net : Delivery
  pub at : ℕ

module _ (S : Server) (ttl : ℤ) where
  open S use {Db}

  -- The bool of RehydrateBoss after the pipeline.
  rehydrated : Result (Unit {0}) → Result Bool
  rehydrated (ok u) = ok true
  rehydrated (err e) = err e

  rebuild_with :
      Rebuild → String → RecoveryState → Result (List LeaderEntry) → Db → Result Bool × Db
  unfolding rehydrated
  rebuild_with env id rs (err e) db = (err e, db)
  rebuild_with env id rs (ok contribs) db =
      let (r, db') = rehydrate S ttl env.net env.at id rs contribs db in (rehydrated r, db')

  unfoldable pub rehydrate_boss : Rebuild → String → Db → Result Bool × Db
  unfolding rebuild_with
  rehydrate_boss env id db = elim (recovery_state env.state_fault env.state_tables id) [
    | err e ↦ (err e, db)
    | ok none ↦ (ok false, db)
    | ok (some rs) ↦ rebuild_with env id rs (contributions env.rows_fault env.rows_tables id) db
  ]

  -- The loop of RehydrateAll stops at the first error.
  unfoldable pub rehydrate_ids : (String → Rebuild) → List String → Db → Result (Unit {0}) × Db
  rehydrate_ids env [] db = (ok tt, db)
  rehydrate_ids env (id ∷ ids) db =
      let (r, db') = rehydrate_boss (env id) id db in
      elim r [ err e ↦ (err e, db') | ok b ↦ rehydrate_ids env ids db' ]

  unfoldable pub rehydrate_all : Fault → Tables → (String → Rebuild) → Db → Result (Unit {0}) × Db
  unfolding rehydrate_ids
  rehydrate_all f t env db = elim (list_boss_ids f t) [
    | err e ↦ (err e, db)
    | ok ids ↦ rehydrate_ids env ids db
  ]
