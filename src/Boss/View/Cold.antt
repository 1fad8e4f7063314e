-- ===== src/Boss/View/Cold.antt =====
-- Get on a boss that the cache does not hold.
use enigma_behemoth.Prelude.{String, ◌≡◌, Bool}
use enigma_behemoth.Prelude.Int.{ℤ}
use enigma_behemoth.Errors.{Result}
use enigma_behemoth.Store.{BossView}
use enigma_behemoth.Redis.Server.{Server}
use enigma_behemoth.Redis.Snapshot.{Snapshot}
use enigma_behemoth.Redis.View.{get_boss_view}
use enigma_behemoth.Redis.View.Top.{IsAlone}
use enigma_behemoth.Postgres.Tables.{Boss}
use enigma_behemoth.Recovery.Rehydrate.{rehydrate_boss}
use enigma_behemoth.Recovery.Rebuilt.{IsAnswered}
use enigma_behemoth.Boss.View.{GetEnv}

module _ (S : Server) (ttl : ℤ) (env : GetEnv S) (id : String) where
  open S use {Db, contents}

  -- Every call is answered, nobody else acts within or between the calls, but for before the rebuild,
  -- and the second reading is at the time of the rebuild.
  pub record IsUndisturbed : Type 0 where
    pub first : IsAlone S env.first
    pub rebuild : IsAnswered env.rebuild
    pub loaded : (db : Db) → env.loaded db ≡ db
    pub second : IsAlone S env.second
    pub at_once : env.second.at ≡ env.rebuild.at

  abbrev first_read : Db → Result (BossView × Bool) × Db
  first_read db = get_boss_view S env.first id db

  abbrev rebuilt_db : Db → Db
  rebuilt_db db = (rehydrate_boss S ttl env.rebuild id (env.missed (first_read db).1)).1

  abbrev second_read : Db → Result (BossView × Bool) × Db
  second_read db = get_boss_view S env.second id (env.loaded (rebuilt_db db))
