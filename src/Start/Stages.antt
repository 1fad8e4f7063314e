-- ===== src/Start/Stages.antt =====
-- The stages of a run of the server: what each gives, by what the call before it gives.
use enigma_behemoth.Prelude.{◌+◌, ◌≡◌, refl, Option, some, List, [], ◌∷◌, ◌++◌, arith, ◌⊎◌}
use enigma_behemoth.Prelude.Int.{ℤ}
use enigma_behemoth.Errors.{Result, ok, err, Err}
use enigma_behemoth.Redis.Server.{Server}
use enigma_behemoth.Redis.Ready.Wait.{new_redis_store-ends}
use enigma_behemoth.Redis.Ready.{with_cache_ttl, new_redis_store}
use enigma_behemoth.Postgres.Connect.{to_int32, new_postgres_store}
use enigma_behemoth.Config.{Tunables, load}
use enigma_behemoth.Start.{
  Action, postgres_opened, redis_opened, redis_closed, postgres_closed, Surroundings, dial_timeout,
  dial_rounds, run_workers, run_redis, run_stores, run,
}

module _ (S : Server) (env : Surroundings) (db : S.Db) where
  pub run_unloaded : (e : Err) → load env.parse env.environ ≡ err e → run S env db ≡ (err e, [], db)
  unfolding run
  run_unloaded e h = rw (h, run) refl

  pub run_loaded :
      (c : Tunables) → load env.parse env.environ ≡ ok c → run S env db ≡ run_stores S c env db
  unfolding run
  run_loaded c h = rw (h, run) refl

  module _ (c : Tunables) where
    abbrev pub dialled : Result ℤ
    dialled = new_postgres_store env.postgres (to_int32 c.pg_max_conns)

    abbrev pub waited : Option (Result ℤ)
    waited =
        new_redis_store dial_rounds (env.started_at + dial_timeout) env.pings
          (env.started_at + env.postgres_took) (with_cache_ttl c.redis_cache_ttl ∷ [])

    pub stores_refused : (e : Err) → dialled ≡ err e → run_stores S c env db ≡ (err e, [], db)
    unfolding run_stores
    stores_refused e h = rw (h, run_stores) refl

    abbrev pub within :
        ℤ → Result (Unit {0}) × List Action × S.Db → Result (Unit {0}) × List Action × S.Db
    within conns p = (p.0, postgres_opened conns ∷ (p.1 ++ postgres_closed ∷ []), p.2)

    pub stores_opened :
        (conns : ℤ)
        → dialled ≡ ok conns
        → run_stores S c env db ≡ within conns (run_redis S c env db)
    unfolding run_stores
    stores_opened conns h = rw (h, run_stores) refl

    pub redis_refused : (e : Err) → waited ≡ some (err e) → run_redis S c env db ≡ (err e, [], db)
    unfolding run_redis
    redis_refused e h = rw (h, run_redis) refl

    abbrev pub cached :
        ℤ → Result (Unit {0}) × List Action × S.Db → Result (Unit {0}) × List Action × S.Db
    cached ttl p = (p.0, redis_opened ttl ∷ (p.1 ++ redis_closed ∷ []), p.2)

    pub redis_ready :
        (ttl : ℤ)
        → waited ≡ some (ok ttl)
        → run_redis S c env db ≡ cached ttl (run_workers S c ttl env db)
    unfolding run_redis
    redis_ready ttl h = rw (h, run_redis) refl

    -- The fuel of the wait for Redis is enough.
    pub waited_ends : ((e : Err) × (waited ≡ some (err e))) ⊎ (waited ≡ some (ok c.redis_cache_ttl))
    waited_ends =
        new_redis_store-ends (env.started_at + dial_timeout) env.pings 301
          (env.started_at + env.postgres_took) (with_cache_ttl c.redis_cache_ttl ∷ []) (omega arith)
