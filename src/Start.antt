-- ===== src/Start.antt =====
-- cmd/server/main.go: `run`, from the configuration to the end of the shutdown, as the trace of what it does.
pub mod Stages
pub mod Order
pub mod Serving
pub mod FirstHit
use enigma_behemoth.Prelude.{
  ℕ, suc, ◌+◌, ◌*◌, String, Option, none, some, List, [], ◌∷◌, ◌++◌, Bool, true, false,
}
use enigma_behemoth.Prelude.Int.{ℤ}
use enigma_behemoth.Errors.{Err, Result, ok, err, opaque}
use enigma_behemoth.Redis.Server.{Server}
use enigma_behemoth.Redis.Ready.{Ping, with_cache_ttl, new_redis_store}
use enigma_behemoth.Postgres.Tables.{Tables}
use enigma_behemoth.Postgres.Claims.{Fault}
use enigma_behemoth.Postgres.Connect.{Dial, to_int32, new_postgres_store}
use enigma_behemoth.Recovery.Rehydrate.{Rebuild, rehydrate_all}
use enigma_behemoth.Writer.{WriterConfig}
use enigma_behemoth.Boss.Service
use enigma_behemoth.Boss.Service.{new_service, with_reconciler}
use enigma_behemoth.Config.{Tunables, Environ, ParseDuration, load, writer_config}

-- What `run` does, in order, with the outcome of Shutdown. The deferred calls are at the end.
pub data Action : Type 0 where
  postgres_opened : ℤ → Action
  redis_opened : ℤ → Action
  writer_started : WriterConfig → Action
  reconciler_started rehydrated : Action
  ready : Bool → Action
  listening : String → Action
  http_shutdown : Fault → Action
  writer_stopped reconciler_stopped : Action
  redis_closed postgres_closed : Action

-- How serving ends: ListenAndServe fails, or a signal comes, and Shutdown may run into its timeout.
pub data End : Type 0 where
  listen_failed : Err → End
  signalled : Fault → End

-- What the surroundings do to a run. `redis_at` is the instant at which the wait for Redis begins, after
-- the start of the 30 s of the dial context.
pub record Surroundings : Type 0 where
  pub parse : ParseDuration
  pub environ : Environ
  pub postgres : Dial
  pub started_at : ℕ
  pub postgres_took : ℕ
  pub pings : ℕ → Ping
  pub list_fault : Fault
  pub list_tables : Tables
  pub rebuilds : String → Rebuild
  pub end : End

abbrev pub dial_timeout : ℕ
dial_timeout = 30000000000

-- A round for each 100 ms of the dial timeout, one more to pass it, and the last.
abbrev pub dial_rounds : ℕ
dial_rounds = 302

-- The select at the end, and the shutdown.
unfoldable pub serve : Tunables → End → Result (Unit {0}) × List Action
serve c (listen_failed e) = (err e, listening c.http_addr ∷ [])
serve c (signalled f) = (
  ok tt,
  listening c.http_addr ∷ ready false ∷ http_shutdown f ∷ writer_stopped ∷ reconciler_stopped ∷ [],
)

-- From RehydrateAll on.
unfoldable pub serve_rehydrated :
    Tunables → End → Result (Unit {0}) → Result (Unit {0}) × List Action
unfolding serve
serve_rehydrated c end (err e) = (err e, [])
serve_rehydrated c end (ok u) =
    let (r, actions) = serve c end in (r, rehydrated ∷ ready true ∷ actions)

-- The service that `run` makes, over the stores and the writer.
unfoldable pub service_config : Tunables → ℤ → Service.Config
unfolding writer_config new_service
service_config c ttl =
    new_service ttl (writer_config c).queue_size c.max_damage_per_hit (with_reconciler ∷ [])

module _ (S : Server) where
  open S use {Db}

  -- From the writer on, with both stores open.
  unfoldable pub run_workers :
      Tunables → ℤ → Surroundings → Db → Result (Unit {0}) × List Action × Db
  run_workers c ttl env db =
      let (r, db') = rehydrate_all S ttl env.list_fault env.list_tables env.rebuilds db in
      let (r', actions) = serve_rehydrated c env.end r in
      (r', writer_started (writer_config c) ∷ reconciler_started ∷ actions, db')

  -- From NewRedisStore on, with Postgres open.
  unfoldable pub run_redis : Tunables → Surroundings → Db → Result (Unit {0}) × List Action × Db
  run_redis c env db =
      elim (new_redis_store dial_rounds (env.started_at + dial_timeout) env.pings
        (env.started_at + env.postgres_took) (with_cache_ttl c.redis_cache_ttl ∷ [])) [
          | none ↦ (err (opaque "out of fuel"), [], db)
          | some (err e) ↦ (err e, [], db)
          | some (ok ttl) ↦
              let (r, actions, db') = run_workers c ttl env db in
              (r, redis_opened ttl ∷ (actions ++ redis_closed ∷ []), db')
        ]

  unfoldable pub run_stores : Tunables → Surroundings → Db → Result (Unit {0}) × List Action × Db
  run_stores c env db = elim (new_postgres_store env.postgres (to_int32 c.pg_max_conns)) [
    | err e ↦ (err e, [], db)
    | ok conns ↦
        let (r, actions, db') = run_redis c env db in
        (r, postgres_opened conns ∷ (actions ++ postgres_closed ∷ []), db')
  ]

  unfoldable pub run : Surroundings → Db → Result (Unit {0}) × List Action × Db
  run env db = elim (load env.parse env.environ) [
    | err e ↦ (err e, [], db)
    | ok c ↦ run_stores c env db
  ]
