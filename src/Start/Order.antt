-- ===== src/Start/Order.antt =====
-- The order in which a run of the server opens, rehydrates, serves, stops and closes.
use enigma_behemoth.Prelude.{
  ◌≡◌, refl, Option, none, some, List, [], ◌∷◌, ◌++◌, Bool, true, false, ◌&&◌, ◌||◌, not, inl, inr,
}
use enigma_behemoth.Prelude.Int.{ℤ}
use enigma_behemoth.Errors.{Result, ok, err, Result-cases}
use enigma_behemoth.Redis.Server.{Server}
use enigma_behemoth.Config.{Tunables, load, writer_config}
use enigma_behemoth.Start.{
  Action, postgres_opened, redis_opened, writer_started, reconciler_started, rehydrated, ready,
  listening, http_shutdown, writer_stopped, reconciler_stopped, redis_closed, postgres_closed, End,
  listen_failed, signalled, Surroundings, serve, serve_rehydrated, run_workers, run_redis, run,
}
use enigma_behemoth.Start.Stages.{
  dialled, within, run_unloaded, run_loaded, stores_refused, stores_opened, redis_refused,
  redis_ready, waited_ends,
}

-- What is open, running or done. `serving` is whether new requests are accepted, and `handling` whether
-- handlers may run; they go on if Shutdown runs into its timeout.
pub record Status : Type 0 where
  pub postgres : Bool
  pub redis : Bool
  pub writer : Bool
  pub reconciler : Bool
  pub cache : Bool
  pub is_ready : Bool
  pub serving : Bool
  pub handling : Bool
  pub timed_out : Bool

abbrev pub nothing : Status
nothing = record {
  postgres = false;
  redis = false;
  writer = false;
  reconciler = false;
  cache = false;
  is_ready = false;
  serving = false;
  handling = false;
  timed_out = false;
}

-- What an action asks for: each part of what it needs, and traffic only on a rehydrated cache with the
-- writer and the reconciler at work; the writer stops once no request is accepted and no handler runs, or
-- Shutdown has timed out, the reconciler after the writer, and the stores close in the reverse order.
abbrev pub allowed : Action → Status → Bool
allowed (postgres_opened n) s = not s.postgres
allowed (redis_opened ttl) s = s.postgres && not s.redis
allowed (writer_started cfg) s = s.postgres && s.redis && not s.writer
allowed reconciler_started s = s.postgres && s.redis && not s.reconciler
allowed rehydrated s = s.postgres && s.redis
allowed (ready true) s = s.cache
allowed (ready false) s = s.serving
allowed (listening addr) s = s.is_ready && s.cache && s.writer && s.reconciler
allowed (http_shutdown f) s = s.serving && not s.is_ready
allowed writer_stopped s = s.writer && not s.serving && (not s.handling || s.timed_out)
allowed reconciler_stopped s = s.reconciler && not s.writer
allowed redis_closed s = s.redis && s.postgres
allowed postgres_closed s = s.postgres && not s.redis

abbrev pub after : Action → Status → Status
after (postgres_opened n) s = record s { postgres = true }
after (redis_opened ttl) s = record s { redis = true }
after (writer_started cfg) s = record s { writer = true }
after reconciler_started s = record s { reconciler = true }
after rehydrated s = record s { cache = true }
after (ready b) s = record s { is_ready = b }
after (listening addr) s = record s { serving = true; handling = true }
after (http_shutdown none) s = record s { serving = false; handling = false }
after (http_shutdown (some e)) s = record s { serving = false; timed_out = true }
after writer_stopped s = record s { writer = false }
after reconciler_stopped s = record s { reconciler = false }
after redis_closed s = record s { redis = false }
after postgres_closed s = record s { postgres = false }

-- The status after a trace, if each action was allowed when it came.
abbrev pub follow : List Action → Status → Option Status
follow [] s = some s
follow (a ∷ rest) s = elim (allowed a s) [ true ↦ follow rest (after a s) | false ↦ none ]

-- A run that ends well has stopped everything.
abbrev pub Stops : Result (Unit {0}) → Status → Type 0
Stops (ok u) s =
    (s.writer ≡ false) × (s.reconciler ≡ false) × (s.serving ≡ false) × (s.handling ≡ s.timed_out)
Stops (err e) s = Unit

pub record IsOrderly (r : Result (Unit {0})) (actions : List Action) : Type 0 where
  pub final : Status
  pub follows : follow actions nothing ≡ some final
  pub closed : (final.postgres ≡ false) × (final.redis ≡ false)
  pub stopped : Stops r final

module _ (S : Server) where
  open S use {Db}

  serve_rehydrated-IsOrderly :
      (c : Tunables) (end : End) (ttl conns : ℤ) (r : Result (Unit {0}))
      → let p = serve_rehydrated c end r in
        IsOrderly p.0 (
          postgres_opened conns
          ∷ ((redis_opened ttl
                ∷ ((writer_started (writer_config c) ∷ reconciler_started ∷ p.1)
                    ++ redis_closed ∷ []))
              ++ postgres_closed ∷ []))
  unfolding serve_rehydrated serve
  serve_rehydrated-IsOrderly c end ttl conns (err e) = record {
    final = _;
    follows = refl;
    closed = (refl, refl);
    stopped = tt;
  }
  serve_rehydrated-IsOrderly c (listen_failed e) ttl conns (ok u) = record {
    final = _;
    follows = refl;
    closed = (refl, refl);
    stopped = tt;
  }
  serve_rehydrated-IsOrderly c (signalled none) ttl conns (ok u) = record {
    final = _;
    follows = refl;
    closed = (refl, refl);
    stopped = (refl, refl, refl, refl);
  }
  serve_rehydrated-IsOrderly c (signalled (some e)) ttl conns (ok u) = record {
    final = _;
    follows = refl;
    closed = (refl, refl);
    stopped = (refl, refl, refl, refl);
  }

  run_redis-IsOrderly :
      (c : Tunables) (env : Surroundings) (conns : ℤ) (db : Db)
      → let p = within S env db c conns (run_redis S c env db) in IsOrderly p.0 p.1
  unfolding run_workers
  run_redis-IsOrderly c env conns db = elim (waited_ends S env db c) [
    | inl (x, e) ↦
        rw (redis_refused S env db c x e)
          (record { final = _; follows = refl; closed = (refl, refl); stopped = tt })
    | inr e ↦
        rw (redis_ready S env db c c.redis_cache_ttl e)
          (serve_rehydrated-IsOrderly c env.end c.redis_cache_ttl conns _)
  ]

  -- Whatever the environment says and whatever fails, each action of a run is allowed where it comes:
  -- traffic is served only on a rehydrated cache, with readiness announced and the writer and the
  -- reconciler at work; on a signal readiness goes first, then no request is accepted any more, and the writer
  -- stops once no handler runs or Shutdown has run into its timeout, then the reconciler. At the end both
  -- stores are closed, and if the run ends without an error, no request is accepted, the writer and the
  -- reconciler have stopped, and a handler may still run only if Shutdown has timed out.
  pub run-IsOrderly : (env : Surroundings) (db : Db) → let p = run S env db in IsOrderly p.0 p.1
  run-IsOrderly env db = elim (Result-cases (load env.parse env.environ)) [
    | inr (x, e) ↦
        rw (run_unloaded S env db x e)
          (record { final = nothing; follows = refl; closed = (refl, refl); stopped = tt })
    | inl (c, e) ↦ rw (run_loaded S env db c e) (elim (Result-cases (dialled S env db c)) [
      | inr (x, f) ↦
          rw (stores_refused S env db c x f)
            (record { final = nothing; follows = refl; closed = (refl, refl); stopped = tt })
      | inl (conns, f) ↦ rw (stores_opened S env db c conns f) (run_redis-IsOrderly c env conns db)
    ])
  ]
