-- ===== src/Start/Serving.antt =====
-- A run that serves traffic serves from a rehydrated cache, with a checked configuration.
use enigma_behemoth.Prelude.{
  ℕ, ◌≡◌, refl, sym, ap, ◌∙◌, String, none, some, List, [], ◌∷◌, Bool, true, false, arith, inl, inr,
}
use enigma_behemoth.Prelude.Int.{ℤ}
use enigma_behemoth.Errors.{Result, ok, err, Result-cases}
use enigma_behemoth.Redis.Server.{Server}
use enigma_behemoth.Redis.Snapshot.{snapshot}
use enigma_behemoth.Postgres.Tables.{Tables, Boss, find_boss}
use enigma_behemoth.Recovery.Rehydrate.{rehydrate_all}
use enigma_behemoth.Recovery.All.{steady, implied, rehydrate_all-IsImplied}
use enigma_behemoth.Config.{Tunables, load, writer_config}
use enigma_behemoth.Config.Checked.{IsChecked, load-IsChecked}
use enigma_behemoth.Start.{
  Action, writer_started, reconciler_started, listening, Surroundings, serve_rehydrated,
  run_workers, run_redis, run,
}
use enigma_behemoth.Start.Stages.{
  dialled, within, cached, run_unloaded, run_loaded, stores_refused, stores_opened, redis_refused,
  redis_ready, waited_ends,
}

-- Whether a trace serves traffic.
abbrev pub serves : List Action → Bool
serves [] = false
serves (listening addr ∷ rest) = true
serves (a ∷ rest) = serves rest

module _ (S : Server) where
  -- What a run that serves has gone through: the configuration, the number of connections, and a
  -- RehydrateAll without an error, whose cache it serves from.
  pub record HasServed (env : Surroundings) (db after : S.Db) : Type 0 where
    pub tunables : Tunables
    pub loaded : load env.parse env.environ ≡ ok tunables
    pub rehydrate :
        rehydrate_all S tunables.redis_cache_ttl env.list_fault env.list_tables env.rebuilds db
        ≡ (ok tt, after)

  -- Only a RehydrateAll without an error leads to traffic.
  serves_rehydrated :
      (c : Tunables) (env : Surroundings) (db : S.Db) (conns : ℤ) (p : Result (Unit {0}) × S.Db)
      → let (r, actions) = serve_rehydrated c env.end p.0 in
        serves
            (within S env db c conns (
              cached S env db c c.redis_cache_ttl
                (r, writer_started (writer_config c) ∷ reconciler_started ∷ actions, p.1))).1
          ≡ true
        → p ≡ (ok tt, p.1)
  unfolding serve_rehydrated
  serves_rehydrated c env db conns (err e, db') h = ground (arith, h)
  serves_rehydrated c env db conns (ok u, db') h = refl

  redis-HasServed :
      (c : Tunables) (env : Surroundings) (db : S.Db) (conns : ℤ)
      → load env.parse env.environ ≡ ok c
      → serves (within S env db c conns (run_redis S c env db)).1 ≡ true
      → HasServed env db (within S env db c conns (run_redis S c env db)).2
  unfolding run_workers
  redis-HasServed c env db conns l h = elim (waited_ends S env db c) [
    | inl (x, e) ↦ ground (arith, rw (redis_refused S env db c x e) at h)
    | inr e ↦
        let same = redis_ready S env db c c.redis_cache_ttl e in
        rw same (record {
          tunables = c;
          loaded = l;
          rehydrate =
              serves_rehydrated c env db conns
                (rehydrate_all S c.redis_cache_ttl env.list_fault env.list_tables env.rebuilds db)
                (rw same at h);
        })
  ]

  run-HasServed :
      (env : Surroundings) (db : S.Db)
      → serves (run S env db).1 ≡ true
      → HasServed env db (run S env db).2
  run-HasServed env db h = elim (Result-cases (load env.parse env.environ)) [
    | inr (x, e) ↦ ground (arith, rw (run_unloaded S env db x e) at h)
    | inl (c, e) ↦ elim (Result-cases (dialled S env db c)) [
      | inr (x, f) ↦
          ground (arith, rw (run_loaded S env db c e, stores_refused S env db c x f) at h)
      | inl (conns, f) ↦
          let same = run_loaded S env db c e ∙ stores_opened S env db c conns f in
          rw same (redis-HasServed c env db conns e (rw same at h))
    ]
  ]

  -- A run that serves traffic has read its configuration without an error, with a positive limit on the
  -- damage of a hit, a positive batch size and queue size; and, if the tables do not change, every query and
  -- pipeline of RehydrateAll is answered and all rebuilds are at one instant, the cache it serves from holds at
  -- this instant of each boss of the tables exactly what they imply.
  pub run-IsImplied :
      (env : Surroundings) (db : S.Db) (t : Tables) (now : ℕ) (id : String) (b : Boss)
      → env.list_fault ≡ none
      → env.list_tables ≡ t
      → env.rebuilds ≡ (λ k. steady t now)
      → find_boss id t.bosses ≡ some b
      → serves (run S env db).1 ≡ true
      → ((c : Tunables) × (load env.parse env.environ ≡ ok c) × IsChecked c)
        × (snapshot now id (S.contents (run S env db).2) ≡ implied t b id)
  run-IsImplied env db t now id b no_fault same_tables same_rebuilds found h =
      let served = run-HasServed env db h in
      let all = rehydrate_all-IsImplied S served.tunables.redis_cache_ttl t now id b db found in
      let same : rehydrate_all S served.tunables.redis_cache_ttl none t (λ k. steady t now) db
          ≡ (ok tt, (run S env db).2) =
        cc (served.rehydrate, no_fault, same_tables, same_rebuilds) in
      (
        (
          served.tunables,
          served.loaded,
          (load-IsChecked env.parse env.environ served.tunables served.loaded).1,
        ),
        ap (λ (p : Result (Unit {0}) × S.Db). snapshot now id (S.contents p.1)) (sym same) ∙ all.1,
      )
