-- ===== src/Boss/Service.antt =====
-- internal/boss/service.go, Damage: the surroundings of a request (network, clocks, database, what
-- other requests do to the cache meanwhile, how the wait for the writer ends) are one record.
use enigma_behemoth.Prelude.{ℕ, String, List, [], ◌∷◌, ◌++◌, Bool, true, false, ◌||◌, if◌then◌else◌}
use enigma_behemoth.Prelude.Int.{ℤ, pos, leb_ℤ, ltb_ℤ, eqb_ℤ}
use enigma_behemoth.Errors.{
  Err, Result, ok, err, sentinel, is, invalid_damage, boss_not_found, boss_already_defeated,
  overloaded, queue_full, commit_failed, canceled, deadline_exceeded,
}
use enigma_behemoth.Store.{
  ApplyResult, DamageEvent, status_applied, status_defeated, status_not_loaded, status_invalid,
}
use enigma_behemoth.Redis.Server.{Server, Delivery}
use enigma_behemoth.Redis.Client.{apply_damage, compensate_damage}
use enigma_behemoth.Recovery.Rehydrate.{Rebuild, rehydrate_boss}
use enigma_behemoth.Writer.{WriteReq, Wait, submit}

-- The fields of Service that Damage reads. `has_reconciler` is whether a reconciler is wired.
pub record Config : Type 0 where
  pub ttl : ℤ
  pub max_hit : ℤ
  pub queue_size : ℕ
  pub has_reconciler : Bool

-- WithReconciler.
unfoldable pub with_reconciler : Config → Config
with_reconciler c = record c { has_reconciler = true }

unfoldable pub apply_options : List (Config → Config) → Config → Config
apply_options [] c = c
apply_options (opt ∷ opts) c = apply_options opts (opt c)

-- New, on a cache with a TTL and a writer with a size of its queue.
unfoldable pub new_service : ℤ → ℕ → ℤ → List (Config → Config) → Config
unfolding apply_options
new_service ttl queue_size max_hit opts =
    apply_options opts
      (record { ttl = ttl; max_hit = max_hit; queue_size = queue_size; has_reconciler = false })

pub record DamageResult : Type 0 where
  pub boss_id : String
  pub player_id : String
  pub applied : ℤ
  pub boss_hp : ℤ
  pub defeated : Bool

module _ (S : Server) where
  open S use {Db}

  -- What a request can change: the cache, the writer's queue, and the calls of Reconciler.Enqueue.
  pub record World : Type 0 where
    pub db : Db
    pub queue : List WriteReq
    pub enqueued : List String

  -- `cold`, `loaded`, `applied` and `waited` are what the rest of the service does before the rebuild,
  -- before the second script, before Submit and before Submit returns an error.
  pub record Env : Type 0 where
    pub first : Delivery
    pub first_at : ℕ
    pub cold : World → World
    pub rebuild : Rebuild
    pub loaded : World → World
    pub second : Delivery
    pub second_at : ℕ
    pub applied : World → World
    pub ticket : ℕ
    pub wait : Wait
    pub waited : World → World
    pub undo : Delivery
    pub undo_at : ℕ

  unfoldable pub schedule_reconcile : Config → String → World → World
  schedule_reconcile cfg id w =
      if cfg.has_reconciler then record w { enqueued = w.enqueued ++ id ∷ [] } else w

  -- The compensating undo, with a rebuild scheduled if it fails.
  unfoldable pub undo_hit : Config → Env → String → String → ℤ → World → World
  unfolding schedule_reconcile
  undo_hit cfg env id player applied w =
      let (r, db) = compensate_damage S cfg.ttl env.undo env.undo_at id player applied w.db in
      elim r [
        | ok n ↦ record w { db = db }
        | err e ↦ schedule_reconcile cfg id (record w { db = db })
      ]

  unfoldable pub reconcile_failed_write :
      Config → Env → String → String → ℤ → Err → World → Err × World
  unfolding undo_hit schedule_reconcile
  reconcile_failed_write cfg env id player applied e w =
      if is e queue_full || is e commit_failed
      then (
        if is e queue_full then sentinel overloaded else e,
        undo_hit cfg env id player applied w,
      )
      else if is e canceled || is e deadline_exceeded
      then (e, schedule_reconcile cfg id w)
      else (e, w)

  -- The part of applyWithRehydrate behind a cold cache.
  unfoldable pub apply_cold :
      Config → Env → String → String → ℤ → World → Result ApplyResult × World
  apply_cold cfg env id player amount w =
      let (r, db) = rehydrate_boss S cfg.ttl env.rebuild id w.db in
      elim r [
        | err e ↦ (err e, record w { db = db })
        | ok false ↦ (err (sentinel boss_not_found), record w { db = db })
        | ok true ↦
            let w' = env.loaded (record w { db = db }) in
            let (res, db') =
              apply_damage S cfg.ttl env.second env.second_at id player amount w'.db in
            (res, record w' { db = db' })
      ]

  unfoldable pub apply_with_rehydrate :
      Config → Env → String → String → ℤ → World → Result ApplyResult × World
  unfolding apply_cold
  apply_with_rehydrate cfg env id player amount w =
      let (r, db) = apply_damage S cfg.ttl env.first env.first_at id player amount w.db in
      elim r [
        | err e ↦ (err e, record w { db = db })
        | ok res ↦
            if eqb_ℤ res.status status_not_loaded
            then apply_cold cfg env id player amount (env.cold (record w { db = db }))
            else (ok res, record w { db = db })
      ]

  -- The case StatusApplied of Damage: the event is queued, and the answer waits for its commit.
  unfoldable pub make_durable :
      Config → Env → String → String → ApplyResult → World → Result DamageResult × World
  make_durable cfg env id player res w =
      let ev : DamageEvent = record { boss_id = id; player_id = player; applied = res.applied } in
      let (r, queue) =
        submit cfg.queue_size env.wait (record { ev = ev; done = env.ticket }) w.queue in
      elim r [
        | ok u ↦ (
          ok (record {
            boss_id = id;
            player_id = player;
            applied = res.applied;
            boss_hp = res.new_hp;
            defeated = leb_ℤ res.new_hp (pos 0);
          }),
          record w { queue = queue },
        )
        | err e ↦
            let (e', w') =
              reconcile_failed_write cfg env id player res.applied e
                (env.waited (record w { queue = queue })) in
            (err e', w')
      ]

  unfoldable pub damage : Config → Env → String → String → ℤ → World → Result DamageResult × World
  damage cfg env id player amount w =
      if leb_ℤ amount (pos 0) || ltb_ℤ cfg.max_hit amount
      then (err (sentinel invalid_damage), w)
      else let (r, w') = apply_with_rehydrate cfg env id player amount w in
        elim r [
          | err e ↦ (err e, w')
          | ok res ↦
              if eqb_ℤ res.status status_invalid
              then (err (sentinel invalid_damage), w')
              else if eqb_ℤ res.status status_defeated
              then (err (sentinel boss_already_defeated), w')
              else if eqb_ℤ res.status status_applied
              then make_durable cfg env id player res (env.applied w')
              else (err (sentinel boss_not_found), w')
        ]
