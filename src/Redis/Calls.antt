-- ===== src/Redis/Calls.antt =====
-- ApplyDamage and CompensateDamage of internal/store/redis.go, over any server.
use enigma_behemoth.Prelude.{ℕ, String, List, ◌≡◌, refl, false, ◌==◌, ap, ◌∙◌}
use enigma_behemoth.Prelude.Int.{ℤ}
use enigma_behemoth.Errors.{Err, ok, err, wrap}
use enigma_behemoth.Redis.Server.{Server, answered, refused, lost, call, Script}
use enigma_behemoth.Redis.Keys.{hp_key, state_key, lb_key}
use enigma_behemoth.Redis.Scripts.{Any, damage_script, compensate_script}
use enigma_behemoth.Redis.Snapshot.{Snapshot, snapshot, hit, undo}
use enigma_behemoth.Redis.Client.{apply_damage, compensate_damage, ttl_arg}
use enigma_behemoth.Redis.Hits.{snapshot-damage, reply-damage, snapshot-compensate}
use enigma_behemoth.Redis.Frame.{damage-frame, compensate-frame}

module _ (S : Server) (ttl : ℤ) (now : ℕ) (id player : String) (amount : ℤ) where
  open S use {Db, contents, eval-exec}

  abbrev view : String → Db → Snapshot
  view j db = snapshot now j (contents db)

  abbrev damaging : Script (List Any)
  damaging = damage_script (hp_key id) (lb_key id) (state_key id) player amount (ttl_arg ttl)

  abbrev undoing : Script ℤ
  undoing = compensate_script (hp_key id) (lb_key id) (state_key id) player amount (ttl_arg ttl)

  -- An answered ApplyDamage returns the result of the hit, changes the boss's snapshot as the hit
  -- says, and changes no other boss.
  pub apply_damage-hit :
      (db : Db)
      → let r = apply_damage S ttl answered now id player amount db in
        (r.0 ≡ ok (hit player amount (view id db)).0)
        × (view id r.1 ≡ (hit player amount (view id db)).1)
        × ((j : String) → (id == j) ≡ false → view j r.1 ≡ view j db)
  unfolding apply_damage call
  apply_damage-hit db = (
    rw
        (
          (eval-exec damaging now db).0,
          reply-damage now id player amount (ttl_arg ttl) (contents db),
        )
        refl,
    ap (snapshot now id) (eval-exec damaging now db).1
        ∙ snapshot-damage now id player amount (ttl_arg ttl) (contents db),
    λ j differ.
        ap (snapshot now j) (eval-exec damaging now db).1
        ∙ damage-frame now id j differ player amount (ttl_arg ttl) (contents db),
  )

  -- A lost answer is an error of the caller, with the hit made all the same; a refused call changes
  -- nothing.
  pub apply_damage_faults :
      (e : Err) (db : Db)
      → (apply_damage S ttl (refused e) now id player amount db
          ≡ (err (wrap "damage script" e), db))
        × ((apply_damage S ttl (lost e) now id player amount db).0 ≡ err (wrap "damage script" e))
        × (view id (apply_damage S ttl (lost e) now id player amount db).1
            ≡ (hit player amount (view id db)).1)
  unfolding apply_damage call
  apply_damage_faults e db = (
    refl,
    refl,
    ap (snapshot now id) (eval-exec damaging now db).1
        ∙ snapshot-damage now id player amount (ttl_arg ttl) (contents db),
  )

  -- An answered CompensateDamage changes the boss's snapshot as the undo says, and no other boss.
  pub compensate_damage-undo :
      (db : Db)
      → let r = compensate_damage S ttl answered now id player amount db in
        (view id r.1 ≡ undo player amount (view id db))
        × ((j : String) → (id == j) ≡ false → view j r.1 ≡ view j db)
  unfolding compensate_damage call
  compensate_damage-undo db = (
    ap (snapshot now id) (eval-exec undoing now db).1
        ∙ snapshot-compensate now id player amount (ttl_arg ttl) (contents db),
    λ j differ.
        ap (snapshot now j) (eval-exec undoing now db).1
        ∙ compensate-frame now id j differ player amount (ttl_arg ttl) (contents db),
  )
