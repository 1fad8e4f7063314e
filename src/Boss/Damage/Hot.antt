-- ===== src/Boss/Damage/Hot.antt =====
-- Damage on a boss that the cache holds: the hit and its commit, or the hit and its undo.
use enigma_behemoth.Prelude.{
  String, ◌≡◌, refl, sym, ap, ◌∙◌, true, false, none, some, length, ltb, arith, ◌||◌, ◌==◌,
}
use enigma_behemoth.Prelude.Int.{ℤ, pos, ◌≤ℤ◌, leb_ℤ, ltb_ℤ}
use enigma_behemoth.Errors.{ok, err, sentinel, overloaded}
use enigma_behemoth.Store.{status_applied}
use enigma_behemoth.Redis.Server.{Server, answered}
use enigma_behemoth.Redis.Keyspace.{score}
use enigma_behemoth.Redis.Snapshot.{Snapshot, snapshot, hit, undo}
use enigma_behemoth.Redis.Client.{apply_damage}
use enigma_behemoth.Redis.Calls.{apply_damage-hit}
use enigma_behemoth.Redis.Laws.{undo-hit}
use enigma_behemoth.Writer
use enigma_behemoth.Writer.{await}
use enigma_behemoth.Boss.Service.{Config, World, Env, apply_with_rehydrate, make_durable, damage}
use enigma_behemoth.Boss.Damage.Durable.{durable, make_durable-done}
use enigma_behemoth.Boss.Damage.Failure.{IsUndone, make_durable_overloaded}

module _ (S : Server) (cfg : Config) (env : Env S) (id player : String) (amount : ℤ)
    (w : World S) where
  open S use {Db, contents}

  abbrev before : Snapshot
  before = snapshot env.first_at id (contents w.db)

  abbrev applied_db : Db
  applied_db = (apply_damage S cfg.ttl answered env.first_at id player amount w.db).1

  -- A request within the limits, whose hit lands on the boss that the cache holds.
  pub record IsHot : Type 0 where
    pub limits : leb_ℤ amount (pos 0) || ltb_ℤ cfg.max_hit amount ≡ false
    pub reached : env.first ≡ answered
    pub lands : (hit player amount before).0.status ≡ status_applied

  apply_with_rehydrate-hot :
      IsHot
      → apply_with_rehydrate S cfg env id player amount w
        ≡ (ok (hit player amount before).0, record w { db = applied_db })
  unfolding apply_with_rehydrate
  apply_with_rehydrate-hot h =
      ground (
        arith,
        h.reached,
        h.lands,
        (apply_damage-hit S cfg.ttl env.first_at id player amount w.db).0,
      )

  damage-hot :
      IsHot
      → damage S cfg env id player amount w
        ≡ make_durable S cfg env id player
            (hit player amount before).0
            (env.applied (record w { db = applied_db }))
  unfolding damage
  damage-hot h = ground (arith, h.limits, h.lands, apply_with_rehydrate-hot h)

  -- Damage succeeds if the amount is within the limits, the script is answered and its hit lands, the
  -- queue has room and the writer acknowledges the event: the answer is that of the hit.
  pub damage_succeeds :
      IsHot
      → ltb (length (env.applied (record w { db = applied_db })).queue) cfg.queue_size ≡ true
      → env.wait ≡ Writer.answered none
      → (damage S cfg env id player amount w).0
        ≡ ok (durable id player (hit player amount before).0)
  unfolding await
  damage_succeeds h room heard =
      let w' = env.applied (record w { db = applied_db }) in
      let res = (hit player amount before).0 in
      let good : await env.wait ≡ ok tt = ground (arith, heard) in
      rw (damage-hot h, make_durable-done S cfg env id player res w' tt room good) refl

  -- Nothing else touches the cache or the queue while the request runs.
  pub record IsQuiet : Type 0 where
    pub applied : (v : World S) → env.applied v ≡ v
    pub waited : (v : World S) → env.waited v ≡ v
    pub at_once : env.undo_at ≡ env.first_at

  abbrev hit_world : World S
  hit_world = record w { db = applied_db }

  abbrev undone_world : World S
  undone_world =
      (make_durable S cfg env id player (hit player amount before).0 (env.applied hit_world)).1

  undone_world-IsUndone :
      IsQuiet
      → IsUndone S cfg env id player
          (hit player amount before).0.applied
          (env.waited (env.applied hit_world))
          undone_world
      → let a = (hit player amount before).0.applied in
        let at = λ (j : String) (v : World S). snapshot env.first_at j (contents v.db) in
        (at id undone_world ≡ undo player a (hit player amount before).1)
        × ((j : String) → (id == j) ≡ false → at j undone_world ≡ at j w)
        × (undone_world.queue ≡ w.queue)
  undone_world-IsUndone quiet u =
      let a = (hit player amount before).0.applied in
      let still = quiet.waited (env.applied hit_world) ∙ quiet.applied hit_world in
      let h = apply_damage-hit S cfg.ttl env.first_at id player amount w.db in
      let clock : (j : String) (v : World S)
          → snapshot env.first_at j (contents v.db) ≡ snapshot env.undo_at j (contents v.db) =
        λ j v. ap (λ t. snapshot t j (contents v.db)) (sym quiet.at_once) in
      (
        clock id undone_world
            ∙ u.undone
            ∙ ap (undo player a) (
                sym (clock id (env.waited (env.applied hit_world)))
                ∙ ap (λ v. snapshot env.first_at id (contents (World.db v))) still
                ∙ h.1),
        λ j differ.
            clock j undone_world
            ∙ u.others j differ
            ∙ sym (clock j (env.waited (env.applied hit_world)))
            ∙ ap (λ v. snapshot env.first_at j (contents (World.db v))) still
            ∙ h.2 j differ,
        u.queue ∙ ap (λ v. World.queue v) still,
      )

  -- A hit within the limits that lands on a boss of the cache and meets a full queue, with nothing else going on and every call answered at one
  -- time, by a player whose score is not negative, leaves the HP, the maximum and every score as they were,
  -- the boss alive, and the other bosses and the queue as they were; the answer is `overloaded`.
  pub damage_overloaded-restores :
      IsHot
      → IsQuiet
      → ltb (length w.queue) cfg.queue_size ≡ false
      → env.undo ≡ answered
      → pos 0 ≤ℤ score player before.board
      → let r = damage S cfg env id player amount w in
        let after = snapshot env.first_at id (contents r.1.db) in
        (r.0 ≡ err (sentinel overloaded))
        × (after.hp ≡ before.hp)
        × (after.state ≡ some "alive")
        × (after.max_hp ≡ before.max_hp)
        × ((q : String) → score q after.board ≡ score q before.board)
        × ((j : String)
            → (id == j) ≡ false
            → snapshot env.first_at j (contents r.1.db) ≡ snapshot env.first_at j (contents w.db))
        × (r.1.queue ≡ w.queue)
  damage_overloaded-restores h quiet full up own =
      let res = (hit player amount before).0 in
      let no_room : ltb (length (env.applied hit_world).queue) cfg.queue_size ≡ false =
        rw (quiet.applied hit_world) full in
      let over =
        make_durable_overloaded S cfg env id player res (env.applied hit_world) no_room up in
      let u = undone_world-IsUndone quiet over.1 in
      let back = undo-hit player amount before h.lands own in
      rw (damage-hot h)
        (over.0, rw u.0 back.0, rw u.0 back.1, rw u.0 back.2, λ q. rw u.0 (back.3 q), u.1, u.2)
