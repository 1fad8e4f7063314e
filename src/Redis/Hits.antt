-- ===== src/Redis/Hits.antt =====
-- The two scripts of internal/store/redis.go do to the keys of a boss what `hit` and `undo` say of its
-- snapshot, on every branch and with every expiry.
use enigma_behemoth.Prelude.{
  ℕ, ◌<◌, String, List, some, ◌≡◌, true, inl, inr, arith, Bool-cases, Option-cases, if◌then◌else◌,
}
use enigma_behemoth.Prelude.Int.{ℤ, pos, ltb_ℤ, leb_ℤ, ◌-ℤ◌, ◌+ℤ◌, neg}
use enigma_behemoth.Redis.Keyspace.{Keyspace, increment, remove}
use enigma_behemoth.Redis.Server.{exec, zset_map}
use enigma_behemoth.Redis.Keys.{hp_key, state_key, lb_key}
use enigma_behemoth.Redis.Scripts.{
  Any, triple, seconds, settle_hit, damage_script, settle_undo, compensate_script,
}
use enigma_behemoth.Redis.Snapshot.{snapshot, landed, hit, undo}
use enigma_behemoth.Redis.Views.{
  snapshot-hp, snapshot-board, snapshot-increment, snapshot-remove, score-credit, views,
}

seconds-pos : (ttl : ℤ) → ltb_ℤ (pos 0) ttl ≡ true → 0 < seconds ttl
seconds-pos ttl h = ground arith

module _ (now : ℕ) (id : String) where
  settle_hit-snapshot :
      {R : Type 0} (newhp ttl : ℤ) (a : R) (s : Keyspace)
      → snapshot now id
          (exec (settle_hit (hp_key id) (lb_key id) (state_key id) newhp ttl a) now s).1
        ≡ record (snapshot now id s) {
          hp = some newhp;
          state = if leb_ℤ newhp (pos 0) then some "defeated" else (snapshot now id s).state;
        }
  unfolding settle_hit exec
  settle_hit-snapshot newhp ttl a s = elim (Bool-cases (ltb_ℤ (pos 0) ttl)) [
    | inl timed ↦
        let later : 0 < seconds ttl = seconds-pos ttl timed in
        elim (Bool-cases (leb_ℤ newhp (pos 0))) [
          | inl down ↦ rw (timed, down) (simp (views, later))
          | inr up ↦ rw (timed, up) (simp (views, later))
        ]
    | inr untimed ↦ elim (Bool-cases (leb_ℤ newhp (pos 0))) [
      | inl down ↦ rw (untimed, down) (simp (views, tt {0}))
      | inr up ↦ rw (untimed, up) (simp (views, tt {0}))
    ]
  ]

  settle_undo-snapshot :
      (newhp ttl : ℤ) (s : Keyspace)
      → snapshot now id
          (exec (settle_undo (hp_key id) (lb_key id) (state_key id) newhp ttl) now s).1
        ≡ record (snapshot now id s) {
          hp = some newhp;
          state = if ltb_ℤ (pos 0) newhp then some "alive" else (snapshot now id s).state;
        }
  unfolding settle_undo exec
  settle_undo-snapshot newhp ttl s = elim (Bool-cases (ltb_ℤ (pos 0) ttl)) [
    | inl timed ↦
        let later : 0 < seconds ttl = seconds-pos ttl timed in
        elim (Bool-cases (ltb_ℤ (pos 0) newhp)) [
          | inl up ↦ rw (timed, up) (simp (views, later))
          | inr down ↦ rw (timed, down) (simp (views, later))
        ]
    | inr untimed ↦ elim (Bool-cases (ltb_ℤ (pos 0) newhp)) [
      | inl up ↦ rw (untimed, up) (simp (views, tt {0}))
      | inr down ↦ rw (untimed, down) (simp (views, tt {0}))
    ]
  ]

  settle_hit-reply :
      {R : Type 0} (newhp ttl : ℤ) (a : R) (s : Keyspace)
      → (exec (settle_hit (hp_key id) (lb_key id) (state_key id) newhp ttl a) now s).0 ≡ a
  unfolding settle_hit exec
  settle_hit-reply newhp ttl a s = ground arith

  module _ (player : String) (dmg ttl : ℤ) (s : Keyspace) where
    abbrev damaged : List Any × Keyspace
    damaged = exec (damage_script (hp_key id) (lb_key id) (state_key id) player dmg ttl) now s

    abbrev credited : ℤ → Keyspace
    credited hp = zset_map (lb_key id) (increment now (landed hp dmg) player) s

    pub snapshot-damage : snapshot now id damaged.1 ≡ (hit player dmg (snapshot now id s)).1
    unfolding exec damage_script
    snapshot-damage = elim (Option-cases (snapshot now id s).hp) [
      | inl e ↦ ground (arith, snapshot-hp now id s)
      | inr (hp, e) ↦ ground (
        arith,
        snapshot-hp now id s,
        settle_hit-snapshot (hp -ℤ landed hp dmg) ttl
            (triple (pos 1) (landed hp dmg) (hp -ℤ landed hp dmg)) (credited hp),
        snapshot-increment now id s (landed hp dmg) player,
      )
    ]

    -- The script answers with the three numbers of the hit.
    pub reply-damage :
        damaged.0
        ≡ (let r = (hit player dmg (snapshot now id s)).0 in triple r.status r.applied r.new_hp)
    unfolding exec damage_script
    reply-damage = elim (Option-cases (snapshot now id s).hp) [
      | inl e ↦ ground (arith, snapshot-hp now id s)
      | inr (hp, e) ↦ ground (
        arith,
        snapshot-hp now id s,
        settle_hit-reply (hp -ℤ landed hp dmg) ttl
            (triple (pos 1) (landed hp dmg) (hp -ℤ landed hp dmg)) (credited hp),
      )
    ]

  module _ (player : String) (amt ttl : ℤ) (s : Keyspace) where
    abbrev compensated : ℤ × Keyspace
    compensated =
        exec (compensate_script (hp_key id) (lb_key id) (state_key id) player amt ttl) now s

    abbrev debited : Keyspace
    debited = zset_map (lb_key id) (increment now (neg amt) player) s

    pub snapshot-compensate : snapshot now id compensated.1 ≡ undo player amt (snapshot now id s)
    unfolding exec compensate_script
    snapshot-compensate = elim (Option-cases (snapshot now id s).hp) [
      | inl e ↦ ground (arith, snapshot-hp now id s)
      | inr (hp, e) ↦ ground (
        arith,
        snapshot-hp now id s,
        snapshot-board now id s,
        score-credit player (neg amt) (snapshot now id s).board,
        settle_undo-snapshot (hp +ℤ amt) ttl debited,
        settle_undo-snapshot (hp +ℤ amt) ttl (zset_map (lb_key id) (remove now player) debited),
        snapshot-increment now id s (neg amt) player,
        snapshot-remove now id debited player,
      )
    ]
