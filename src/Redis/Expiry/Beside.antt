-- ===== src/Redis/Expiry/Beside.antt =====
-- A script for one boss does nothing to the cells of another.
use enigma_behemoth.Prelude.{
  ℕ, String, Option, none, some, List, [], ◌∷◌, ◌≡◌, refl, ap, ◌∙◌, ◌∙◌, false, inl, inr, arith,
  ◌==◌, Bool-cases, Option-cases,
}
use enigma_behemoth.Prelude.Int.{ℤ, pos, ltb_ℤ, leb_ℤ, ◌-ℤ◌, ◌+ℤ◌, neg}
use enigma_behemoth.Store.{LeaderEntry, RecoveryState}
use enigma_behemoth.Redis.Keyspace.{Keyspace, read, increment, remove}
use enigma_behemoth.Redis.Server.{exec, zset_map}
use enigma_behemoth.Redis.Keys.{hp_key, state_key, lb_key}
use enigma_behemoth.Redis.Scripts
use enigma_behemoth.Redis.Scripts.{settle_hit, damage_script, settle_undo, compensate_script}
use enigma_behemoth.Redis.Snapshot.{landed}
use enigma_behemoth.Redis.Client.{board_expiry, fill, expiring, rehydrate_script}
use enigma_behemoth.Redis.Pipeline.{exec-rehydrate_script}
use enigma_behemoth.Redis.Expiry.{cells, beside_laws, beside-zset_map}

module _ (now : ℕ) (id j : String) (differ : (id == j) ≡ false) where
  settle_hit-beside :
      {R : Type 0} (newhp ttl : ℤ) (a : R) (s : Keyspace)
      → cells j (exec (settle_hit (hp_key id) (lb_key id) (state_key id) newhp ttl a) now s).1
        ≡ cells j s
  unfolding settle_hit exec
  settle_hit-beside newhp ttl a s = elim (Bool-cases (ltb_ℤ (pos 0) ttl)) [
    | inl t ↦ elim (Bool-cases (leb_ℤ newhp (pos 0))) [
      | inl u ↦ rw (t, u) (simp (beside_laws, differ))
      | inr u ↦ rw (t, u) (simp (beside_laws, differ))
    ]
    | inr t ↦ elim (Bool-cases (leb_ℤ newhp (pos 0))) [
      | inl u ↦ rw (t, u) (simp (beside_laws, differ))
      | inr u ↦ rw (t, u) (simp (beside_laws, differ))
    ]
  ]

  settle_undo-beside :
      (newhp ttl : ℤ) (s : Keyspace)
      → cells j (exec (settle_undo (hp_key id) (lb_key id) (state_key id) newhp ttl) now s).1
        ≡ cells j s
  unfolding settle_undo exec
  settle_undo-beside newhp ttl s = elim (Bool-cases (ltb_ℤ (pos 0) ttl)) [
    | inl t ↦ elim (Bool-cases (ltb_ℤ (pos 0) newhp)) [
      | inl u ↦ rw (t, u) (simp (beside_laws, differ))
      | inr u ↦ rw (t, u) (simp (beside_laws, differ))
    ]
    | inr t ↦ elim (Bool-cases (ltb_ℤ (pos 0) newhp)) [
      | inl u ↦ rw (t, u) (simp (beside_laws, differ))
      | inr u ↦ rw (t, u) (simp (beside_laws, differ))
    ]
  ]

  module _ (player : String) (dmg ttl : ℤ) (s : Keyspace) where
    pub damage-beside :
        cells j (exec (damage_script (hp_key id) (lb_key id) (state_key id) player dmg ttl) now s).1
        ≡ cells j s
    unfolding exec damage_script
    damage-beside = elim (Option-cases (read now (s.ints (hp_key id)))) [
      | inl e ↦ ground arith
      | inr (hp, e) ↦
          let a = landed hp dmg in
          ground (
            arith,
            settle_hit-beside (hp -ℤ a) ttl (Scripts.triple (pos 1) a (hp -ℤ a))
                (zset_map (lb_key id) (increment now a player) s),
            beside-zset_map now id j differ s (increment now a player),
          )
    ]

    pub compensate-beside :
        cells j
          (exec (compensate_script (hp_key id) (lb_key id) (state_key id) player dmg ttl) now s).1
        ≡ cells j s
    unfolding exec compensate_script
    compensate-beside = elim (Option-cases (read now (s.ints (hp_key id)))) [
      | inl e ↦ ground arith
      | inr (hp, e) ↦
          let debited = zset_map (lb_key id) (increment now (neg dmg) player) s in
          ground (
            arith,
            settle_undo-beside (hp +ℤ dmg) ttl debited,
            settle_undo-beside (hp +ℤ dmg) ttl (zset_map (lb_key id) (remove now player) debited),
            beside-zset_map now id j differ s (increment now (neg dmg) player),
            beside-zset_map now id j differ debited (remove now player),
          )
    ]

  fill-beside :
      (e : Option ℕ) (contribs : List LeaderEntry) (s : Keyspace)
      → cells j (exec (fill id e contribs) now s).1 ≡ cells j s
  unfolding fill expiring exec
  fill-beside e [] s = refl
  fill-beside none (c ∷ cs) s = simp (beside_laws, differ)
  fill-beside (some d) (c ∷ cs) s = simp (beside_laws, differ)

  pub rehydrate-beside :
      (ttl : ℤ) (rs : RecoveryState) (contribs : List LeaderEntry) (s : Keyspace)
      → cells j (exec (rehydrate_script id ttl rs contribs) now s).1 ≡ cells j s
  rehydrate-beside ttl rs contribs s =
      ap (λ (p : Unit {0} × Keyspace). cells j p.1) (exec-rehydrate_script now id ttl rs contribs s)
      ∙ fill-beside (board_expiry ttl) contribs _
      ∙ simp (beside_laws, differ)
