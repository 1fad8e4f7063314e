-- ===== src/Redis/Frame.antt =====
-- A script for one boss leaves what the cache holds of every other boss.
use enigma_behemoth.Prelude.{
  ℕ, String, Option, List, ◌≡◌, false, inl, inr, arith, ◌==◌, Bool-cases, Option-cases,
}
use enigma_behemoth.Prelude.Int.{ℤ, pos, ltb_ℤ, leb_ℤ, ◌-ℤ◌, ◌+ℤ◌, neg}
use enigma_behemoth.Redis.Keyspace.{Cell, Keyspace, read, increment, remove}
use enigma_behemoth.Redis.Server.{exec, put_int, put_text, expire_key, zset_map, del_key}
use enigma_behemoth.Redis.Keys.{hp_key, max_key, state_key, lb_key, key_laws}
use enigma_behemoth.Redis.Scripts
use enigma_behemoth.Redis.Scripts.{settle_hit, damage_script, settle_undo, compensate_script}
use enigma_behemoth.Redis.Snapshot.{snapshot, landed}

module _ (now : ℕ) (id j : String) (differ : (id == j) ≡ false) (s : Keyspace) where
  pub frame-put_hp :
      (v : ℤ) (e : Option ℕ) → snapshot now j (put_int now (hp_key id) v e s) ≡ snapshot now j s
  unfolding snapshot put_int
  frame-put_hp v e = simp (key_laws, differ)

  pub frame-put_max :
      (v : ℤ) (e : Option ℕ) → snapshot now j (put_int now (max_key id) v e s) ≡ snapshot now j s
  unfolding snapshot put_int
  frame-put_max v e = simp (key_laws, differ)

  pub frame-put_state :
      (v : String) (e : Option ℕ)
      → snapshot now j (put_text now (state_key id) v e s) ≡ snapshot now j s
  unfolding snapshot put_text
  frame-put_state v e = simp (key_laws, differ)

  pub frame-expire_lb : (d : ℕ) → snapshot now j (expire_key now (lb_key id) d s) ≡ snapshot now j s
  unfolding snapshot expire_key
  frame-expire_lb d = simp (key_laws, differ)

  pub frame-expire_state :
      (d : ℕ) → snapshot now j (expire_key now (state_key id) d s) ≡ snapshot now j s
  unfolding snapshot expire_key
  frame-expire_state d = simp (key_laws, differ)

  pub frame-del_lb : snapshot now j (del_key (lb_key id) s) ≡ snapshot now j s
  unfolding snapshot del_key
  frame-del_lb = simp (key_laws, differ)

  pub frame-zset_map :
      (f : Option (Cell (List (String × ℤ))) → Option (Cell (List (String × ℤ))))
      → snapshot now j (zset_map (lb_key id) f s) ≡ snapshot now j s
  unfolding snapshot zset_map
  frame-zset_map f = simp (key_laws, differ)

pub ruleset frames = (
  frame-put_hp, frame-put_max, frame-put_state, frame-expire_lb, frame-expire_state, frame-del_lb,
  frame-zset_map,
)

module _ (now : ℕ) (id j : String) (differ : (id == j) ≡ false) where
  settle_hit-frame :
      {R : Type 0} (newhp ttl : ℤ) (a : R) (s : Keyspace)
      → snapshot now j
          (exec (settle_hit (hp_key id) (lb_key id) (state_key id) newhp ttl a) now s).1
        ≡ snapshot now j s
  unfolding settle_hit exec
  settle_hit-frame newhp ttl a s = elim (Bool-cases (ltb_ℤ (pos 0) ttl)) [
    | inl t ↦ elim (Bool-cases (leb_ℤ newhp (pos 0))) [
      | inl u ↦ rw (t, u) (simp (frames, differ))
      | inr u ↦ rw (t, u) (simp (frames, differ))
    ]
    | inr t ↦ elim (Bool-cases (leb_ℤ newhp (pos 0))) [
      | inl u ↦ rw (t, u) (simp (frames, differ))
      | inr u ↦ rw (t, u) (simp (frames, differ))
    ]
  ]

  settle_undo-frame :
      (newhp ttl : ℤ) (s : Keyspace)
      → snapshot now j (exec (settle_undo (hp_key id) (lb_key id) (state_key id) newhp ttl) now s).1
        ≡ snapshot now j s
  unfolding settle_undo exec
  settle_undo-frame newhp ttl s = elim (Bool-cases (ltb_ℤ (pos 0) ttl)) [
    | inl t ↦ elim (Bool-cases (ltb_ℤ (pos 0) newhp)) [
      | inl u ↦ rw (t, u) (simp (frames, differ))
      | inr u ↦ rw (t, u) (simp (frames, differ))
    ]
    | inr t ↦ elim (Bool-cases (ltb_ℤ (pos 0) newhp)) [
      | inl u ↦ rw (t, u) (simp (frames, differ))
      | inr u ↦ rw (t, u) (simp (frames, differ))
    ]
  ]

  module _ (player : String) (dmg ttl : ℤ) (s : Keyspace) where
    pub damage-frame :
        snapshot now j
          (exec (damage_script (hp_key id) (lb_key id) (state_key id) player dmg ttl) now s).1
        ≡ snapshot now j s
    unfolding exec damage_script
    damage-frame = elim (Option-cases (read now (s.ints (hp_key id)))) [
      | inl e ↦ ground arith
      | inr (hp, e) ↦
          let a = landed hp dmg in
          ground (
            arith,
            settle_hit-frame (hp -ℤ a) ttl (Scripts.triple (pos 1) a (hp -ℤ a))
                (zset_map (lb_key id) (increment now a player) s),
            frame-zset_map now id j differ s (increment now a player),
          )
    ]

    pub compensate-frame :
        snapshot now j
          (exec (compensate_script (hp_key id) (lb_key id) (state_key id) player dmg ttl) now s).1
        ≡ snapshot now j s
    unfolding exec compensate_script
    compensate-frame = elim (Option-cases (read now (s.ints (hp_key id)))) [
      | inl e ↦ ground arith
      | inr (hp, e) ↦
          let debited = zset_map (lb_key id) (increment now (neg dmg) player) s in
          ground (
            arith,
            settle_undo-frame (hp +ℤ dmg) ttl debited,
            settle_undo-frame (hp +ℤ dmg) ttl (zset_map (lb_key id) (remove now player) debited),
            frame-zset_map now id j differ s (increment now (neg dmg) player),
            frame-zset_map now id j differ debited (remove now player),
          )
    ]
