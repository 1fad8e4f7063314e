-- ===== src/Redis/Views.antt =====
-- What each command does to the snapshot of one boss.
use enigma_behemoth.Prelude.{
  ℕ, ◌<◌, String, Option, none, some, List, [], ◌∷◌, ◌≡◌, refl, false, arith, eq_refl, erase,
  lookup-insert,
}
use enigma_behemoth.Prelude.Int.{ℤ, ◌+ℤ◌, zero-+ℤ}
use enigma_behemoth.Redis.Keyspace.{
  Cell, Keyspace, members, increment, remove, add_members, insert_all, keep_nonempty, read, passed,
  score,
}
use enigma_behemoth.Redis.Server.{put_int, put_text, expire_key, zset_map, del_key}
use enigma_behemoth.Redis.Keys.{
  hp_key, max_key, state_key, lb_key, hp-ne-max, max-ne-hp, lb-ne-hp, lb-ne-state, lb-ne-max,
  state-ne-hp, state-ne-max, state-ne-lb,
}
use enigma_behemoth.Redis.Snapshot.{snapshot, credit}

-- An expiry that is not at once.
abbrev pub IsLater : Option ℕ → Type 0
IsLater none = Unit
IsLater (some d) = 0 < d

module _ (now : ℕ) where
  members-increment :
      (m : String) (a : ℤ) (c : Option (Cell (List (String × ℤ))))
      → members now (increment now a m c) ≡ credit m a (members now c)
  members-increment m a none = ground (arith, zero-+ℤ a)
  members-increment m a (some x) = ground (arith, zero-+ℤ a)

  members-keep_nonempty :
      (e : Option ℕ) (z : List (String × ℤ))
      → passed now e ≡ false
      → members now (keep_nonempty e z) ≡ z
  members-keep_nonempty e [] h = refl
  members-keep_nonempty e (x ∷ z) h = ground arith

  members-remove :
      (m : String) (c : Option (Cell (List (String × ℤ))))
      → members now (remove now m c) ≡ erase m (members now c)
  members-remove m none = refl
  members-remove m (some x) = ground (arith, members-keep_nonempty x.expires (erase m x.value))

  members-add :
      (ms : List (String × ℤ)) (c : Option (Cell (List (String × ℤ))))
      → members now (add_members now ms c) ≡ insert_all ms (members now c)
  members-add ms none = members-keep_nonempty none (insert_all ms []) refl
  members-add ms (some x) = ground (arith, members-keep_nonempty x.expires (insert_all ms x.value))

pub score-credit :
    (m : String) (a : ℤ) (b : List (String × ℤ)) → score m (credit m a b) ≡ score m b +ℤ a
score-credit m a b = rw (lookup-insert m m (score m b +ℤ a) b, eq_refl m) refl

pub snapshot-hp :
    (now : ℕ) (id : String) (s : Keyspace) → read now (s.ints (hp_key id)) ≡ (snapshot now id s).hp
unfolding snapshot
snapshot-hp now id s = refl

pub snapshot-board :
    (now : ℕ) (id : String) (s : Keyspace)
    → members now (s.zsets (lb_key id)) ≡ (snapshot now id s).board
unfolding snapshot
snapshot-board now id s = refl

module _ (now : ℕ) (id : String) (s : Keyspace) where
  pub snapshot-put_hp :
      (v : ℤ) (e : Option ℕ)
      → IsLater e
      → snapshot now id (put_int now (hp_key id) v e s) ≡ record (snapshot now id s) { hp = some v }
  unfolding snapshot put_int
  snapshot-put_hp v none h = ground (arith, eq_refl (hp_key id), hp-ne-max id id)
  snapshot-put_hp v (some d) h = ground (arith, eq_refl (hp_key id), hp-ne-max id id)

  pub snapshot-put_state :
      (v : String) (e : Option ℕ)
      → IsLater e
      → snapshot now id (put_text now (state_key id) v e s)
        ≡ record (snapshot now id s) { state = some v }
  unfolding snapshot put_text
  snapshot-put_state v none h = ground (arith, eq_refl (state_key id))
  snapshot-put_state v (some d) h = ground (arith, eq_refl (state_key id))

  pub snapshot-expire_lb :
      (d : ℕ) → 0 < d → snapshot now id (expire_key now (lb_key id) d s) ≡ snapshot now id s
  unfolding snapshot expire_key
  snapshot-expire_lb d h =
      ground (arith, eq_refl (lb_key id), lb-ne-hp id id, lb-ne-max id id, lb-ne-state id id)

  pub snapshot-expire_state :
      (d : ℕ) → 0 < d → snapshot now id (expire_key now (state_key id) d s) ≡ snapshot now id s
  unfolding snapshot expire_key
  snapshot-expire_state d h =
      ground
        (arith, eq_refl (state_key id), state-ne-hp id id, state-ne-max id id, state-ne-lb id id)

  pub snapshot-increment :
      (a : ℤ) (m : String)
      → snapshot now id (zset_map (lb_key id) (increment now a m) s)
        ≡ record (snapshot now id s) { board = credit m a (snapshot now id s).board }
  unfolding snapshot zset_map
  snapshot-increment a m = rw (eq_refl (lb_key id), members-increment now m a (s.zsets (lb_key id)))

  pub snapshot-remove :
      (m : String)
      → snapshot now id (zset_map (lb_key id) (remove now m) s)
        ≡ record (snapshot now id s) { board = erase m (snapshot now id s).board }
  unfolding snapshot zset_map
  snapshot-remove m = rw (eq_refl (lb_key id), members-remove now m (s.zsets (lb_key id)))

  pub snapshot-put_max :
      (v : ℤ)
      → snapshot now id (put_int now (max_key id) v none s)
        ≡ record (snapshot now id s) { max_hp = some v }
  unfolding snapshot put_int
  snapshot-put_max v = ground (arith, eq_refl (max_key id), max-ne-hp id id)

  pub snapshot-del_lb :
      snapshot now id (del_key (lb_key id) s) ≡ record (snapshot now id s) { board = [] }
  unfolding snapshot del_key
  snapshot-del_lb =
      ground (arith, eq_refl (lb_key id), lb-ne-hp id id, lb-ne-max id id, lb-ne-state id id)

  pub snapshot-add :
      (ms : List (String × ℤ))
      → snapshot now id (zset_map (lb_key id) (add_members now ms) s)
        ≡ record (snapshot now id s) { board = insert_all ms (snapshot now id s).board }
  unfolding snapshot zset_map
  snapshot-add ms = rw (eq_refl (lb_key id), members-add now ms (s.zsets (lb_key id)))

pub ruleset views = (
  snapshot-put_hp, snapshot-put_state, snapshot-expire_lb, snapshot-expire_state,
  snapshot-increment, snapshot-remove, snapshot-put_max, snapshot-del_lb, snapshot-add,
)
