-- ===== src/Redis/Expiry.antt =====
-- When the keys of a boss expire: the cells behind the snapshot, and what each command does to them.
pub mod Boards
pub mod Scripts
pub mod Beside
pub mod Aligned
pub mod Refilled
pub mod Complete
pub mod Subsecond
use enigma_behemoth.Prelude.{
  ℕ, ◌+◌, String, Option, some, none, List, ◌≡◌, refl, Bool, true, false, ◌==◌, arith, eq_refl, inl,
  inr, Bool-cases, if◌then◌else◌,
}
use enigma_behemoth.Prelude.Int.{ℤ, pos, ltb_ℤ, leb_ℤ}
use enigma_behemoth.Redis.Keyspace.{Cell, Keyspace, set_expiry, deadline}
use enigma_behemoth.Redis.Server.{exec, put_int, put_text, expire_key, zset_map, del_key}
use enigma_behemoth.Redis.Keys.{hp_key, max_key, state_key, lb_key, key_laws}
use enigma_behemoth.Redis.Scripts.{seconds, settle_hit, settle_undo}

pub record Cells : Type 0 where
  pub hp : Option (Cell ℤ)
  pub max_hp : Option (Cell ℤ)
  pub state : Option (Cell String)
  pub board : Option (Cell (List (String × ℤ)))

unfoldable pub cells : String → Keyspace → Cells
cells id s = record {
  hp = s.ints (hp_key id);
  max_hp = s.ints (max_key id);
  state = s.texts (state_key id);
  board = s.zsets (lb_key id);
}

abbrev pub cell_at {ℓ} : {A : Type ℓ} → A → Option ℕ → Cell A
cell_at a e = record { value = a; expires = e }

module _ (now : ℕ) (id : String) (s : Keyspace) where
  pub cells-put_hp :
      (v : ℤ) (e : Option ℕ)
      → cells id (put_int now (hp_key id) v e s)
        ≡ record (cells id s) { hp = some (cell_at v (deadline now e)) }
  unfolding cells put_int
  cells-put_hp v e = simp (key_laws, eq_refl)

  pub cells-put_max :
      (v : ℤ) (e : Option ℕ)
      → cells id (put_int now (max_key id) v e s)
        ≡ record (cells id s) { max_hp = some (cell_at v (deadline now e)) }
  unfolding cells put_int
  cells-put_max v e = simp (key_laws, eq_refl)

  pub cells-put_state :
      (v : String) (e : Option ℕ)
      → cells id (put_text now (state_key id) v e s)
        ≡ record (cells id s) { state = some (cell_at v (deadline now e)) }
  unfolding cells put_text
  cells-put_state v e = simp (key_laws, eq_refl)

  pub cells-expire_lb :
      (d : ℕ)
      → cells id (expire_key now (lb_key id) d s)
        ≡ record (cells id s) { board = set_expiry now (now + d) (cells id s).board }
  unfolding cells expire_key
  cells-expire_lb d = simp (key_laws, eq_refl)

  pub cells-expire_state :
      (d : ℕ)
      → cells id (expire_key now (state_key id) d s)
        ≡ record (cells id s) { state = set_expiry now (now + d) (cells id s).state }
  unfolding cells expire_key
  cells-expire_state d = simp (key_laws, eq_refl)

  pub cells-del_lb : cells id (del_key (lb_key id) s) ≡ record (cells id s) { board = none }
  unfolding cells del_key
  cells-del_lb = simp (key_laws, eq_refl)

  pub cells-zset_map :
      (f : Option (Cell (List (String × ℤ))) → Option (Cell (List (String × ℤ))))
      → cells id (zset_map (lb_key id) f s) ≡ record (cells id s) { board = f (cells id s).board }
  unfolding cells zset_map
  cells-zset_map f = simp (key_laws, eq_refl)

pub ruleset cell_laws = (
  cells-put_hp, cells-put_max, cells-put_state, cells-expire_lb, cells-expire_state, cells-del_lb,
  cells-zset_map,
)

-- A command for one boss does nothing to the cells of another.
module _ (now : ℕ) (id j : String) (differ : (id == j) ≡ false) (s : Keyspace) where
  pub beside-put_hp : (v : ℤ) (e : Option ℕ) → cells j (put_int now (hp_key id) v e s) ≡ cells j s
  unfolding cells put_int
  beside-put_hp v e = simp (key_laws, differ)

  pub beside-put_max : (v : ℤ) (e : Option ℕ) → cells j (put_int now (max_key id) v e s) ≡ cells j s
  unfolding cells put_int
  beside-put_max v e = simp (key_laws, differ)

  pub beside-put_state :
      (v : String) (e : Option ℕ) → cells j (put_text now (state_key id) v e s) ≡ cells j s
  unfolding cells put_text
  beside-put_state v e = simp (key_laws, differ)

  pub beside-expire_lb : (d : ℕ) → cells j (expire_key now (lb_key id) d s) ≡ cells j s
  unfolding cells expire_key
  beside-expire_lb d = simp (key_laws, differ)

  pub beside-expire_state : (d : ℕ) → cells j (expire_key now (state_key id) d s) ≡ cells j s
  unfolding cells expire_key
  beside-expire_state d = simp (key_laws, differ)

  pub beside-del_lb : cells j (del_key (lb_key id) s) ≡ cells j s
  unfolding cells del_key
  beside-del_lb = simp (key_laws, differ)

  pub beside-zset_map :
      (f : Option (Cell (List (String × ℤ))) → Option (Cell (List (String × ℤ))))
      → cells j (zset_map (lb_key id) f s) ≡ cells j s
  unfolding cells zset_map
  beside-zset_map f = simp (key_laws, differ)

pub ruleset beside_laws = (
  beside-put_hp, beside-put_max, beside-put_state, beside-expire_lb, beside-expire_state,
  beside-del_lb, beside-zset_map,
)
