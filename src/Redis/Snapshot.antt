-- ===== src/Redis/Snapshot.antt =====
-- What the cache holds of one boss at an instant, and what the two scripts promise of it.
use enigma_behemoth.Prelude.{ℕ, String, Option, none, some, List, insert, erase, if◌then◌else◌}
use enigma_behemoth.Prelude.Int.{ℤ, pos, ◌+ℤ◌, ◌-ℤ◌, neg, leb_ℤ, ltb_ℤ}
use enigma_behemoth.Store.{
  ApplyResult, status_applied, status_defeated, status_not_loaded, status_invalid,
}
use enigma_behemoth.Redis.Keyspace.{Keyspace, read, members, score}
use enigma_behemoth.Redis.Keys.{hp_key, max_key, state_key, lb_key}

pub record Snapshot : Type 0 where
  pub hp : Option ℤ
  pub max_hp : Option ℤ
  pub state : Option String
  pub board : List (String × ℤ)

unfoldable pub snapshot : ℕ → String → Keyspace → Snapshot
snapshot now id s = record {
  hp = read now (s.ints (hp_key id));
  max_hp = read now (s.ints (max_key id));
  state = read now (s.texts (state_key id));
  board = members now (s.zsets (lb_key id));
}

-- The damage that lands.
abbrev pub landed : ℤ → ℤ → ℤ
landed hp dmg = if ltb_ℤ hp dmg then hp else dmg

abbrev pub result : ℤ → ℤ → ℤ → ApplyResult
result s a h = record { status = s; applied = a; new_hp = h }

abbrev pub credit : String → ℤ → List (String × ℤ) → List (String × ℤ)
credit player a board = insert player (score player board +ℤ a) board

-- A hit on a boss, with no keys and no expiry.
abbrev pub hit : String → ℤ → Snapshot → ApplyResult × Snapshot
hit player dmg c = elim c.hp [
  | none ↦ (result status_not_loaded (pos 0) (pos 0), c)
  | some hp ↦
      if leb_ℤ dmg (pos 0)
      then (result status_invalid (pos 0) hp, c)
      else if leb_ℤ hp (pos 0)
      then (result status_defeated (pos 0) hp, c)
      else (
        result status_applied (landed hp dmg) (hp -ℤ landed hp dmg),
        record c {
          hp = some (hp -ℤ landed hp dmg);
          state = if leb_ℤ (hp -ℤ landed hp dmg) (pos 0) then some "defeated" else c.state;
          board = credit player (landed hp dmg) c.board;
        },
      )
]

-- The players with a positive score, after `amt` is taken from one of them.
abbrev pub debit : String → ℤ → List (String × ℤ) → List (String × ℤ)
debit player amt board =
    let z = credit player (neg amt) board in
    if leb_ℤ (score player z) (pos 0) then erase player z else z

abbrev pub undo : String → ℤ → Snapshot → Snapshot
undo player amt c = elim c.hp [
  | none ↦ c
  | some hp ↦ if leb_ℤ amt (pos 0) then c else record c {
    hp = some (hp +ℤ amt);
    state = if ltb_ℤ (pos 0) (hp +ℤ amt) then some "alive" else c.state;
    board = debit player amt c.board;
  }
]
