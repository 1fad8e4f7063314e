-- ===== src/Store.antt =====
-- The types of internal/store/store.go.
use enigma_behemoth.Prelude.{String, List}
use enigma_behemoth.Prelude.Int.{ℤ, pos, negsuc}

-- Status codes of the damage script.
abbrev pub status_applied : ℤ
status_applied = pos 1

abbrev pub status_defeated : ℤ
status_defeated = pos 0

abbrev pub status_not_loaded : ℤ
status_not_loaded = negsuc 0

abbrev pub status_invalid : ℤ
status_invalid = negsuc 1

pub record DamageEvent : Type 0 where
  pub boss_id : String
  pub player_id : String
  pub applied : ℤ

pub record ApplyResult : Type 0 where
  pub status : ℤ
  pub applied : ℤ
  pub new_hp : ℤ

-- The zero value of the struct.
abbrev pub no_result : ApplyResult
no_result = record { status = pos 0; applied = pos 0; new_hp = pos 0 }

pub record LeaderEntry : Type 0 where
  pub player_id : String
  pub damage : ℤ

pub record BossView : Type 0 where
  pub boss_id : String
  pub name : String
  pub hp : ℤ
  pub max_hp : ℤ
  pub state : String
  pub leaderboard : List LeaderEntry

pub record RecoveryState : Type 0 where
  pub max_hp : ℤ
  pub current_hp : ℤ
  pub state : String
