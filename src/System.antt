-- ===== src/System.antt =====
-- The parts together: the cache, the events that wait for a commit, and the tables, moved by the calls
-- that the requests, the writer's loops and the rebuilds of cmd/server make, one call at a time.
-- Two things that can happen are no moves here, since they break the balance: the undo of an event whose
-- COMMIT went through with its answer lost, and a rebuild of a boss while events of it are pending.
pub mod Sums
pub mod Left
pub mod Balance
pub mod Agree
pub mod Defeat
pub mod Scores
use mathlib.Core.List.{Perm}
use enigma_behemoth.Prelude.{
  ℕ, ◌≤◌, String, ◌≡◌, List, [], ◌∷◌, ◌++◌, some, none, true, false, ◌==◌, All, if◌then◌else◌,
}
use enigma_behemoth.Prelude.Int.{ℤ, eqb_ℤ}
use enigma_behemoth.Errors.{Err, Result, ok}
use enigma_behemoth.Store.{ApplyResult, DamageEvent, status_applied}
use enigma_behemoth.Redis.Server.{Server, Delivery, answered}
use enigma_behemoth.Redis.Client.{apply_damage, compensate_damage}
use enigma_behemoth.Postgres.Tables.{Tables, Boss, find_boss}
use enigma_behemoth.Postgres.Batch.{Key, sound, commit_batch}
use enigma_behemoth.Postgres.Batch.Commit.{IsOrder, Fits}
use enigma_behemoth.Recovery.Rehydrate.{rehydrate_boss}
use enigma_behemoth.Recovery.All.{steady}

-- What Damage submits after a hit: an event if it landed.
abbrev pub submitted : String → String → ApplyResult → List DamageEvent
submitted id player res =
    if eqb_ℤ res.status status_applied
    then record { boss_id = id; player_id = player; applied = res.applied } ∷ []
    else []

-- The events of the other bosses.
abbrev pub forget : String → List DamageEvent → List DamageEvent
forget id [] = []
forget id (e ∷ es) = let rest = forget id es in if e.boss_id == id then rest else e ∷ rest

module _ (S : Server) (ttl : ℤ) where
  open S use {Db}

  -- `pending` is the events of hits that are made in the cache and neither committed nor undone, as long
  -- as one of the two is to come; `lost` is that of hits for which neither is, until a rebuild.
  pub record System : Type 0 where
    pub now : ℕ
    pub db : Db
    pub pending : List DamageEvent
    pub lost : List DamageEvent
    pub tables : Tables

  pub data Move : System → System → Type 0 where
    hits :
        (id player : String) (amount : ℤ) (res : ApplyResult) (s : System)
        → (apply_damage S ttl answered s.now id player amount s.db).0 ≡ ok res
        → Move s (record s {
          db = (apply_damage S ttl answered s.now id player amount s.db).1;
          pending = s.pending ++ submitted id player res;
        })
    -- The answer of the script is lost, so Damage submits nothing.
    loses :
        (e : Err) (id player : String) (amount : ℤ) (res : ApplyResult) (s : System)
        → (apply_damage S ttl answered s.now id player amount s.db).0 ≡ ok res
        → Move s (record s {
          db = (apply_damage S ttl (Delivery.lost e) s.now id player amount s.db).1;
          lost = s.lost ++ submitted id player res;
        })
    -- An event is not persisted, and its undo does not reach the cache.
    drops :
        (e : DamageEvent) (rest : List DamageEvent) (s : System)
        → Perm s.pending (e ∷ rest)
        → Move s (record s { pending = rest; lost = e ∷ s.lost })
    undoes :
        (e : DamageEvent) (rest : List DamageEvent) (s : System)
        → Perm s.pending (e ∷ rest)
        → Move s (record s {
          db = (compensate_damage S ttl answered s.now e.boss_id e.player_id e.applied s.db).1;
          pending = rest;
        })
    commits :
        (order boss_order : List Key → List Key) (es rest : List DamageEvent) (s : System)
        → IsOrder order
        → IsOrder boss_order
        → Perm s.pending (es ++ rest)
        → Fits es s.tables
        → Move s (record s {
          pending = rest;
          tables = (commit_batch sound order boss_order s.now es s.tables).1;
        })
    rebuilds :
        (id : String) (b : Boss) (s : System)
        → find_boss id s.tables.bosses ≡ some b
        → All (λ (e : DamageEvent). (e.boss_id == id) ≡ false) s.pending
        → Move s (record s {
          db = (rehydrate_boss S ttl (steady s.tables s.now) id s.db).1;
          lost = forget id s.lost;
        })
    passes : (later : ℕ) (s : System) → s.now ≤ later → Move s (record s { now = later })

  pub data Moves : System → System → Type 0 where
    here : (s : System) → Moves s s
    next : (a b c : System) → Moves a b → Move b c → Moves a c
