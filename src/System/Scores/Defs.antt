-- ===== src/System/Scores/Defs.antt =====
-- The leaderboard of a boss in the cache, and what a player is owed.
use enigma_behemoth.Prelude.{ℕ, ◌+◌, String, All}
use enigma_behemoth.Prelude.Int.{ℤ}
use enigma_behemoth.Redis.Server.{Server}
use enigma_behemoth.Redis.Snapshot.{Snapshot, snapshot}
use enigma_behemoth.Redis.Expiry.Complete.{AllAligned}
use enigma_behemoth.Postgres.Batch.Rows.{total}
use enigma_behemoth.Postgres.Batch.Sums.{IsGain}
use enigma_behemoth.Postgres.Batch.Keyed.{IsKeyed}
use enigma_behemoth.Postgres.Batch.Commit.{dealt}
use enigma_behemoth.System.{System}
use enigma_behemoth.System.Scores.Snapshots.{HasScore, key}

module _ (S : Server) (ttl : ℤ) (id q : String) where
  open S use {contents}

  -- The damage of the player to the boss, committed, pending and lost.
  abbrev pub owed : System S ttl → ℕ
  owed s =
      total (key id q) s.tables.contributions
      + (dealt (key id q) s.pending + dealt (key id q) s.lost)

  abbrev pub view : String → System S ttl → Snapshot
  view j s = snapshot s.now j (contents s.db)

  -- The score of the player on the leaderboard in the cache, if the cache holds the boss, is what the player is
  -- owed; no pending event takes HP back; contributions have their primary key; and the keys of every boss
  -- expire together.
  pub record IsScored (s : System S ttl) : Type 0 where
    pub scored : HasScore q (owed s) (view id s)
    pub gains : All IsGain s.pending
    pub keyed : IsKeyed s.tables.contributions
    pub aligned : AllAligned S ttl s.now s.db
