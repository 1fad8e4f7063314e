-- ===== src/System/Balance/Defs.antt =====
-- The balance of the whole system at one boss.
use enigma_behemoth.Prelude.{ℕ, ◌+◌, ◌≤◌, String, ◌≡◌, some, All}
use enigma_behemoth.Prelude.Int.{ℤ}
use enigma_behemoth.Redis.Server.{Server}
use enigma_behemoth.Redis.Snapshot.{Snapshot, snapshot}
use enigma_behemoth.Postgres.Tables.{Boss, find_boss, sum_of}
use enigma_behemoth.Postgres.Batch.Sums.{IsGain}
use enigma_behemoth.Postgres.Batch.Commit.{dealt_to}
use enigma_behemoth.System.{System}
use enigma_behemoth.System.Left.{HasLeft, Kept}

module _ (S : Server) (ttl : ℤ) (id : String) (max : ℕ) where
  open S use {contents}

  abbrev pub spent : System S ttl → ℕ
  spent s = dealt_to id s.pending + (dealt_to id s.lost + sum_of id s.tables.contributions)

  -- The HP of a boss in the cache, if it is there, is the maximum less what is dealt to the boss in the
  -- table of contributions, in the events that wait and in those that are lost.
  pub record IsBalanced (s : System S ttl) : Type 0 where
    pub gains : All IsGain s.pending
    pub row : (b : Boss) × (find_boss id s.tables.bosses ≡ some b) × (b.max_hp ≡ max)
    pub within : spent s ≤ max
    pub left : HasLeft max (spent s) (snapshot s.now id (contents s.db)).hp

  abbrev pub view : String → System S ttl → Snapshot
  view j s = snapshot s.now j (contents s.db)

  -- The two parts that a move can break.
  abbrev pub IsKept : System S ttl → Type 0
  IsKept s = Kept max (spent s) (view id s).hp
