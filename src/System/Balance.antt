-- ===== src/System/Balance.antt =====
-- What the moves of the whole system keep: the HP of the cache is the maximum less what the players have
-- dealt, committed or not.
mod Defs
mod Hits
mod Undoes
mod Commits
mod Rebuilds
pub mod Surplus
pub use Defs.{IsBalanced, spent}
use enigma_behemoth.Prelude.{ℕ, String}
use enigma_behemoth.Prelude.Int.{ℤ}
use enigma_behemoth.Redis.Server.{Server}
use enigma_behemoth.Redis.Snapshot.{snapshot}
use enigma_behemoth.Redis.Keys.{hp_key}
use enigma_behemoth.System.{System, Move, Moves}
use enigma_behemoth.System.Left.{read_later}
use enigma_behemoth.System.Balance.Hits.{hits-IsBalanced, loses-IsBalanced}
use enigma_behemoth.System.Balance.Undoes.{undoes-IsBalanced, drops-IsBalanced}
use enigma_behemoth.System.Balance.Commits.{commits-IsBalanced}
use enigma_behemoth.System.Balance.Rebuilds.{rebuilds-IsBalanced}

module _ (S : Server) (ttl : ℤ) (id : String) (max : ℕ) where
  open S use {contents}

  -- Every move keeps the balance.
  Move-IsBalanced :
      {s t : System S ttl} → Move S ttl s t → IsBalanced S ttl id max s → IsBalanced S ttl id max t
  unfolding snapshot
  Move-IsBalanced (Move.hits j player amount res s eq) v =
      hits-IsBalanced S ttl id max j player amount res s eq v
  Move-IsBalanced (Move.loses x j player amount res s eq) v =
      loses-IsBalanced S ttl id max x j player amount res s eq v
  Move-IsBalanced (Move.drops e rest s p) v = drops-IsBalanced S ttl id max e rest s p v
  Move-IsBalanced (Move.undoes e rest s p) v = undoes-IsBalanced S ttl id max e rest s p v
  Move-IsBalanced (Move.commits order boss_order es rest s walk boss_walk p fits) v =
      commits-IsBalanced S ttl id max order boss_order es rest s walk boss_walk p fits v
  Move-IsBalanced (Move.rebuilds j b s found idle) v =
      rebuilds-IsBalanced S ttl id max j b s found idle v
  Move-IsBalanced (Move.passes later s le) v = record {
    gains = v.gains;
    row = v.row;
    within = v.within;
    left = λ hp h. v.left hp (read_later s.now later ((contents s.db).ints (hp_key id)) hp le h);
  }

  -- From a balanced system every sequence of moves leads to a balanced one. The moves are hits of any
  -- player on any boss, with an answer or with it lost, undos of a pending event that reach the cache and
  -- others that do not, commits of pending events that fit the tables, rebuilds of a boss with no event
  -- pending, and the passing of time, in any order. Balanced means: no pending event takes HP back, the row
  -- of the boss has its maximum, the damage dealt to the boss, committed, pending and lost together, is at
  -- most the maximum, and the HP in the cache, if it is there, is the maximum less that damage.
  pub Moves-IsBalanced :
      (s t : System S ttl) → Moves S ttl s t → IsBalanced S ttl id max s → IsBalanced S ttl id max t
  Moves-IsBalanced s t (Moves.here _) v = v
  Moves-IsBalanced s t (Moves.next _ m _ ms mv) v = Move-IsBalanced mv (Moves-IsBalanced s m ms v)
