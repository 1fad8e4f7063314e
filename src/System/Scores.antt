-- ===== src/System/Scores.antt =====
-- What the moves of the whole system keep of the leaderboard: the score of a player in the cache is what
-- the player has dealt to the boss, committed or not.
mod Rebuilt
mod Snapshots
mod Defs
mod Hits
mod Undoes
mod Commits
mod Rebuilds
pub use Defs.{IsScored, owed}
use enigma_behemoth.Prelude.{
  Option, ℕ, ◌≤◌, String, ◌≡◌, refl, sym, ap, ◌∙◌, some, none, false, arith, inl, inr, Bool-cases,
}
use enigma_behemoth.Prelude.Int.{ℤ, pos}
use enigma_behemoth.Redis.Server.{Server}
use enigma_behemoth.Redis.Keyspace.{score, members, passed, passed_later}
use enigma_behemoth.Redis.Keys.{hp_key, lb_key}
use enigma_behemoth.Redis.Snapshot.{snapshot}
use enigma_behemoth.Redis.Expiry.{cells}
use enigma_behemoth.Redis.Pipeline.{IsSteady}
use enigma_behemoth.Redis.Expiry.Aligned.{later-IsAligned, live-read, live_later}
use enigma_behemoth.Redis.Expiry.Boards.{Board, Expires}
use enigma_behemoth.System.Left.{read_later}
use enigma_behemoth.System.{System, Move, Moves}
use enigma_behemoth.System.Scores.Snapshots.{HasScore}
use enigma_behemoth.System.Scores.Hits.{hits-IsScored, loses-IsScored}
use enigma_behemoth.System.Scores.Undoes.{undoes-IsScored, drops-IsScored}
use enigma_behemoth.System.Scores.Commits.{commits-IsScored}
use enigma_behemoth.System.Scores.Rebuilds.{rebuilds-IsScored}

-- While the HP stays, so does the leaderboard.
board_later :
    (now later : ℕ) (e : Option ℕ) (b : Board)
    → now ≤ later
    → passed later e ≡ false
    → Expires (λ x. x ≡ e) b
    → members later b ≡ members now b
board_later now later e none le alive h = refl
board_later now later e (some z) le alive h =
    let there : passed later z.expires ≡ false = ap (passed later) h ∙ alive in
    ground (arith, there, passed_later now later z.expires le there)

module _ (S : Server) (ttl : ℤ) (id q : String) (steady : IsSteady ttl) where
  open S use {contents}

  passes-IsScored :
      (later : ℕ) (s : System S ttl)
      → s.now ≤ later
      → IsScored S ttl id q s
      → IsScored S ttl id q (record s { now = later })
  unfolding snapshot cells
  passes-IsScored later s le v = record {
    scored = λ hp h.
        let (c, lives, alive) = live-read later ((contents s.db).ints (hp_key id)) hp h in
        let before = live_later s.now later ((contents s.db).ints (hp_key id)) c le lives in
        let w = v.aligned id c before in
        ap (score q)
          (board_later s.now later c.expires ((contents s.db).zsets (lb_key id)) le alive w.board)
        ∙ v.scored hp (read_later s.now later ((contents s.db).ints (hp_key id)) hp le h);
    gains = v.gains;
    keyed = v.keyed;
    aligned = λ j. later-IsAligned _ s.now later (cells j (contents s.db)) le (v.aligned j);
  }

  Move-IsScored :
      {s t : System S ttl} → Move S ttl s t → IsScored S ttl id q s → IsScored S ttl id q t
  Move-IsScored (Move.hits j player amount res s eq) v =
      hits-IsScored S ttl id q steady j player amount res s eq v
  Move-IsScored (Move.loses x j player amount res s eq) v =
      loses-IsScored S ttl id q steady x j player amount res s eq v
  Move-IsScored (Move.drops e rest s p) v = drops-IsScored S ttl id q e rest s p v
  Move-IsScored (Move.undoes e rest s p) v = undoes-IsScored S ttl id q e rest s steady p v
  Move-IsScored (Move.commits order boss_order es rest s walk boss_walk p fits) v =
      commits-IsScored S ttl id q order boss_order es rest s walk boss_walk p fits v
  Move-IsScored (Move.rebuilds j b s found idle) v =
      rebuilds-IsScored S ttl id q steady j b s found idle v
  Move-IsScored (Move.passes later s le) v = passes-IsScored later s le v

-- With a TTL of zero or a whole number of seconds, the moves of the whole system, in any order (hits with an answer
-- or with it lost, undos that reach the cache and others that do not, commits that fit the tables, rebuilds of
-- a boss with no event pending, and time), keep the leaderboard: the score of a player in the cache, if the
-- cache holds the boss, is the player's damage to the boss in the contributions, in the events that wait and in
-- those that are lost; no pending event takes HP back; contributions keep one row for each boss and player; and
-- the keys of every boss expire together, with the maximum left for good.
pub Moves-IsScored :
    (S : Server) (ttl : ℤ) (id q : String) (s t : System S ttl)
    → IsSteady ttl
    → Moves S ttl s t
    → IsScored S ttl id q s
    → IsScored S ttl id q t
Moves-IsScored S ttl id q s t steady (Moves.here _) v = v
Moves-IsScored S ttl id q s t steady (Moves.next _ m _ ms mv) v =
    Move-IsScored S ttl id q steady mv (Moves-IsScored S ttl id q s m steady ms v)
