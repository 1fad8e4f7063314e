-- ===== src/System/Agree.antt =====
-- The cache and the durable store agree: the HP in the cache is that of the row, less what is to be
-- committed.
use enigma_behemoth.Prelude.{ℕ, ◌+◌, ◌-◌, ◌≤◌, String, ◌≡◌, sym, ap, ◌∙◌, subst, some, arith}
use enigma_behemoth.Prelude.Int.{ℤ, pos}
use enigma_behemoth.Errors.{Result}
use enigma_behemoth.Redis.Server.{Server}
use enigma_behemoth.Redis.Snapshot.{snapshot}
use enigma_behemoth.Postgres.Tables.{Tables, Boss, find_boss, sum_of}
use enigma_behemoth.Postgres.Batch.Commit.{dealt_to}
use enigma_behemoth.Postgres.Batch.Books.{
  IsBooked, commit_batch-IsBooked, found-IsCharged, logged_to,
}
use enigma_behemoth.System.{System, Move, Moves}
use enigma_behemoth.System.Sums.{find_boss-id}
use enigma_behemoth.System.Left.{HasLeft}
use enigma_behemoth.System.Balance.{IsBalanced, Moves-IsBalanced}

module _ (S : Server) (ttl : ℤ) where
  -- Only a commit changes the tables.
  Move-IsBooked : {s t : System S ttl} → Move S ttl s t → IsBooked s.tables → IsBooked t.tables
  Move-IsBooked (Move.hits j player amount res s eq) b = b
  Move-IsBooked (Move.loses x j player amount res s eq) b = b
  Move-IsBooked (Move.drops e rest s p) b = b
  Move-IsBooked (Move.undoes e rest s p) b = b
  Move-IsBooked (Move.commits order boss_order es rest s walk boss_walk p fits) b =
      let (t', eq, booked) =
        commit_batch-IsBooked order boss_order s.now es s.tables walk boss_walk fits b in
      subst IsBooked (sym (ap (λ (r : Result (Unit {0}) × Tables). r.1) eq)) booked
  Move-IsBooked (Move.rebuilds j x s found idle) b = b
  Move-IsBooked (Move.passes later s le) b = b

  Moves-IsBooked : {s t : System S ttl} → Moves S ttl s t → IsBooked s.tables → IsBooked t.tables
  Moves-IsBooked (Moves.here _) b = b
  Moves-IsBooked (Moves.next _ m _ ms mv) b = Move-IsBooked mv (Moves-IsBooked ms b)

  -- The tables agree with the audit log; what waits for a commit and what is lost are at most the HP of the
  -- boss's row; and the HP in the cache, if it is there, is that of the row less both.
  pub record IsAgreed (id : String) (t : System S ttl) : Type 0 where
    pub books : IsBooked t.tables
    pub row : Boss
    pub found : find_boss id t.tables.bosses ≡ some row
    pub within : dealt_to id t.pending + dealt_to id t.lost ≤ row.current_hp
    pub left :
        HasLeft row.current_hp
          (dealt_to id t.pending + dealt_to id t.lost)
          (snapshot t.now id (S.contents t.db)).hp

  -- From a balanced system whose tables agree with the audit log, every sequence of moves leads to a
  -- system in which, for the boss: the tables agree with the audit log; the damage that waits for a
  -- commit or is lost is at most the HP of the row; and the HP in the cache, if it is there, is the HP of
  -- the row less that damage, so that it is the HP of the row once nothing waits and nothing is lost.
  pub Moves-IsAgreed :
      (id : String) (max : ℕ) (s t : System S ttl)
      → Moves S ttl s t
      → IsBalanced S ttl id max s
      → IsBooked s.tables
      → IsAgreed id t
  Moves-IsAgreed id max s t moves balanced booked =
      let books = Moves-IsBooked moves booked in
      let v = Moves-IsBalanced S ttl id max s t moves balanced in
      let (b, found, top) = v.row in
      let own = find_boss-id id b t.tables.bosses found in
      let charged : b.current_hp ≡ max - sum_of id t.tables.contributions = omega (
        arith,
        found-IsCharged id b t.tables.damage_events t.tables.bosses found books.charged,
        ap (λ (k : String). logged_to k t.tables.damage_events) own,
        books.sums id,
        top,
      ) in
      record {
        books = books;
        row = b;
        found = found;
        within = omega (arith, charged, v.within);
        left = λ hp h. v.left hp h ∙ ap pos (omega (arith, charged, v.within));
      }
