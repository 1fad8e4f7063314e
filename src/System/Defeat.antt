-- ===== src/System/Defeat.antt =====
-- A boss that is defeated in the tables: ARCHITECT.md, section 3, on the total that is applied.
use enigma_behemoth.Prelude.{ℕ, String, ◌≡◌, ap, some, sym, ◌∙◌, arith}
use enigma_behemoth.Prelude.Int.{ℤ, pos}
use enigma_behemoth.Redis.Server.{Server}
use enigma_behemoth.Redis.Snapshot.{snapshot}
use enigma_behemoth.Postgres.Tables.{Boss, find_boss}
use enigma_behemoth.Postgres.Batch.Commit.{dealt_to}
use enigma_behemoth.Postgres.Batch.Books.{IsBooked, found-IsCharged, logged_to}
use enigma_behemoth.System.{System, Moves}
use enigma_behemoth.System.Sums.{find_boss-id}
use enigma_behemoth.System.Left.{HasLeft, boss_inj}
use enigma_behemoth.System.Balance.{IsBalanced, Moves-IsBalanced}
use enigma_behemoth.System.Agree.{Moves-IsAgreed}

module _ (S : Server) (ttl : ℤ) where
  -- From a balanced system whose tables agree with the audit log, after every sequence of moves: if the HP
  -- of the boss's row is zero, the damage of the boss in the audit log is its maximum exactly, no damage to
  -- the boss waits for a commit or is lost, and the HP in the cache, if it is there, is zero.
  pub Moves-defeated :
      (id : String) (max : ℕ) (s t : System S ttl) (b : Boss)
      → Moves S ttl s t
      → IsBalanced S ttl id max s
      → IsBooked s.tables
      → find_boss id t.tables.bosses ≡ some b
      → b.current_hp ≡ 0
      → (logged_to id t.tables.damage_events ≡ max)
        × (dealt_to id t.pending ≡ 0)
        × (dealt_to id t.lost ≡ 0)
        × HasLeft 0 0 (snapshot t.now id (S.contents t.db)).hp
  Moves-defeated id max s t b moves balanced booked found none_left =
      let v = Moves-IsBalanced S ttl id max s t moves balanced in
      let a = Moves-IsAgreed S ttl id max s t moves balanced booked in
      let (b', found', top) = v.row in
      let same : b' ≡ b = boss_inj (sym found' ∙ found) in
      let gone : (a.row).current_hp ≡ 0 =
        ap (λ (x : Boss). x.current_hp) (boss_inj (sym a.found ∙ found)) ∙ none_left in
      let charged =
        found-IsCharged id b t.tables.damage_events t.tables.bosses found (a.books).charged in
      let own = find_boss-id id b t.tables.bosses found in
      (
        omega (
          arith,
          charged,
          none_left,
          ap (λ (k : String). logged_to k t.tables.damage_events) own,
          ap (λ (x : Boss). x.max_hp) same,
          top,
          (a.books).sums id,
          v.within,
        ),
        omega (arith, a.within, gone),
        omega (arith, a.within, gone),
        λ hp h. a.left hp h ∙ ap pos (omega (arith, gone)),
      )
