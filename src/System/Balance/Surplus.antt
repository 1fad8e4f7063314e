-- ===== src/System/Balance/Surplus.antt =====
-- A rebuild while events of the boss wait for their commit, which is no move of the system.
use enigma_behemoth.Prelude.{ℕ, ◌+◌, ◌-◌, ◌<◌, String, ◌≡◌, ap, Option, some, sym, ◌∙◌, arith}
use enigma_behemoth.Prelude.Int.{ℤ, pos, pos_part}
use enigma_behemoth.Redis.Server.{Server}
use enigma_behemoth.Redis.Snapshot.{Snapshot, snapshot}
use enigma_behemoth.Postgres.Tables.{Boss, find_boss, sum_of}
use enigma_behemoth.Postgres.Batch.Commit.{dealt_to}
use enigma_behemoth.Postgres.Reads.{derive}
use enigma_behemoth.Recovery.Rehydrate.{rehydrate_boss}
use enigma_behemoth.Recovery.Rebuilt.{rehydrate_boss-rebuilt}
use enigma_behemoth.Recovery.All.{steady}
use enigma_behemoth.System.{System, forget}
use enigma_behemoth.System.Sums.{find_boss-id}
use enigma_behemoth.System.Left.{boss_inj}
use enigma_behemoth.System.Balance.Defs.{IsBalanced}
use enigma_behemoth.System.Balance.Rebuilds.{answered_all, rebuilt_at}

module _ (S : Server) (ttl : ℤ) (id : String) (max : ℕ) where
  abbrev hp_of : System S ttl → Option ℤ
  hp_of s = (snapshot s.now id (S.contents s.db)).hp

  abbrev rebuilt : System S ttl → System S ttl
  rebuilt = rebuilt_at S ttl id max id

  -- The rebuild counts what is committed, and nothing else.
  rebuilt_hp :
      (b : Boss) (s : System S ttl)
      → find_boss id s.tables.bosses ≡ some b
      → IsBalanced S ttl id max s
      → hp_of (rebuilt s) ≡ some (pos (max - sum_of id s.tables.contributions))
  unfolding derive
  rebuilt_hp b s found v =
      let laws =
        rehydrate_boss-rebuilt S ttl (steady s.tables s.now) answered_all id b s.db found in
      let (b', found', max_hp) = v.row in
      let same : b' ≡ b = boss_inj (sym found' ∙ found) in
      let top : b.max_hp ≡ max = ap (λ (x : Boss). x.max_hp) (sym same) ∙ max_hp in
      let own = find_boss-id id b s.tables.bosses found in
      ap (λ (c : Snapshot). c.hp) laws.1
      ∙ ap (λ (m : ℕ). some (pos (m - sum_of b.id s.tables.contributions))) top
      ∙ ap (λ (k : String). some (pos (max - sum_of k s.tables.contributions))) own

  unbalanced :
      (b : Boss) (s : System S ttl)
      → find_boss id s.tables.bosses ≡ some b
      → 0 < dealt_to id s.pending
      → IsBalanced S ttl id max s
      → ¬ IsBalanced S ttl id max (rebuilt s)
  unbalanced b s found waiting v w =
      omega (arith, ap pos_part (w.left _ (rebuilt_hp b s found v)), w.within, waiting)

-- A rebuild of a boss of a balanced system, while damage to the boss waits for its commit, gives that damage
-- back in the cache: the HP there is what the balance allows and the pending damage on top, and the system
-- is no longer balanced.
pub rehydrate_boss_surplus :
    (S : Server) (ttl : ℤ) (id : String) (max : ℕ) (b : Boss) (s : System S ttl)
    → find_boss id s.tables.bosses ≡ some b
    → 0 < dealt_to id s.pending
    → IsBalanced S ttl id max s
    → ((snapshot s.now id (S.contents (rehydrate_boss S ttl (steady s.tables s.now) id s.db).1)).hp
        ≡ some (
            pos (
              max
              - (dealt_to id s.pending + sum_of id s.tables.contributions)
              + dealt_to id s.pending)))
      × (¬ IsBalanced S ttl id max (record s {
        db = (rehydrate_boss S ttl (steady s.tables s.now) id s.db).1;
        lost = forget id s.lost;
      }))
rehydrate_boss_surplus S ttl id max b s found waiting v = (
  rebuilt_hp S ttl id max b s found v ∙ ap (λ (n : ℕ). some (pos n)) (omega (arith, v.within)),
  unbalanced S ttl id max b s found waiting v,
)
