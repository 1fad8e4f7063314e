-- ===== src/Postgres/Reads.antt =====
-- ListBossIDs, RecoveryState and Contributions of internal/store/postgres.go.
use enigma_behemoth.Prelude.{
  ◌-◌, String, Option, none, some, List, [], ◌∷◌, map, ◌==◌, if◌then◌else◌,
}
use enigma_behemoth.Prelude.Int.{pos}
use enigma_behemoth.Errors.{Result, ok}
use enigma_behemoth.Store.{LeaderEntry, RecoveryState}
use enigma_behemoth.Postgres.Tables.{Boss, Contribution, Tables, find_boss, sum_of}
use enigma_behemoth.Postgres.Claims.{Fault, answer}

unfoldable pub list_boss_ids : Fault → Tables → Result (List String)
list_boss_ids f t = answer f (ok (map (λ b. b.id) t.bosses))

-- GREATEST(0, max_hp - COALESCE(SUM(total_damage), 0))
unfoldable pub derive : List Contribution → Boss → RecoveryState
derive rows b = record {
  max_hp = pos b.max_hp;
  current_hp = pos (b.max_hp - sum_of b.id rows);
  state = b.state;
}

-- `none` is pgx.ErrNoRows, no error of the method.
unfoldable pub recovery_state : Fault → Tables → String → Result (Option RecoveryState)
unfolding derive
recovery_state f t id =
    answer f
      (ok (elim (find_boss id t.bosses) [ none ↦ none | some b ↦ some (derive t.contributions b) ]))

unfoldable pub rows_of : String → List Contribution → List LeaderEntry
rows_of id [] = []
rows_of id (c ∷ rest) =
    let more = rows_of id rest in
    if c.boss_id == id
    then record { player_id = c.player_id; damage = pos c.total_damage } ∷ more
    else more

unfoldable pub contributions : Fault → Tables → String → Result (List LeaderEntry)
unfolding rows_of
contributions f t id = answer f (ok (rows_of id t.contributions))
