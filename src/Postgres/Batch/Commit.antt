-- ===== src/Postgres/Batch/Commit.antt =====
-- What the statements of CommitBatch are given: the sums of the batch, each key once.
use mathlib.Core.List.{Perm, append-nil, append_assoc}
use mathlib.Core.List.Perm
use enigma_behemoth.Prelude.{
  ℕ, ◌+◌, ◌*◌, ◌≤◌, ◌<◌, String, ◌≡◌, refl, sym, ap, ◌∙◌, true, List, [], ◌∷◌, ◌++◌, map, some,
  arith, ◌==◌, if◌then◌else◌, All,
}
use enigma_behemoth.Prelude.Int.{pos, pos_part}
use enigma_behemoth.Store.{DamageEvent}
use enigma_behemoth.Postgres.Tables.{
  Tables, Boss, EventRow, bigint_end, find_boss, is_some, copy_rows,
}
use enigma_behemoth.Postgres.Batch.{
  Key, key_of, boss_key, at_key, per_key, sort_keys, keys, same_key,
}
use enigma_behemoth.Postgres.Batch.Keys.{count, sum_keys, weigh, weigh-perm, sort-perm}
use enigma_behemoth.Postgres.Batch.Sums.{IsGain, load, total_applied, at_key-per_key}
use enigma_behemoth.Postgres.Batch.Distinct.{boss_load, per_key_once, sum_keys-load, load-count}
use enigma_behemoth.Postgres.Batch.Rows.{total}
use enigma_behemoth.Postgres.Batch.Bosses.{IsSettled}

-- The order in which a map is walked: every key once.
abbrev pub IsOrder : (List Key → List Key) → Type 0
IsOrder order = (ks : List Key) → Perm (order ks) ks

-- The damage of a player, and of all players, at one boss.
abbrev pub dealt : Key → List DamageEvent → ℕ
dealt k es = load key_of k es

abbrev pub dealt_to : String → List DamageEvent → ℕ
dealt_to b [] = 0
dealt_to b (e ∷ es) = (if e.boss_id == b then pos_part e.applied else 0) + dealt_to b es

abbrev pub row_of : DamageEvent → EventRow
row_of e = record {
  boss_id = e.boss_id;
  player_id = e.player_id;
  damage_applied = pos_part e.applied;
}

-- A batch that breaks no constraint: its events name known bosses and gain damage, and no sum leaves
-- the range of a BIGINT.
pub record Fits (es : List DamageEvent) (t : Tables) : Type 0 where
  pub gains : All IsGain es
  pub known : All (λ e. is_some (find_boss e.boss_id t.bosses) ≡ true) es
  pub small : total_applied es < bigint_end
  pub room : (k : Key) → total k t.contributions + dealt k es < bigint_end
  pub settled : All IsSettled t.bosses

pub copy_rows-map :
    (bosses : List Boss) (es : List DamageEvent) (log : List EventRow)
    → All IsGain es
    → All (λ e. is_some (find_boss e.boss_id bosses) ≡ true) es
    → copy_rows bosses es log ≡ some (log ++ map row_of es)
unfolding copy_rows
copy_rows-map bosses [] log g k = ap some (sym (append-nil log))
copy_rows-map bosses (e ∷ es) log g k = ground (
  arith,
  copy_rows-map bosses es (log ++ row_of e ∷ []) g.1 k.1,
  append_assoc log (row_of e ∷ []) (map row_of es),
)

load-le-total :
    (f : DamageEvent → Key) (k : Key) (es : List DamageEvent) → load f k es ≤ total_applied es
load-le-total f k [] = omega arith
load-le-total f k (e ∷ es) = ground (arith, load-le-total f k es)

pub dealt_to-boss_load :
    (b : String) (es : List DamageEvent) → boss_load boss_key b es ≡ dealt_to b es
unfolding boss_key
dealt_to-boss_load b [] = refl
dealt_to-boss_load b (e ∷ es) = ground (arith, dealt_to-boss_load b es)

pub player_load : (b : String) (es : List DamageEvent) → boss_load key_of b es ≡ dealt_to b es
unfolding key_of
player_load b [] = refl
player_load b (e ∷ es) = ground (arith, player_load b es)

-- The keys that the loops walk, for one of the two maps.
module _ (f : DamageEvent → Key) (order : List Key → List Key) (walk : IsOrder order)
    (es : List DamageEvent) where
  abbrev pub walked : List Key
  walked = sort_keys (order (keys (per_key f es [])))

  weigh-walked : (w : Key → ℕ) → weigh w walked ≡ weigh w (keys (per_key f es []))
  weigh-walked w = weigh-perm w (Perm.trans (sort-perm _) (walk _))

  module _ (gains : All IsGain es) (small : total_applied es < bigint_end) where
    pub sums : (k : Key) → at_key k (per_key f es []) ≡ pos (load f k es)
    unfolding at_key
    sums k =
        at_key-per_key f k es [] 0 refl gains (omega (arith, load-le-total f k es))
        ∙ ap pos (omega arith)

    pub count-walked : (k : Key) → count k walked * load f k es ≡ load f k es
    count-walked k = ground (
      arith,
      weigh-walked (λ j. if same_key j k then 1 else 0),
      load-count f k es (load f k es) (sums k),
    )

  pub sum-walked : (b : String) → sum_keys b (λ k. load f k es) walked ≡ boss_load f b es
  sum-walked b =
      weigh-walked (λ k. if k.boss == b then load f k es else 0)
      ∙ sum_keys-load f b (keys (per_key f es [])) es (per_key_once f es [] tt)
