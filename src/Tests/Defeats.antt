-- ===== src/Tests/Defeats.antt =====
-- A run of the whole system up to the defeat of a boss, and a rebuild in the middle of it.
use mathlib.Core.List.Perm
use enigma_behemoth.Prelude.{◌+◌, ◌-◌, ◌≡◌, refl, some, [], ◌∷◌, arith}
use enigma_behemoth.Prelude.Int.{pos}
use enigma_behemoth.Store.{status_applied}
use enigma_behemoth.Redis.Server.{answered, plain}
use enigma_behemoth.Redis.Client.{apply_damage}
use enigma_behemoth.Redis.Keys.{hp_key, max_key, state_key, lb_key}
use enigma_behemoth.Redis.Snapshot.{snapshot, result}
use enigma_behemoth.Redis.Calls.{apply_damage-hit}
use enigma_behemoth.Postgres.Tables.{
  Boss, find_boss, find_total, sum_of, copy_rows, upsert, update_boss, strike, add_total,
}
use enigma_behemoth.Postgres.Batch.{
  key_of, boss_key, same_key, sound, commit_batch, settle_tx, batch_tx, per_player, per_boss,
  per_key, bump, sort_keys, upserts, updates, at_key, step,
}
use enigma_behemoth.Postgres.Batch.Commit.{Fits, dealt_to}
use enigma_behemoth.Postgres.Batch.Books.{logged_to}
use enigma_behemoth.Recovery.Rehydrate.{rehydrate_boss}
use enigma_behemoth.Recovery.All.{steady}
use enigma_behemoth.System.{System, Move, Moves, forget}
use enigma_behemoth.System.Balance.{IsBalanced, Moves-IsBalanced}
use enigma_behemoth.System.Balance.Surplus.{rehydrate_boss_surplus}
use enigma_behemoth.System.Left.{HasLeft}
use enigma_behemoth.System.Defeat.{Moves-defeated}
use enigma_behemoth.Tests.Data.{boss, cache, event, tables}
use enigma_behemoth.Tests.Tables.{booked}
use enigma_behemoth.Tests.Whole.{begin, begin-IsBalanced}

-- "bob" takes the last 30, and the event is committed.
abbrev after_hit : System plain (pos 0)
after_hit = record begin {
  db = (apply_damage plain (pos 0) answered 5 "b" "bob" (pos 40) cache).1;
  pending = event ∷ [];
}

abbrev after_commit : System plain (pos 0)
after_commit = record after_hit {
  pending = [];
  tables = (commit_batch sound (λ ks. ks) (λ ks. ks) 5 (event ∷ []) tables).1;
}

hit_moves : Move plain (pos 0) begin after_hit
unfolding snapshot hp_key max_key state_key lb_key
hit_moves =
    Move.hits "b" "bob" (pos 40) (result status_applied (pos 30) (pos 0)) begin
      (apply_damage-hit plain (pos 0) 5 "b" "bob" (pos 40) cache).0

fits : Fits (event ∷ []) tables
unfolding find_boss find_total key_of same_key
fits = record {
  gains = (refl, tt);
  known = (refl, tt);
  small = omega arith;
  room = λ k. ground arith;
  settled = (record { fits = omega arith; state = refl }, tt);
}

hit_run : Moves plain (pos 0) begin after_hit
hit_run = Moves.next _ _ _ (Moves.here begin) hit_moves

whole_run : Moves plain (pos 0) begin after_commit
whole_run = Moves.next _ _ _ hit_run (
    Move.commits (λ ks. ks) (λ ks. ks) (event ∷ []) [] after_hit Perm.refl Perm.refl (Perm.refl _)
      fits)

found : find_boss "b" tables.bosses ≡ some boss
unfolding find_boss
found = refl

abbrev fallen : Boss
fallen = record boss { current_hp = 0; state = "defeated"; defeated_at = some 5; updated_at = 5 }

falls : find_boss "b" after_commit.tables.bosses ≡ some fallen
unfolding find_boss commit_batch settle_tx batch_tx per_player per_boss per_key boss_key key_of bump
    same_key sort_keys upserts updates at_key step copy_rows upsert update_boss strike add_total
    find_total
falls = refl

Moves-defeated_example :
    (logged_to "b" after_commit.tables.damage_events ≡ 100)
    × (dealt_to "b" after_commit.pending ≡ 0)
    × (dealt_to "b" after_commit.lost ≡ 0)
    × HasLeft 0 0 (snapshot 5 "b" after_commit.db).hp
Moves-defeated_example =
    Moves-defeated plain (pos 0) "b" 100 begin after_commit fallen whole_run begin-IsBalanced booked
      falls refl

after_hit-IsBalanced : IsBalanced plain (pos 0) "b" 100 after_hit
after_hit-IsBalanced =
    Moves-IsBalanced plain (pos 0) "b" 100 begin after_hit hit_run begin-IsBalanced

rehydrate_boss_surplus_example :
    ((snapshot 5 "b" (rehydrate_boss plain (pos 0) (steady tables 5) "b" after_hit.db).1).hp
      ≡ some (pos (100 - (30 + sum_of "b" tables.contributions) + 30)))
    × (¬ IsBalanced plain (pos 0) "b" 100 (record after_hit {
      db = (rehydrate_boss plain (pos 0) (steady tables 5) "b" after_hit.db).1;
      lost = forget "b" after_hit.lost;
    }))
rehydrate_boss_surplus_example =
    rehydrate_boss_surplus plain (pos 0) "b" 100 boss after_hit found (omega arith)
      after_hit-IsBalanced
