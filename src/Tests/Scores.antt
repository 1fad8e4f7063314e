-- ===== src/Tests/Scores.antt =====
-- A cold cache is rebuilt, and "bob" hits the boss.
use enigma_behemoth.Prelude.{refl, ◌++◌, [], arith}
use enigma_behemoth.Prelude.Int.{pos}
use enigma_behemoth.Store.{ApplyResult}
use enigma_behemoth.Redis.Keyspace.{empty}
use enigma_behemoth.Redis.Server.{answered, plain}
use enigma_behemoth.Redis.Client.{ttl_arg, apply_damage}
use enigma_behemoth.Redis.Snapshot.{snapshot, hit}
use enigma_behemoth.Redis.Calls.{apply_damage-hit}
use enigma_behemoth.Redis.Expiry.Complete.{empty-IsAligned}
use enigma_behemoth.Recovery.Rehydrate.{rehydrate_boss}
use enigma_behemoth.Recovery.All.{steady}
use enigma_behemoth.Postgres.Tables.{find_boss, find_total}
use enigma_behemoth.System.{System, Move, Moves, submitted}
use enigma_behemoth.System.Scores.{IsScored, Moves-IsScored}
use enigma_behemoth.Tests.Data.{boss, tables}

abbrev cold : System plain (pos 0)
cold = record { now = 5; db = empty; pending = []; lost = []; tables = tables }

abbrev rebuilt : System plain (pos 0)
rebuilt = record cold { db = (rehydrate_boss plain (pos 0) (steady tables 5) "b" empty).1 }

abbrev bob_result : ApplyResult
bob_result = (hit "bob" (pos 40) (snapshot 5 "b" rebuilt.db)).0

abbrev struck : System plain (pos 0)
struck = record rebuilt {
  db = (apply_damage plain (pos 0) answered 5 "b" "bob" (pos 40) rebuilt.db).1;
  pending = [] ++ submitted "b" "bob" bob_result;
}

rebuild_moves : Move plain (pos 0) cold rebuilt
unfolding find_boss
rebuild_moves = Move.rebuilds "b" boss cold refl tt

hit_moves : Move plain (pos 0) rebuilt struck
hit_moves =
    Move.hits "b" "bob" (pos 40) bob_result rebuilt
      (apply_damage-hit plain (pos 0) 5 "b" "bob" (pos 40) rebuilt.db).0

run : Moves plain (pos 0) cold struck
run = Moves.next _ _ _ (Moves.next _ _ _ (Moves.here cold) rebuild_moves) hit_moves

cold-IsScored : IsScored plain (pos 0) "b" "bob" cold
unfolding snapshot find_total
cold-IsScored = record {
  scored = λ v h. ground arith;
  gains = tt;
  keyed = (refl, tt);
  aligned = empty-IsAligned plain (pos 0) 5 empty refl;
}

Moves-IsScored_example : IsScored plain (pos 0) "b" "bob" struck
unfolding ttl_arg
Moves-IsScored_example = Moves-IsScored plain (pos 0) "b" "bob" cold struck refl run cold-IsScored
