-- ===== src/Tests/Cache.antt =====
-- Runs on the cache.
use enigma_behemoth.Prelude.{◌≡◌, refl, String, some, none, [], ◌∷◌, true, false, ◌==◌}
use enigma_behemoth.Prelude.Int.{pos}
use enigma_behemoth.Errors.{ok}
use enigma_behemoth.Store.{ApplyResult, status_applied}
use enigma_behemoth.Redis.Keyspace.{empty}
use enigma_behemoth.Redis.Server.{answered, plain}
use enigma_behemoth.Redis.Keys.{hp_key, max_key, state_key, lb_key}
use enigma_behemoth.Redis.Snapshot.{Snapshot, snapshot, result, hit, undo}
use enigma_behemoth.Redis.Client.{apply_damage, compensate_damage}
use enigma_behemoth.Redis.Calls.{apply_damage-hit, compensate_damage-undo}
use enigma_behemoth.Redis.View.{ViewEnv}
use enigma_behemoth.Redis.View.Top.{IsAlone}
use enigma_behemoth.Postgres.Reads.{derive, rows_of}
use enigma_behemoth.Postgres.Tables.{find_boss}
use enigma_behemoth.Recovery.Rehydrate.{rehydrate_boss}
use enigma_behemoth.Recovery.Rebuilt.{rebuilt, rehydrate_boss-rebuilt}
use enigma_behemoth.Recovery.Rehydrate.{rehydrate_all}
use enigma_behemoth.Recovery.All.{steady, implied, rehydrate_all-IsImplied}
use enigma_behemoth.Boss.View.{GetEnv}
use enigma_behemoth.Boss.View.Cold.{IsUndisturbed}
use enigma_behemoth.Tests.Data.{cache, boss, tables, rebuild}

abbrev content : Snapshot
content = record {
  hp = some (pos 30);
  max_hp = some (pos 100);
  state = some "alive";
  board = ("ann", pos 70) ∷ [];
}

content_of_cache : snapshot 5 "b" cache ≡ content
unfolding snapshot hp_key max_key state_key lb_key
content_of_cache = refl

-- A hit of 40 takes the 30 that are left.
last_hit : hit "bob" (pos 40) content ≡ (
  result status_applied (pos 30) (pos 0),
  record content {
    hp = some (pos 0);
    state = some "defeated";
    board = ("ann", pos 70) ∷ ("bob", pos 30) ∷ [];
  },
)
last_hit = refl

apply_damage-hit_example :
    let r = apply_damage plain (pos 0) answered 5 "b" "bob" (pos 40) cache in
    (r.0 ≡ ok (hit "bob" (pos 40) (snapshot 5 "b" cache)).0)
    × (snapshot 5 "b" r.1 ≡ (hit "bob" (pos 40) (snapshot 5 "b" cache)).1)
    × ((j : String) → ("b" == j) ≡ false → snapshot 5 j r.1 ≡ snapshot 5 j cache)
apply_damage-hit_example = apply_damage-hit plain (pos 0) 5 "b" "bob" (pos 40) cache

compensate_damage-undo_example :
    let r = compensate_damage plain (pos 0) answered 5 "b" "ann" (pos 20) cache in
    (snapshot 5 "b" r.1 ≡ undo "ann" (pos 20) (snapshot 5 "b" cache))
    × ((j : String) → ("b" == j) ≡ false → snapshot 5 j r.1 ≡ snapshot 5 j cache)
compensate_damage-undo_example = compensate_damage-undo plain (pos 0) 5 "b" "ann" (pos 20) cache

abbrev last_result : ApplyResult
last_result = result status_applied (pos 30) (pos 0)

abbrev reading : ViewEnv plain
reading = record {
  net = answered;
  at = 5;
  hp_read = λ d. d;
  max_read = λ d. d;
  state_read = λ d. d;
}

abbrev alone : IsAlone plain reading
alone = record { net = refl; hp_read = λ d. refl; max_read = λ d. refl; state_read = λ d. refl }

rehydrate_boss-rebuilt_example :
    let r = rehydrate_boss plain (pos 0) rebuild "b" cache in
    (r.0 ≡ ok true)
    × (snapshot 5 "b" r.1
        ≡ rebuilt (derive tables.contributions boss) (rows_of "b" tables.contributions))
    × ((j : String) → ("b" == j) ≡ false → snapshot 5 j r.1 ≡ snapshot 5 j cache)
unfolding find_boss
rehydrate_boss-rebuilt_example =
    rehydrate_boss-rebuilt plain (pos 0) rebuild
      (record { state_fault = refl; rows_fault = refl; net = refl }) "b" boss cache refl

-- From an empty cache, as at the start.
rehydrate_all-IsImplied_example :
    let r = rehydrate_all plain (pos 0) none tables (λ j. steady tables 5) empty in
    (r.0 ≡ ok tt) × (snapshot 5 "b" r.1 ≡ implied tables boss "b")
unfolding find_boss
rehydrate_all-IsImplied_example = rehydrate_all-IsImplied plain (pos 0) tables 5 "b" boss empty refl

abbrev getting : GetEnv plain
getting = record {
  first = reading;
  missed = λ d. d;
  rebuild = rebuild;
  loaded = λ d. d;
  second = reading;
}

abbrev undisturbed : IsUndisturbed plain (pos 0) getting "b"
undisturbed = record {
  first = alone;
  rebuild = record { state_fault = refl; rows_fault = refl; net = refl };
  loaded = λ d. refl;
  second = alone;
  at_once = refl;
}
