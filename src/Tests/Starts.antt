-- ===== src/Tests/Starts.antt =====
-- Runs of cmd/server, of its configuration and of the wait for Redis.
use enigma_behemoth.Prelude.{ℕ, ◌≡◌, refl, none, some, true, false, ◌==◌, ltb, arith, if◌then◌else◌}
use enigma_behemoth.Prelude.Int.{pos, negsuc}
use enigma_behemoth.Errors.{Result, ok, err, opaque}
use enigma_behemoth.Text.{codes, contains, parse_int, print_int}
use enigma_behemoth.Redis.Keyspace.{empty}
use enigma_behemoth.Redis.Server.{plain, call}
use enigma_behemoth.Redis.Client.{rehydrate}
use enigma_behemoth.Redis.Snapshot.{snapshot}
use enigma_behemoth.Redis.Ready.{
  Ping, base_backoff, redis_starting, attempt, next_backoff, wait_redis_ready, new_redis_store,
}
use enigma_behemoth.Redis.Ready.Wait.{Ends, wait_redis_ready-Ends}
use enigma_behemoth.Postgres.Tables.{find_boss}
use enigma_behemoth.Postgres.Connect.{to_int32, new_postgres_store}
use enigma_behemoth.Postgres.Reads.{list_boss_ids, recovery_state, contributions}
use enigma_behemoth.Recovery.Rehydrate.{rehydrate_all, rehydrate_boss}
use enigma_behemoth.Recovery.All.{steady, implied}
use enigma_behemoth.Config.{
  Tunables, Environ, ParseDuration, env_int, env_int64, env, env_duration, read_all, load,
}
use enigma_behemoth.Config.Said.{IsSaid}
use enigma_behemoth.Config.Checked.{IsChecked, load-IsChecked, env_int-print_int}
use enigma_behemoth.Start.{
  Surroundings, signalled, serve, serve_rehydrated, run_workers, run_redis, run_stores, run,
}
use enigma_behemoth.Start.Order.{IsOrderly, run-IsOrderly}
use enigma_behemoth.Start.Serving.{serves, run-IsImplied}
use enigma_behemoth.Tests.Data.{boss, tables}

abbrev environ : Environ
environ = λ k. if k == "BATCH_MAX_SIZE" then some "-7" else none

abbrev pub sized : Environ
sized = λ k. if k == "BATCH_MAX_SIZE" then some "50" else none

abbrev pub no_durations : ParseDuration
no_durations = λ s. none

-- Redis loads its data during two rounds.
abbrev pings : ℕ → Ping
pings n = record {
  took = 1000;
  error = if ltb n 2 then some "LOADING Redis is loading the dataset in memory" else none;
  cut = false;
}

wait_redis_ready-Ends_example :
    (r : Result (Unit {0})) × (wait_redis_ready 11 1000000000 pings 0 500 base_backoff ≡ some r)
    × Ends pings 0 r
wait_redis_ready-Ends_example = wait_redis_ready-Ends 1000000000 pings 10 500 (omega arith)

seven : codes "-7" ≡ print_int (negsuc 6)
unfolding print_int
seven = refl

env_int-print_int_example :
    (env_int environ "BATCH_MAX_SIZE" (pos 500) ≡ negsuc 6)
    × (env_int64 environ "BATCH_MAX_SIZE" (pos 500) ≡ negsuc 6)
env_int-print_int_example =
    env_int-print_int environ "BATCH_MAX_SIZE" "-7" (negsuc 6) (pos 500) refl seven

refused_size : load no_durations environ ≡ err (opaque "batch/queue sizes must be > 0")
unfolding load read_all env_int env_int64 env env_duration parse_int
refused_size = refl

pub loaded : load no_durations sized ≡ ok (read_all no_durations sized)
unfolding load read_all env_int env_int64 env env_duration parse_int
loaded = refl

load-IsChecked_example :
    IsSaid no_durations sized (read_all no_durations sized)
    × IsChecked (read_all no_durations sized)
load-IsChecked_example = load-IsChecked no_durations sized (read_all no_durations sized) loaded

abbrev pub surroundings : Surroundings
surroundings = record {
  parse = no_durations;
  environ = sized;
  postgres = record {
    parse_fault = none;
    default_conns = pos 4;
    pool_fault = none;
    ping_fault = none;
  };
  started_at = 0;
  postgres_took = 500;
  pings = pings;
  list_fault = none;
  list_tables = tables;
  rebuilds = λ k. steady tables 5;
  end = signalled none;
}

run-IsOrderly_example : IsOrderly (run plain surroundings empty).0 (run plain surroundings empty).1
run-IsOrderly_example = run-IsOrderly plain surroundings empty

pub served : serves (run plain surroundings empty).1 ≡ true
unfolding run run_stores run_redis run_workers serve_rehydrated serve new_redis_store
    wait_redis_ready attempt next_backoff redis_starting load read_all env_int env_int64 env
    env_duration parse_int new_postgres_store to_int32 contains rehydrate_all list_boss_ids
    rehydrate_boss recovery_state find_boss contributions rehydrate call
served = refl

pub boss_row : find_boss "b" tables.bosses ≡ some boss
unfolding find_boss
boss_row = refl

run-IsImplied_example :
    ((c : Tunables) × (load no_durations sized ≡ ok c) × IsChecked c)
    × (snapshot 5 "b" (run plain surroundings empty).2 ≡ implied tables boss "b")
run-IsImplied_example =
    run-IsImplied plain surroundings empty tables 5 "b" boss refl refl refl boss_row served
