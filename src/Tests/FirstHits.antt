-- ===== src/Tests/FirstHits.antt =====
-- The first hit after a start of the server.
use enigma_behemoth.Prelude.{
  String, ◌≡◌, refl, Option, none, some, [], Bool, true, false, ◌==◌, ◌<◌, arith, if◌then◌else◌,
}
use enigma_behemoth.Prelude.Int.{pos, leb_ℤ}
use enigma_behemoth.Errors.{Err}
use enigma_behemoth.Redis.Keyspace.{empty}
use enigma_behemoth.Redis.Server.{plain}
use enigma_behemoth.Postgres.Tables.{sum_of}
use enigma_behemoth.Writer
use enigma_behemoth.Boss.Service.{Env}
use enigma_behemoth.Config.{Tunables, read_all, env_int64, env}
use enigma_behemoth.Text.{parse_int}
use enigma_behemoth.Api.Json.{Json, encode_damage, write_json, serve_damage}
use enigma_behemoth.Api.Json.Decode.{encode_request}
use enigma_behemoth.Start.{service_config, run}
use enigma_behemoth.Start.FirstHit.{first_result, run-first_hit}
use enigma_behemoth.Tests.Data.{boss, tables, quiet}
use enigma_behemoth.Tests.Starts.{no_durations, sized, surroundings, loaded, served, boss_row}

abbrev tunables : Tunables
tunables = read_all no_durations sized

abbrev alone : Env plain
alone = quiet (Writer.answered none)

abbrev parse : String → Option Json
parse text =
    if text == "a hit"
    then some (encode_request (record { player_id = "bob"; boss_id = "b"; damage_amount = pos 40 }))
    else none

abbrev fold : String → String → Bool
fold name k = false

abbrev message : Err → String
message e = "error"

within : leb_ℤ (pos 40) tunables.max_damage_per_hit ≡ true
unfolding read_all env_int64 env parse_int
within = refl

left : sum_of "b" tables.contributions < 100
unfolding sum_of
left = omega arith

-- "bob" hits for 40, and 30 of 100 HP are left.
run-first_hit_example :
    (serve_damage plain parse fold message
      (service_config tunables tunables.redis_cache_ttl)
      alone
      "a hit"
      (record { db = (run plain surroundings empty).2; queue = []; enqueued = [] })).0
    ≡ write_json 200 (encode_damage (first_result "b" "bob" 40 30))
unfolding sum_of
run-first_hit_example =
    run-first_hit plain surroundings empty tables 5 boss tunables alone parse fold message "a hit"
      "b" "bob" 40 loaded refl refl refl boss_row served
      (record { reached = refl; at = refl; applied = λ v. refl; committed = refl }) refl refl
      (omega arith) within left
