-- ===== src/Tests/Requests.antt =====
-- Runs of damage requests.
use enigma_behemoth.Prelude.{
  ℕ, ◌≡◌, ap, ◌⊎◌, inr, refl, String, none, some, [], ◌∷◌, true, false, ◌==◌, arith,
}
use enigma_behemoth.Prelude.Int.{pos}
use enigma_behemoth.Errors.{
  Err, err, sentinel, join, is, overloaded, commit_failed, canceled, deadline_exceeded,
}
use enigma_behemoth.Store.{ApplyResult, status_applied}
use enigma_behemoth.Redis.Keyspace.{score}
use enigma_behemoth.Redis.Keys.{hp_key, max_key, state_key, lb_key}
use enigma_behemoth.Redis.Server.{plain}
use enigma_behemoth.Redis.Snapshot.{Snapshot, snapshot, hit, result}
use enigma_behemoth.Writer.{returned, expired, release_error}
use enigma_behemoth.Writer
use enigma_behemoth.Boss.Service.{Env, damage, make_durable}
use enigma_behemoth.Boss.Damage.Durable.{durable, request}
use enigma_behemoth.Boss.Damage.Answer.{IsDurable, damage-IsDurable}
use enigma_behemoth.Boss.Damage.Failure.{
  IsUndone, IsScheduled, make_durable_commit_failed, make_durable_uncertain,
}
use enigma_behemoth.Boss.Damage.Hot.{IsHot, damage_succeeds, damage_overloaded-restores}
use enigma_behemoth.Api.{DamageRequest, sent, respond, handle_damage}
use enigma_behemoth.Tests.Data.{cache, config, world, quiet}

abbrev acknowledged : Env plain
acknowledged = quiet (Writer.answered none)

-- "bob" hits for 40 and takes the last 30.
abbrev seen : Snapshot
seen = snapshot 5 "b" cache

hot : (size : ℕ) (w : Writer.Wait) → IsHot plain (config size) (quiet w) "b" "bob" (pos 40) world
unfolding snapshot hp_key max_key state_key lb_key
hot size w = record { limits = refl; reached = refl; lands = refl }

last_hit : durable "b" "bob" (hit "bob" (pos 40) seen).0 ≡ record {
  boss_id = "b";
  player_id = "bob";
  applied = pos 30;
  boss_hp = pos 0;
  defeated = true;
}
unfolding snapshot hp_key max_key state_key lb_key
last_hit = refl

damage-IsDurable_example :
    IsDurable
      (config 4)
      acknowledged
      "b"
      "bob"
      (pos 40)
      world
      (durable "b" "bob" (hit "bob" (pos 40) seen).0)
      (damage plain (config 4) acknowledged "b" "bob" (pos 40) world).1
damage-IsDurable_example =
    damage-IsDurable plain (config 4) acknowledged "b" "bob" (pos 40) world
      (durable "b" "bob" (hit "bob" (pos 40) seen).0)
      (damage_succeeds plain (config 4) acknowledged "b" "bob" (pos 40) world
        (hot 4 (Writer.answered none)) refl refl)

damage_overloaded-restores_example :
    let r = damage plain (config 0) acknowledged "b" "bob" (pos 40) world in
    let after = snapshot 5 "b" r.1.db in
    (r.0 ≡ err (sentinel overloaded))
    × (after.hp ≡ seen.hp)
    × (after.state ≡ some "alive")
    × (after.max_hp ≡ seen.max_hp)
    × ((q : String) → score q after.board ≡ score q seen.board)
    × ((j : String) → ("b" == j) ≡ false → snapshot 5 j r.1.db ≡ snapshot 5 j cache)
    × (r.1.queue ≡ [])
unfolding snapshot hp_key max_key state_key lb_key
damage_overloaded-restores_example =
    damage_overloaded-restores plain (config 0) acknowledged "b" "bob" (pos 40) world
      (hot 0 (Writer.answered none))
      (record { applied = λ v. refl; waited = λ v. refl; at_once = refl }) refl refl (omega arith)

abbrev hit_result : ApplyResult
hit_result = result status_applied (pos 30) (pos 0)

-- The commit runs into the deadline of its transaction.
abbrev timed_out : Err
timed_out = join (sentinel commit_failed) (sentinel deadline_exceeded)

abbrev failing : Env plain
failing = quiet (Writer.answered (some timed_out))

make_durable_commit_failed_example :
    let w' = record world { queue = request failing "b" "bob" hit_result ∷ [] } in
    let r = make_durable plain (config 4) failing "b" "bob" hit_result world in
    (is timed_out commit_failed ≡ true)
    × (r.0 ≡ err timed_out)
    × IsUndone plain (config 4) failing "b" "bob" (pos 30) w' r.1
unfolding release_error
make_durable_commit_failed_example =
    make_durable_commit_failed plain (config 4) failing "b" "bob" hit_result world
      (returned (some (sentinel deadline_exceeded))) timed_out refl refl refl refl refl

abbrev gone : Env plain
gone = quiet expired

make_durable_uncertain_example :
    let w' = record world { queue = request gone "b" "bob" hit_result ∷ [] } in
    let r = make_durable plain (config 4) gone "b" "bob" hit_result world in
    (((gone.wait ≡ Writer.cancelled) × (r.0 ≡ err (sentinel canceled)))
      ⊎ ((gone.wait ≡ Writer.expired) × (r.0 ≡ err (sentinel deadline_exceeded))))
    × (r.1.db ≡ cache)
    × IsScheduled plain (config 4) gone "b" "bob" w' r.1
make_durable_uncertain_example =
    make_durable_uncertain plain (config 4) gone "b" "bob" hit_result world refl (inr refl)

abbrev posted : DamageRequest
posted = record { player_id = "bob"; boss_id = "b"; damage_amount = pos 40 }

posted_sent :
    (handle_damage plain (config 4) acknowledged (some posted) world).0
    ≡ sent 200 (durable "b" "bob" (hit "bob" (pos 40) seen).0)
unfolding handle_damage respond
posted_sent = ap respond (
    damage_succeeds plain (config 4) acknowledged "b" "bob" (pos 40) world
      (hot 4 (Writer.answered none)) refl refl)

abbrev http_ok : ℕ
http_ok = 200
