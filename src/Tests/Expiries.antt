-- ===== src/Tests/Expiries.antt =====
-- A boss that is rebuilt, hit and left alone for a while, with keys that expire after a minute.
use enigma_behemoth.Prelude.{ℕ, suc, ◌+◌, ◌≡◌, refl, some, [], ◌∷◌, true, arith}
use enigma_behemoth.Prelude.Int.{pos}
use enigma_behemoth.Store.{RecoveryState}
use enigma_behemoth.Redis.Keyspace.{empty, live}
use enigma_behemoth.Redis.Server.{
  answered, plain, exec, call, put_int, put_text, expire_key, zset_map, del_key,
}
use enigma_behemoth.Redis.Keys.{hp_key, max_key, state_key, lb_key}
use enigma_behemoth.Redis.Scripts.{damage_script, settle_hit}
use enigma_behemoth.Redis.Client.{
  ttl_arg, apply_damage, rehydrate, rehydrate_script, fill, expiring, client_expiry, board_expiry,
  store_int, store_text,
}
use enigma_behemoth.Redis.Expiry.{cells, cell_at}
use enigma_behemoth.Redis.Snapshot.{snapshot}
use enigma_behemoth.Redis.Expiry.Subsecond.{apply_damage_sub_second}
use enigma_behemoth.Redis.Expiry.Aligned.{IsWhole}
use enigma_behemoth.Redis.Expiry.Complete.{
  Instant, Touches, hits, rebuilds, passes, here, next, Touches-IsComplete,
}

abbrev minute : ℕ
minute = 60_000_000_000

abbrev state : RecoveryState
state = record { max_hp = pos 100; current_hp = pos 30; state = "alive" }

abbrev begin : Instant plain (pos minute)
begin = record { now = 5; db = empty }

abbrev filled : Instant plain (pos minute)
filled = record begin {
  db =
      (rehydrate plain (pos minute) answered 5 "b" state
        (record { player_id = "ann"; damage = pos 70 } ∷ []) empty).1;
}

abbrev struck : Instant plain (pos minute)
struck = record filled {
  db = (apply_damage plain (pos minute) answered 5 "b" "bob" (pos 10) filled.db).1;
}

abbrev waited : Instant plain (pos minute)
waited = record struck { now = 1000 }

run : Touches plain (pos minute) begin waited
run =
    next _ _ _
      (next _ _ _
        (next _ _ _ (here begin)
          (rebuilds answered "b" state (record { player_id = "ann"; damage = pos 70 } ∷ []) begin))
        (hits answered "b" "bob" (pos 10) filled))
      (passes 1000 struck (omega arith))

is_live : live 1000 (cells "b" waited.db).hp ≡ some (cell_at (pos 20) (some (5 + minute)))
unfolding ttl_arg cells apply_damage rehydrate call exec damage_script settle_hit rehydrate_script
    fill expiring client_expiry board_expiry store_int store_text put_int put_text expire_key
    zset_map del_key hp_key max_key state_key lb_key
is_live = refl

Touches-IsComplete_example : IsWhole true (some (5 + minute)) (cells "b" waited.db)
unfolding ttl_arg
Touches-IsComplete_example =
    Touches-IsComplete plain (pos minute) begin waited "b" (cell_at (pos 20) (some (5 + minute)))
      refl refl run is_live

-- Half a second.
abbrev half : ℕ
half = 499_999_999

apply_damage_sub_second_example :
    let db' =
      (rehydrate plain
        (pos (suc half))
        answered
        5
        "b"
        state
        (record { player_id = "ann"; damage = pos 70 } ∷ [])
        empty).1 in
    let db'' = (apply_damage plain (pos (suc half)) answered 5 "b" "bob" (pos 10) db').1 in
    ((snapshot 1_000_000_005 "b" db'').hp ≡ some (pos 20))
    × ((snapshot 1_000_000_005 "b" db'').board ≡ [])
apply_damage_sub_second_example =
    apply_damage_sub_second plain half 5 1_000_000_005 "b" "bob" (pos 10) state
      (record { player_id = "ann"; damage = pos 70 }) [] empty (omega arith) refl refl (omega arith)

-- With a TTL of one and a half seconds the leaderboard of a rebuilt boss is gone before its HP.
uneven :
    let db =
      (rehydrate plain
        (pos 1_500_000_000)
        answered
        0
        "b"
        state
        (record { player_id = "ann"; damage = pos 70 } ∷ [])
        empty).1 in
    ((snapshot 1_200_000_000 "b" db).hp ≡ some (pos 30))
    × ((snapshot 1_200_000_000 "b" db).state ≡ some "alive")
    × ((snapshot 1_200_000_000 "b" db).board ≡ [])
unfolding snapshot rehydrate call exec rehydrate_script fill expiring client_expiry board_expiry
    store_int store_text put_int put_text expire_key zset_map del_key hp_key max_key state_key
    lb_key
uneven = (refl, refl, refl)
