-- ===== src/Redis/Client.antt =====
-- The methods of RedisStore in internal/store/redis.go. `ttl` is the store's `ttl` field, a duration in
-- nanoseconds; `now` is the server's clock, and a `Delivery` says what the network does to the call.
use enigma_behemoth.Prelude.{
  ℕ, zero, suc, ◌*◌, ◌/◌, ◌%◌, ◌||◌, not, ltb, eqb, if◌then◌else◌, String, Option, none, some, List,
  [], ◌∷◌, map,
}
use enigma_behemoth.Prelude.Int.{ℤ, pos, negsuc, div_ℤ}
use enigma_behemoth.Errors.{Result, ok, err, wrap, opaque, ◌>>=◌}
use enigma_behemoth.Store.{ApplyResult, LeaderEntry, RecoveryState}
use enigma_behemoth.Redis.Server.{
  Script, reply, set, set_text, set_keep, set_text_keep, expire, del, zadd, Server, Delivery, call,
}
use enigma_behemoth.Redis.Keys.{hp_key, max_key, state_key, lb_key}
use enigma_behemoth.Redis.Scripts.{
  Any, int64, int, float64, other, second, millisecond, damage_script, compensate_script,
}

unfoldable pub to_int64 : Any → ℤ
to_int64 (int64 n) = n
to_int64 (int n) = n
to_int64 (float64 n) = n
to_int64 other = pos 0

unfoldable pub ttl_arg : ℤ → ℤ
ttl_arg ttl = div_ℤ ttl second

-- The checks of ApplyDamage on the reply of the script.
unfoldable pub parse_reply : List Any → Result ApplyResult
unfolding to_int64
parse_reply (a ∷ b ∷ c ∷ []) =
    ok (record { status = to_int64 a; applied = to_int64 b; new_hp = to_int64 c })
parse_reply _ = err (opaque "unexpected script reply length")

unfoldable pub wrapped {ℓ} : {A : Type ℓ} → String → Result A → Result A
wrapped msg (ok a) = ok a
wrapped msg (err e) = err (wrap msg e)

-- A positive duration as the client library sends it: in whole seconds or milliseconds, and not as zero.
abbrev pub whole_units : ℕ → ℕ → ℕ
whole_units unit d = if ltb d unit then unit else (d / unit) * unit

-- The expiry of SET: none for zero; seconds for a whole number of seconds, and milliseconds otherwise.
unfoldable pub client_expiry : ℤ → Option ℕ
client_expiry (pos zero) = none
client_expiry (pos (suc n)) =
    if ltb (suc n) second || not (eqb (suc n % second) 0)
    then some (whole_units millisecond (suc n))
    else some (whole_units second (suc n))
client_expiry (negsuc n) = none

-- The expiry that `if r.ttl > 0` sets on the leaderboard: EXPIRE has seconds only.
unfoldable pub board_expiry : ℤ → Option ℕ
board_expiry (pos zero) = none
board_expiry (pos (suc n)) = some (whole_units second (suc n))
board_expiry (negsuc n) = none

-- SET by the client library, for which a duration of -1 ns is KEEPTTL.
unfoldable pub store_int : ℤ → String → ℤ → Script (Unit {0}) → Script (Unit {0})
unfolding client_expiry
store_int (pos n) k v rest = set k v (client_expiry (pos n)) rest
store_int (negsuc zero) k v rest = set_keep k v rest
store_int (negsuc (suc n)) k v rest = set k v (client_expiry (negsuc (suc n))) rest

unfoldable pub store_text : ℤ → String → String → Script (Unit {0}) → Script (Unit {0})
unfolding client_expiry
store_text (pos n) k v rest = set_text k v (client_expiry (pos n)) rest
store_text (negsuc zero) k v rest = set_text_keep k v rest
store_text (negsuc (suc n)) k v rest = set_text k v (client_expiry (negsuc (suc n))) rest

abbrev pub members_of : List LeaderEntry → List (String × ℤ)
members_of = map (λ e. (e.player_id, e.damage))

unfoldable pub expiring : String → Option ℕ → Script (Unit {0})
expiring id none = reply tt
expiring id (some d) = expire (lb_key id) d (reply tt)

-- `if len(contribs) > 0`
unfoldable pub fill : String → Option ℕ → List LeaderEntry → Script (Unit {0})
fill id e [] = reply tt
fill id e (c ∷ cs) = zadd (lb_key id) (members_of (c ∷ cs)) (expiring id e)

-- The pipeline of Rehydrate, which runs as MULTI/EXEC.
unfoldable pub rehydrate_script : String → ℤ → RecoveryState → List LeaderEntry → Script (Unit {0})
unfolding store_int store_text board_expiry expiring fill
rehydrate_script id ttl rs contribs = store_int ttl (hp_key id) rs.current_hp (
    set (max_key id) rs.max_hp none (
      store_text ttl (state_key id) rs.state
        (del (lb_key id) (fill id (board_expiry ttl) contribs))))

module _ (S : Server) where
  open S use {Db}

  unfoldable pub apply_damage :
      ℤ → Delivery → ℕ → String → String → ℤ → Db → Result ApplyResult × Db
  unfolding damage_script parse_reply wrapped ttl_arg
  apply_damage ttl net now id player damage db =
      let (raw, db') =
        call S net
          (damage_script (hp_key id) (lb_key id) (state_key id) player damage (ttl_arg ttl)) now
          db in
      (wrapped "damage script" raw >>= parse_reply, db')

  unfoldable pub compensate_damage : ℤ → Delivery → ℕ → String → String → ℤ → Db → Result ℤ × Db
  unfolding compensate_script ttl_arg
  compensate_damage ttl net now id player applied db =
      call S net
        (compensate_script (hp_key id) (lb_key id) (state_key id) player applied (ttl_arg ttl)) now
        db

  unfoldable pub rehydrate :
      ℤ → Delivery → ℕ → String → RecoveryState → List LeaderEntry → Db → Result (Unit {0}) × Db
  unfolding rehydrate_script wrapped
  rehydrate ttl net now id rs contribs db =
      let (r, db') = call S net (rehydrate_script id ttl rs contribs) now db in
      (wrapped "rehydrate boss" r, db')
