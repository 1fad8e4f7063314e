-- ===== src/Api.antt =====
-- internal/api/handlers.go: the handlers of the routes and the mapping of errors to HTTP statuses. A
-- request body is what decodeJSON makes of it, `none` where it fails; decodeJSON is in the child Json.
pub mod Status
pub mod Metrics
pub mod Json
use enigma_behemoth.Prelude.{
  ℕ, String, Option, none, some, Bool, true, false, ◌||◌, ◌==◌, if◌then◌else◌,
}
use enigma_behemoth.Prelude.Int.{ℤ}
use enigma_behemoth.Errors.{
  Err, Result, ok, err, is, invalid_damage, boss_not_found, boss_already_defeated,
  boss_not_defeated, no_contribution, overloaded,
}
use enigma_behemoth.Store.{BossView}
use enigma_behemoth.Redis.Server.{Server}
use enigma_behemoth.Postgres.Tables.{Tables}
use enigma_behemoth.Postgres.Claims.{ClaimResult, Codec}
use enigma_behemoth.Boss.Reward.{FloatOps}
use enigma_behemoth.Boss.Service.{Config, DamageResult, World, Env, damage}
use enigma_behemoth.Boss.Claim.{ClaimEnv, claim}
use enigma_behemoth.Boss.View.{GetEnv, get_boss}

pub record DamageRequest : Type 0 where
  pub player_id : String
  pub boss_id : String
  pub damage_amount : ℤ

pub record ClaimRequest : Type 0 where
  pub player_id : String
  pub boss_id : String

-- The text of an error response: a fixed one, or that of the error.
pub data Message : Type 0 where
  fixed : String → Message
  said : Err → Message

pub data Response (A : Type 0) : Type 0 where
  sent : ℕ → A → Response A
  failed : ℕ → Message → Response A

unfoldable pub write_domain_error : {A : Type 0} → Err → Response A
write_domain_error e =
    if is e invalid_damage
    then failed 400 (said e)
    else if is e boss_not_found
    then failed 404 (said e)
    else if is e boss_already_defeated || is e boss_not_defeated
    then failed 409 (said e)
    else if is e no_contribution
    then failed 403 (said e)
    else if is e overloaded
    then failed 503 (said e)
    else failed 500 (fixed "internal error")

unfoldable pub respond : {A : Type 0} → Result A → Response A
respond (ok a) = sent 200 a
respond (err e) = write_domain_error e

abbrev pub missing_ids : Message
missing_ids = fixed "player_id and boss_id are required"

unfoldable pub handle_damage :
    (S : Server) → Config → Env S → Option DamageRequest → World S → Response DamageResult × World S
handle_damage S cfg env none w = (failed 400 (fixed "invalid JSON body"), w)
handle_damage S cfg env (some req) w =
    let (r, w') = damage S cfg env req.boss_id req.player_id req.damage_amount w in
    if (req.player_id == "") || (req.boss_id == "")
    then (failed 400 missing_ids, w)
    else (respond r, w')

unfoldable pub handle_get_boss :
    (S : Server) → ℤ → GetEnv S → String → S.Db → Response BossView × S.Db
handle_get_boss S ttl env id db =
    let (r, db') = get_boss S ttl env id db in
    if id == "" then (failed 400 (fixed "boss id is required"), db) else (respond r, db')

unfoldable pub handle_claim :
    FloatOps → Codec → ClaimEnv → Option ClaimRequest → Tables → Response ClaimResult × Tables
handle_claim F c env none t = (failed 400 (fixed "invalid JSON body"), t)
handle_claim F c env (some req) t =
    let (r, t') = claim F c env req.boss_id req.player_id t in
    if (req.player_id == "") || (req.boss_id == "")
    then (failed 400 missing_ids, t)
    else (respond r, t')

unfoldable pub handle_readyz : Bool → Response String
handle_readyz true = sent 200 "ready"
handle_readyz false = failed 503 (fixed "rehydrating cache")
