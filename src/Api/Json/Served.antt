-- ===== src/Api/Json/Served.antt =====
-- POST /damage from the text of its body to its reply.
use enigma_behemoth.Prelude.{
  ℕ, String, ◌≡◌, Option, none, some, List, [], ◌∷◌, Bool, true, ◌||◌, ◌==◌, if◌then◌else◌,
}
use enigma_behemoth.Errors.{
  Sentinel, Err, err, is, invalid_damage, boss_not_found, boss_already_defeated, boss_not_defeated,
  no_contribution, overloaded,
}
use enigma_behemoth.Redis.Server.{Server}
use enigma_behemoth.Boss.Service.{Config, DamageResult, World, Env, damage}
use enigma_behemoth.Boss.Damage.Answer.{IsDurable}
use enigma_behemoth.Api.{DamageRequest}
use enigma_behemoth.Api.Json.{
  Json, Reply, body_of, decode_damage, encode_damage, is_int64, write_json, write_error,
  serve_damage,
}
use enigma_behemoth.Api.Json.Decode.{IsRequest}

-- The errors of the domain with their statuses, the first that fits first.
abbrev pub statuses : List (Sentinel × ℕ)
statuses =
    (invalid_damage, 400)
    ∷ (boss_not_found, 404)
    ∷ (boss_already_defeated, 409)
    ∷ (boss_not_defeated, 409)
    ∷ (no_contribution, 403)
    ∷ (overloaded, 503)
    ∷ []

-- The reply to an error: the status of the first error of the domain that it is, with its text, or a 500
-- with a fixed text.
abbrev pub refusal : List (Sentinel × ℕ) → (Err → String) → Err → Reply
refusal [] error e = write_error 500 "internal error"
refusal ((s, code) ∷ rest) error e =
    let others = refusal rest error e in if is e s then write_error code (error e) else others

abbrev pub IsRefusal : (Err → String) → Err → Reply → Type 0
IsRefusal error e r = r ≡ refusal statuses error e

-- The reply, and the world after it.
pub data IsServed (S : Server) (parse : String → Option Json) (fold : String → String → Bool)
    (error : Err → String) (cfg : Config) (env : Env S) (text : String) (w : World S)
    : Reply × World S → Type 0 where
  durable :
      (p : Reply × World S) (j : Json) (req : DamageRequest) (d : DamageResult)
      → parse text ≡ some j
      → IsRequest fold j
      → body_of parse (decode_damage fold) text ≡ some req
      → is_int64 req.damage_amount ≡ true
      → p.0 ≡ write_json 200 (encode_damage d)
      → IsDurable cfg env req.boss_id req.player_id req.damage_amount w d p.1
      → IsServed S parse fold error cfg env text w p
  malformed :
      (p : Reply × World S)
      → body_of parse (decode_damage fold) text ≡ none
      → p ≡ (write_error 400 "invalid JSON body", w)
      → IsServed S parse fold error cfg env text w p
  incomplete :
      (p : Reply × World S) (req : DamageRequest)
      → body_of parse (decode_damage fold) text ≡ some req
      → (req.player_id == "") || (req.boss_id == "") ≡ true
      → p ≡ (write_error 400 "player_id and boss_id are required", w)
      → IsServed S parse fold error cfg env text w p
  refused :
      (p : Reply × World S) (req : DamageRequest) (e : Err)
      → body_of parse (decode_damage fold) text ≡ some req
      → damage S cfg env req.boss_id req.player_id req.damage_amount w ≡ (err e, p.1)
      → IsRefusal error e p.0
      → IsServed S parse fold error cfg env text w p

module _ (S : Server) (parse : String → Option Json) (fold : String → String → Bool)
    (error : Err → String) (cfg : Config) (env : Env S) (text : String) (w : World S) where
  abbrev served : Reply × World S
  served = serve_damage S parse fold error cfg env text w

  abbrev IsOk : Reply × World S → Type 0
  IsOk = IsServed S parse fold error cfg env text w
