-- ===== src/Tests/Bodies.antt =====
-- Runs of POST /damage from the text of its body.
use enigma_behemoth.Prelude.{String, ◌≡◌, refl, Option, none, some, Bool, ◌==◌, ◌&&◌, if◌then◌else◌}
use enigma_behemoth.Prelude.Int.{pos}
use enigma_behemoth.Errors.{Err}
use enigma_behemoth.Redis.Server.{plain}
use enigma_behemoth.Boss.Service.{Env}
use enigma_behemoth.Api.{DamageRequest, handle_damage}
use enigma_behemoth.Api.Json.{
  Json, obj, member, no_members, str, int, null, real, field_of, decode_damage, decode_struct,
  decode_members, set_damage_field, into_string, into_int64, is_int64, write_error, write_response,
  serve_damage,
}
use enigma_behemoth.Api.Json.Decode.{encode_request}
use enigma_behemoth.Tests.Data.{config, world, quiet}
use enigma_behemoth.Writer

abbrev acknowledged : Env plain
acknowledged = quiet (Writer.answered none)

abbrev posted : DamageRequest
posted = record { player_id = "bob"; boss_id = "b"; damage_amount = pos 40 }

-- One text is the request, and any other no JSON.
abbrev parse : String → Option Json
parse text = if text == "a hit" then some (encode_request posted) else none

-- "HP" is taken for no field, and "Boss_ID" for one.
abbrev fold : String → String → Bool
fold name k = (name == "boss_id") && (k == "Boss_ID")

abbrev message : Err → String
message e = "error"

malformed :
    serve_damage plain parse fold message (config 4) acknowledged "{" world
    ≡ (write_error 400 "invalid JSON body", world)
unfolding serve_damage write_error write_response handle_damage
malformed = refl

folded :
    decode_damage fold (obj (member "Boss_ID" (str "b") no_members))
    ≡ some (record { player_id = ""; boss_id = "b"; damage_amount = pos 0 })
unfolding decode_damage decode_struct decode_members field_of set_damage_field into_string
    into_int64 is_int64
folded = refl

unknown : decode_damage fold (obj (member "HP" null no_members)) ≡ none
unfolding decode_damage decode_struct decode_members field_of set_damage_field into_string
    into_int64 is_int64
unknown = refl

-- A fraction is refused, and of two members with one key the last counts.
fraction : decode_damage fold (obj (member "damage_amount" (real "1.5") no_members)) ≡ none
unfolding decode_damage decode_struct decode_members field_of set_damage_field into_string
    into_int64 is_int64
fraction = refl

repeated :
    decode_damage fold
      (obj (member "damage_amount" (int (pos 1)) (member "damage_amount" (int (pos 2)) no_members)))
    ≡ some (record { player_id = ""; boss_id = ""; damage_amount = pos 2 })
unfolding decode_damage decode_struct decode_members field_of set_damage_field into_string
    into_int64 is_int64
repeated = refl

too_large :
    decode_damage fold (obj (member "damage_amount" (int (pos 9223372036854775808)) no_members))
    ≡ none
unfolding decode_damage decode_struct decode_members field_of set_damage_field into_string
    into_int64 is_int64
too_large = refl

null_body :
    decode_damage fold null ≡ some (record { player_id = ""; boss_id = ""; damage_amount = pos 0 })
unfolding decode_damage decode_struct decode_members field_of set_damage_field into_string
    into_int64 is_int64
null_body = refl
