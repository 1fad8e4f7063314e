-- ===== src/Api/Json.antt =====
-- decodeJSON, writeJSON and writeError of internal/api/handlers.go, on JSON values. The text of a value is an
-- argument where it matters: `parse` is the first value of a body, and `fold` tells names that differ in
-- case only, as encoding/json does for a name that is no field's.
pub mod Decode
pub mod Served
use enigma_behemoth.Prelude.{
  ℕ, ◌^◌, String, Option, none, some, List, [], ◌∷◌, Bool, true, false, ◌==◌, ltb, leb, lookup,
  if◌then◌else◌,
}
use enigma_behemoth.Prelude.Int.{ℤ, pos, negsuc}
use enigma_behemoth.Errors.{Err}
use enigma_behemoth.Redis.Server.{Server}
use enigma_behemoth.Boss.Service.{Config, DamageResult, World, Env}
use enigma_behemoth.Api.{
  DamageRequest, ClaimRequest, Response, Message, fixed, said, sent, failed, handle_damage,
}

-- An integer without fraction and exponent is `int`, any other number `real`.
mutual
  pub data Json : Type 0 where
    null : Json
    bool : Bool → Json
    int : ℤ → Json
    real str : String → Json
    arr : Items → Json
    obj : Members → Json

  pub data Items : Type 0 where
    no_items : Items
    item : Json → Items → Items

  pub data Members : Type 0 where
    no_members : Members
    member : String → Json → Members → Members

-- The field that a key means: that of its name, or the first whose name differs in case only.
first_folded : {F : Type 0} → (String → String → Bool) → List (String × F) → String → Option F
first_folded fold [] k = none
first_folded fold ((name, f) ∷ rest) k = if fold name k then some f else first_folded fold rest k

unfoldable pub field_of :
    {F : Type 0} → (String → String → Bool) → List (String × F) → String → Option F
unfolding first_folded
field_of fold fields k = elim (lookup k fields) [
  | some f ↦ some f
  | none ↦ first_folded fold fields k
]

-- What is stored in a field of a type; null leaves it.
unfoldable pub into_string : Json → String → Option String
into_string null old = some old
into_string (str s) old = some s
into_string _ old = none

unfoldable pub is_int64 : ℤ → Bool
is_int64 (pos n) = ltb n (2 ^ 63)
is_int64 (negsuc n) = ltb n (2 ^ 63)

unfoldable pub into_int64 : Json → ℤ → Option ℤ
into_int64 null old = some old
into_int64 (int n) old = if is_int64 n then some n else none
into_int64 _ old = none

pub data DamageField : Type 0 where
  player_id boss_id damage_amount : DamageField

abbrev pub damage_fields : List (String × DamageField)
damage_fields =
    ("player_id", player_id) ∷ ("boss_id", boss_id) ∷ ("damage_amount", damage_amount) ∷ []

unfoldable pub set_damage_field : DamageField → Json → DamageRequest → Option DamageRequest
set_damage_field player_id v r = elim (into_string v r.player_id) [
  | none ↦ none
  | some s ↦ some (record r { player_id = s })
]
set_damage_field boss_id v r = elim (into_string v r.boss_id) [
  | none ↦ none
  | some s ↦ some (record r { boss_id = s })
]
set_damage_field damage_amount v r = elim (into_int64 v r.damage_amount) [
  | none ↦ none
  | some n ↦ some (record r { damage_amount = n })
]

-- The members in order, into a struct; an unknown key is an error.
unfoldable pub decode_members :
    {F R : Type 0} → (String → Option F) → (F → Json → R → Option R) → Members → R → Option R
decode_members field set no_members r = some r
decode_members field set (member k v rest) r = elim (field k) [
  | none ↦ none
  | some f ↦ elim (set f v r) [ none ↦ none | some r' ↦ decode_members field set rest r' ]
]

-- A struct from an object, or left as it is by null.
unfoldable pub decode_struct :
    {F R : Type 0} → (String → Option F) → (F → Json → R → Option R) → R → Json → Option R
unfolding decode_members
decode_struct field set zero_value null = some zero_value
decode_struct field set zero_value (obj ms) = decode_members field set ms zero_value
decode_struct field set zero_value _ = none

abbrev pub no_damage : DamageRequest
no_damage = record { player_id = ""; boss_id = ""; damage_amount = pos 0 }

unfoldable pub decode_damage : (String → String → Bool) → Json → Option DamageRequest
decode_damage fold = decode_struct (field_of fold damage_fields) set_damage_field no_damage

pub data ClaimField : Type 0 where
  claim_player_id claim_boss_id : ClaimField

abbrev pub claim_fields : List (String × ClaimField)
claim_fields = ("player_id", claim_player_id) ∷ ("boss_id", claim_boss_id) ∷ []

unfoldable pub set_claim_field : ClaimField → Json → ClaimRequest → Option ClaimRequest
set_claim_field claim_player_id v r = elim (into_string v r.player_id) [
  | none ↦ none
  | some s ↦ some (record r { player_id = s })
]
set_claim_field claim_boss_id v r = elim (into_string v r.boss_id) [
  | none ↦ none
  | some s ↦ some (record r { boss_id = s })
]

unfoldable pub decode_claim : (String → String → Bool) → Json → Option ClaimRequest
decode_claim fold =
    decode_struct (field_of fold claim_fields) set_claim_field
      (record { player_id = ""; boss_id = "" })

-- The body of a request: what `parse` finds first in it, decoded. What follows it is not read.
abbrev pub body_of : {R : Type 0} → (String → Option Json) → (Json → Option R) → String → Option R
body_of parse decode text = elim (parse text) [ none ↦ none | some j ↦ decode j ]

-- A reply on the wire, with its JSON value.
pub record Reply : Type 0 where
  pub code : ℕ
  pub content_type : String
  pub value : Json

unfoldable pub write_json : ℕ → Json → Reply
write_json code v = record { code = code; content_type = "application/json"; value = v }

unfoldable pub write_error : ℕ → String → Reply
unfolding write_json
write_error code msg = write_json code (obj (member "error" (str msg) no_members))

-- Error() of an error value is an argument.
abbrev pub text_of : (Err → String) → Message → String
text_of error (fixed s) = s
text_of error (said e) = error e

unfoldable pub write_response : {A : Type 0} → (Err → String) → (A → Json) → Response A → Reply
unfolding write_json write_error
write_response error encode (sent code a) = write_json code (encode a)
write_response error encode (failed code m) = write_error code (text_of error m)

-- encoding/json on the struct DamageResult.
unfoldable pub encode_damage : DamageResult → Json
encode_damage d = obj (
    member "boss_id" (str d.boss_id) (
      member "player_id" (str d.player_id) (
        member "damage_applied" (int d.applied)
          (member "boss_hp" (int d.boss_hp) (member "defeated" (bool d.defeated) no_members)))))

-- POST /damage from the text of its body to its reply.
unfoldable pub serve_damage :
    (S : Server)
    → (String → Option Json)
    → (String → String → Bool)
    → (Err → String)
    → Config
    → Env S
    → String
    → World S
    → Reply × World S
serve_damage S parse fold error cfg env text w =
    let (r, w') = handle_damage S cfg env (body_of parse (decode_damage fold) text) w in
    (write_response error encode_damage r, w')
