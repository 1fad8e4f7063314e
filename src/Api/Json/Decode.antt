-- ===== src/Api/Json/Decode.antt =====
-- What decodeJSON makes of the body of POST /damage.
use enigma_behemoth.Prelude.{
  String, ◌≡◌, refl, sym, ap, ◌∙◌, Option, some, Bool, true, arith, inl, inr, Bool-cases,
  Option-cases,
}
use enigma_behemoth.Api.{DamageRequest, ClaimRequest}
use enigma_behemoth.Api.Json.{
  Json, null, bool, int, real, str, arr, obj, Members, no_members, member, DamageField, player_id,
  boss_id, damage_amount, damage_fields, field_of, into_string, into_int64, is_int64,
  set_damage_field, decode_members, decode_struct, decode_damage, no_damage, decode_claim,
  set_claim_field,
}

-- A request as a client writes it.
abbrev pub encode_request : DamageRequest → Json
encode_request r = obj (
    member "player_id" (str r.player_id)
      (member "boss_id" (str r.boss_id) (member "damage_amount" (int r.damage_amount) no_members)))

-- Whatever names the library takes for the same, an encoded request is decoded as it was.
pub decode_damage-encode_request :
    (fold : String → String → Bool) (r : DamageRequest)
    → is_int64 r.damage_amount ≡ true
    → decode_damage fold (encode_request r) ≡ some r
unfolding decode_damage decode_struct decode_members field_of set_damage_field into_string
    into_int64
decode_damage-encode_request fold r small = ground (arith, small)

abbrev encode_claim_request : ClaimRequest → Json
encode_claim_request r =
    obj (member "player_id" (str r.player_id) (member "boss_id" (str r.boss_id) no_members))

decode_claim-encode_claim_request :
    (fold : String → String → Bool) (r : ClaimRequest)
    → decode_claim fold (encode_claim_request r) ≡ some r
unfolding decode_claim decode_struct decode_members field_of set_claim_field into_string
decode_claim-encode_claim_request fold r = refl

-- Every key of an object that is decoded is the name of a field.
abbrev pub AllKnown : {F : Type 0} → (String → Option F) → Members → Type 0
AllKnown field no_members = Unit
AllKnown {F} field (member k v rest) = ((f : F) × (field k ≡ some f)) × AllKnown field rest

abbrev pub IsRequest : (String → String → Bool) → Json → Type 0
IsRequest fold (obj ms) = AllKnown (field_of fold damage_fields) ms
IsRequest fold null = Unit
IsRequest fold _ = ⊥

request_inj : {a b : DamageRequest} → some a ≡ some b → a ≡ b
request_inj h = cc

same_amount :
    (r r' : DamageRequest)
    → is_int64 r.damage_amount ≡ true
    → some r ≡ some r'
    → is_int64 r'.damage_amount ≡ true
same_amount r r' small h =
    ap (λ (x : DamageRequest). is_int64 x.damage_amount) (sym (request_inj h)) ∙ small

set_damage_field-small :
    (f : DamageField) (v : Json) (r r' : DamageRequest)
    → is_int64 r.damage_amount ≡ true
    → set_damage_field f v r ≡ some r'
    → is_int64 r'.damage_amount ≡ true
unfolding set_damage_field into_int64
set_damage_field-small player_id v r r' small h = elim (Option-cases (into_string v r.player_id)) [
  | inl e ↦ ground (arith, e)
  | inr (s, e) ↦ same_amount (record r { player_id = s }) r' small (sym (ground (arith, e)) ∙ h)
]
set_damage_field-small boss_id v r r' small h = elim (Option-cases (into_string v r.boss_id)) [
  | inl e ↦ ground (arith, e)
  | inr (s, e) ↦ same_amount (record r { boss_id = s }) r' small (sym (ground (arith, e)) ∙ h)
]
set_damage_field-small damage_amount null r r' small h = same_amount r r' small h
set_damage_field-small damage_amount (int n) r r' small h = elim (Bool-cases (is_int64 n)) [
  | inl e ↦ same_amount (record r { damage_amount = n }) r' e (sym (ground (arith, e)) ∙ h)
  | inr e ↦ ground (arith, e)
]
set_damage_field-small damage_amount (bool b) r r' small h = ground arith
set_damage_field-small damage_amount (real x) r r' small h = ground arith
set_damage_field-small damage_amount (str x) r r' small h = ground arith
set_damage_field-small damage_amount (arr x) r r' small h = ground arith
set_damage_field-small damage_amount (obj x) r r' small h = ground arith

module _ (field : String → Option DamageField) where
  decode_members-lem :
      (ms : Members) (r r' : DamageRequest)
      → is_int64 r.damage_amount ≡ true
      → decode_members field set_damage_field ms r ≡ some r'
      → (is_int64 r'.damage_amount ≡ true) × AllKnown field ms
  unfolding decode_members
  decode_members-lem no_members r r' small h = (same_amount r r' small h, tt)
  decode_members-lem (member k v rest) r r' small h = elim (Option-cases (field k)) [
    | inl e ↦ ground (arith, e)
    | inr (f, e) ↦ elim (Option-cases (set_damage_field f v r)) [
      | inl g ↦ ground (arith, e, g)
      | inr (r1, g) ↦
          let on : decode_members field set_damage_field (member k v rest) r
              ≡ decode_members field set_damage_field rest r1 =
            ground (arith, e, g) in
          let (fine, known) =
            decode_members-lem rest r1 r' (set_damage_field-small f v r r1 small g) (sym on ∙ h) in
          (fine, ((f, e), known))
    ]
  ]

-- A body that is decoded is null or an object with no unknown key, and its amount is in the range of int64.
pub decode_damage-IsRequest :
    (fold : String → String → Bool) (j : Json) (r : DamageRequest)
    → decode_damage fold j ≡ some r
    → (is_int64 r.damage_amount ≡ true) × IsRequest fold j
unfolding decode_damage decode_struct is_int64
decode_damage-IsRequest fold null r h = (same_amount no_damage r refl h, tt)
decode_damage-IsRequest fold (obj ms) r h =
    decode_members-lem (field_of fold damage_fields) ms no_damage r refl h
decode_damage-IsRequest fold (bool b) r h = ground arith
decode_damage-IsRequest fold (int n) r h = ground arith
decode_damage-IsRequest fold (real x) r h = ground arith
decode_damage-IsRequest fold (str x) r h = ground arith
decode_damage-IsRequest fold (arr x) r h = ground arith
