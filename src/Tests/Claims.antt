-- ===== src/Tests/Claims.antt =====
-- Claims of a reward, and what they are priced at.
use enigma_behemoth.Prelude.{
  ℕ, ◌≡◌, refl, String, none, some, List, [], ◌∷◌, true, false, ◌==◌, eqb, Bool-cases, inl, inr,
  if◌then◌else◌,
}
use enigma_behemoth.Errors.{ok, opaque}
use enigma_behemoth.Postgres.Tables.{Boss, Tables, find_boss, find_total, find_claim}
use enigma_behemoth.Postgres.Claims.{
  Codec, ClaimInput, ClaimResult, ClaimLink, claim_sound, claim_ack_lost, claim_begin, save_claim,
  decode_payload,
}
use enigma_behemoth.Postgres.Claims.Once.{later_claims, save_claim_once}
use enigma_behemoth.Boss.Reward.{
  Reward, millionths, scaled, tier_for, reward_for, pct_of, tier_legendary, tier_epic, tier_rare,
  tier_uncommon, tier_common,
}
use enigma_behemoth.Boss.Claim.{ClaimEnv, claim, priced}
use enigma_behemoth.Boss.Claim.Granted.{IsAllowed, claim-IsAllowed, claim_succeeds}
use enigma_behemoth.Tests.Data.{boss, tables}

-- A codec that writes a reward as its tier.
tier_of : ℕ → String
tier_of gold =
    if eqb gold 10000
    then "legendary"
    else if eqb gold 5000
    then "epic"
    else if eqb gold 2000
    then "rare"
    else if eqb gold 500
    then "uncommon"
    else "common"

-- What holds of the five rewards holds of all that are granted.
granted_all :
    (P : Reward → Type 0)
    → P (reward_for tier_legendary)
    → P (reward_for tier_epic)
    → P (reward_for tier_rare)
    → P (reward_for tier_uncommon)
    → P (reward_for tier_common)
    → (tier : String) → P (reward_for tier)
unfolding reward_for
granted_all P l e r u c tier = elim (Bool-cases (tier == tier_legendary)) [
  | inl x ↦ rw x l
  | inr x ↦ elim (Bool-cases (tier == tier_epic)) [
    | inl y ↦ rw (x, y) e
    | inr y ↦ elim (Bool-cases (tier == tier_rare)) [
      | inl z ↦ rw (x, y, z) r
      | inr z ↦ elim (Bool-cases (tier == tier_uncommon)) [
        | inl w ↦ rw (x, y, z, w) u
        | inr w ↦ rw (x, y, z, w) c
      ]
    ]
  ]
]

tier_round_trip :
    (tier : String) → some (reward_for (tier_of (reward_for tier).gold)) ≡ some (reward_for tier)
unfolding reward_for tier_of
tier_round_trip =
    granted_all (λ r. some (reward_for (tier_of (Reward.gold r))) ≡ some r) refl refl refl refl refl

tier_not_empty : (tier : String) → (tier_of (reward_for tier).gold == "") ≡ false
unfolding reward_for tier_of
tier_not_empty = granted_all (λ r. (tier_of (Reward.gold r) == "") ≡ false) refl refl refl refl refl

abbrev tier_codec : Codec
tier_codec = record {
  marshal = λ r. tier_of r.gold;
  jsonb = λ s. s;
  unmarshal = λ s. some (reward_for s);
  round_trip = tier_round_trip;
  not_empty = tier_not_empty;
}

-- The boss defeated, "ann" with 70 of 100.
abbrev fallen : Tables
fallen = record tables { bosses = record boss { current_hp = 0; state = "defeated" } ∷ [] }

abbrev claiming : ClaimEnv
claiming = record {
  boss_fault = none;
  boss_tables = fallen;
  contribution_fault = none;
  contribution_tables = fallen;
  link = claim_sound;
  at = 11;
}

abbrev first_input : ClaimInput
first_input = record { boss_id = "b"; player_id = "ann"; tier = "epic"; pct = 3; payload = "epic" }

abbrev second_input : ClaimInput
second_input = record first_input { tier = "rare"; payload = "rare" }

-- A claim with a lost COMMIT and one that fails come in between.
abbrev between : List (ClaimLink × ℕ × ClaimInput)
between =
    (claim_ack_lost (opaque "eof"), 12, record first_input { player_id = "bob" })
    ∷ (claim_begin (opaque "timeout"), 13, second_input)
    ∷ []

save_claim_once_example :
    let first = save_claim tier_codec claim_sound 11 first_input fallen in
    let t' = later_claims tier_codec between first.1 in
    let g : ClaimResult = record {
      boss_id = "b";
      player_id = "ann";
      tier = "epic";
      pct = 3;
      payload = decode_payload tier_codec "epic";
      claimed_at = 11;
      already_claimed = false;
    } in
    (first.0 ≡ ok g)
    × (save_claim tier_codec claim_sound 20 second_input t'
        ≡ (ok (record g { already_claimed = true }), t'))
unfolding find_claim find_boss
save_claim_once_example =
    save_claim_once tier_codec 11 20 first_input second_input fallen between refl refl refl refl

allowed :
    IsAllowed millionths tier_codec claiming "b" "ann" fallen
      (record boss { current_hp = 0; state = "defeated" })
      70
unfolding find_boss find_total
allowed = record { boss_row = refl; defeated = refl; total_row = refl }

abbrev ann_pct : ℕ
ann_pct = pct_of millionths 70 100

claim-IsAllowed_example :
    (b : Boss) × (total : ℕ) × IsAllowed millionths tier_codec claiming "b" "ann" fallen b total
    × (claim millionths tier_codec claiming "b" "ann" fallen
        ≡ save_claim tier_codec claim_sound 11
            (priced millionths tier_codec "b" "ann" (record {
              exists = true;
              state = b.state;
              max_hp = b.max_hp;
              has_contribution = true;
              total_damage = total;
            }))
            fallen)
unfolding find_boss find_claim
claim-IsAllowed_example =
    claim-IsAllowed millionths tier_codec claiming "b" "ann" fallen
      (record {
        boss_id = "b";
        player_id = "ann";
        tier = tier_for millionths ann_pct;
        pct = ann_pct;
        payload = some (reward_for (tier_for millionths ann_pct));
        claimed_at = 11;
        already_claimed = false;
      })
      (claim_succeeds millionths tier_codec claiming "b" "ann" fallen
        (record boss { current_hp = 0; state = "defeated" }) 70 allowed refl refl refl refl refl)

ann_tier : tier_for millionths ann_pct ≡ "legendary"
unfolding tier_for pct_of scaled
ann_tier = refl
