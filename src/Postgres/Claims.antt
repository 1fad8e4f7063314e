-- ===== src/Postgres/Claims.antt =====
-- ClaimBasis and SaveClaim of internal/store/postgres.go, and decodePayload of internal/store/writer.go.
pub mod Once
use enigma_behemoth.Prelude.{
  ℕ, String, Option, none, some, List, [], ◌∷◌, ◌++◌, Bool, true, false, not, ◌==◌, if◌then◌else◌,
  ◌≡◌,
}
use enigma_behemoth.Errors.{Err, Result, ok, err, opaque, wrap}
use enigma_behemoth.Boss.Reward.{Reward, reward_for}
use enigma_behemoth.Postgres.Tables.{ClaimRow, Tables, find_boss, find_total, find_claim, is_some}

pub record ClaimBasis : Type 0 where
  pub exists : Bool
  pub state : String
  pub max_hp : ℕ
  pub has_contribution : Bool
  pub total_damage : ℕ

abbrev pub no_basis : ClaimBasis
no_basis = record {
  exists = false;
  state = "";
  max_hp = 0;
  has_contribution = false;
  total_damage = 0;
}

-- A query that fails with an error, or is answered.
abbrev pub Fault : Type 0
Fault = Option Err

abbrev pub answer {ℓ} : {A : Type ℓ} → Fault → Result A → Result A
answer none r = r
answer (some e) r = err e

unfoldable pub contribution_basis : ClaimBasis → Option ℕ → ClaimBasis
contribution_basis cb none = cb
contribution_basis cb (some d) = record cb { has_contribution = true; total_damage = d }

-- The two queries run outside a transaction, so they may see different tables.
unfoldable pub claim_basis : Fault → Fault → Tables → Tables → String → String → Result ClaimBasis
unfolding contribution_basis
claim_basis f g t u boss player = answer f (elim (find_boss boss t.bosses) [
  | none ↦ ok no_basis
  | some b ↦ answer g (
      ok (
        contribution_basis (record no_basis { exists = true; state = b.state; max_hp = b.max_hp })
          (find_total boss player u.contributions)))
])

pub record ClaimInput : Type 0 where
  pub boss_id : String
  pub player_id : String
  pub tier : String
  pub pct : ℕ
  pub payload : String

pub record ClaimResult : Type 0 where
  pub boss_id : String
  pub player_id : String
  pub tier : String
  pub pct : ℕ
  pub payload : Option Reward
  pub claimed_at : ℕ
  pub already_claimed : Bool

-- encoding/json on the payload of a reward, and the text that a JSONB column gives back for it. The laws
-- are about the rewards that the program grants.
pub record Codec : Type 0 where
  pub marshal : Reward → String
  pub jsonb : String → String
  pub unmarshal : String → Option Reward
  pub round_trip :
      (tier : String) → unmarshal (jsonb (marshal (reward_for tier))) ≡ some (reward_for tier)
  pub not_empty : (tier : String) → (jsonb (marshal (reward_for tier)) == "") ≡ false

unfoldable pub decode_payload : Codec → String → Option Reward
decode_payload c b = if b == "" then none else c.unmarshal b

-- Where SaveClaim's transaction fails; `claim_ack_lost` is a COMMIT whose answer is lost.
pub data ClaimLink : Type 0 where
  claim_sound : ClaimLink
  claim_begin claim_insert claim_read claim_commit claim_ack_lost : Err → ClaimLink

unfoldable pub claim_row : Codec → ℕ → ClaimInput → ClaimRow
claim_row c now i = record {
  boss_id = i.boss_id;
  player_id = i.player_id;
  tier = i.tier;
  damage_pct = i.pct;
  reward_payload = c.jsonb i.payload;
  claimed_at = now;
}

unfoldable pub claim_result : Codec → ClaimInput → Bool → ClaimRow → ClaimResult
claim_result c i claimed r = record {
  boss_id = i.boss_id;
  player_id = i.player_id;
  tier = r.tier;
  pct = r.damage_pct;
  payload = decode_payload c r.reward_payload;
  claimed_at = r.claimed_at;
  already_claimed = not claimed;
}

-- COMMIT: the row that the answer is built from, and the tables that the commit leaves.
unfoldable pub finish_claim :
    Codec → ClaimLink → ClaimInput → Bool → ClaimRow → Tables → Tables → Result ClaimResult × Tables
finish_claim c (claim_commit e) i claimed r t t' = (err (wrap "commit claim" e), t)
finish_claim c (claim_ack_lost e) i claimed r t t' = (err (wrap "commit claim" e), t')
finish_claim c _ i claimed r t t' = (ok (claim_result c i claimed r), t')

-- The duplicate is read back.
unfoldable pub replay_claim :
    Codec → ClaimLink → ClaimInput → ClaimRow → Tables → Result ClaimResult × Tables
replay_claim c (claim_read e) i r t = (err (wrap "read existing claim" e), t)
replay_claim c link i r t = finish_claim c link i false r t t

-- INSERT … ON CONFLICT DO NOTHING RETURNING …; the boss is a foreign key.
unfoldable pub insert_claim :
    Codec → ClaimLink → ℕ → ClaimInput → Tables → Result ClaimResult × Tables
insert_claim c link now i t = elim (find_claim i.boss_id i.player_id t.reward_claims) [
  | some r ↦ replay_claim c link i r t
  | none ↦
      let row = claim_row c now i in
      if is_some (find_boss i.boss_id t.bosses)
      then finish_claim c link i true row t
          (record t { reward_claims = t.reward_claims ++ row ∷ [] })
      else (err (wrap "insert claim" (opaque "foreign key")), t)
]

unfoldable pub save_claim :
    Codec → ClaimLink → ℕ → ClaimInput → Tables → Result ClaimResult × Tables
unfolding insert_claim replay_claim finish_claim claim_result claim_row
save_claim c (claim_begin e) now i t = (err e, t)
save_claim c (claim_insert e) now i t = (err (wrap "insert claim" e), t)
save_claim c link now i t = insert_claim c link now i t
