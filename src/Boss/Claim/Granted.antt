-- ===== src/Boss/Claim/Granted.antt =====
-- Claim grants exactly the reward of the durable contribution to a defeated boss.
use enigma_behemoth.Prelude.{
  ℕ, String, ◌≡◌, refl, ◌∙◌, none, some, [], true, false, ◌==◌, arith, eq_iff, inl, inr, Bool-cases,
  Option-cases,
}
use enigma_behemoth.Errors.{ok}
use enigma_behemoth.Postgres.Tables.{Boss, Tables, find_boss, find_total, find_claim, is_some}
use enigma_behemoth.Postgres.Claims.{
  ClaimBasis, ClaimResult, Codec, claim_sound, claim_basis, save_claim, decode_payload,
  contribution_basis,
}
use enigma_behemoth.Postgres.Claims.Once.{save_claim_once}
use enigma_behemoth.Boss.Reward.{FloatOps, tier_for, reward_for, pct_of}
use enigma_behemoth.Boss.Claim.{ClaimEnv, priced, claim}

module _ (F : FloatOps) (c : Codec) (env : ClaimEnv) (boss player : String) (t : Tables) where
  -- The durable rows that allow the claim: the boss, defeated, and the player's total.
  pub record IsAllowed (b : Boss) (total : ℕ) : Type 0 where
    pub boss_row : find_boss boss env.boss_tables.bosses ≡ some b
    pub defeated : b.state ≡ "defeated"
    pub total_row : find_total boss player env.contribution_tables.contributions ≡ some total

  abbrev basis_of : Boss → ℕ → ClaimBasis
  basis_of b total = record {
    exists = true;
    state = b.state;
    max_hp = b.max_hp;
    has_contribution = true;
    total_damage = total;
  }

  -- A claim that is answered without an error was allowed by the durable rows, and is the answer and
  -- the effect of SaveClaim for the reward that they price.
  pub claim-IsAllowed :
      (r : ClaimResult)
      → (claim F c env boss player t).0 ≡ ok r
      → (b : Boss) × (total : ℕ) × IsAllowed b total
        × (claim F c env boss player t
            ≡ save_claim c env.link env.at (priced F c boss player (basis_of b total)) t)
  unfolding claim claim_basis contribution_basis
  claim-IsAllowed r h = elim (Option-cases env.boss_fault) [
    | inr (e, x) ↦ ground (arith, x)
    | inl x ↦ elim (Option-cases (find_boss boss env.boss_tables.bosses)) [
      | inl y ↦ ground (arith, x, y)
      | inr (b, y) ↦ elim (Option-cases env.contribution_fault) [
        | inr (e, z) ↦ ground (arith, x, y, z)
        | inl z ↦ elim (Bool-cases (b.state == "defeated")) [
          | inr u ↦ ground (arith, x, y, z, u)
          | inl u ↦
              elim (Option-cases (find_total boss player env.contribution_tables.contributions)) [
                | inl v ↦ ground (arith, x, y, z, u, v)
                | inr (total, v) ↦ (
                  b,
                  total,
                  record {
                    boss_row = y;
                    defeated = (eq_iff b.state "defeated").0 u;
                    total_row = v;
                  },
                  ground (arith, x, y, z, u, v),
                )
              ]
        ]
      ]
    ]
  ]

  claim-saved :
      (b : Boss) (total : ℕ)
      → IsAllowed b total
      → env.boss_fault ≡ none
      → env.contribution_fault ≡ none
      → claim F c env boss player t
        ≡ save_claim c env.link env.at (priced F c boss player (basis_of b total)) t
  unfolding claim claim_basis contribution_basis
  claim-saved b total row f g = ground (
    arith,
    row.boss_row,
    row.defeated,
    row.total_row,
    f,
    g,
    (eq_iff b.state "defeated").1 row.defeated,
  )

  payload-decoded :
      (tier : String)
      → decode_payload c (c.jsonb (c.marshal (reward_for tier))) ≡ some (reward_for tier)
  unfolding decode_payload
  payload-decoded tier = rw (c.not_empty tier) (c.round_trip tier)

  -- A claim that the durable rows allow, the first of its player and with every query answered, is
  -- answered with the reward that the rows price.
  pub claim_succeeds :
      (b : Boss) (total : ℕ)
      → IsAllowed b total
      → env.boss_fault ≡ none
      → env.contribution_fault ≡ none
      → env.link ≡ claim_sound
      → find_claim boss player t.reward_claims ≡ none
      → is_some (find_boss boss t.bosses) ≡ true
      → let pct = pct_of F total b.max_hp in
        let tier = tier_for F pct in
        (claim F c env boss player t).0
        ≡ ok (record {
          boss_id = boss;
          player_id = player;
          tier = tier;
          pct = pct;
          payload = some (reward_for tier);
          claimed_at = env.at;
          already_claimed = false;
        })
  unfolding priced
  claim_succeeds b total row f g l fresh known =
      let i = priced F c boss player (basis_of b total) in
      let once = save_claim_once c env.at env.at i i t [] fresh known refl refl in
      rw (claim-saved b total row f g, l)
        (once.0 ∙ rw (payload-decoded (tier_for F (pct_of F total b.max_hp))) refl)
