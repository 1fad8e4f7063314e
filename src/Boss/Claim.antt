-- ===== src/Boss/Claim.antt =====
-- internal/boss/service.go, Claim.
pub mod Granted
use enigma_behemoth.Prelude.{ℕ, String, Option, none, some, Bool, true, false, ◌==◌, if◌then◌else◌}
use enigma_behemoth.Errors.{
  Result, ok, err, sentinel, boss_not_found, boss_not_defeated, no_contribution,
}
use enigma_behemoth.Postgres.Tables.{Tables}
use enigma_behemoth.Postgres.Claims.{
  ClaimBasis, ClaimInput, ClaimResult, Codec, ClaimLink, Fault, claim_basis, save_claim,
}
use enigma_behemoth.Boss.Reward.{FloatOps, tier_for, reward_for, pct_of}

-- What the two queries meet and see, and what SaveClaim's transaction meets.
pub record ClaimEnv : Type 0 where
  pub boss_fault : Fault
  pub boss_tables : Tables
  pub contribution_fault : Fault
  pub contribution_tables : Tables
  pub link : ClaimLink
  pub at : ℕ

module _ (F : FloatOps) (c : Codec) where
  -- The input of SaveClaim for a basis.
  unfoldable pub priced : String → String → ClaimBasis → ClaimInput
  priced boss player basis =
      let pct = pct_of F basis.total_damage basis.max_hp in
      let tier = tier_for F pct in
      record {
        boss_id = boss;
        player_id = player;
        tier = tier;
        pct = pct;
        payload = c.marshal (reward_for tier);
      }

  unfoldable pub claim : ClaimEnv → String → String → Tables → Result ClaimResult × Tables
  claim env boss player t =
      elim (claim_basis env.boss_fault env.contribution_fault env.boss_tables
        env.contribution_tables boss player) [
          | err e ↦ (err e, t)
          | ok basis ↦
              if basis.exists
              then (if basis.state == "defeated"
                  then (if basis.has_contribution
                      then save_claim c env.link env.at (priced boss player basis) t
                      else (err (sentinel no_contribution), t))
                  else (err (sentinel boss_not_defeated), t))
              else (err (sentinel boss_not_found), t)
        ]
