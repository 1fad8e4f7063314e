-- ===== src/Api/Status.antt =====
-- What an HTTP status tells the client of POST /damage and POST /claim.
use enigma_behemoth.Prelude.{ℕ, ◌≡◌, refl, sym, ◌∙◌, some, ◌||◌, ◌==◌, arith, inl, inr, Bool-cases}
use enigma_behemoth.Errors.{Result, ok, err}
use enigma_behemoth.Redis.Server.{Server}
use enigma_behemoth.Boss.Service.{Config, DamageResult, World, Env, damage}
use enigma_behemoth.Boss.Damage.Answer.{IsDurable, damage-IsDurable}
use enigma_behemoth.Api.{DamageRequest, sent, write_domain_error, respond, handle_damage}

-- Only a success of the domain is sent, with the status 200.
pub respond_sent :
    (r : Result DamageResult) (code : ℕ) (a : DamageResult)
    → respond r ≡ sent code a
    → (code ≡ 200) × (r ≡ ok a)
unfolding respond write_domain_error
respond_sent (ok x) code a h = (ground arith, cc)
respond_sent (err e) code a h = ground arith

-- A damage response with a body has the status 200, for a request with both ids, and its hit is landed
-- and durable.
pub handle_damage-IsDurable :
    (S : Server) (cfg : Config) (env : Env S) (req : DamageRequest) (w : World S) (code : ℕ)
    (d : DamageResult)
    → (handle_damage S cfg env (some req) w).0 ≡ sent code d
    → (code ≡ 200)
      × IsDurable cfg env req.boss_id req.player_id req.damage_amount w d
          (handle_damage S cfg env (some req) w).1
unfolding handle_damage
handle_damage-IsDurable S cfg env req w code d h =
    elim (Bool-cases ((req.player_id == "") || (req.boss_id == ""))) [
      | inl x ↦ ground (arith, x)
      | inr x ↦
          let p = damage S cfg env req.boss_id req.player_id req.damage_amount w in
          let same : respond p.0 ≡ sent code d = sym (rw x refl) ∙ h in
          let r = respond_sent p.0 code d same in
          (
            r.0,
            rw x (damage-IsDurable S cfg env req.boss_id req.player_id req.damage_amount w d r.1),
          )
    ]
