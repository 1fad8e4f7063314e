-- ===== src/Api/Metrics/Counted.antt =====
-- The collectors agree with what the clients of POST /damage were told.
use enigma_behemoth.Prelude.{
  ℕ, ◌+◌, ◌<◌, ◌||◌, ◌≡◌, refl, ap, ◌∙◌, String, Option, none, some, List, [], ◌∷◌, ◌++◌, false,
  ◌==◌, eqb, arith, inl, inr, Bool-cases, if◌then◌else◌,
}
use enigma_behemoth.Prelude.Int.{pos, ◌+ℤ◌, ◌<ℤ◌}
use enigma_behemoth.Errors.{Result, ok, err}
use enigma_behemoth.Redis.Server.{Server}
use enigma_behemoth.Boss.Service.{Config, DamageResult, World, Env, damage}
use enigma_behemoth.Boss.Damage.Answer.{IsDurable}
use enigma_behemoth.Api.{
  Response, sent, failed, DamageRequest, handle_damage, respond, write_domain_error,
}
use enigma_behemoth.Api.Status.{handle_damage-IsDurable}
use enigma_behemoth.Api.Metrics.{
  Labels, same_labels, Metrics, Exchange, route_of, record_request, observe, count_damage,
  handled_by, post_damage,
}

-- The status of a response.
abbrev pub code_of : Response DamageResult → ℕ
code_of (sent code d) = code
code_of (failed code e) = code

abbrev pub labels_of : (ℕ → String) → Response DamageResult → Labels
labels_of text r = record { route = "/damage"; method = "POST"; status = text (code_of r) }

-- A response is a success, counted with its damage, of a durable hit; or it is no success, and no damage is
-- counted.
abbrev pub IsCounted :
    {S : Server}
    → Config
    → Env S
    → DamageRequest
    → World S
    → Response DamageResult
    → World S
    → Metrics
    → Metrics
    → Type 0
IsCounted cfg env req before (sent code d) w m m' =
    (code ≡ 200)
    × IsDurable cfg env req.boss_id req.player_id req.damage_amount before d w
    × (pos 0 <ℤ d.applied)
    × (m'.damage_applied ≡ m.damage_applied +ℤ d.applied)
IsCounted cfg env req before (failed code e) w m m' = m'.damage_applied ≡ m.damage_applied

respond-code : (r : Result DamageResult) → 0 < code_of (respond r)
unfolding respond write_domain_error
respond-code (ok a) = omega arith
respond-code (err e) = ground arith

handle_damage-code :
    (S : Server) (cfg : Config) (env : Env S) (req : Option DamageRequest) (w : World S)
    → 0 < code_of (handle_damage S cfg env req w).0
unfolding handle_damage
handle_damage-code S cfg env none w = omega arith
handle_damage-code S cfg env (some req) w =
    elim (Bool-cases ((req.player_id == "") || (req.boss_id == ""))) [
      | inl x ↦ rw x (omega arith)
      | inr x ↦
          rw x (respond-code (damage S cfg env req.boss_id req.player_id req.damage_amount w).0)
    ]

positive : (n : ℕ) → 0 < n → eqb n 0 ≡ false
positive n h = ground arith

module _ (text : ℕ → String) (elapsed : ℕ) (m : Metrics) where
  abbrev pub exchange : Response DamageResult → Exchange
  exchange r = record {
    path = "/damage";
    pattern = "/damage";
    method = "POST";
    elapsed = elapsed;
    handled = handled_by r;
  }

  -- What `observe` makes of a response with a status.
  observe-requests :
      (r : Response DamageResult) (n : Metrics)
      → 0 < code_of r
      → let n' = observe text (exchange r) n in
        (n'.damage_applied ≡ n.damage_applied)
        × ((l : Labels)
            → n'.requests l
              ≡ (if same_labels (labels_of text r) l then n.requests l + 1 else n.requests l))
        × ((route : String)
            → n'.durations route ≡ (
                if "/damage" == route
                then n.durations route ++ elapsed ∷ []
                else n.durations route))
  unfolding observe record_request route_of
  observe-requests (sent code d) n h = rw (positive code h) (refl, λ l. refl, λ route. refl)
  observe-requests (failed code e) n h = rw (positive code h) (refl, λ l. refl, λ route. refl)

  count-requests :
      (r : Response DamageResult)
      → ((count_damage r m).requests ≡ m.requests) × ((count_damage r m).durations ≡ m.durations)
  unfolding count_damage
  count-requests (sent code d) = (refl, refl)
  count-requests (failed code e) = (refl, refl)

  module _ (S : Server) (cfg : Config) (env : Env S) where
    count_damage-IsCounted :
        (req : DamageRequest) (w : World S) (r : Response DamageResult)
        → (handle_damage S cfg env (some req) w).0 ≡ r
        → IsCounted cfg env req w r (handle_damage S cfg env (some req) w).1 m (count_damage r m)
    unfolding count_damage
    count_damage-IsCounted req w (sent code d) h =
        let p = handle_damage-IsDurable S cfg env req w code d h in (p.0, p.1, p.1.gained, refl)
    count_damage-IsCounted req w (failed code e) h = refl

    recounted :
        (req : DamageRequest) (w : World S) (r : Response DamageResult) (m' : Metrics)
        → (handle_damage S cfg env (some req) w).0 ≡ r
        → m'.damage_applied ≡ (count_damage r m).damage_applied
        → IsCounted cfg env req w r (handle_damage S cfg env (some req) w).1 m m'
    recounted req w (sent code d) m' h same =
        let c = count_damage-IsCounted req w (sent code d) h in (c.0, c.1, c.2, same ∙ c.3)
    recounted req w (failed code e) m' h same =
        same ∙ count_damage-IsCounted req w (failed code e) h

    -- POST /damage with a body that parses, behind `observe`. A response with a result has the status
    -- 200, its hit is durable, and the damage counter grows by the damage of the hit, which is positive;
    -- with any other response the damage counter stays. In each case the counter of requests grows by
    -- one under the labels of the route, the method and the status of the response, and stays under all
    -- others, and the latency is added once for the route, and for no other.
    pub post_damage-IsCounted :
        (req : DamageRequest) (w : World S)
        → let (r, w', m') = post_damage S text cfg env elapsed (some req) w m in
          IsCounted cfg env req w r w' m m'
          × ((l : Labels)
              → m'.requests l
                ≡ (if same_labels (labels_of text r) l then m.requests l + 1 else m.requests l))
          × ((route : String)
              → m'.durations route ≡ (
                  if "/damage" == route
                  then m.durations route ++ elapsed ∷ []
                  else m.durations route))
    unfolding post_damage
    post_damage-IsCounted req w =
        let r = (handle_damage S cfg env (some req) w).0 in
        let seen =
          observe-requests r (count_damage r m) (handle_damage-code S cfg env (some req) w) in
        let same = count-requests r in
        (
          recounted req w r _ refl seen.0,
          λ l.
              seen.1 l
              ∙ ap (λ (f : Labels → ℕ). if same_labels (labels_of text r) l then f l + 1 else f l)
                  same.0,
          λ route.
              seen.2 route
              ∙ ap
                  (λ (f : String → List ℕ).
                    if "/damage" == route then f route ++ elapsed ∷ [] else f route)
                  same.1,
        )
