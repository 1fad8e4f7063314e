-- ===== src/Boss/Damage/Answer.antt =====
-- A successful answer of Damage is a hit that landed, within the limits, and durably committed.
use enigma_behemoth.Prelude.{
  String, ◌≡◌, refl, sym, ap, ◌∙◌, true, none, List, [], ◌∷◌, ◌++◌, length, ltb, ◌<◌, subst, arith,
  ◌||◌, inl, inr, Bool-cases, ◌⊎◌,
}
use enigma_behemoth.Prelude.Int.{ℤ, pos, negsuc, ◌≤ℤ◌, ◌<ℤ◌, leb_ℤ, ltb_ℤ, eqb_ℤ}
use enigma_behemoth.Errors.{Result, ok, Result-cases}
use enigma_behemoth.Store.{ApplyResult, status_applied}
use enigma_behemoth.Redis.Server.{Server}
use enigma_behemoth.Redis.Snapshot.{Snapshot, hit}
use enigma_behemoth.Redis.Laws.{Landed, hit-Landed}
use enigma_behemoth.Writer.{WriteReq, Wait, await, submit}
use enigma_behemoth.Writer
use enigma_behemoth.Boss.Damage.Seen.{
  first_seen, missed, second_seen, IsHit, apply_with_rehydrate-IsHit,
}
use enigma_behemoth.Boss.Damage.Durable.{
  await_ok, durable, request, make_durable-done, make_durable-refused, make_durable-failed,
}
use enigma_behemoth.Boss.Service.{
  Config, DamageResult, World, Env, apply_with_rehydrate, make_durable, damage,
}

is_applied : (s : ℤ) → eqb_ℤ s status_applied ≡ true → s ≡ status_applied
is_applied (pos n) h = ground arith
is_applied (negsuc n) h = ground arith

-- What a successful answer says: the writer has acknowledged the event, which is the last one in the
-- queue, for a hit that landed.
pub record IsDurable {S : Server} (cfg : Config) (env : Env S) (id player : String) (amount : ℤ)
    (before : World S) (r : DamageResult) (w : World S) : Type 0 where
  pub boss : r.boss_id ≡ id
  pub hitter : r.player_id ≡ player
  pub acknowledged : env.wait ≡ Writer.answered none
  pub gained : pos 0 <ℤ r.applied
  pub within : r.applied ≤ℤ amount
  pub limited : amount ≤ℤ cfg.max_hit
  pub not_negative : pos 0 ≤ℤ r.boss_hp
  pub landed_on :
      (c : Snapshot) × ((c ≡ first_seen env id before)
        ⊎ (((first_seen env id before).hp ≡ none)
            × (c ≡ second_seen cfg env id (missed cfg env id player amount before))))
      × (r.applied ≡ (hit player amount c).0.applied)
      × (r.boss_hp ≡ (hit player amount c).0.new_hp)
  pub fell : r.defeated ≡ leb_ℤ r.boss_hp (pos 0)
  pub queued :
      (waiting : List WriteReq) × (length waiting < cfg.queue_size)
      × (w.queue
          ≡ waiting
            ++ (record {
              ev = record { boss_id = id; player_id = player; applied = r.applied };
              done = env.ticket;
            })
              ∷ [])

durable_inj : (a b : DamageResult) → ok a ≡ ok b → a ≡ b
durable_inj a b h = cc

module _ (S : Server) (cfg : Config) (env : Env S) (id player : String) (amount : ℤ) where
  durable-IsDurable :
      (before : World S) (res : ApplyResult) (w : World S) (hp : ℤ)
      → IsHit cfg env id player amount before res
      → Landed amount hp res
      → amount ≤ℤ cfg.max_hit
      → length w.queue < cfg.queue_size
      → env.wait ≡ Writer.answered none
      → IsDurable cfg env id player amount before
          (durable id player res)
          (record w { queue = w.queue ++ request env id player res ∷ [] })
  durable-IsDurable before res w hp (c, at, e) l m room heard = record {
    boss = refl;
    hitter = refl;
    acknowledged = heard;
    gained = l.gained;
    within = l.within;
    limited = m;
    not_negative = l.not_negative;
    landed_on =
        (c, at, ap (λ (x : ApplyResult). x.applied) e, ap (λ (x : ApplyResult). x.new_hp) e);
    fell = refl;
    queued = (w.queue, room, refl);
  }

  make_durable-IsDurable :
      (before : World S) (res : ApplyResult) (w : World S) (r : DamageResult)
      → IsHit cfg env id player amount before res
      → res.status ≡ status_applied
      → amount ≤ℤ cfg.max_hit
      → (make_durable S cfg env id player res w).0 ≡ ok r
      → IsDurable cfg env id player amount before r (make_durable S cfg env id player res w).1
  make_durable-IsDurable before res w r (c, at, e) s m h =
      let (hp, _, l0) =
        hit-Landed player amount c (sym (ap (λ (x : ApplyResult). x.status) e) ∙ s) in
      let l : Landed amount hp res = subst (λ x. Landed amount hp x) (sym e) l0 in
      elim (Bool-cases (ltb (length w.queue) cfg.queue_size)) [
        | inr full ↦ ground (arith, make_durable-refused S cfg env id player res w full)
        | inl room ↦ elim (Result-cases (await env.wait)) [
          | inr (x, bad) ↦ ground (arith, make_durable-failed S cfg env id player res w x room bad)
          | inl (u, good) ↦
              let done = make_durable-done S cfg env id player res w u room good in
              let answer : durable id player res ≡ r =
                durable_inj _ r (sym (ap (λ (p : Result DamageResult × World S). p.0) done) ∙ h) in
              subst
                (λ (p : Result DamageResult × World S).
                  IsDurable cfg env id player amount before r p.1)
                (sym done)
                (subst
                  (λ d.
                    IsDurable cfg env id player amount before d
                      (record w { queue = w.queue ++ request env id player res ∷ [] }))
                  answer
                  (durable-IsDurable before res w hp (c, at, e) l m (ground arith)
                    (await_ok env.wait u good)))
        ]
      ]

  -- If Damage answers without an error, then the writer acknowledged the event of this hit, which was
  -- queued last; the amount is within the limit; the damage and the HP answered are those of the hit on what the
  -- cache held of the boss at the script, at once or, after a miss, behind the rebuild, with a positive damage
  -- of at most the amount; and the HP is not negative, with `defeated` set exactly at zero.
  pub damage-IsDurable :
      (w : World S) (r : DamageResult)
      → (damage S cfg env id player amount w).0 ≡ ok r
      → IsDurable cfg env id player amount w r (damage S cfg env id player amount w).1
  unfolding damage
  damage-IsDurable w r h = elim (Bool-cases (leb_ℤ amount (pos 0) || ltb_ℤ cfg.max_hit amount)) [
    | inl out ↦ ground (arith, out)
    | inr fits ↦
        let p = apply_with_rehydrate S cfg env id player amount w in
        elim (Result-cases p.0) [
          | inr (e, x) ↦ ground (arith, fits, x)
          | inl (res, x) ↦ elim (Bool-cases (eqb_ℤ res.status status_applied)) [
            | inr y ↦ ground (arith, fits, x, y)
            | inl y ↦
                let s = is_applied res.status y in
                let run : damage S cfg env id player amount w
                    ≡ make_durable S cfg env id player res (env.applied p.1) =
                  ground (arith, fits, x, y, s) in
                subst
                  (λ (q : Result DamageResult × World S).
                    IsDurable cfg env id player amount w r q.1)
                  (sym run)
                  (make_durable-IsDurable w res (env.applied p.1) r
                    (apply_with_rehydrate-IsHit S cfg env id player amount w res x) s (ground arith)
                    (sym (ap (λ (q : Result DamageResult × World S). q.0) run) ∙ h))
          ]
        ]
  ]
