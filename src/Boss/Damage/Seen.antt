-- ===== src/Boss/Damage/Seen.antt =====
-- The result of applyWithRehydrate is that of a hit on what the cache holds, at once or behind a rebuild.
use enigma_behemoth.Prelude.{
  ℕ, String, ◌≡◌, refl, sym, ap, ◌∙◌, true, none, arith, inl, inr, Bool-cases, Option-cases, ◌⊎◌,
}
use enigma_behemoth.Prelude.Int.{ℤ, eqb_ℤ}
use enigma_behemoth.Errors.{ok, Result-cases}
use enigma_behemoth.Store.{ApplyResult, status_not_loaded}
use enigma_behemoth.Redis.Server.{Server, Delivery, answered, refused, lost}
use enigma_behemoth.Redis.Snapshot.{Snapshot, snapshot, hit}
use enigma_behemoth.Redis.Client.{apply_damage}
use enigma_behemoth.Redis.Calls.{apply_damage-hit, apply_damage_faults}
use enigma_behemoth.Recovery.Rehydrate.{rehydrate_boss}
use enigma_behemoth.Boss.Service.{Config, World, Env, apply_cold, apply_with_rehydrate}

-- What the cache holds of the boss when the first script runs, and when the second one runs, after the
-- rebuild on a miss.
abbrev pub first_seen : {S : Server} → Env S → String → World S → Snapshot
first_seen {S} env id w = snapshot env.first_at id (S.contents w.db)

abbrev pub missed : {S : Server} → Config → Env S → String → String → ℤ → World S → World S
missed {S} cfg env id player amount w =
    env.cold
      (record w { db = (apply_damage S cfg.ttl env.first env.first_at id player amount w.db).1 })

abbrev pub second_seen : {S : Server} → Config → Env S → String → World S → Snapshot
second_seen {S} cfg env id w = snapshot env.second_at id (
    S.contents (env.loaded (record w { db = (rehydrate_boss S cfg.ttl env.rebuild id w.db).1 })).db)

-- The result is that of a hit on what the cache holds, at once or after a rebuild.
abbrev pub IsHit :
    {S : Server} → Config → Env S → String → String → ℤ → World S → ApplyResult → Type 0
IsHit cfg env id player amount w res =
    (c : Snapshot) × ((c ≡ first_seen env id w)
      ⊎ (((first_seen env id w).hp ≡ none)
          × (c ≡ second_seen cfg env id (missed cfg env id player amount w))))
    × (res ≡ (hit player amount c).0)

hit-not_loaded :
    (player : String) (amount : ℤ) (c : Snapshot)
    → eqb_ℤ (hit player amount c).0.status status_not_loaded ≡ true
    → c.hp ≡ none
hit-not_loaded player amount c h = elim (Option-cases c.hp) [
  | inl e ↦ e
  | inr (hp, e) ↦ ground (arith, e, h)
]

ok_inj : (a b : ApplyResult) → ok a ≡ ok b → a ≡ b
ok_inj a b h = cc

module _ (S : Server) (cfg : Config) (env : Env S) (id player : String) (amount : ℤ) where
  open S use {Db, contents}

  apply_damage-answered_hit :
      (net : Delivery) (now : ℕ) (db : Db) (res : ApplyResult)
      → (apply_damage S cfg.ttl net now id player amount db).0 ≡ ok res
      → res ≡ (hit player amount (snapshot now id (contents db))).0
  apply_damage-answered_hit answered now db res h =
      ok_inj _ _ (sym h ∙ (apply_damage-hit S cfg.ttl now id player amount db).0)
  apply_damage-answered_hit (refused e) now db res h =
      ground (arith, (apply_damage_faults S cfg.ttl now id player amount e db).0)
  apply_damage-answered_hit (lost e) now db res h =
      ground (arith, (apply_damage_faults S cfg.ttl now id player amount e db).1)

  apply_cold-hit :
      (w : World S) (res : ApplyResult)
      → (apply_cold S cfg env id player amount w).0 ≡ ok res
      → res ≡ (hit player amount (second_seen cfg env id w)).0
  unfolding apply_cold
  apply_cold-hit w res h =
      let p = rehydrate_boss S cfg.ttl env.rebuild id w.db in
      elim (Result-cases p.0) [
        | inr (e, x) ↦ ground (arith, x)
        | inl (b, x) ↦ elim (Bool-cases b) [
          | inr y ↦ ground (arith, x, y)
          | inl y ↦
              apply_damage-answered_hit env.second env.second_at
                (env.loaded (record w { db = p.1 })).db res (ground (arith, h, x, y))
        ]
      ]

  pub apply_with_rehydrate-IsHit :
      (w : World S) (res : ApplyResult)
      → (apply_with_rehydrate S cfg env id player amount w).0 ≡ ok res
      → IsHit cfg env id player amount w res
  unfolding apply_with_rehydrate
  apply_with_rehydrate-IsHit w res h =
      let p = apply_damage S cfg.ttl env.first env.first_at id player amount w.db in
      elim (Result-cases p.0) [
        | inr (e, x) ↦ ground (arith, x)
        | inl (r, x) ↦ elim (Bool-cases (eqb_ℤ r.status status_not_loaded)) [
          | inl y ↦ (
            second_seen cfg env id (missed cfg env id player amount w),
            inr (
              hit-not_loaded player amount (first_seen env id w) (
                  ap (λ (z : ApplyResult). eqb_ℤ z.status status_not_loaded)
                    (sym (apply_damage-answered_hit env.first env.first_at w.db r x))
                  ∙ y),
              refl,
            ),
            apply_cold-hit (env.cold (record w { db = p.1 })) res (ground (arith, h, x, y)),
          )
          | inr y ↦ (
            first_seen env id w,
            inl refl,
            apply_damage-answered_hit env.first env.first_at w.db res (ground (arith, h, x, y)),
          )
        ]
      ]
