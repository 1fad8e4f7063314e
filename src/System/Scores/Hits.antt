-- ===== src/System/Scores/Hits.antt =====
-- A hit keeps the leaderboard, with an answer or with it lost.
use enigma_behemoth.Prelude.{
  ℕ, String, ◌≡◌, sym, ◌∙◌, subst, ◌++◌, false, ◌==◌, arith, inl, inr, Bool-cases, eq_iff,
}
use enigma_behemoth.Prelude.Int.{ℤ}
use enigma_behemoth.Errors.{Err, ok}
use enigma_behemoth.Store.{ApplyResult}
use enigma_behemoth.Redis.Server.{Server, answered, lost, call}
use enigma_behemoth.Redis.Snapshot.{Snapshot, hit}
use enigma_behemoth.Redis.Client.{apply_damage}
use enigma_behemoth.Redis.Calls.{apply_damage-hit}
use enigma_behemoth.Redis.Pipeline.{IsSteady}
use enigma_behemoth.Redis.Expiry.Complete.{apply_damage-IsAligned}
use enigma_behemoth.Postgres.Batch.Sums.{IsGain}
use enigma_behemoth.Postgres.Batch.Reorder.{dealt-append, All-append}
use enigma_behemoth.System.{System, submitted}
use enigma_behemoth.System.Left.{ok_inj, IsGain-submitted}
use enigma_behemoth.System.Scores.Snapshots.{HasScore, key, dealt_other, hit-HasScore}
use enigma_behemoth.System.Scores.Defs

module _ (S : Server) (ttl : ℤ) (id q : String) (steady : IsSteady ttl) where
  open S use {contents}

  abbrev owed : System S ttl → ℕ
  owed = Defs.owed S ttl id q

  abbrev view : String → System S ttl → Snapshot
  view = Defs.view S ttl id q

  abbrev IsScored : System S ttl → Type 0
  IsScored = Defs.IsScored S ttl id q

  abbrev HasOwed : System S ttl → Type 0
  HasOwed s = HasScore q (owed s) (view id s)

  abbrev hit_by : String → String → ℤ → ApplyResult → System S ttl → System S ttl
  hit_by j player amount res s = record s {
    db = (apply_damage S ttl answered s.now j player amount s.db).1;
    pending = s.pending ++ submitted j player res;
  }

  own-HasOwed :
      (player : String) (amount : ℤ) (s : System S ttl)
      → HasOwed s
      → HasOwed (hit_by id player amount (hit player amount (view id s)).0 s)
  own-HasOwed player amount s v =
      let laws = apply_damage-hit S ttl s.now id player amount s.db in
      let r = (hit player amount (view id s)).0 in
      subst (HasScore q (owed (hit_by id player amount r s))) (sym laws.1) (
        subst (λ (n : ℕ). HasScore q n (hit player amount (view id s)).1)
          (omega (arith, dealt-append (key id q) s.pending (submitted id player r)))
          (hit-HasScore id q player amount (view id s) (owed s) v))

  other-HasOwed :
      (j player : String) (amount : ℤ) (res : ApplyResult) (s : System S ttl)
      → (j == id) ≡ false
      → HasOwed s
      → HasOwed (hit_by j player amount res s)
  other-HasOwed j player amount res s differ v =
      subst (HasScore q (owed (hit_by j player amount res s)))
        (sym ((apply_damage-hit S ttl s.now j player amount s.db).2 id differ))
        (subst (λ (n : ℕ). HasScore q n (view id s))
          (omega (
            arith,
            dealt-append (key id q) s.pending (submitted j player res),
            dealt_other id q j player res differ,
          ))
          v)

  hit-HasOwed :
      (j player : String) (amount : ℤ) (s : System S ttl)
      → HasOwed s
      → HasOwed (hit_by j player amount (hit player amount (view j s)).0 s)
  hit-HasOwed j player amount s v = elim (Bool-cases (j == id)) [
    | inl e ↦
        subst (λ (k : String). HasOwed (hit_by k player amount (hit player amount (view k s)).0 s))
          (sym ((eq_iff j id).0 e)) (own-HasOwed player amount s v)
    | inr e ↦ other-HasOwed j player amount (hit player amount (view j s)).0 s e v
  ]

  pub hits-IsScored :
      (j player : String) (amount : ℤ) (res : ApplyResult) (s : System S ttl)
      → (apply_damage S ttl answered s.now j player amount s.db).0 ≡ ok res
      → IsScored s
      → IsScored (hit_by j player amount res s)
  hits-IsScored j player amount res s eq v =
      let same : (hit player amount (view j s)).0 ≡ res =
        ok_inj (sym (apply_damage-hit S ttl s.now j player amount s.db).0 ∙ eq) in
      subst (λ (r : ApplyResult). IsScored (hit_by j player amount r s)) same
        (record {
          scored = hit-HasOwed j player amount s v.scored;
          gains =
              All-append IsGain s.pending _ v.gains (IsGain-submitted j player amount (view j s));
          keyed = v.keyed;
          aligned =
              apply_damage-IsAligned S ttl steady answered s.now j player amount s.db v.aligned;
        })

  pub loses-IsScored :
      (e : Err) (j player : String) (amount : ℤ) (res : ApplyResult) (s : System S ttl)
      → (apply_damage S ttl answered s.now j player amount s.db).0 ≡ ok res
      → IsScored s
      → IsScored (record s {
        db = (apply_damage S ttl (lost e) s.now j player amount s.db).1;
        lost = s.lost ++ submitted j player res;
      })
  unfolding apply_damage call
  loses-IsScored e j player amount res s eq v =
      let made = hits-IsScored j player amount res s eq v in
      record {
        scored =
            subst (λ (n : ℕ). HasScore q n (view id (hit_by j player amount res s)))
              (omega (
                arith,
                dealt-append (key id q) s.pending (submitted j player res),
                dealt-append (key id q) s.lost (submitted j player res),
              ))
              made.scored;
        gains = v.gains;
        keyed = v.keyed;
        aligned = made.aligned;
      }
