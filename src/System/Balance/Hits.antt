-- ===== src/System/Balance/Hits.antt =====
-- A hit keeps the balance, with an answer or with it lost.
use enigma_behemoth.Prelude.{
  ℕ, String, ◌≡◌, refl, sym, ap, ◌∙◌, subst, ◌++◌, false, ◌==◌, arith, inl, inr, Bool-cases, eq_iff,
}
use enigma_behemoth.Prelude.Int.{ℤ}
use enigma_behemoth.Store.{ApplyResult}
use enigma_behemoth.Redis.Server.{Server, lost, call}
use enigma_behemoth.Redis.Snapshot.{Snapshot, hit}
use enigma_behemoth.Postgres.Batch.Sums.{IsGain}
use enigma_behemoth.Errors.{Err, ok}
use enigma_behemoth.Redis.Server.{answered}
use enigma_behemoth.Redis.Client.{apply_damage}
use enigma_behemoth.Redis.Calls.{apply_damage-hit}
use enigma_behemoth.System.Sums.{dealt_to-append, All-append}
use enigma_behemoth.System.{System, submitted}
use enigma_behemoth.System.Left.{rebase, ok_inj, IsGain-submitted, submitted_none, hit-HasLeft}
use enigma_behemoth.System.Balance.Defs

module _ (S : Server) (ttl : ℤ) (id : String) (max : ℕ) where
  open S use {contents}

  abbrev spent : System S ttl → ℕ
  spent = Defs.spent S ttl id max

  abbrev view : String → System S ttl → Snapshot
  view = Defs.view S ttl id max

  abbrev IsKept : System S ttl → Type 0
  IsKept = Defs.IsKept S ttl id max

  abbrev IsBalanced : System S ttl → Type 0
  IsBalanced = Defs.IsBalanced S ttl id max

  abbrev pub hit_by : String → String → ℤ → ApplyResult → System S ttl → System S ttl
  hit_by j player amount res s = record s {
    db = (apply_damage S ttl answered s.now j player amount s.db).1;
    pending = s.pending ++ submitted j player res;
  }

  own-IsKept :
      (player : String) (amount : ℤ) (s : System S ttl)
      → IsBalanced s
      → IsKept (hit_by id player amount (hit player amount (view id s)).0 s)
  own-IsKept player amount s v =
      let laws = apply_damage-hit S ttl s.now id player amount s.db in
      rebase max _ _ _ _
        (omega (
          arith,
          dealt_to-append id s.pending (submitted id player (hit player amount (view id s)).0),
        ))
        (ap (λ (c : Snapshot). c.hp) (sym laws.1))
        (hit-HasLeft id player amount (view id s) max (spent s) v.within v.left)

  other-IsKept :
      (j player : String) (amount : ℤ) (res : ApplyResult) (s : System S ttl)
      → (j == id) ≡ false
      → IsBalanced s
      → IsKept (hit_by j player amount res s)
  other-IsKept j player amount res s differ v =
      rebase max _ _ _ _
        (omega (
          arith,
          dealt_to-append id s.pending (submitted j player res),
          submitted_none id j player res differ,
        ))
        (ap (λ (c : Snapshot). c.hp)
          (sym ((apply_damage-hit S ttl s.now j player amount s.db).2 id differ)))
        (v.within, v.left)

  hits-IsKept :
      (j player : String) (amount : ℤ) (s : System S ttl)
      → IsBalanced s
      → IsKept (hit_by j player amount (hit player amount (view j s)).0 s)
  hits-IsKept j player amount s v = elim (Bool-cases (j == id)) [
    | inl e ↦
        subst (λ (k : String). IsKept (hit_by k player amount (hit player amount (view k s)).0 s))
          (sym ((eq_iff j id).0 e)) (own-IsKept player amount s v)
    | inr e ↦ other-IsKept j player amount (hit player amount (view j s)).0 s e v
  ]

  pub hits-IsBalanced :
      (j player : String) (amount : ℤ) (res : ApplyResult) (s : System S ttl)
      → (apply_damage S ttl answered s.now j player amount s.db).0 ≡ ok res
      → IsBalanced s
      → IsBalanced (hit_by j player amount res s)
  hits-IsBalanced j player amount res s eq v =
      let same : (hit player amount (view j s)).0 ≡ res =
        ok_inj (sym (apply_damage-hit S ttl s.now j player amount s.db).0 ∙ eq) in
      subst (λ (r : ApplyResult). IsBalanced (hit_by j player amount r s)) same
        (let kept = hits-IsKept j player amount s v in
          record {
            gains =
                All-append IsGain s.pending _ v.gains (IsGain-submitted j player amount (view j s));
            row = v.row;
            within = kept.0;
            left = kept.1;
          })

  pub loses-IsBalanced :
      (e : Err) (j player : String) (amount : ℤ) (res : ApplyResult) (s : System S ttl)
      → (apply_damage S ttl answered s.now j player amount s.db).0 ≡ ok res
      → IsBalanced s
      → IsBalanced (record s {
        db = (apply_damage S ttl (lost e) s.now j player amount s.db).1;
        lost = s.lost ++ submitted j player res;
      })
  unfolding apply_damage call
  loses-IsBalanced e j player amount res s eq v =
      let made = hits-IsBalanced j player amount res s eq v in
      let kept =
        rebase max _ _ _ _
          (omega (
            arith,
            dealt_to-append id s.pending (submitted j player res),
            dealt_to-append id s.lost (submitted j player res),
          ))
          refl (made.within, made.left) in
      record { gains = v.gains; row = v.row; within = kept.0; left = kept.1 }
