-- ===== src/System/Balance/Undoes.antt =====
-- An undo of a pending event keeps the balance, and so does one that does not reach the cache.
use mathlib.Core.List.{Perm}
use enigma_behemoth.Prelude.{
  ℕ, String, ◌≡◌, refl, sym, ap, subst, List, ◌∷◌, ◌==◌, arith, inl, inr, Bool-cases, eq_iff,
}
use enigma_behemoth.Prelude.Int.{ℤ}
use enigma_behemoth.Store.{DamageEvent}
use enigma_behemoth.Redis.Server.{Server}
use enigma_behemoth.Redis.Snapshot.{Snapshot, undo}
use enigma_behemoth.Postgres.Batch.Sums.{IsGain}
use enigma_behemoth.Redis.Server.{answered}
use enigma_behemoth.Redis.Client.{compensate_damage}
use enigma_behemoth.Redis.Calls.{compensate_damage-undo}
use enigma_behemoth.System.Sums.{dealt_to-perm, IsGain-perm}
use enigma_behemoth.System.{System}
use enigma_behemoth.System.Left.{rebase, undo-Kept}
use enigma_behemoth.System.Balance.Defs

module _ (S : Server) (ttl : ℤ) (id : String) (max : ℕ) where
  open S use {contents}

  abbrev spent : System S ttl → ℕ
  spent = Defs.spent S ttl id max

  abbrev view : String → System S ttl → Snapshot
  view = Defs.view S ttl id max

  abbrev IsKept : System S ttl → Type 0
  IsKept = Defs.IsKept S ttl id max

  abbrev IsBalanced : System S ttl → Type 0
  IsBalanced = Defs.IsBalanced S ttl id max

  abbrev pub undone : DamageEvent → List DamageEvent → System S ttl → System S ttl
  undone e rest s = record s {
    db = (compensate_damage S ttl answered s.now e.boss_id e.player_id e.applied s.db).1;
    pending = rest;
  }

  undoes-IsKept :
      (e : DamageEvent) (rest : List DamageEvent) (s : System S ttl)
      → Perm s.pending (e ∷ rest)
      → IsGain e
      → IsBalanced s
      → IsKept (undone e rest s)
  undoes-IsKept e rest s p gain v =
      let laws = compensate_damage-undo S ttl s.now e.boss_id e.player_id e.applied s.db in
      let sums = dealt_to-perm id p in
      elim (Bool-cases (e.boss_id == id)) [
        | inl eq ↦
            let here : view id (undone e rest s) ≡ undo e.player_id e.applied (view id s) =
              subst
                (λ (k : String). view k (undone e rest s) ≡ undo e.player_id e.applied (view k s))
                ((eq_iff e.boss_id id).0 eq) laws.0 in
            rebase max _ _ _ _ refl (ap (λ (c : Snapshot). c.hp) (sym here)) (
              undo-Kept id e.player_id e.applied (view id s) max (spent (undone e rest s)) gain
                (rebase max _ _ _ _ (ground (arith, sums, eq)) refl (v.within, v.left)))
        | inr ne ↦
            rebase max _ _ _ _ (ground (arith, sums, ne))
              (ap (λ (c : Snapshot). c.hp) (sym (laws.1 id ne))) (v.within, v.left)
      ]

  pub undoes-IsBalanced :
      (e : DamageEvent) (rest : List DamageEvent) (s : System S ttl)
      → Perm s.pending (e ∷ rest)
      → IsBalanced s
      → IsBalanced (undone e rest s)
  undoes-IsBalanced e rest s p v =
      let gains = IsGain-perm p v.gains in
      let kept = undoes-IsKept e rest s p gains.0 v in
      record { gains = gains.1; row = v.row; within = kept.0; left = kept.1 }

  pub drops-IsBalanced :
      (e : DamageEvent) (rest : List DamageEvent) (s : System S ttl)
      → Perm s.pending (e ∷ rest)
      → IsBalanced s
      → IsBalanced (record s { pending = rest; lost = e ∷ s.lost })
  drops-IsBalanced e rest s p v =
      let kept = rebase max _ _ _ _ (omega (arith, dealt_to-perm id p)) refl (v.within, v.left) in
      record { gains = (IsGain-perm p v.gains).1; row = v.row; within = kept.0; left = kept.1 }
