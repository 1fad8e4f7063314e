-- ===== src/System/Scores/Undoes.antt =====
-- An undo of a pending event keeps the leaderboard, and so does one that does not reach the cache.
use mathlib.Core.List.{Perm}
use enigma_behemoth.Prelude.{
  ℕ, ◌+◌, String, ◌≡◌, sym, subst, List, ◌∷◌, ◌==◌, arith, inl, inr, Bool-cases, eq_iff, true,
  false, if◌then◌else◌,
}
use enigma_behemoth.Prelude.Int.{ℤ, pos_part}
use enigma_behemoth.Store.{DamageEvent}
use enigma_behemoth.Redis.Server.{Server, answered}
use enigma_behemoth.Redis.Snapshot.{Snapshot, undo}
use enigma_behemoth.Redis.Client.{compensate_damage}
use enigma_behemoth.Redis.Calls.{compensate_damage-undo}
use enigma_behemoth.Redis.Pipeline.{IsSteady}
use enigma_behemoth.Redis.Expiry.Complete.{compensate_damage-IsAligned}
use enigma_behemoth.Postgres.Batch.{key_of, same_key}
use enigma_behemoth.Postgres.Batch.Commit.{dealt}
use enigma_behemoth.Postgres.Batch.Reorder.{dealt-perm, IsGain-perm}
use enigma_behemoth.System.{System}
use enigma_behemoth.System.Scores.Snapshots.{HasScore, key, undo-HasScore}
use enigma_behemoth.System.Scores.Defs

module _ (S : Server) (ttl : ℤ) (id q : String) where
  open S use {contents}

  abbrev owed : System S ttl → ℕ
  owed = Defs.owed S ttl id q

  abbrev view : String → System S ttl → Snapshot
  view = Defs.view S ttl id q

  abbrev IsScored : System S ttl → Type 0
  IsScored = Defs.IsScored S ttl id q

  abbrev undone : DamageEvent → List DamageEvent → System S ttl → System S ttl
  undone e rest s = record s {
    db = (compensate_damage S ttl answered s.now e.boss_id e.player_id e.applied s.db).1;
    pending = rest;
  }

  own_event :
      (e : DamageEvent) (rest : List DamageEvent)
      → (e.boss_id == id) ≡ true
      → dealt (key id q) (e ∷ rest)
        ≡ dealt (key id q) rest + (if e.player_id == q then pos_part e.applied else 0)
  unfolding key_of same_key
  own_event e rest own = ground (arith, own)

  other_event :
      (e : DamageEvent) (rest : List DamageEvent)
      → (e.boss_id == id) ≡ false
      → dealt (key id q) (e ∷ rest) ≡ dealt (key id q) rest
  unfolding key_of same_key
  other_event e rest other = ground (arith, other)

  pub undoes-IsScored :
      (e : DamageEvent) (rest : List DamageEvent) (s : System S ttl)
      → IsSteady ttl
      → Perm s.pending (e ∷ rest)
      → IsScored s
      → IsScored (undone e rest s)
  undoes-IsScored e rest s steady p v =
      let laws = compensate_damage-undo S ttl s.now e.boss_id e.player_id e.applied s.db in
      let gains = IsGain-perm p v.gains in
      let sums = dealt-perm (key id q) p in
      let after = owed (undone e rest s) in
      record {
        scored = elim (Bool-cases (e.boss_id == id)) [
          | inl own ↦
              let here : view id (undone e rest s) ≡ undo e.player_id e.applied (view id s) =
                subst
                  (λ (k : String). view k (undone e rest s) ≡ undo e.player_id e.applied (view k s))
                  ((eq_iff e.boss_id id).0 own) laws.0 in
              subst (HasScore q after) (sym here) (
                undo-HasScore id q e.player_id e.applied (view id s) after gains.0 (
                  subst (λ (n : ℕ). HasScore q n (view id s))
                    (omega (arith, sums, own_event e rest own)) v.scored))
          | inr other ↦ subst (HasScore q after) (sym (laws.1 id other)) (
              subst (λ (n : ℕ). HasScore q n (view id s))
                (omega (arith, sums, other_event e rest other)) v.scored)
        ];
        gains = gains.1;
        keyed = v.keyed;
        aligned =
            compensate_damage-IsAligned S ttl steady answered s.now e.boss_id e.player_id e.applied
              s.db v.aligned;
      }

  pub drops-IsScored :
      (e : DamageEvent) (rest : List DamageEvent) (s : System S ttl)
      → Perm s.pending (e ∷ rest)
      → IsScored s
      → IsScored (record s { pending = rest; lost = e ∷ s.lost })
  drops-IsScored e rest s p v = record {
    scored =
        subst (λ (n : ℕ). HasScore q n (view id s)) (omega (arith, dealt-perm (key id q) p))
          v.scored;
    gains = (IsGain-perm p v.gains).1;
    keyed = v.keyed;
    aligned = v.aligned;
  }
