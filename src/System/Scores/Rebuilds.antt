-- ===== src/System/Scores/Rebuilds.antt =====
-- A rebuild of a boss with no event pending sets the leaderboard to what is committed.
use enigma_behemoth.Prelude.{
  ℕ, String, ◌≡◌, refl, sym, ap, ◌∙◌, subst, List, [], ◌∷◌, some, false, ◌==◌, All, arith, inl, inr,
  Bool-cases, eq_iff, eq_refl, if◌then◌else◌,
}
use enigma_behemoth.Prelude.Int.{ℤ, pos}
use enigma_behemoth.Store.{DamageEvent}
use enigma_behemoth.Redis.Server.{Server, answered}
use enigma_behemoth.Redis.Keyspace.{score}
use enigma_behemoth.Redis.Snapshot.{Snapshot}
use enigma_behemoth.Redis.Client.{rehydrate}
use enigma_behemoth.Redis.Pipeline.{IsSteady}
use enigma_behemoth.Redis.Expiry.Complete.{AllAligned, rehydrate-AllAligned}
use enigma_behemoth.Postgres.Tables.{Tables, Boss, find_boss}
use enigma_behemoth.Postgres.Batch.{key_of, same_key}
use enigma_behemoth.Postgres.Batch.Commit.{dealt}
use enigma_behemoth.Postgres.Reads.{derive, rows_of, recovery_state, contributions}
use enigma_behemoth.Recovery.Rehydrate.{rehydrate_boss}
use enigma_behemoth.Recovery.Rebuilt.{IsAnswered, rehydrate_boss-rebuilt}
use enigma_behemoth.Recovery.All.{steady}
use enigma_behemoth.System.{System, forget}
use enigma_behemoth.System.Scores.Rebuilt.{score-rebuilt}
use enigma_behemoth.System.Scores.Snapshots.{HasScore, key}
use enigma_behemoth.System.Scores.Defs

answered_all : {t : Tables} {now : ℕ} → IsAnswered (steady t now)
answered_all = record { state_fault = refl; rows_fault = refl; net = refl }

dealt_none :
    (id q : String) (es : List DamageEvent)
    → All (λ (e : DamageEvent). (e.boss_id == id) ≡ false) es
    → dealt (key id q) es ≡ 0
unfolding key_of same_key
dealt_none id q [] h = refl
dealt_none id q (e ∷ es) h = ground (arith, h.0, dealt_none id q es h.1)

dealt-forget :
    (id q j : String) (es : List DamageEvent)
    → dealt (key id q) (forget j es) ≡ (if j == id then 0 else dealt (key id q) es)
unfolding key_of same_key
dealt-forget id q j [] = ground arith
dealt-forget id q j (e ∷ es) =
    ground (arith, eq_iff e.boss_id j, eq_iff e.boss_id id, eq_iff j id, dealt-forget id q j es)

module _ (S : Server) (ttl : ℤ) (id q : String) (steady_ttl : IsSteady ttl) where
  open S use {contents}

  abbrev owed : System S ttl → ℕ
  owed = Defs.owed S ttl id q

  abbrev view : String → System S ttl → Snapshot
  view = Defs.view S ttl id q

  abbrev IsScored : System S ttl → Type 0
  IsScored = Defs.IsScored S ttl id q

  abbrev rebuilt_at : String → System S ttl → System S ttl
  rebuilt_at j s = record s {
    db = (rehydrate_boss S ttl (steady s.tables s.now) j s.db).1;
    lost = forget j s.lost;
  }

  rebuilt_at-db :
      (j : String) (b : Boss) (s : System S ttl)
      → find_boss j s.tables.bosses ≡ some b
      → (rebuilt_at j s).db
        ≡ (rehydrate S ttl answered s.now j
            (derive s.tables.contributions b)
            (rows_of j s.tables.contributions)
            s.db).1
  unfolding rehydrate_boss recovery_state contributions
  rebuilt_at-db j b s found = ground (arith, found)

  rebuilt_at-AllAligned :
      (j : String) (b : Boss) (s : System S ttl)
      → find_boss j s.tables.bosses ≡ some b
      → AllAligned S ttl s.now s.db
      → AllAligned S ttl s.now (rebuilt_at j s).db
  rebuilt_at-AllAligned j b s found a =
      subst (AllAligned S ttl s.now) (sym (rebuilt_at-db j b s found)) (
        rehydrate-AllAligned S ttl steady_ttl answered s.now j (derive s.tables.contributions b)
          (rows_of j s.tables.contributions) s.db a)

  own-rebuilt :
      (b : Boss) (s : System S ttl)
      → find_boss id s.tables.bosses ≡ some b
      → All (λ (e : DamageEvent). (e.boss_id == id) ≡ false) s.pending
      → IsScored s
      → HasScore q (owed (rebuilt_at id s)) (view id (rebuilt_at id s))
  own-rebuilt b s found idle v hp h =
      let laws =
        rehydrate_boss-rebuilt S ttl (steady s.tables s.now) answered_all id b s.db found in
      ap (λ (c : Snapshot). score q c.board) laws.1
      ∙ score-rebuilt id q s.tables.contributions [] v.keyed refl
      ∙ ap pos
          (ground (arith, dealt_none id q s.pending idle, dealt-forget id q id s.lost, eq_refl id))

  pub rebuilds-IsScored :
      (j : String) (b : Boss) (s : System S ttl)
      → find_boss j s.tables.bosses ≡ some b
      → All (λ (e : DamageEvent). (e.boss_id == j) ≡ false) s.pending
      → IsScored s
      → IsScored (rebuilt_at j s)
  rebuilds-IsScored j b s found idle v =
      let laws = rehydrate_boss-rebuilt S ttl (steady s.tables s.now) answered_all j b s.db found in
      record {
        scored = elim (Bool-cases (j == id)) [
          | inl e ↦
              let own : j ≡ id = (eq_iff j id).0 e in
              subst (λ (k : String). HasScore q (owed (rebuilt_at k s)) (view id (rebuilt_at k s)))
                (sym own)
                (own-rebuilt b s
                  (subst (λ (k : String). find_boss k s.tables.bosses ≡ some b) own found)
                  (subst
                    (λ (k : String). All (λ (x : DamageEvent). (x.boss_id == k) ≡ false) s.pending)
                    own idle)
                  v)
          | inr e ↦ subst (HasScore q (owed (rebuilt_at j s))) (sym (laws.2 id e)) (
              subst (λ (n : ℕ). HasScore q n (view id s))
                (ground (arith, e, dealt-forget id q j s.lost)) v.scored)
        ];
        gains = v.gains;
        keyed = v.keyed;
        aligned = rebuilt_at-AllAligned j b s found v.aligned;
      }
