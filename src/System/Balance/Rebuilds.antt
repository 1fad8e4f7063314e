-- ===== src/System/Balance/Rebuilds.antt =====
-- A rebuild of a boss with no event pending keeps the balance, and forgets what was lost.
use enigma_behemoth.Prelude.{
  ℕ, ◌-◌, String, ◌≡◌, refl, sym, ap, ◌∙◌, subst, List, some, false, ◌==◌, All, arith, inl, inr,
  Bool-cases, eq_iff, eq_refl,
}
use enigma_behemoth.Prelude.Int.{ℤ, pos}
use enigma_behemoth.Store.{DamageEvent}
use enigma_behemoth.Redis.Server.{Server}
use enigma_behemoth.Redis.Snapshot.{Snapshot}
use enigma_behemoth.Postgres.Tables.{Tables, Boss, find_boss, sum_of}
use enigma_behemoth.Postgres.Batch.Commit.{dealt_to}
use enigma_behemoth.Postgres.Reads.{derive}
use enigma_behemoth.Recovery.Rehydrate.{rehydrate_boss}
use enigma_behemoth.Recovery.Rebuilt.{IsAnswered, rehydrate_boss-rebuilt}
use enigma_behemoth.Recovery.All.{steady}
use enigma_behemoth.System.Sums.{dealt_to_none, dealt_to-forget, find_boss-id}
use enigma_behemoth.System.{System, forget}
use enigma_behemoth.System.Left.{HasLeft, rebase, some_inj, boss_inj}
use enigma_behemoth.System.Balance.Defs

pub answered_all : {t : Tables} {now : ℕ} → IsAnswered (steady t now)
answered_all = record { state_fault = refl; rows_fault = refl; net = refl }

module _ (S : Server) (ttl : ℤ) (id : String) (max : ℕ) where
  open S use {contents}

  abbrev spent : System S ttl → ℕ
  spent = Defs.spent S ttl id max

  abbrev view : String → System S ttl → Snapshot
  view = Defs.view S ttl id max

  abbrev IsKept : System S ttl → Type 0
  IsKept = Defs.IsKept S ttl id max

  abbrev IsBalanced : System S ttl → Type 0
  IsBalanced = Defs.IsBalanced S ttl id max

  abbrev pub rebuilt_at : String → System S ttl → System S ttl
  rebuilt_at j s = record s {
    db = (rehydrate_boss S ttl (steady s.tables s.now) j s.db).1;
    lost = forget j s.lost;
  }

  pub own-forget : (es : List DamageEvent) → dealt_to id (forget id es) ≡ 0
  own-forget es = ground (arith, dealt_to-forget id id es, eq_refl id)

  own-rebuilt :
      (b : Boss) (s : System S ttl)
      → find_boss id s.tables.bosses ≡ some b
      → All (λ (e : DamageEvent). (e.boss_id == id) ≡ false) s.pending
      → IsBalanced s
      → HasLeft max (spent (rebuilt_at id s)) (view id (rebuilt_at id s)).hp
  unfolding derive
  own-rebuilt b s found idle v hp h =
      let laws =
        rehydrate_boss-rebuilt S ttl (steady s.tables s.now) answered_all id b s.db found in
      let (b', found', max_hp) = v.row in
      let same : b' ≡ b = boss_inj (sym found' ∙ found) in
      let sum : sum_of b.id s.tables.contributions ≡ spent (rebuilt_at id s) =
        ap (λ (k : String). sum_of k s.tables.contributions)
          (find_boss-id id b s.tables.bosses found)
        ∙ omega (arith, dealt_to_none id s.pending idle, own-forget s.lost) in
      let top : b.max_hp ≡ max = ap (λ (x : Boss). x.max_hp) (sym same) ∙ max_hp in
      sym (some_inj (ap (λ (c : Snapshot). c.hp) (sym laws.1) ∙ h))
      ∙ ap pos
          (ap (λ (m : ℕ). m - sum_of b.id s.tables.contributions) top ∙ ap (λ (n : ℕ). max - n) sum)

  pub rebuilds-IsBalanced :
      (j : String) (b : Boss) (s : System S ttl)
      → find_boss j s.tables.bosses ≡ some b
      → All (λ (e : DamageEvent). (e.boss_id == j) ≡ false) s.pending
      → IsBalanced s
      → IsBalanced (rebuilt_at j s)
  rebuilds-IsBalanced j b s found idle v =
      let laws = rehydrate_boss-rebuilt S ttl (steady s.tables s.now) answered_all j b s.db found in
      record {
        gains = v.gains;
        row = v.row;
        within = ground (arith, v.within, dealt_to-forget id j s.lost);
        left = elim (Bool-cases (j == id)) [
          | inl e ↦
              let own : j ≡ id = (eq_iff j id).0 e in
              subst
                (λ (k : String). HasLeft max (spent (rebuilt_at k s)) (view id (rebuilt_at k s)).hp)
                (sym own)
                (own-rebuilt b s
                  (subst (λ (k : String). find_boss k s.tables.bosses ≡ some b) own found)
                  (subst
                    (λ (k : String). All (λ (x : DamageEvent). (x.boss_id == k) ≡ false) s.pending)
                    own idle)
                  v)
          | inr e ↦
              (rebase max _ _ _ _ (ground (arith, e, dealt_to-forget id j s.lost))
                (ap (λ (c : Snapshot). c.hp) (sym (laws.2 id e))) (v.within, v.left)).1
        ];
      }
