-- ===== src/Recovery/All.antt =====
-- RehydrateAll rebuilds every boss of the tables.
use enigma_behemoth.Prelude.{
  ℕ, String, ◌≡◌, refl, sym, ap, ◌∙◌, none, some, List, [], ◌∷◌, map, Bool, true, false, ◌==◌,
  arith, eq_iff, ◌⊎◌, inl, inr, Bool-cases, Option-cases,
}
use enigma_behemoth.Prelude.Int.{ℤ}
use enigma_behemoth.Errors.{Result, ok}
use enigma_behemoth.Redis.Server.{Server, answered}
use enigma_behemoth.Redis.Snapshot.{Snapshot, snapshot}
use enigma_behemoth.Postgres.Tables.{Boss, Tables, find_boss}
use enigma_behemoth.Postgres.Reads.{derive, rows_of, list_boss_ids}
use enigma_behemoth.Recovery.Rehydrate.{Rebuild, rehydrate_boss, rehydrate_ids, rehydrate_all}
use enigma_behemoth.Recovery.Rebuilt.{
  IsAnswered, rebuilt, rehydrate_boss-rebuilt, rehydrate_boss_unknown,
}
use enigma_behemoth.Recovery.Reconcile.{has}

-- A rebuild on tables that do not change, with every query and pipeline answered.
abbrev pub steady : Tables → ℕ → Rebuild
steady t now = record {
  state_fault = none;
  state_tables = t;
  rows_fault = none;
  rows_tables = t;
  net = answered;
  at = now;
}

-- The entry of a boss that the tables imply.
abbrev pub implied : Tables → Boss → String → Snapshot
implied t b id = rebuilt (derive t.contributions b) (rows_of id t.contributions)

has_own :
    (id : String) (b : Boss) (bosses : List Boss)
    → find_boss id bosses ≡ some b
    → has id (map (λ (x : Boss). x.id) bosses) ≡ true
unfolding find_boss
has_own id b [] h = ground arith
has_own id b (x ∷ rest) h = ground (arith, has_own id b rest)

some_inj : (a b : Boss) → some a ≡ some b → a ≡ b
some_inj a b h = cc

has_next :
    {A : Type 0} (j id : String) (ids : List String)
    → has id (j ∷ ids) ≡ true
    → ((j == id) ≡ true) ⊎ ((has id ids ≡ true) ⊎ A)
has_next j id ids h = elim (Bool-cases (j == id)) [
  | inl e ↦ inl e
  | inr e ↦ inr (inl (ground (arith, h, e)))
]

module _ (S : Server) (ttl : ℤ) (t : Tables) (now : ℕ) where
  open S use {Db, contents}

  up : IsAnswered (steady t now)
  up = record { state_fault = refl; rows_fault = refl; net = refl }

  abbrev one : String → Db → Result Bool × Db
  one id db = rehydrate_boss S ttl (steady t now) id db

  abbrev IsImplied : String → Boss → Db → Type 0
  IsImplied id b db = snapshot now id (contents db) ≡ implied t b id

  one_answers : (j : String) (db : Db) → (known : Bool) × ((one j db).0 ≡ ok known)
  one_answers j db = elim (Option-cases (find_boss j t.bosses)) [
    | inl x ↦ (false, ap (λ p. p.0) (rehydrate_boss_unknown S ttl (steady t now) up j db x))
    | inr (c, x) ↦ (true, (rehydrate_boss-rebuilt S ttl (steady t now) up j c db x).0)
  ]

  -- One rebuild makes its own boss and keeps another as the tables imply.
  one-IsImplied :
      (j id : String) (b : Boss) (db : Db)
      → find_boss id t.bosses ≡ some b
      → ((j == id) ≡ true) ⊎ IsImplied id b db
      → ((known : Bool) × ((one j db).0 ≡ ok known)) × IsImplied id b (one j db).1
  one-IsImplied j id b db found h = elim (Option-cases (find_boss j t.bosses)) [
    | inl x ↦
        let keep : IsImplied id b db = elim h [
          | inl e ↦
              let same : j ≡ id = (eq_iff j id).0 e in
              let clash : none ≡ some b = sym x ∙ ap (λ k. find_boss k t.bosses) same ∙ found in
              ground (arith, clash)
          | inr k ↦ k
        ] in
        rw (rehydrate_boss_unknown S ttl (steady t now) up j db x) ((false, refl), keep)
    | inr (c, x) ↦
        let p = rehydrate_boss-rebuilt S ttl (steady t now) up j c db x in
        elim (Bool-cases (j == id)) [
          | inl e ↦
              let same : j ≡ id = (eq_iff j id).0 e in
              let own : c ≡ b =
                some_inj c b (sym x ∙ ap (λ k. find_boss k t.bosses) same ∙ found) in
              ((true, p.0), cc (p.1, same, own))
          | inr e ↦
              let keep : IsImplied id b db = elim h [ inl d ↦ ground (arith, d, e) | inr k ↦ k ] in
              ((true, p.0), p.2 id e ∙ keep)
        ]
  ]

  -- A rebuild that answers goes on with the rest.
  rehydrate_ids_next :
      (j : String) (ids : List String) (db : Db) (known : Bool)
      → (one j db).0 ≡ ok known
      → rehydrate_ids S ttl (λ k. steady t now) (j ∷ ids) db
        ≡ rehydrate_ids S ttl (λ k. steady t now) ids (one j db).1
  unfolding rehydrate_ids
  rehydrate_ids_next j ids db known h = ground (arith, h)

  rehydrate_ids-IsImplied :
      (ids : List String) (id : String) (b : Boss) (db : Db)
      → find_boss id t.bosses ≡ some b
      → (has id ids ≡ true) ⊎ IsImplied id b db
      → let r = rehydrate_ids S ttl (λ j. steady t now) ids db in (r.0 ≡ ok tt) × IsImplied id b r.1
  unfolding rehydrate_ids
  rehydrate_ids-IsImplied [] id b db found (inl h) = ground (arith, h)
  rehydrate_ids-IsImplied [] id b db found (inr k) = (refl, k)
  rehydrate_ids-IsImplied (j ∷ ids) id b db found h =
      let next : ((j == id) ≡ true) ⊎ ((has id ids ≡ true) ⊎ IsImplied id b db) = elim h [
        | inl x ↦ has_next j id ids x
        | inr k ↦ inr (inr k)
      ] in
      elim next [
        | inl e ↦
            let p = one-IsImplied j id b db found (inl e) in
            rw (rehydrate_ids_next j ids db p.0.0 p.0.1)
              (rehydrate_ids-IsImplied ids id b (one j db).1 found (inr p.1))
        | inr (inr k) ↦
            let p = one-IsImplied j id b db found (inr k) in
            rw (rehydrate_ids_next j ids db p.0.0 p.0.1)
              (rehydrate_ids-IsImplied ids id b (one j db).1 found (inr p.1))
        | inr (inl later) ↦
            rw (rehydrate_ids_next j ids db (one_answers j db).0 (one_answers j db).1)
              (rehydrate_ids-IsImplied ids id b (one j db).1 found (inl later))
      ]

-- RehydrateAll on tables that do not change, with every query and pipeline answered and all rebuilds at one
-- instant, succeeds and leaves in the cache at this instant, for every boss of the tables, exactly what they
-- imply.
pub rehydrate_all-IsImplied :
    (S : Server) (ttl : ℤ) (t : Tables) (now : ℕ) (id : String) (b : Boss) (db : S.Db)
    → find_boss id t.bosses ≡ some b
    → let r = rehydrate_all S ttl none t (λ j. steady t now) db in
      (r.0 ≡ ok tt) × (snapshot now id (S.contents r.1) ≡ implied t b id)
unfolding rehydrate_all list_boss_ids
rehydrate_all-IsImplied S ttl t now id b db found =
    rehydrate_ids-IsImplied S ttl t now (map (λ x. Boss.id x) t.bosses) id b db found
      (inl (has_own id b t.bosses found))
