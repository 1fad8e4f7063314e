-- ===== src/System/Sums.antt =====
-- The damage of events at one boss, whatever their order, and what a commit leaves of a boss.
use enigma_behemoth.Prelude.{
  String, ◌≡◌, refl, sym, ap, ◌∙◌, List, [], ◌∷◌, some, false, ◌==◌, All, arith, inl, inr,
  Bool-cases, eq_iff, if◌then◌else◌,
}
use enigma_behemoth.Store.{DamageEvent}
use enigma_behemoth.Postgres.Tables.{Boss, find_boss}
pub use enigma_behemoth.Postgres.Batch.Reorder.{
  dealt_to-perm, dealt_to-append, IsGain-perm, All-append, All_rest,
}
use enigma_behemoth.Postgres.Batch.Commit.{dealt_to}
use enigma_behemoth.System.{forget}
use enigma_behemoth.Postgres.Batch.Effect.{Pairs, Hurt}

pub dealt_to_none :
    (b : String) (es : List DamageEvent)
    → All (λ (e : DamageEvent). (e.boss_id == b) ≡ false) es
    → dealt_to b es ≡ 0
dealt_to_none b [] h = refl
dealt_to_none b (e ∷ es) h = ground (arith, h.0, dealt_to_none b es h.1)

pub dealt_to-forget :
    (b id : String) (es : List DamageEvent)
    → dealt_to b (forget id es) ≡ (if id == b then 0 else dealt_to b es)
dealt_to-forget b id [] = ground arith
dealt_to-forget b id (e ∷ es) =
    ground (arith, eq_iff e.boss_id id, eq_iff e.boss_id b, eq_iff id b, dealt_to-forget b id es)

pub find_boss-id :
    (id : String) (b : Boss) (bosses : List Boss) → find_boss id bosses ≡ some b → b.id ≡ id
unfolding find_boss
find_boss-id id b [] h = ground arith
find_boss-id id b (x ∷ xs) h = ground (arith, eq_iff x.id id, find_boss-id id b xs)

some_inj : {a b : Boss} → some a ≡ some b → a ≡ b
some_inj h = cc

pub find_boss-Hurt :
    (id : String) (b : Boss) (es : List DamageEvent) (xs ys : List Boss)
    → Pairs (Hurt es) xs ys
    → find_boss id xs ≡ some b
    → (b' : Boss) × (find_boss id ys ≡ some b') × (b'.max_hp ≡ b.max_hp)
unfolding find_boss
find_boss-Hurt id b es [] [] p h = ground arith
find_boss-Hurt id b es [] (y ∷ ys) p h = absurd p
find_boss-Hurt id b es (x ∷ xs) [] p h = absurd p
find_boss-Hurt id b es (x ∷ xs) (y ∷ ys) (hurt, rest) h = elim (Bool-cases (x.id == id)) [
  | inl e ↦
      let same : x ≡ b = some_inj (sym (rw e refl) ∙ h) in
      (y, rw (hurt.same_id, e) refl, hurt.same_max ∙ ap (λ (z : Boss). z.max_hp) same)
  | inr e ↦
      let (b', found, max) = find_boss-Hurt id b es xs ys rest (sym (rw e refl) ∙ h) in
      (b', rw (hurt.same_id, e) found, max)
]
