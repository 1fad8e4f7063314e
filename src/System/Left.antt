-- ===== src/System/Left.antt =====
-- What one hit and one undo do to the HP that is left of a boss, and what the passing of time does.
use enigma_behemoth.Prelude.{
  ℕ, ◌+◌, ◌-◌, ◌≤◌, String, ◌≡◌, refl, sym, ap, ◌∙◌, subst, Option, some, none, true, false, ◌==◌,
  All, arith, inl, inr, Bool-cases, Option-cases, min, eq_refl,
}
use enigma_behemoth.Prelude.Int.{ℤ, pos, negsuc, pos_part, neg_part, ◌<ℤ◌, eqb_ℤ, leb_ℤ, ◌+ℤ◌, ◌-ℤ◌}
use enigma_behemoth.Store.{ApplyResult, status_applied}
use enigma_behemoth.Redis.Keyspace.{Cell, read, passed, passed_later}
use enigma_behemoth.Redis.Snapshot.{Snapshot, hit, undo, landed}
use enigma_behemoth.Redis.Laws.{hit-Landed}
use enigma_behemoth.Postgres.Tables.{Boss}
use enigma_behemoth.Postgres.Batch.Sums.{IsGain}
use enigma_behemoth.Postgres.Batch.Commit.{dealt_to}
use enigma_behemoth.Errors.{ok}
use enigma_behemoth.System.{submitted}

-- An HP, if there is one, is the maximum less the damage dealt.
abbrev pub HasLeft : ℕ → ℕ → Option ℤ → Type 0
HasLeft max spent hp = (v : ℤ) → hp ≡ some v → v ≡ pos (max - spent)

pub boss_inj : {a b : Boss} → some a ≡ some b → a ≡ b
boss_inj h = cc

eq_ℤ : (a b : ℤ) → eqb_ℤ a b ≡ true → a ≡ b
eq_ℤ (pos a) (pos b) h = ground arith
eq_ℤ (pos a) (negsuc b) h = ground arith
eq_ℤ (negsuc a) (pos b) h = ground arith
eq_ℤ (negsuc a) (negsuc b) h = ground arith

gain-pos : (a : ℤ) → pos 0 <ℤ a → neg_part a ≡ 0
gain-pos (pos a) h = refl
gain-pos (negsuc a) h = absurd (omega arith)

pub some_inj : {a b : ℤ} → some a ≡ some b → a ≡ b
some_inj h = cc

pub ok_inj : {a b : ApplyResult} → ok a ≡ ok b → a ≡ b
ok_inj h = cc

abbrev pub Kept : ℕ → ℕ → Option ℤ → Type 0
Kept max spent hp = (spent ≤ max) × HasLeft max spent hp

pub rebase :
    (max n n' : ℕ) (hp hp' : Option ℤ) → n ≡ n' → hp ≡ hp' → Kept max n hp → Kept max n' hp'
rebase max n n' hp hp' p q h =
    subst (λ (m : ℕ). Kept max m hp') p (subst (λ (v : Option ℤ). Kept max n v) q h)

pub IsGain-submitted :
    (j player : String) (amount : ℤ) (c : Snapshot)
    → All IsGain (submitted j player (hit player amount c).0)
IsGain-submitted j player amount c =
    elim (Bool-cases (eqb_ℤ (hit player amount c).0.status status_applied)) [
      | inl e ↦
          let landing : (hit player amount c).0.status ≡ status_applied = eq_ℤ _ _ e in
          let (hp, has, l) = hit-Landed player amount c landing in rw e (gain-pos _ l.gained, tt)
      | inr e ↦ rw e tt
    ]

pub submitted_none :
    (id j player : String) (res : ApplyResult)
    → (j == id) ≡ false
    → dealt_to id (submitted j player res) ≡ 0
submitted_none id j player res differ = ground (arith, differ)

landed_left :
    (amount : ℤ) (hp : ℕ)
    → leb_ℤ amount (pos 0) ≡ false
    → (d : ℕ) × (landed (pos hp) amount ≡ pos d) × (d ≤ hp) × (pos hp -ℤ pos d ≡ pos (hp - d))
landed_left (pos a) hp h = (min hp a, ground arith, ground arith, ground arith)
landed_left (negsuc a) hp h = ground arith

refund :
    (a : ℤ) (max spent : ℕ)
    → neg_part a ≡ 0
    → spent + pos_part a ≤ max
    → pos (max - (spent + pos_part a)) +ℤ a ≡ pos (max - spent)
refund (pos n) max spent g h = ground arith
refund (negsuc n) max spent g h = absurd (omega arith)

module _ (id player : String) (amount : ℤ) (c : Snapshot) (max spent : ℕ) where
  pub hit-HasLeft :
      spent ≤ max
      → HasLeft max spent c.hp
      → let (r, c') = hit player amount c in
        let spent' = spent + dealt_to id (submitted id player r) in
        (spent' ≤ max) × HasLeft max spent' c'.hp
  hit-HasLeft within left = elim (Option-cases c.hp) [
    | inl e ↦ rw e (omega arith, λ v h. ground arith)
    | inr (hp, e) ↦
        let full : hp ≡ pos (max - spent) = left hp e in
        elim (Bool-cases (leb_ℤ amount (pos 0))) [
          | inl x ↦ rw (e, x) (omega arith, λ v h. ground (arith, some_inj h, full))
          | inr x ↦ elim (Bool-cases (leb_ℤ hp (pos 0))) [
            | inl y ↦ rw (e, x, y) (omega arith, λ v h. ground (arith, some_inj h, full))
            | inr y ↦
                let (d, lands, small, rest) = landed_left amount (max - spent) x in
                rw (e, x, y, full, lands, eq_refl id)
                  (omega arith, λ v h. sym (some_inj h) ∙ rest ∙ ap pos (omega arith))
          ]
        ]
  ]

  pub undo-Kept :
      neg_part amount ≡ 0
      → Kept max (spent + pos_part amount) c.hp
      → Kept max spent (undo player amount c).hp
  undo-Kept gain (within, left) = (
    omega arith,
    elim (Option-cases c.hp) [
      | inl e ↦ rw e (λ v h. ground arith)
      | inr (hp, e) ↦
          let full : hp ≡ pos (max - (spent + pos_part amount)) = left hp e in
          elim (Bool-cases (leb_ℤ amount (pos 0))) [
            | inl x ↦ rw (e, x) (λ v h. sym (some_inj h) ∙ full ∙ ap pos (ground arith))
            | inr x ↦
                rw (e, x) (λ v h. sym (some_inj h) ∙ rw full (refund amount max spent gain within))
          ]
    ],
  )

pub read_later :
    {A : Type 0} (now later : ℕ) (c : Option (Cell A)) (v : A)
    → now ≤ later
    → read later c ≡ some v
    → read now c ≡ some v
read_later now later none v le h = h
read_later now later (some x) v le h = elim (Bool-cases (passed later x.expires)) [
  | inl e ↦ ground (arith, e)
  | inr e ↦ ground (arith, e, passed_later now later x.expires le e)
]
