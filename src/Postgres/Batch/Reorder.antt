-- ===== src/Postgres/Batch/Reorder.antt =====
-- The damage of events, whatever their order.
use mathlib.Core.List.{Perm, Permᴰ}
use mathlib.Core.Logic.{∥∥₁_elim}
use native.Mathlib.Nat.{ℕ_set}
use enigma_behemoth.Prelude.{
  ℕ, ◌+◌, String, ◌≡◌, refl, sym, ap, ◌∙◌, List, [], ◌∷◌, ◌++◌, Bool, true, ◌==◌, All, arith,
  if◌then◌else◌,
}
use enigma_behemoth.Prelude.Int.{pos_part, neg_part}
use enigma_behemoth.Store.{DamageEvent}
use enigma_behemoth.Postgres.Batch.{Key, key_of, same_key}
use enigma_behemoth.Postgres.Batch.Sums.{IsGain, total_applied}
use enigma_behemoth.Postgres.Batch.Commit.{dealt, dealt_to}

abbrev pub sum_by : (DamageEvent → ℕ) → List DamageEvent → ℕ
sum_by w [] = 0
sum_by w (e ∷ es) = w e + sum_by w es

sum_by-permᴰ :
    (w : DamageEvent → ℕ) {xs ys : List DamageEvent} → Permᴰ xs ys → sum_by w xs ≡ sum_by w ys
sum_by-permᴰ w Permᴰ.nil = refl
sum_by-permᴰ w (Permᴰ.cons e p) = omega (arith, ap w e, sum_by-permᴰ w p)
sum_by-permᴰ w (Permᴰ.swap d e) = omega (arith, ap w d, ap w e)
sum_by-permᴰ w (Permᴰ.trans p q) = sum_by-permᴰ w p ∙ sum_by-permᴰ w q

pub sum_by-perm :
    (w : DamageEvent → ℕ) {xs ys : List DamageEvent} → Perm xs ys → sum_by w xs ≡ sum_by w ys
sum_by-perm w p = ∥∥₁_elim p (ℕ_set _ _) (sum_by-permᴰ w)

abbrev weight : String → DamageEvent → ℕ
weight b e = if e.boss_id == b then pos_part e.applied else 0

player_weight : Key → DamageEvent → ℕ
player_weight k e = if same_key (key_of e) k then pos_part e.applied else 0

sum_by-dealt : (k : Key) (es : List DamageEvent) → sum_by (player_weight k) es ≡ dealt k es
unfolding player_weight
sum_by-dealt k [] = refl
sum_by-dealt k (e ∷ es) = omega (arith, sum_by-dealt k es)

pub dealt-perm : (k : Key) {xs ys : List DamageEvent} → Perm xs ys → dealt k xs ≡ dealt k ys
dealt-perm k {xs} {ys} p =
    omega (arith, sum_by-perm (player_weight k) p, sum_by-dealt k xs, sum_by-dealt k ys)

pub dealt-append :
    (k : Key) (xs ys : List DamageEvent) → dealt k (xs ++ ys) ≡ dealt k xs + dealt k ys
dealt-append k [] ys = omega arith
dealt-append k (x ∷ xs) ys = omega (arith, dealt-append k xs ys)

sum_by-dealt_to : (b : String) (es : List DamageEvent) → sum_by (weight b) es ≡ dealt_to b es
sum_by-dealt_to b [] = refl
sum_by-dealt_to b (e ∷ es) = omega (arith, sum_by-dealt_to b es)

pub dealt_to-perm :
    (b : String) {xs ys : List DamageEvent} → Perm xs ys → dealt_to b xs ≡ dealt_to b ys
dealt_to-perm b {xs} {ys} p =
    omega (arith, sum_by-perm (weight b) p, sum_by-dealt_to b xs, sum_by-dealt_to b ys)

pub dealt_to-append :
    (b : String) (xs ys : List DamageEvent) → dealt_to b (xs ++ ys) ≡ dealt_to b xs + dealt_to b ys
dealt_to-append b [] ys = omega arith
dealt_to-append b (x ∷ xs) ys = omega (arith, dealt_to-append b xs ys)

abbrev loss : DamageEvent → ℕ
loss e = neg_part e.applied

IsGain-loss : (es : List DamageEvent) → sum_by loss es ≡ 0 → All IsGain es
IsGain-loss [] h = tt
IsGain-loss (e ∷ es) h = (omega arith, IsGain-loss es (omega arith))

loss-IsGain : (es : List DamageEvent) → All IsGain es → sum_by loss es ≡ 0
loss-IsGain [] h = refl
loss-IsGain (e ∷ es) h = omega (arith, h.0, loss-IsGain es h.1)

pub IsGain-perm : {xs ys : List DamageEvent} → Perm xs ys → All IsGain xs → All IsGain ys
IsGain-perm {xs} {ys} p h = IsGain-loss ys (sym (sum_by-perm loss p) ∙ loss-IsGain xs h)

pub All-append {ℓ} :
    (P : DamageEvent → Type ℓ) (xs ys : List DamageEvent) → All P xs → All P ys → All P (xs ++ ys)
All-append P [] ys h k = k
All-append P (x ∷ xs) ys h k = (h.0, All-append P xs ys h.1 k)

pub All_rest {ℓ} :
    (P : DamageEvent → Type ℓ) (xs ys : List DamageEvent) → All P (xs ++ ys) → All P ys
All_rest P [] ys h = h
All_rest P (x ∷ xs) ys h = All_rest P xs ys h.1

abbrev miss : (DamageEvent → Bool) → DamageEvent → ℕ
miss b e = if b e then 0 else 1

all_none :
    (b : DamageEvent → Bool) (es : List DamageEvent)
    → All (λ (e : DamageEvent). b e ≡ true) es
    → sum_by (miss b) es ≡ 0
all_none b [] h = refl
all_none b (e ∷ es) h = ground (arith, h.0, all_none b es h.1)

none_all :
    (b : DamageEvent → Bool) (es : List DamageEvent)
    → sum_by (miss b) es ≡ 0
    → All (λ (e : DamageEvent). b e ≡ true) es
none_all b [] h = tt
none_all b (e ∷ es) h = (ground arith, none_all b es (ground arith))

-- What holds of all events holds of them in another order.
pub All-perm :
    (b : DamageEvent → Bool) {xs ys : List DamageEvent}
    → Perm xs ys
    → All (λ (e : DamageEvent). b e ≡ true) xs
    → All (λ (e : DamageEvent). b e ≡ true) ys
All-perm b {xs} {ys} p h = none_all b ys (sym (sum_by-perm (miss b) p) ∙ all_none b xs h)

sum_by-total_applied :
    (es : List DamageEvent) → sum_by (λ e. pos_part (DamageEvent.applied e)) es ≡ total_applied es
sum_by-total_applied [] = refl
sum_by-total_applied (e ∷ es) = omega (arith, sum_by-total_applied es)

pub total_applied-perm :
    {xs ys : List DamageEvent} → Perm xs ys → total_applied xs ≡ total_applied ys
total_applied-perm {xs} {ys} p = omega (
  arith,
  sum_by-perm (λ e. pos_part (DamageEvent.applied e)) p,
  sum_by-total_applied xs,
  sum_by-total_applied ys,
)
