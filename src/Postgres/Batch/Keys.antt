-- ===== src/Postgres/Batch/Keys.antt =====
-- The keys of a batch: equality, counting, and sums over keys, whatever the iteration order.
use mathlib.Core.List.{Perm, Permᴰ}
use mathlib.Core.List.Perm
use mathlib.Core.Logic.{∥∥₁_elim}
use native.Mathlib.Nat.{ℕ_set}
use enigma_behemoth.Prelude.{
  ℕ, ◌+◌, ◌≡◌, refl, ap, ◌∙◌, true, List, [], ◌∷◌, arith, eq_iff, eq_refl, ◌==◌, String,
  if◌then◌else◌, inl, inr, Bool-cases,
}
use enigma_behemoth.Postgres.Batch.{Key, same_key, insert_key, sort_keys, key_lt}

pub same_key-eq : (j k : Key) → same_key j k ≡ true → j ≡ k
unfolding same_key
same_key-eq j k h = ground (arith, eq_iff j.boss k.boss, eq_iff j.player k.player)

pub same_key_refl : (k : Key) → same_key k k ≡ true
unfolding same_key
same_key_refl k = ground (arith, eq_refl k.boss, eq_refl k.player)

-- The sum of a weight over the keys of a list, whatever their order.
abbrev pub weigh : (Key → ℕ) → List Key → ℕ
weigh w [] = 0
weigh w (k ∷ ks) = w k + weigh w ks

-- How often a key stands in a list.
abbrev pub count : Key → List Key → ℕ
count k = weigh (λ j. if same_key j k then 1 else 0)

-- The sum of `amount` over the keys of one boss.
abbrev pub sum_keys : String → (Key → ℕ) → List Key → ℕ
sum_keys b amount = weigh (λ k. if k.boss == b then amount k else 0)

sort-insert-perm : (k : Key) (ks : List Key) → Perm (insert_key k ks) (k ∷ ks)
unfolding insert_key
sort-insert-perm k [] = Perm.refl _
sort-insert-perm k (j ∷ ks) = elim (Bool-cases (key_lt j k)) [
  | inl e ↦ rw e (Perm.trans (Perm.cons j (sort-insert-perm k ks)) (Perm.swap k j ks))
  | inr e ↦ rw e (Perm.refl _)
]

-- Sorting loses no key and makes none up.
pub sort-perm : (ks : List Key) → Perm (sort_keys ks) ks
unfolding sort_keys
sort-perm [] = Perm.refl _
sort-perm (k ∷ ks) = Perm.trans (sort-insert-perm k (sort_keys ks)) (Perm.cons k (sort-perm ks))

weigh-permᴰ : (w : Key → ℕ) {xs ys : List Key} → Permᴰ xs ys → weigh w xs ≡ weigh w ys
weigh-permᴰ w Permᴰ.nil = refl
weigh-permᴰ w (Permᴰ.cons e p) = omega (arith, ap w e, weigh-permᴰ w p)
weigh-permᴰ w (Permᴰ.swap d e) = omega (arith, ap w d, ap w e)
weigh-permᴰ w (Permᴰ.trans p q) = weigh-permᴰ w p ∙ weigh-permᴰ w q

pub weigh-perm : (w : Key → ℕ) {xs ys : List Key} → Perm xs ys → weigh w xs ≡ weigh w ys
weigh-perm w p = ∥∥₁_elim p (ℕ_set _ _) (weigh-permᴰ w)
