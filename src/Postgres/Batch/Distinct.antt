-- ===== src/Postgres/Batch/Distinct.antt =====
-- The two maps of a batch hold each key of the events once.
use enigma_behemoth.Prelude.{
  ℕ, ◌+◌, ◌*◌, ◌≤◌, String, ◌≡◌, refl, false, List, [], ◌∷◌, arith, ◌==◌, ◌⊎◌, if◌then◌else◌, All,
}
use enigma_behemoth.Prelude.Int.{ℤ, pos, pos_part}
use enigma_behemoth.Store.{DamageEvent}
use enigma_behemoth.Postgres.Batch.{Key, same_key, bump, at_key, per_key, keys}
use enigma_behemoth.Postgres.Batch.Keys.{same_key-eq, same_key_refl, count, sum_keys}
use enigma_behemoth.Postgres.Batch.Sums.{load}

abbrev IsDistinct : List (Key × ℤ) → Type 0
IsDistinct [] = Unit
IsDistinct ((k, v) ∷ m) = (count k (keys m) ≡ 0) × IsDistinct m

count-bump_ne :
    (j k : Key) (a : ℤ) (m : List (Key × ℤ))
    → same_key k j ≡ false
    → count j (keys (bump k a m)) ≡ count j (keys m)
unfolding bump
count-bump_ne j k a [] h = ground arith
count-bump_ne j k a ((i, v) ∷ m) h = ground (arith, count-bump_ne j k a m)

bump-IsDistinct : (k : Key) (a : ℤ) (m : List (Key × ℤ)) → IsDistinct m → IsDistinct (bump k a m)
unfolding bump
bump-IsDistinct k a [] d = (refl, tt)
bump-IsDistinct k a ((i, v) ∷ m) d =
    ground
      (arith, same_key-eq k i, same_key_refl k, count-bump_ne i k a m, bump-IsDistinct k a m d.1)

count-bump-ge :
    (j k : Key) (a : ℤ) (m : List (Key × ℤ)) → count j (keys m) ≤ count j (keys (bump k a m))
unfolding bump
count-bump-ge j k a [] = omega arith
count-bump-ge j k a ((i, v) ∷ m) = ground (arith, count-bump-ge j k a m)

count-bump-pos : (k : Key) (a : ℤ) (m : List (Key × ℤ)) → 1 ≤ count k (keys (bump k a m))
unfolding bump
count-bump-pos k a [] = ground (arith, same_key_refl k)
count-bump-pos k a ((i, v) ∷ m) = ground (arith, same_key_refl k, count-bump-pos k a m)

count-le-one : (k : Key) (m : List (Key × ℤ)) → IsDistinct m → count k (keys m) ≤ 1
count-le-one k [] d = omega arith
count-le-one k ((i, v) ∷ m) d = ground (arith, same_key-eq i k, count-le-one k m d.1)

at_key_missing : (k : Key) (m : List (Key × ℤ)) → count k (keys m) ≡ 0 → at_key k m ≡ pos 0
unfolding at_key
at_key_missing k [] h = refl
at_key_missing k ((i, v) ∷ m) h = ground (arith, at_key_missing k m)

module _ (f : DamageEvent → Key) where
  per_key-IsDistinct :
      (es : List DamageEvent) (m : List (Key × ℤ)) → IsDistinct m → IsDistinct (per_key f es m)
  unfolding per_key
  per_key-IsDistinct [] m d = d
  per_key-IsDistinct (e ∷ es) m d =
      per_key-IsDistinct es (bump (f e) e.applied m) (bump-IsDistinct (f e) e.applied m d)

  count-per_key-ge :
      (j : Key) (es : List DamageEvent) (m : List (Key × ℤ))
      → count j (keys m) ≤ count j (keys (per_key f es m))
  unfolding per_key
  count-per_key-ge j [] m = omega arith
  count-per_key-ge j (e ∷ es) m =
      omega
        (arith, count-bump-ge j (f e) e.applied m, count-per_key-ge j es (bump (f e) e.applied m))

  -- Each event's key stands in the map exactly once.
  pub per_key_once :
      (es : List DamageEvent) (m : List (Key × ℤ))
      → IsDistinct m
      → All (λ e. count (f e) (keys (per_key f es m)) ≡ 1) es
  unfolding per_key
  per_key_once [] m d = tt
  per_key_once (e ∷ es) m d =
      let m' = bump (f e) e.applied m in
      (
        omega (
          arith,
          count-bump-pos (f e) e.applied m,
          count-per_key-ge (f e) es m',
          count-le-one (f e) (per_key f es m')
              (per_key-IsDistinct es m' (bump-IsDistinct (f e) e.applied m d)),
        ),
        per_key_once es m' (bump-IsDistinct (f e) e.applied m d),
      )

  -- A sum over one boss of a weight that is zero but at one key.
  sum_keys_at :
      (b : String) (k : Key) (a : ℕ) (ks : List Key)
      → sum_keys b (λ j. if same_key k j then a else 0) ks
        ≡ (if k.boss == b then a * count k ks else 0)
  sum_keys_at b k a [] = ground arith
  sum_keys_at b k a (j ∷ ks) =
      ground (arith, same_key-eq k j, same_key-eq j k, same_key_refl k, sum_keys_at b k a ks)

  -- The damage of the events at one boss.
  abbrev pub boss_load : String → List DamageEvent → ℕ
  boss_load b [] = 0
  boss_load b (e ∷ es) = (if (f e).boss == b then pos_part e.applied else 0) + boss_load b es

  sum_keys-add :
      (b : String) (v w : Key → ℕ) (ks : List Key)
      → sum_keys b (λ k. v k + w k) ks ≡ sum_keys b v ks + sum_keys b w ks
  sum_keys-add b v w [] = omega arith
  sum_keys-add b v w (k ∷ ks) = ground (arith, sum_keys-add b v w ks)

  sum_keys-zero : (b : String) (ks : List Key) → sum_keys b (λ k. 0) ks ≡ 0
  sum_keys-zero b [] = refl
  sum_keys-zero b (k ∷ ks) = ground (arith, sum_keys-zero b ks)

  -- Summed by key or event by event, a boss takes the same damage.
  pub sum_keys-load :
      (b : String) (ks : List Key) (es : List DamageEvent)
      → All (λ e. count (f e) ks ≡ 1) es
      → sum_keys b (λ k. load f k es) ks ≡ boss_load b es
  sum_keys-load b ks [] h = sum_keys-zero b ks
  sum_keys-load b ks (e ∷ es) h = ground (
    arith,
    sum_keys-add b (λ k. if same_key (f e) k then pos_part e.applied else 0) (λ k. load f k es) ks,
    sum_keys_at b (f e) (pos_part e.applied) ks,
    sum_keys-load b ks es h.1,
  )

  -- A key that stands in the map twice or not at all carries nothing.
  pub load-count :
      (k : Key) (es : List DamageEvent) (v : ℕ)
      → at_key k (per_key f es []) ≡ pos v
      → (count k (keys (per_key f es [])) ≡ 1) ⊎ ((count k (keys (per_key f es [])) ≡ 0) × (v ≡ 0))
  load-count k es v h = ground (
    arith,
    count-le-one k (per_key f es []) (per_key-IsDistinct es [] tt),
    at_key_missing k (per_key f es []),
  )
