-- ===== src/Postgres/Batch/Sums.antt =====
-- The two maps of a batch hold the sums of its events, and no key twice.
use enigma_behemoth.Prelude.{
  ℕ, ◌+◌, ◌^◌, ◌<◌, ◌≡◌, refl, List, [], ◌∷◌, arith, inl, inr, if◌then◌else◌, All, Bool-cases,
}
use enigma_behemoth.Prelude.Int.{ℤ, pos, pos_part, neg_part, add64, add64-pos}
use enigma_behemoth.Store.{DamageEvent}
use enigma_behemoth.Postgres.Batch.{Key, same_key, bump, at_key, per_key}
use enigma_behemoth.Postgres.Batch.Keys.{same_key-eq, same_key_refl}

-- An event that takes no HP back.
abbrev pub IsGain : DamageEvent → Type 0
IsGain e = neg_part e.applied ≡ 0

-- The damage of the events that `f` files under a key.
abbrev pub load : (DamageEvent → Key) → Key → List DamageEvent → ℕ
load f k [] = 0
load f k (e ∷ es) = (if same_key (f e) k then pos_part e.applied else 0) + load f k es

abbrev pub total_applied : List DamageEvent → ℕ
total_applied [] = 0
total_applied (e ∷ es) = pos_part e.applied + total_applied es

at_key-bump :
    (j k : Key) (a : ℤ) (m : List (Key × ℤ))
    → at_key j (bump k a m) ≡ (if same_key k j then add64 (at_key j m) a else at_key j m)
unfolding at_key bump
at_key-bump j k a [] = refl
at_key-bump j k a ((i, v) ∷ m) =
    ground (
      arith,
      same_key-eq i k,
      same_key-eq i j,
      same_key-eq k j,
      same_key_refl k,
      at_key-bump j k a m,
    )

-- With no negative event and a sum below 2^63 nothing wraps.
pub at_key-per_key :
    (f : DamageEvent → Key) (k : Key) (es : List DamageEvent) (m : List (Key × ℤ)) (v : ℕ)
    → at_key k m ≡ pos v
    → All IsGain es
    → v + load f k es < 2 ^ 63
    → at_key k (per_key f es m) ≡ pos (v + load f k es)
unfolding per_key
at_key-per_key f k [] m v h g b = ground arith
at_key-per_key f k (e ∷ es) m v h g b = elim (Bool-cases (same_key (f e) k)) [
  | inl hit ↦ ground (
    arith,
    at_key-bump k (f e) e.applied m,
    add64-pos v (pos_part e.applied),
    at_key-per_key f k es (bump (f e) e.applied m) (v + pos_part e.applied),
  )
  | inr miss ↦
      ground
        (arith, at_key-bump k (f e) e.applied m, at_key-per_key f k es (bump (f e) e.applied m) v)
]
