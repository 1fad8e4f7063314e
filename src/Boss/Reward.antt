-- ===== src/Boss/Reward.antt =====
-- internal/boss/reward.go, and the float64 operations that price a claim. A float64 is its bit pattern,
-- a number; the operations are a parameter.
use native.Mathlib.Nat.{div-zero, div-mul-le_self, le-div_iff_mul-le, le_trans}
use enigma_behemoth.Prelude.{
  ℕ, zero, suc, inl, inr, Bool-cases, ◌*◌, ◌/◌, ◌≤◌, ◌<◌, String, ◌≡◌, ap, List, [], ◌∷◌, Bool,
  true, ◌==◌, leb, arith, if◌then◌else◌,
}
use enigma_behemoth.Prelude.Int.{ℤ, pos}

-- `ge x c` is `x >= c` for an integer constant `c`. The laws are those of IEEE 754, rounding to nearest,
-- on numbers that are not negative: each operation is monotone.
pub record FloatOps : Type 1 where
  pub of_int64 : ℤ → ℕ
  pub div : ℕ → ℕ → ℕ
  pub mul : ℕ → ℕ → ℕ
  pub ge : ℕ → ℕ → Bool
  pub Le : ℕ → ℕ → Type 0
  pub of_int64_mono : (a b : ℕ) → a ≤ b → Le (of_int64 (pos a)) (of_int64 (pos b))
  pub div_mono :
      (x y c : ℕ) → 0 < c → Le x y → Le (div x (of_int64 (pos c))) (div y (of_int64 (pos c)))
  pub mul_mono : (x y c : ℕ) → Le x y → Le (mul x (of_int64 (pos c))) (mul y (of_int64 (pos c)))
  pub ge_mono : (x y c : ℕ) → Le x y → ge x c ≡ true → ge y c ≡ true

abbrev pub tier_legendary : String
tier_legendary = "legendary"

abbrev pub tier_epic : String
tier_epic = "epic"

abbrev pub tier_rare : String
tier_rare = "rare"

abbrev pub tier_uncommon : String
tier_uncommon = "uncommon"

abbrev pub tier_common : String
tier_common = "common"

unfoldable pub tier_for : FloatOps → ℕ → String
tier_for F pct =
    if F.ge pct 20
    then tier_legendary
    else if F.ge pct 10
    then tier_epic
    else if F.ge pct 5
    then tier_rare
    else if F.ge pct 1
    then tier_uncommon
    else tier_common

pub record Reward : Type 0 where
  pub gold : ℕ
  pub items : List String

unfoldable pub reward_for : String → Reward
reward_for tier =
    if tier == tier_legendary
    then record { gold = 10000; items = "Behemoth Crown" ∷ "Legendary Chest" ∷ [] }
    else if tier == tier_epic
    then record { gold = 5000; items = "Epic Chest" ∷ [] }
    else if tier == tier_rare
    then record { gold = 2000; items = "Rare Chest" ∷ [] }
    else if tier == tier_uncommon
    then record { gold = 500; items = "Uncommon Chest" ∷ [] }
    else record { gold = 100; items = "Common Chest" ∷ [] }

-- The percentage that Claim prices: float64(total) / float64(max) * 100.
unfoldable pub pct_of : FloatOps → ℕ → ℕ → ℕ
pct_of F total max =
    F.mul (F.div (F.of_int64 (pos total)) (F.of_int64 (pos max))) (F.of_int64 (pos 100))

abbrev pub gold_for : FloatOps → ℕ → ℕ
gold_for F pct = (reward_for (tier_for F pct)).gold

-- The gold by the thresholds alone.
abbrev gold_by_tests : FloatOps → ℕ → ℕ
gold_by_tests F x =
    if F.ge x 20
    then 10000
    else if F.ge x 10
    then 5000
    else if F.ge x 5
    then 2000
    else if F.ge x 1
    then 500
    else 100

gold_of :
    (F : FloatOps) (x : ℕ) (t : String) → tier_for F x ≡ t → gold_for F x ≡ (reward_for t).gold
gold_of F x t e = ap (λ (u : String). (reward_for u).gold) e

gold_for-tests : (F : FloatOps) (x : ℕ) → gold_for F x ≡ gold_by_tests F x
unfolding tier_for reward_for
gold_for-tests F x = elim (Bool-cases (F.ge x 20)) [
  | inl a ↦ rw a (gold_of F x tier_legendary (rw a))
  | inr a ↦ elim (Bool-cases (F.ge x 10)) [
    | inl b ↦ rw (a, b) (gold_of F x tier_epic (rw (a, b)))
    | inr b ↦ elim (Bool-cases (F.ge x 5)) [
      | inl c ↦ rw (a, b, c) (gold_of F x tier_rare (rw (a, b, c)))
      | inr c ↦ elim (Bool-cases (F.ge x 1)) [
        | inl d ↦ rw (a, b, c, d) (gold_of F x tier_uncommon (rw (a, b, c, d)))
        | inr d ↦ rw (a, b, c, d) (gold_of F x tier_common (rw (a, b, c, d)))
      ]
    ]
  ]
]

-- A higher percentage never earns less gold.
pub gold_mono : (F : FloatOps) (x y : ℕ) → F.Le x y → gold_for F x ≤ gold_for F y
gold_mono F x y h = ground (
  arith,
  gold_for-tests F x,
  gold_for-tests F y,
  F.ge_mono x y 20 h,
  F.ge_mono x y 10 h,
  F.ge_mono x y 5 h,
  F.ge_mono x y 1 h,
)

-- Of two contributors to one boss, the one with the greater total never earns less gold.
gold-pct_of_mono :
    (F : FloatOps) (a b max : ℕ)
    → 0 < max
    → a ≤ b
    → gold_for F (pct_of F a max) ≤ gold_for F (pct_of F b max)
unfolding pct_of
gold-pct_of_mono F a b max h le =
    gold_mono F _ _ (F.mul_mono _ _ 100 (F.div_mono _ _ max h (F.of_int64_mono a b le)))

-- Exact arithmetic on millionths, as an instance.
abbrev pub millionth : ℕ
millionth = 1_000_000

unfoldable pub scaled : ℤ → ℕ
scaled (pos n) = n * millionth
scaled _ = 0

pub mul_right_mono : (x y c : ℕ) → x ≤ y → x * c ≤ y * c
mul_right_mono x y c h = grind arith

pub scaled_mono : (a b : ℕ) → a ≤ b → scaled (pos a) ≤ scaled (pos b)
unfolding scaled
scaled_mono a b h = omega arith

pub leb_mono : (x y c : ℕ) → x ≤ y → leb (c * millionth) x ≡ true → leb (c * millionth) y ≡ true
leb_mono x y c h t = ground arith

pub div_right_mono : (x y c : ℕ) → x ≤ y → x / c ≤ y / c
div_right_mono x y zero h = omega (arith, div-zero x, div-zero y)
div_right_mono x y (suc c) h =
    (le-div_iff_mul-le {k = suc c} {x = x / suc c} {y = y} (omega arith)).1
      (le_trans (div-mul-le_self x (suc c)) h)

-- Millionths: exact on the thresholds.
abbrev pub millionths : FloatOps
millionths = record {
  of_int64 = scaled;
  div = λ x y. x * millionth / y;
  mul = λ x y. x * y / millionth;
  ge = λ x c. leb (c * millionth) x;
  Le = λ x y. x ≤ y;
  of_int64_mono = scaled_mono;
  div_mono = λ x y c h le. div_right_mono _ _ _ (mul_right_mono x y millionth le);
  mul_mono = λ x y c le. div_right_mono _ _ _ (mul_right_mono x y (scaled (pos c)) le);
  ge_mono = leb_mono;
}
