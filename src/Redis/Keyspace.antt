-- ===== src/Redis/Keyspace.antt =====
-- The part of Redis that a client can observe: keys with a value and an expiry, and the commands
-- that the scripts of internal/store/redis.go are written in, as a small language with its meaning.
-- Numbers, texts and sorted sets stand in maps of their own: no key is used at two types.
use mathlib.Core.Option
use enigma_behemoth.Prelude.{
  ℕ, ◌+◌, ◌≤◌, ◌≡◌, refl, arith, String, Option, none, some, List, [], ◌∷◌, Bool, true, false, ltb,
  lookup, insert, erase, if◌then◌else◌,
}
use enigma_behemoth.Prelude.Int.{ℤ, pos, ◌+ℤ◌}

pub record Cell {ℓ} (A : Type ℓ) : Type ℓ where
  pub value : A
  pub expires : Option ℕ

pub record Keyspace : Type 0 where
  pub ints : String → Option (Cell ℤ)
  pub texts : String → Option (Cell String)
  pub zsets : String → Option (Cell (List (String × ℤ)))

abbrev pub empty : Keyspace
empty = record { ints = λ k. none; texts = λ k. none; zsets = λ k. none }

-- A key past its deadline is gone.
abbrev pub passed : ℕ → Option ℕ → Bool
passed now none = false
passed now (some t) = if ltb now t then false else true

pub passed_later :
    (now later : ℕ) (e : Option ℕ) → now ≤ later → passed later e ≡ false → passed now e ≡ false
passed_later now later none le h = refl
passed_later now later (some t) le h = ground arith

module _ {ℓ} {A : Type ℓ} where
  abbrev pub live : ℕ → Option (Cell A) → Option (Cell A)
  live now none = none
  live now (some c) = if passed now c.expires then none else some c

  -- The value of a live key.
  abbrev pub read : ℕ → Option (Cell A) → Option A
  read now c = Option.map (λ x. x.value) (live now c)

  -- EXPIRE changes only a live key.
  abbrev pub set_expiry : ℕ → ℕ → Option (Cell A) → Option (Cell A)
  set_expiry now t c = Option.map {A = Cell A} (λ x. record x { expires = some t }) (live now c)

-- The members of a live sorted set; a missing key is the empty set.
abbrev pub members : ℕ → Option (Cell (List (String × ℤ))) → List (String × ℤ)
members now c = elim (live now c) [ none ↦ [] | some x ↦ x.value ]

abbrev pub or_zero : Option ℤ → ℤ
or_zero none = pos 0
or_zero (some v) = v

abbrev pub score : String → List (String × ℤ) → ℤ
score m z = or_zero (lookup m z)

-- ZINCRBY keeps the expiry of a live key and creates a missing one without.
abbrev pub increment :
    ℕ → ℤ → String → Option (Cell (List (String × ℤ))) → Option (Cell (List (String × ℤ)))
increment now a m c = elim (live now c) [
  | none ↦ some (record { value = (m, a) ∷ []; expires = none })
  | some x ↦ some (record x { value = insert m (score m x.value +ℤ a) x.value })
]

-- A sorted set that loses its last member is gone.
abbrev pub keep_nonempty : Option ℕ → List (String × ℤ) → Option (Cell (List (String × ℤ)))
keep_nonempty e [] = none
keep_nonempty e (x ∷ z) = some (record { value = x ∷ z; expires = e })

abbrev pub remove :
    ℕ → String → Option (Cell (List (String × ℤ))) → Option (Cell (List (String × ℤ)))
remove now m c = elim (live now c) [
  | none ↦ none
  | some x ↦ keep_nonempty x.expires (erase m x.value)
]

abbrev pub insert_all : List (String × ℤ) → List (String × ℤ) → List (String × ℤ)
insert_all [] z = z
insert_all ((m, s) ∷ rest) z = insert_all rest (insert m s z)

abbrev pub add_members :
    ℕ → List (String × ℤ) → Option (Cell (List (String × ℤ))) → Option (Cell (List (String × ℤ)))
add_members now ms c = elim (live now c) [
  | none ↦ keep_nonempty none (insert_all ms [])
  | some x ↦ keep_nonempty x.expires (insert_all ms x.value)
]

-- `deadline now e` is the instant at which a key set at `now` with expiry `e` is gone.
abbrev pub deadline : ℕ → Option ℕ → Option ℕ
deadline now none = none
deadline now (some d) = some (now + d)
