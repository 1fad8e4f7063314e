-- ===== src/Config/Checked.antt =====
-- What Load checks, and what a variable means.
use enigma_behemoth.Prelude.{
  ℕ, sym, List, [], ◌∷◌, eqb, ◌^◌, ◌<◌, ◌≤◌, ◌≡◌, refl, ap, ◌∙◌, String, Option, none, some, Bool,
  true, false, arith, ltb, if◌then◌else◌, inl, inr, Bool-cases, Option-cases, subst,
}
use enigma_behemoth.Prelude.Int.{ℤ, pos, negsuc, pos_part, neg_part, leb_ℤ, ◌<ℤ◌}
use enigma_behemoth.Errors.{ok}
use enigma_behemoth.Text.{codes, parse_int, print_int, parse_uint, in_int64}
use enigma_behemoth.Text.Decimal.{read_back, parse_int-print_int}
use enigma_behemoth.Config.Said.{IsSaid, read_all-IsSaid}
use enigma_behemoth.Config.{
  or_default, Tunables, Environ, ParseDuration, env_int, env_int64, read_all, check, load,
  writer_config,
}

-- The range of int64.
abbrev pub IsInt64 : ℤ → Type 0
IsInt64 z = (pos_part z < 2 ^ 63) × (neg_part z ≤ 2 ^ 63)

in_int64-IsInt64 :
    (negative : Bool) (n : Option ℕ) (z : ℤ) → in_int64 negative n ≡ some z → IsInt64 z
unfolding in_int64
in_int64-IsInt64 negative none z h = ground arith
in_int64-IsInt64 true (some n) z h = ground arith
in_int64-IsInt64 false (some n) z h = ground arith

parse_uint-IsInt64 :
    (negative : Bool) (s : List ℕ) (z : ℤ) → in_int64 negative (parse_uint s) ≡ some z → IsInt64 z
parse_uint-IsInt64 negative s z h = in_int64-IsInt64 negative (parse_uint s) z h

parse_int-IsInt64 : (s : List ℕ) (z : ℤ) → parse_int s ≡ some z → IsInt64 z
unfolding parse_int
parse_int-IsInt64 [] z h = ground arith
parse_int-IsInt64 (c ∷ s) z h = elim (Bool-cases (eqb c b'-')) [
  | inl e ↦ in_int64-IsInt64 true (parse_uint s) z (sym (rw e refl) ∙ h)
  | inr e ↦ elim (Bool-cases (eqb c b'+')) [
    | inl f ↦ in_int64-IsInt64 false (parse_uint s) z (sym (rw (e, f) refl) ∙ h)
    | inr f ↦ in_int64-IsInt64 false (parse_uint (c ∷ s)) z (sym (rw (e, f) refl) ∙ h)
  ]
]

or_default-IsInt64 : (s : List ℕ) (def : ℤ) → IsInt64 def → IsInt64 (or_default (parse_int s) def)
or_default-IsInt64 s def d = elim (Option-cases (parse_int s)) [
  | inl e ↦ rw e d
  | inr (z, e) ↦ rw e (parse_int-IsInt64 s z e)
]

env_int-unset :
    (lookup : Environ) (key : String) (def : ℤ)
    → lookup key ≡ none
    → (env_int lookup key def ≡ def) × (env_int64 lookup key def ≡ def)
unfolding env_int env_int64
env_int-unset lookup key def e = (rw (e, env_int), rw (e, env_int64))

env_int-set :
    (lookup : Environ) (key v : String) (def : ℤ)
    → lookup key ≡ some v
    → (env_int lookup key def ≡ or_default (parse_int (codes v)) def)
      × (env_int64 lookup key def ≡ or_default (parse_int (codes v)) def)
unfolding env_int env_int64
env_int-set lookup key v def e = (rw (e, env_int), rw (e, env_int64))

env_int-IsInt64 :
    (lookup : Environ) (key : String) (def : ℤ)
    → IsInt64 def
    → IsInt64 (env_int lookup key def) × IsInt64 (env_int64 lookup key def)
env_int-IsInt64 lookup key def d = elim (Option-cases (lookup key)) [
  | inl e ↦ let (p, q) = env_int-unset lookup key def e in rw (p, q) (d, d)
  | inr (v, e) ↦
      let (p, q) = env_int-set lookup key v def e in
      let fits = or_default-IsInt64 (codes v) def d in rw (p, q) (fits, fits)
]

-- What the rest of the program may rely on.
pub record IsChecked (c : Tunables) : Type 0 where
  pub hit : pos 0 <ℤ c.max_damage_per_hit
  pub hit_bound : IsInt64 c.max_damage_per_hit
  pub concurrency : IsInt64 c.writer_concurrency
  pub conns : IsInt64 c.pg_max_conns
  pub batch : 0 < (writer_config c).max_batch
  pub batch_bound : (writer_config c).max_batch < 2 ^ 63
  pub queue : 0 < (writer_config c).queue_size
  pub queue_bound : (writer_config c).queue_size < 2 ^ 63

positive : (z : ℤ) → leb_ℤ z (pos 0) ≡ false → (pos 0 <ℤ z) × (0 < pos_part z)
positive (pos n) h = ground arith
positive (negsuc n) h = ground arith

ok_inj : {a b : Tunables} → ok a ≡ ok b → a ≡ b
ok_inj h = cc

check-ok :
    (c d : Tunables)
    → check c ≡ ok d
    → (c ≡ d)
      × (leb_ℤ c.max_damage_per_hit (pos 0) ≡ false)
      × (leb_ℤ c.batch_max_size (pos 0) ≡ false)
      × (leb_ℤ c.writer_queue_size (pos 0) ≡ false)
unfolding check
check-ok c d h = elim (Bool-cases (leb_ℤ c.max_damage_per_hit (pos 0))) [
  | inl x ↦ ground (arith, x, h)
  | inr x ↦ elim (Bool-cases (leb_ℤ c.batch_max_size (pos 0))) [
    | inl y ↦ ground (arith, x, y, h)
    | inr y ↦ elim (Bool-cases (leb_ℤ c.writer_queue_size (pos 0))) [
      | inl z ↦ ground (arith, x, y, z, h)
      | inr z ↦ (ok_inj (sym (rw (x, y, z) refl) ∙ h), x, y, z)
    ]
  ]
]

read_all-IsChecked :
    (parse : ParseDuration) (lookup : Environ)
    → leb_ℤ (read_all parse lookup).max_damage_per_hit (pos 0) ≡ false
    → leb_ℤ (read_all parse lookup).batch_max_size (pos 0) ≡ false
    → leb_ℤ (read_all parse lookup).writer_queue_size (pos 0) ≡ false
    → IsChecked (read_all parse lookup)
unfolding read_all writer_config
read_all-IsChecked parse lookup x y z = record {
  hit = (positive (read_all parse lookup).max_damage_per_hit x).0;
  hit_bound =
      (env_int-IsInt64 lookup "MAX_DAMAGE_PER_HIT" (pos 1000000000) (omega arith, omega arith)).1;
  concurrency = (env_int-IsInt64 lookup "WRITER_CONCURRENCY" (pos 8) (omega arith, omega arith)).0;
  conns = (env_int-IsInt64 lookup "PG_MAX_CONNS" (pos 20) (omega arith, omega arith)).0;
  batch = (positive (read_all parse lookup).batch_max_size y).1;
  batch_bound = (env_int-IsInt64 lookup "BATCH_MAX_SIZE" (pos 500) (omega arith, omega arith)).0.0;
  queue = (positive (read_all parse lookup).writer_queue_size z).1;
  queue_bound =
      (env_int-IsInt64 lookup "WRITER_QUEUE_SIZE" (pos 20000) (omega arith, omega arith)).0.0;
}

-- If Load gives no error, each setting is what its own variable says, or its default if the variable is not
-- set or not parsed (for a text: or empty); the limit on the damage of a hit, the batch size and the size of
-- the queue are positive; and these and the other two integer settings are in the range of int64, whatever
-- the environment holds.
pub load-IsChecked :
    (parse : ParseDuration) (lookup : Environ) (c : Tunables)
    → load parse lookup ≡ ok c
    → IsSaid parse lookup c × IsChecked c
unfolding load
load-IsChecked parse lookup c h =
    let (same, x, y, z) = check-ok (read_all parse lookup) c h in
    (
      subst (IsSaid parse lookup) same (read_all-IsSaid parse lookup),
      subst IsChecked same (read_all-IsChecked parse lookup x y z),
    )

-- The range of int64, as a test.
abbrev pub fits64 : ℤ → Bool
fits64 (pos n) = ltb n (2 ^ 63)
fits64 (negsuc n) = ltb n (2 ^ 63)

or_default-read_back : (z def : ℤ) → or_default (read_back z) def ≡ (if fits64 z then z else def)
or_default-read_back (pos n) def = ground arith
or_default-read_back (negsuc n) def = ground arith

-- A variable that is set to the decimal notation of an integer is read as that integer, if it is in the
-- range of int64, and as the default if it is not.
pub env_int-print_int :
    (lookup : Environ) (key v : String) (z def : ℤ)
    → lookup key ≡ some v
    → codes v ≡ print_int z
    → (env_int lookup key def ≡ (if fits64 z then z else def))
      × (env_int64 lookup key def ≡ (if fits64 z then z else def))
env_int-print_int lookup key v z def set written =
    let read : or_default (parse_int (codes v)) def ≡ (if fits64 z then z else def) =
      ap (λ (s : List ℕ). or_default (parse_int s) def) written
      ∙ ap (λ (r : Option ℤ). or_default r def) (parse_int-print_int z)
      ∙ or_default-read_back z def in
    let (p, q) = env_int-set lookup key v def set in (p ∙ read, q ∙ read)
