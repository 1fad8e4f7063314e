-- ===== src/Postgres/Batch/Bosses.antt =====
-- The updates of a batch lower the HP of each boss by the sum of its keys, and the boss is defeated
-- exactly when nothing is left.
use enigma_behemoth.Prelude.{
  ℕ, ◌-◌, ◌<◌, String, ◌≡◌, refl, true, false, List, [], ◌∷◌, map, none, some, arith, ◌==◌,
  if◌then◌else◌, leb, All, ap, eq_iff,
}
use enigma_behemoth.Prelude.Int.{ℤ, pos}
use enigma_behemoth.Postgres.Tables.{Boss, bigint_end, strike, update_boss}
use enigma_behemoth.Postgres.Batch.{Key, at_key, updates}
use enigma_behemoth.Postgres.Batch.Keys.{sum_keys}

-- The state that the HP implies.
abbrev pub state_of : ℕ → String
state_of hp = if leb hp 0 then "defeated" else "alive"

pub record IsSettled (b : Boss) : Type 0 where
  pub fits : b.current_hp < bigint_end
  pub state : b.state ≡ state_of b.current_hp

-- One boss after the update for one key.
pub struck : ℕ → Key → ℕ → Boss → Boss
struck now k n b =
    if b.id == k.boss
    then record b {
      current_hp = b.current_hp - n;
      state = state_of (b.current_hp - n);
      defeated_at =
          if leb (b.current_hp - n) 0
          then elim b.defeated_at [ none ↦ some now | some t ↦ some t ]
          else b.defeated_at;
      updated_at = now;
    }
    else b

strike-struck :
    (now : ℕ) (k : Key) (n : ℕ) (b : Boss)
    → IsSettled b
    → (b.id == k.boss) ≡ true
    → strike now (pos n) b ≡ some (struck now k n b)
unfolding strike struck
strike-struck now k n b h e = ground arith

pub struck-IsSettled :
    (now : ℕ) (k : Key) (n : ℕ) (b : Boss) → IsSettled b → IsSettled (struck now k n b)
unfolding struck
struck-IsSettled now k n b h = ground arith

struck_miss :
    (now : ℕ) (k : Key) (n : ℕ) (b : Boss) → (b.id == k.boss) ≡ false → struck now k n b ≡ b
unfolding struck
struck_miss now k n b e = rw e

update_boss-struck :
    (now : ℕ) (k : Key) (n : ℕ) (bosses : List Boss)
    → All IsSettled bosses
    → update_boss now k.boss (pos n) bosses ≡ some (map (struck now k n) bosses)
unfolding update_boss
update_boss-struck now k n [] h = refl
update_boss-struck now k n (b ∷ rest) h =
    ground (
      arith,
      strike-struck now k n b h.0,
      struck_miss now k n b,
      update_boss-struck now k n rest h.1,
    )

All-struck :
    (now : ℕ) (k : Key) (n : ℕ) (bosses : List Boss)
    → All IsSettled bosses
    → All IsSettled (map (struck now k n) bosses)
All-struck now k n [] h = tt
All-struck now k n (b ∷ rest) h = (struck-IsSettled now k n b h.0, All-struck now k n rest h.1)

module _ (now : ℕ) (amount : Key → ℕ) where
  -- One boss after the updates for all keys.
  pub struck_all : List Key → Boss → Boss
  struck_all [] b = b
  struck_all (k ∷ ks) b = struck_all ks (struck now k (amount k) b)

  map-struck_all :
      (k : Key) (ks : List Key) (bosses : List Boss)
      → map (struck_all ks) (map (struck now k (amount k)) bosses)
        ≡ map (struck_all (k ∷ ks)) bosses
  unfolding struck_all
  map-struck_all k ks [] = refl
  map-struck_all k ks (b ∷ rest) = ap (λ r. struck_all (k ∷ ks) b ∷ r) (map-struck_all k ks rest)

  map-struck_none : (bosses : List Boss) → bosses ≡ map (struck_all []) bosses
  unfolding struck_all
  map-struck_none [] = refl
  map-struck_none (b ∷ rest) = ap (λ r. b ∷ r) (map-struck_none rest)

  pub updates-struck_all :
      (m : List (Key × ℤ))
      → ((k : Key) → at_key k m ≡ pos (amount k))
      → (ks : List Key) (bosses : List Boss) → All IsSettled bosses
      → updates now m ks bosses ≡ some (map (struck_all ks) bosses)
  unfolding updates
  updates-struck_all m sums [] bosses h = ap some (map-struck_none bosses)
  updates-struck_all m sums (k ∷ ks) bosses h = ground (
    arith,
    sums k,
    update_boss-struck now k (amount k) bosses h,
    updates-struck_all m sums ks (map (struck now k (amount k)) bosses)
        (All-struck now k (amount k) bosses h),
    map-struck_all k ks bosses,
  )

  id-struck : (k : Key) (b : Boss) → (struck now k (amount k) b).id ≡ b.id
  unfolding struck
  id-struck k b = ground arith

  hp-struck :
      (k : Key) (b : Boss)
      → (struck now k (amount k) b).current_hp
        ≡ b.current_hp - (if k.boss == b.id then amount k else 0)
  unfolding struck
  hp-struck k b = ground (arith, eq_iff b.id k.boss, eq_iff k.boss b.id)

  pub id-struck_all :
      (ks : List Key) (b : Boss)
      → ((struck_all ks b).id ≡ b.id) × ((struck_all ks b).max_hp ≡ b.max_hp)
  unfolding struck_all struck
  id-struck_all [] b = (refl, refl)
  id-struck_all (k ∷ ks) b = ground (arith, id-struck_all ks (struck now k (amount k) b))

  pub struck_all-IsSettled : (ks : List Key) (b : Boss) → IsSettled b → IsSettled (struck_all ks b)
  unfolding struck_all
  struck_all-IsSettled [] b h = h
  struck_all-IsSettled (k ∷ ks) b h =
      struck_all-IsSettled ks (struck now k (amount k) b) (struck-IsSettled now k (amount k) b h)

  pub hp-struck_all :
      (ks : List Key) (b : Boss)
      → (struck_all ks b).current_hp ≡ b.current_hp - sum_keys b.id amount ks
  unfolding struck_all
  hp-struck_all [] b = omega arith
  hp-struck_all (k ∷ ks) b = ground (
    arith,
    hp-struck k b,
    hp-struck_all ks (struck now k (amount k) b),
    ap (λ i. sum_keys i amount ks) (id-struck k b),
  )
