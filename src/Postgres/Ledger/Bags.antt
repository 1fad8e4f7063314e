-- ===== src/Postgres/Ledger/Bags.antt =====
-- Lists up to order, and the damage of a bag of events.
use mathlib.Core.List.{Perm, append_assoc, map-append, perm_append_comm}
use mathlib.Core.List.Perm
use mathlib.Core.Quot
use mathlib.Core.Quot.{Quot, Quot-set}
use native.Mathlib.Nat.{ℕ_set}
use enigma_behemoth.Prelude.{ℕ, ◌+◌, String, ◌≡◌, ap, List, ◌++◌, map}
use enigma_behemoth.Store.{DamageEvent}
use enigma_behemoth.Postgres.Batch.{Key}
use enigma_behemoth.Postgres.Batch.Commit.{dealt, dealt_to}
use enigma_behemoth.Postgres.Batch.Reorder.{
  dealt-perm, dealt-append, dealt_to-perm, dealt_to-append,
}

abbrev pub Bag {ℓ} : Type ℓ → Type ℓ
Bag A = Quot (λ (xs ys : List A). Perm xs ys)

abbrev pub of_list {ℓ} : {A : Type ℓ} → List A → Bag A
of_list = Quot.mk

unfoldable pub add_all {ℓ} : {A : Type ℓ} → List A → Bag A → Bag A
add_all xs =
    Quot.lift Quot-set (λ ys. of_list (xs ++ ys)) (λ ys zs p. Quot.sound (Perm.append_left xs p))

unfoldable pub union {ℓ} : {A : Type ℓ} → Bag A → Bag A → Bag A
unfolding add_all
union x y =
    Quot.lift Quot-set (λ xs. add_all xs y)
      (λ xs zs p.
        Quot.ind {β = λ b. add_all xs b ≡ add_all zs b} (λ b. Quot-set _ _)
          (λ ys. Quot.sound (Perm.append_right ys p)) y)
      x

unfoldable pub map_bag {ℓ κ} : {A : Type ℓ} {B : Type κ} → (A → B) → Bag A → Bag B
map_bag f = Quot.lift Quot-set (λ xs. of_list (map f xs)) (λ xs ys p. Quot.sound (Perm.map f p))

-- The damage of a player, and of all players, at one boss.
unfoldable pub dealt_bag : Key → Bag DamageEvent → ℕ
dealt_bag k = Quot.lift ℕ_set (dealt k) (λ xs ys p. dealt-perm k p)

unfoldable pub dealt_to_bag : String → Bag DamageEvent → ℕ
dealt_to_bag b = Quot.lift ℕ_set (dealt_to b) (λ xs ys p. dealt_to-perm b p)

pub dealt_bag-union :
    (k : Key) (x y : Bag DamageEvent) → dealt_bag k (union x y) ≡ dealt_bag k x + dealt_bag k y
unfolding dealt_bag union add_all
dealt_bag-union k =
    Quot.ind (λ x. hlevel ℕ_set) (λ xs. Quot.ind (λ y. ℕ_set _ _) (λ ys. dealt-append k xs ys))

pub dealt_to_bag-union :
    (b : String) (x y : Bag DamageEvent)
    → dealt_to_bag b (union x y) ≡ dealt_to_bag b x + dealt_to_bag b y
unfolding dealt_to_bag union add_all
dealt_to_bag-union b =
    Quot.ind (λ x. hlevel ℕ_set) (λ xs. Quot.ind (λ y. ℕ_set _ _) (λ ys. dealt_to-append b xs ys))

module _ {ℓ} {A : Type ℓ} where
  pub union_assoc : (x y z : Bag A) → union (union x y) z ≡ union x (union y z)
  unfolding union add_all
  union_assoc =
      Quot.ind (λ x. hlevel Quot-set)
        (λ xs.
          Quot.ind (λ y. hlevel Quot-set)
            (λ ys. Quot.ind (λ z. Quot-set _ _) (λ zs. ap of_list (append_assoc xs ys zs))))

  pub union_comm : (x y : Bag A) → union x y ≡ union y x
  unfolding union add_all
  union_comm =
      Quot.ind (λ x. hlevel Quot-set)
        (λ xs. Quot.ind (λ y. Quot-set _ _) (λ ys. Quot.sound (perm_append_comm xs ys)))

pub map_bag-union {ℓ κ} :
    {A : Type ℓ} {B : Type κ} (f : A → B) (x y : Bag A)
    → map_bag f (union x y) ≡ union (map_bag f x) (map_bag f y)
unfolding union add_all map_bag
map_bag-union f =
    Quot.ind (λ x. hlevel Quot-set)
      (λ xs. Quot.ind (λ y. Quot-set _ _) (λ ys. ap of_list (map-append f xs ys)))
