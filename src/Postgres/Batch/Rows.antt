-- ===== src/Postgres/Batch/Rows.antt =====
-- The upserts of a batch succeed while the totals fit a BIGINT, and add to each total.
use enigma_behemoth.Prelude.{
  ℕ, ◌+◌, ◌*◌, ◌<◌, String, ◌≡◌, refl, List, [], ◌∷◌, Option, none, some, arith, ◌==◌, ◌&&◌, eq_iff,
  if◌then◌else◌,
}
use enigma_behemoth.Prelude.Int.{ℤ, pos}
use enigma_behemoth.Postgres.Tables.{
  Contribution, bigint_end, add_total, upsert, sum_of, find_total,
}
use enigma_behemoth.Postgres.Batch.{Key, same_key, at_key, upserts}
use enigma_behemoth.Postgres.Batch.Keys.{same_key-eq, same_key_refl, count, sum_keys}

abbrev or_zero : Option ℕ → ℕ
or_zero none = 0
or_zero (some n) = n

-- A player's durable total, zero without a row.
abbrev pub total : Key → List Contribution → ℕ
total k rows = or_zero (find_total k.boss k.player rows)

-- The rows after an upsert that meets no limit.
unfoldable pub credit_row : Key → ℕ → List Contribution → List Contribution
credit_row k d [] = record { boss_id = k.boss; player_id = k.player; total_damage = d } ∷ []
credit_row k d (c ∷ rest) =
    if (c.boss_id == k.boss) && (c.player_id == k.player)
    then record c { total_damage = c.total_damage + d } ∷ rest
    else c ∷ credit_row k d rest

unfoldable pub credit_rows : (Key → ℕ) → List Key → List Contribution → List Contribution
credit_rows amount [] rows = rows
credit_rows amount (k ∷ ks) rows = credit_rows amount ks (credit_row k (amount k) rows)

add_total-credit_row :
    (k : Key) (d : ℕ) (rows : List Contribution)
    → total k rows + d < bigint_end
    → add_total k.boss k.player d rows ≡ some (credit_row k d rows)
unfolding add_total credit_row find_total
add_total-credit_row k d [] h = ground arith
add_total-credit_row k d (c ∷ rest) h = ground (arith, add_total-credit_row k d rest)

total-credit_row :
    (j k : Key) (d : ℕ) (rows : List Contribution)
    → total j (credit_row k d rows) ≡ total j rows + (if same_key k j then d else 0)
unfolding credit_row find_total same_key
total-credit_row j k d [] = ground arith
total-credit_row j k d (c ∷ rest) = ground (
  arith,
  eq_iff c.boss_id k.boss,
  eq_iff c.player_id k.player,
  eq_iff c.boss_id j.boss,
  eq_iff c.player_id j.player,
  eq_iff k.boss j.boss,
  eq_iff k.player j.player,
  total-credit_row j k d rest,
)

sum_of-credit_row :
    (b : String) (k : Key) (d : ℕ) (rows : List Contribution)
    → sum_of b (credit_row k d rows) ≡ sum_of b rows + (if k.boss == b then d else 0)
unfolding credit_row sum_of
sum_of-credit_row b k d [] = ground arith
sum_of-credit_row b k d (c ∷ rest) = ground (
  arith,
  eq_iff c.boss_id k.boss,
  eq_iff c.boss_id b,
  eq_iff k.boss b,
  sum_of-credit_row b k d rest,
)

module _ (amount : Key → ℕ) where
  pub total-credit_rows :
      (k : Key) (ks : List Key) (rows : List Contribution)
      → total k (credit_rows amount ks rows) ≡ total k rows + count k ks * amount k
  unfolding credit_rows
  total-credit_rows k [] rows = omega arith
  total-credit_rows k (j ∷ ks) rows = ground (
    arith,
    same_key-eq j k,
    total-credit_row k j (amount j) rows,
    total-credit_rows k ks (credit_row j (amount j) rows),
  )

  pub sum_of-credit_rows :
      (b : String) (ks : List Key) (rows : List Contribution)
      → sum_of b (credit_rows amount ks rows) ≡ sum_of b rows + sum_keys b amount ks
  unfolding credit_rows
  sum_of-credit_rows b [] rows = omega arith
  sum_of-credit_rows b (j ∷ ks) rows = omega (
    arith,
    sum_of-credit_row b j (amount j) rows,
    sum_of-credit_rows b ks (credit_row j (amount j) rows),
  )

  module _ (m : List (Key × ℤ)) (sums : (k : Key) → at_key k m ≡ pos (amount k)) where
    pub upserts-credit_rows :
        (ks : List Key) (rows : List Contribution)
        → ((k : Key) → total k rows + count k ks * amount k < bigint_end)
        → upserts m ks rows ≡ some (credit_rows amount ks rows)
    unfolding upserts credit_rows upsert
    upserts-credit_rows [] rows room = refl
    upserts-credit_rows (k ∷ ks) rows room = ground (
      arith,
      sums k,
      add_total-credit_row k (amount k) rows here,
      upserts-credit_rows ks (credit_row k (amount k) rows) there,
    )
      where
        here : total k rows + amount k < bigint_end
        here = ground (arith, room k, same_key_refl k)

        there :
            (j : Key) → total j (credit_row k (amount k) rows) + count j ks * amount j < bigint_end
        there j = ground (arith, room j, same_key-eq k j, total-credit_row j k (amount k) rows)
