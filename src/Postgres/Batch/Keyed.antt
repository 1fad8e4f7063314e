-- ===== src/Postgres/Batch/Keyed.antt =====
-- The primary key of contributions: one row for each boss and player.
use enigma_behemoth.Prelude.{
  ℕ, String, ◌≡◌, refl, List, [], ◌∷◌, none, false, arith, ◌==◌, ◌&&◌, eq_iff, inl, inr, Bool-cases,
}
use enigma_behemoth.Postgres.Tables.{Contribution, find_total}
use enigma_behemoth.Postgres.Batch.{Key}
use enigma_behemoth.Postgres.Batch.Rows.{credit_row, credit_rows}

abbrev pub IsKeyed : List Contribution → Type 0
IsKeyed [] = Unit
IsKeyed (c ∷ rest) = (find_total c.boss_id c.player_id rest ≡ none) × IsKeyed rest

-- A row that is missing, of another key, is missing after an upsert.
find_total-credit_row :
    (b p : String) (k : Key) (d : ℕ) (rows : List Contribution)
    → (b == k.boss) && (p == k.player) ≡ false
    → find_total b p rows ≡ none
    → find_total b p (credit_row k d rows) ≡ none
unfolding credit_row find_total
find_total-credit_row b p k d [] h n =
    ground (arith, eq_iff b k.boss, eq_iff p k.player, eq_iff k.boss b, eq_iff k.player p)
find_total-credit_row b p k d (c ∷ rest) h n = ground (arith, find_total-credit_row b p k d rest h)

credit_row-IsKeyed :
    (k : Key) (d : ℕ) (rows : List Contribution) → IsKeyed rows → IsKeyed (credit_row k d rows)
unfolding credit_row find_total
credit_row-IsKeyed k d [] h = (refl, tt)
credit_row-IsKeyed k d (c ∷ rest) h =
    elim (Bool-cases ((c.boss_id == k.boss) && (c.player_id == k.player))) [
      | inl e ↦ rw e (h.0, h.1)
      | inr e ↦ rw e (
        find_total-credit_row c.boss_id c.player_id k d rest e h.0,
        credit_row-IsKeyed k d rest h.1,
      )
    ]

pub credit_rows-IsKeyed :
    (amount : Key → ℕ) (ks : List Key) (rows : List Contribution)
    → IsKeyed rows
    → IsKeyed (credit_rows amount ks rows)
unfolding credit_rows
credit_rows-IsKeyed amount [] rows h = h
credit_rows-IsKeyed amount (k ∷ ks) rows h =
    credit_rows-IsKeyed amount ks (credit_row k (amount k) rows)
      (credit_row-IsKeyed k (amount k) rows h)
