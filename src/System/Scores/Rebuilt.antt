-- ===== src/System/Scores/Rebuilt.antt =====
-- The scores of the leaderboard that a rebuild fills from the rows of contributions.
use enigma_behemoth.Prelude.{
  String, ◌≡◌, refl, sym, ap, ◌∙◌, List, [], ◌∷◌, none, some, arith, ◌==◌, eq_iff, inl, inr,
  Bool-cases, lookup, insert, lookup-insert,
}
use enigma_behemoth.Prelude.Int.{ℤ, pos}
use enigma_behemoth.Redis.Keyspace.{score, insert_all, or_zero}
use enigma_behemoth.Redis.Client.{members_of}
use enigma_behemoth.Postgres.Tables.{Contribution, find_total}
use enigma_behemoth.Postgres.Reads.{rows_of}
use enigma_behemoth.Postgres.Batch.Rows.{total}
use enigma_behemoth.Postgres.Batch.Keyed.{IsKeyed}

abbrev row_members : String → List Contribution → List (String × ℤ)
row_members id rows = members_of (rows_of id rows)

-- A player without a row keeps the score there was.
lookup_absent :
    (id q : String) (rows : List Contribution) (z : List (String × ℤ))
    → find_total id q rows ≡ none
    → lookup q (insert_all (row_members id rows) z) ≡ lookup q z
unfolding rows_of find_total
lookup_absent id q [] z h = refl
lookup_absent id q (c ∷ rest) z h = elim (Bool-cases (c.boss_id == id)) [
  | inl e ↦ ground (
    arith,
    e,
    lookup_absent id q rest (insert c.player_id (pos c.total_damage) z),
    lookup-insert c.player_id q (pos c.total_damage) z,
  )
  | inr e ↦ ground (arith, e, lookup_absent id q rest z)
]

-- With one row for each boss and player, the scores are the totals.
pub score-rebuilt :
    (id q : String) (rows : List Contribution) (z : List (String × ℤ))
    → IsKeyed rows
    → score q z ≡ pos 0
    → score q (insert_all (row_members id rows) z)
      ≡ pos (total (record { boss = id; player = q }) rows)
unfolding rows_of find_total
score-rebuilt id q [] z k h = h
score-rebuilt id q (c ∷ rest) z k h = elim (Bool-cases (c.boss_id == id)) [
  | inr e ↦ ground (arith, e, score-rebuilt id q rest z k.1 h)
  | inl e ↦
      let z' = insert c.player_id (pos c.total_damage) z in
      elim (Bool-cases (c.player_id == q)) [
        | inl f ↦
            let absent : find_total id q rest ≡ none =
              ap (λ b. find_total b q rest) (sym ((eq_iff c.boss_id id).0 e))
              ∙ ap (λ p. find_total c.boss_id p rest) (sym ((eq_iff c.player_id q).0 f))
              ∙ k.0 in
            let own : lookup q z' ≡ some (pos c.total_damage) =
              lookup-insert c.player_id q (pos c.total_damage) z ∙ rw f refl in
            rw (e, f) (ap or_zero (lookup_absent id q rest z' absent ∙ own))
        | inr f ↦
            let other : lookup q z' ≡ lookup q z =
              lookup-insert c.player_id q (pos c.total_damage) z ∙ rw f refl in
            rw (e, f) (score-rebuilt id q rest z' k.1 (ap or_zero other ∙ h))
      ]
]
