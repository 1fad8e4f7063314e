-- ===== src/Redis/Refund.antt =====
-- An undo moves HP back from the board: the HP and the scores keep their sum.
use enigma_behemoth.Prelude.{
  ℕ, ◌+◌, ◌≤◌, String, ◌≡◌, refl, sym, ap, subst, ◌∙◌, true, false, some, List, [], ◌∷◌, arith,
  ◌==◌, insert, erase, if◌then◌else◌, inl, inr, Bool-cases,
}
use enigma_behemoth.Prelude.Int.{ℤ, pos, negsuc, ◌+ℤ◌, ◌-ℤ◌, ◌≤ℤ◌, neg, leb_ℤ, zero-+ℤ}
use enigma_behemoth.Redis.Keyspace.{score}
use enigma_behemoth.Redis.Snapshot.{Snapshot, undo, credit, debit}
use enigma_behemoth.Redis.Views.{score-credit}
use enigma_behemoth.Redis.Laws.{total_score, total_score-insert, plus_comm, plus_assoc, minus_plus}

-- How often a player stands on a board.
abbrev pub entries : String → List (String × ℤ) → ℕ
entries p [] = 0
entries p ((q, a) ∷ b) = (if q == p then 1 else 0) + entries p b

entries-insert :
    (p : String) (v : ℤ) (b : List (String × ℤ)) → entries p b ≤ 1 → entries p (insert p v b) ≤ 1
entries-insert p v [] h = ground arith
entries-insert p v ((q, a) ∷ b) h = ground (arith, entries-insert p v b)

-- A player who is not on the board has no score and nothing to erase.
erase_absent :
    (p : String) (b : List (String × ℤ)) → entries p b ≡ 0 → (erase p b ≡ b) × (score p b ≡ pos 0)
erase_absent p [] h = (refl, refl)
erase_absent p ((q, a) ∷ b) h = elim (Bool-cases (q == p)) [
  | inl e ↦ ground (arith, h, e)
  | inr e ↦
      let rest : entries p b ≡ 0 = ground (arith, h, e) in
      let r = erase_absent p b rest in rw e (ap (λ x. (q, a) ∷ x) r.0, r.1)
]

total_score-erase :
    (p : String) (b : List (String × ℤ))
    → entries p b ≤ 1
    → total_score (erase p b) +ℤ score p b ≡ total_score b
total_score-erase p [] h = refl
total_score-erase p ((q, a) ∷ b) h = elim (Bool-cases (q == p)) [
  | inl e ↦
      let rest : entries p b ≡ 0 = ground (arith, h, e) in
      rw e (ap (λ x. total_score x +ℤ a) (erase_absent p b rest).0 ∙ plus_comm (total_score b) a)
  | inr e ↦
      let rest : entries p b ≤ 1 = ground (arith, h, e) in
      rw e (
        plus_assoc a (total_score (erase p b)) (score p b)
        ∙ ap (λ x. a +ℤ x) (total_score-erase p b rest))
]

plus_neg : (a b : ℤ) → a +ℤ neg b ≡ a -ℤ b
plus_neg (pos a) (pos b) = ground arith
plus_neg (pos a) (negsuc b) = ground arith
plus_neg (negsuc a) (pos b) = ground arith
plus_neg (negsuc a) (negsuc b) = ground arith

zero_of : (x : ℤ) → leb_ℤ x (pos 0) ≡ true → pos 0 ≤ℤ x → x ≡ pos 0
zero_of (pos n) h k = ground arith
zero_of (negsuc n) h k = ground arith

total_score-debit :
    (p : String) (a : ℤ) (b : List (String × ℤ))
    → entries p b ≤ 1
    → pos 0 ≤ℤ score p b -ℤ a
    → total_score (debit p a b) ≡ total_score b -ℤ a
total_score-debit p a b once own =
    let z = credit p (neg a) b in
    let all : total_score z ≡ total_score b -ℤ a =
      total_score-insert p _ (neg a) b refl ∙ plus_neg (total_score b) a in
    let held : score p z ≡ score p b -ℤ a = score-credit p (neg a) b ∙ plus_neg (score p b) a in
    elim (Bool-cases (leb_ℤ (score p z) (pos 0))) [
      | inr left ↦ rw left all
      | inl gone ↦
          let none_left : score p z ≡ pos 0 =
            zero_of (score p z) gone (subst (λ x. pos 0 ≤ℤ x) (sym held) own) in
          rw gone (
            sym (plus_comm (total_score (erase p z)) (pos 0) ∙ zero-+ℤ (total_score (erase p z)))
            ∙ ap (λ x. total_score (erase p z) +ℤ x) (sym none_left)
            ∙ total_score-erase p z (entries-insert p _ b once)
            ∙ all)
    ]

-- The undo of a positive amount on a boss that the cache holds, of a player who has scored as much and
-- stands once on the board, keeps the sum of the HP and of the scores.
pub total_score-undo :
    (p : String) (amt hp : ℤ) (c : Snapshot)
    → c.hp ≡ some hp
    → leb_ℤ amt (pos 0) ≡ false
    → entries p c.board ≤ 1
    → pos 0 ≤ℤ score p c.board -ℤ amt
    → ((undo p amt c).hp ≡ some (hp +ℤ amt))
      × ((hp +ℤ amt) +ℤ total_score (undo p amt c).board ≡ hp +ℤ total_score c.board)
total_score-undo p amt hp c e gain once own =
    let t = total_score c.board in
    rw (e, gain)
      (
        refl,
        cc (
          total_score-debit p amt c.board once own,
          plus_assoc hp amt (t -ℤ amt),
          plus_comm amt (t -ℤ amt),
          minus_plus t amt,
        ),
      )
