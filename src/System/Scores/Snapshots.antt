-- ===== src/System/Scores/Snapshots.antt =====
-- What one hit and one undo do to the score of a player.
use enigma_behemoth.Prelude.{
  ℕ, ◌+◌, String, ◌≡◌, refl, sym, ap, ◌∙◌, subst, some, List, [], ◌∷◌, true, false, ◌==◌, arith,
  inl, inr, Bool-cases, Option-cases, eq_iff, eq_refl, lookup-erase, if◌then◌else◌,
}
use enigma_behemoth.Prelude.Int.{
  ℤ, pos, negsuc, pos_part, neg_part, neg, ◌<ℤ◌, ◌+ℤ◌, ◌-ℤ◌, ◌≤ℤ◌, leb_ℤ,
}
use enigma_behemoth.Store.{ApplyResult}
use enigma_behemoth.Redis.Keyspace.{score}
use enigma_behemoth.Redis.Snapshot.{Snapshot, hit, undo, landed, credit, debit}
use enigma_behemoth.Redis.Laws.{score-credit, score-debit, landed-Landed}
use enigma_behemoth.Postgres.Batch.{Key, key_of, same_key}
use enigma_behemoth.Postgres.Batch.Commit.{dealt}
use enigma_behemoth.System.{submitted}

-- If the HP is there, the score is as given.
abbrev pub HasScore : String → ℕ → Snapshot → Type 0
HasScore q n c = (v : ℤ) → c.hp ≡ some v → score q c.board ≡ pos n

abbrev pub key : String → String → Key
key id q = record { boss = id; player = q }

gained : (a : ℤ) → pos 0 <ℤ a → a ≡ pos (pos_part a)
gained (pos a) h = refl
gained (negsuc a) h = absurd (omega arith)

dealt-one :
    (id q player : String) (a : ℤ)
    → dealt (key id q) (record { boss_id = id; player_id = player; applied = a } ∷ [])
      ≡ (if player == q then pos_part a else 0)
unfolding key_of same_key
dealt-one id q player a = ground (arith, eq_refl id)

pub dealt_other :
    (id q j player : String) (res : ApplyResult)
    → (j == id) ≡ false
    → dealt (key id q) (submitted j player res) ≡ 0
unfolding key_of same_key
dealt_other id q j player res differ = ground (arith, differ)

plus_pos : (n a : ℕ) → pos n +ℤ pos a ≡ pos (n + a)
plus_pos n a = ground arith

minus_pos : (n a : ℕ) → pos (n + a) -ℤ pos a ≡ pos n
minus_pos n a = ground arith

credited :
    (q player : String) (a n : ℕ) (board : List (String × ℤ))
    → score q board ≡ pos n
    → score q (credit player (pos a) board) ≡ pos (n + (if player == q then a else 0))
credited q player a n board h = elim (Bool-cases (player == q)) [
  | inl e ↦
      let own : player ≡ q = (eq_iff player q).0 e in
      score-credit player q (pos a) board
      ∙ rw e (ap (λ p. score p board +ℤ pos a) own ∙ ap (λ z. z +ℤ pos a) h ∙ plus_pos n a)
  | inr e ↦ score-credit player q (pos a) board ∙ rw e (h ∙ ap pos (omega arith))
]

debit_other :
    (q player : String) (a : ℤ) (board : List (String × ℤ))
    → (player == q) ≡ false
    → score q (debit player a board) ≡ score q board
debit_other q player a board e =
    elim (Bool-cases (leb_ℤ (score player (credit player (neg a) board)) (pos 0))) [
      | inl gone ↦
          rw (gone, lookup-erase player q (credit player (neg a) board), e)
            (score-credit player q (neg a) board ∙ rw e refl)
      | inr left ↦ rw left (score-credit player q (neg a) board ∙ rw e refl)
    ]

debited :
    (q player : String) (a : ℤ) (n : ℕ) (board : List (String × ℤ))
    → neg_part a ≡ 0
    → score q board ≡ pos (n + (if player == q then pos_part a else 0))
    → score q (debit player a board) ≡ pos n
debited q player (negsuc a) n board gain h = absurd (omega arith)
debited q player (pos a) n board gain h = elim (Bool-cases (player == q)) [
  | inl e ↦
      let full : score q board ≡ pos (n + a) = h ∙ rw e refl in
      let left : score player board -ℤ pos a ≡ pos n =
        ap (λ p. score p board -ℤ pos a) ((eq_iff player q).0 e)
        ∙ ap (λ z. z -ℤ pos a) full
        ∙ minus_pos n a in
      score-debit player q (pos a) board (subst (λ z. pos 0 ≤ℤ z) (sym left) (omega arith))
      ∙ rw e left
  | inr e ↦ debit_other q player (pos a) board e ∙ h ∙ rw e (ap pos (omega arith))
]

idle_part :
    (player q : String) (a : ℤ) (n : ℕ)
    → neg_part a ≡ 0
    → leb_ℤ a (pos 0) ≡ true
    → n + (if player == q then pos_part a else 0) ≡ n
idle_part player q (pos a) n gain x = ground arith
idle_part player q (negsuc a) n gain x = absurd (omega arith)

module _ (id q player : String) (amount : ℤ) (c : Snapshot) (n : ℕ) where
  pub hit-HasScore :
      HasScore q n c
      → let (r, c') = hit player amount c in
        HasScore q (n + dealt (key id q) (submitted id player r)) c'
  hit-HasScore s = elim (Option-cases c.hp) [
    | inl e ↦ rw e (λ v h. ground arith)
    | inr (hp, e) ↦ elim (Bool-cases (leb_ℤ amount (pos 0))) [
      | inl x ↦ rw (e, x) (λ v h. s hp e ∙ ap pos (omega arith))
      | inr x ↦ elim (Bool-cases (leb_ℤ hp (pos 0))) [
        | inl y ↦ rw (e, x, y) (λ v h. s hp e ∙ ap pos (omega arith))
        | inr y ↦
            let a = landed hp amount in
            let plus = gained a (landed-Landed amount hp x y).gained in
            rw (e, x, y)
              (λ v h.
                ap (λ z. score q (credit player z c.board)) plus
                ∙ credited q player (pos_part a) n c.board (s hp e)
                ∙ ap (λ m. pos (n + m)) (sym (dealt-one id q player a)))
      ]
    ]
  ]

  pub undo-HasScore :
      neg_part amount ≡ 0
      → HasScore q (n + (if player == q then pos_part amount else 0)) c
      → HasScore q n (undo player amount c)
  undo-HasScore gain s = elim (Option-cases c.hp) [
    | inl e ↦ rw e (λ v h. ground arith)
    | inr (hp, e) ↦ elim (Bool-cases (leb_ℤ amount (pos 0))) [
      | inl x ↦ rw (e, x) (λ v h. s hp e ∙ ap pos (idle_part player q amount n gain x))
      | inr x ↦ rw (e, x) (λ v h. debited q player amount n c.board gain (s hp e))
    ]
  ]
