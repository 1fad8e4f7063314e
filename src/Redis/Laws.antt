-- ===== src/Redis/Laws.antt =====
-- What a hit and its undo do to the HP and the scores of a boss.
use enigma_behemoth.Prelude.{
  String, ◌≡◌, refl, sym, ap, subst, ◌∙◌, true, false, Option, some, List, [], ◌∷◌, arith, ◌==◌,
  eq_iff, eq_refl, insert, lookup-insert, lookup-erase, if◌then◌else◌, inl, inr, Bool-cases,
  Option-cases,
}
use enigma_behemoth.Prelude.Int.{zero-+ℤ, ℤ, pos, negsuc, ◌+ℤ◌, ◌-ℤ◌, ◌≤ℤ◌, ◌<ℤ◌, neg, leb_ℤ, ltb_ℤ}
use enigma_behemoth.Store.{ApplyResult, status_applied}
use enigma_behemoth.Redis.Keyspace.{score}
use enigma_behemoth.Redis.Snapshot.{Snapshot, hit, undo, landed, result, credit, debit}

-- A hit that lands: on a living boss, the damage is positive, at most the amount and at most the HP, and
-- what is left is the difference, never negative.
pub record Landed (amount hp : ℤ) (r : ApplyResult) : Type 0 where
  pub alive : pos 0 <ℤ hp
  pub gained : pos 0 <ℤ r.applied
  pub within : r.applied ≤ℤ amount
  pub left : r.new_hp +ℤ r.applied ≡ hp
  pub not_negative : pos 0 ≤ℤ r.new_hp

pub landed-Landed :
    (amount hp : ℤ)
    → leb_ℤ amount (pos 0) ≡ false
    → leb_ℤ hp (pos 0) ≡ false
    → Landed amount hp (result status_applied (landed hp amount) (hp -ℤ landed hp amount))
landed-Landed (pos a) (pos h) x y = ground arith
landed-Landed (pos a) (negsuc h) x y = ground arith
landed-Landed (negsuc a) (pos h) x y = ground arith
landed-Landed (negsuc a) (negsuc h) x y = ground arith

pub hit-Landed :
    (player : String) (amount : ℤ) (c : Snapshot)
    → (hit player amount c).0.status ≡ status_applied
    → (hp : ℤ) × (c.hp ≡ some hp) × Landed amount hp (hit player amount c).0
hit-Landed player amount c h = elim (Option-cases c.hp) [
  | inl e ↦ ground (arith, e)
  | inr (hp, e) ↦ elim (Bool-cases (leb_ℤ amount (pos 0))) [
    | inl x ↦ ground (arith, e, x)
    | inr x ↦ elim (Bool-cases (leb_ℤ hp (pos 0))) [
      | inl y ↦ ground (arith, e, x, y)
      | inr y ↦ (hp, e, rw (e, x, y) (landed-Landed amount hp x y))
    ]
  ]
]

pub score-credit :
    (p q : String) (a : ℤ) (b : List (String × ℤ))
    → score q (credit p a b) ≡ (if p == q then score p b +ℤ a else score q b)
score-credit p q a b = rw (lookup-insert p q (score p b +ℤ a) b) (ground arith)

pub score-debit :
    (p q : String) (a : ℤ) (b : List (String × ℤ))
    → pos 0 ≤ℤ score p b -ℤ a
    → score q (debit p a b) ≡ (if p == q then score p b -ℤ a else score q b)
score-debit p q a b h = elim (Bool-cases (leb_ℤ (score p (credit p (neg a) b)) (pos 0))) [
  | inl gone ↦
      rw (gone, lookup-erase p q (credit p (neg a) b))
        (ground (arith, score-credit p p (neg a) b, score-credit p q (neg a) b, eq_refl p))
  | inr left ↦ rw (left, score-credit p q (neg a) b) (ground arith)
]

pub minus_plus : (h a : ℤ) → (h -ℤ a) +ℤ a ≡ h
minus_plus (pos h) (pos a) = ground arith
minus_plus (pos h) (negsuc a) = ground arith
minus_plus (negsuc h) (pos a) = ground arith
minus_plus (negsuc h) (negsuc a) = ground arith

pub plus_minus : (h a : ℤ) → (h +ℤ a) -ℤ a ≡ h
plus_minus (pos h) (pos a) = ground arith
plus_minus (pos h) (negsuc a) = ground arith
plus_minus (negsuc h) (pos a) = ground arith
plus_minus (negsuc h) (negsuc a) = ground arith

-- The scores of a board.
abbrev pub total_score : List (String × ℤ) → ℤ
total_score [] = pos 0
total_score ((p, a) ∷ b) = a +ℤ total_score b

pub plus_assoc : (a b c : ℤ) → (a +ℤ b) +ℤ c ≡ a +ℤ (b +ℤ c)
plus_assoc (pos a) (pos b) (pos c) = ground arith
plus_assoc (pos a) (pos b) (negsuc c) = ground arith
plus_assoc (pos a) (negsuc b) (pos c) = ground arith
plus_assoc (pos a) (negsuc b) (negsuc c) = ground arith
plus_assoc (negsuc a) (pos b) (pos c) = ground arith
plus_assoc (negsuc a) (pos b) (negsuc c) = ground arith
plus_assoc (negsuc a) (negsuc b) (pos c) = ground arith
plus_assoc (negsuc a) (negsuc b) (negsuc c) = ground arith

pub plus_comm : (a b : ℤ) → a +ℤ b ≡ b +ℤ a
plus_comm a b = ground arith

pub plus_right : (a b c : ℤ) → (a +ℤ c) +ℤ b ≡ (a +ℤ b) +ℤ c
plus_right a b c = cc (plus_assoc a c b, plus_assoc a b c, plus_comm b c)

pub total_score-insert :
    (p : String) (v a : ℤ) (b : List (String × ℤ))
    → v ≡ score p b +ℤ a
    → total_score (insert p v b) ≡ total_score b +ℤ a
total_score-insert p v a [] h = plus_comm v (pos 0) ∙ zero-+ℤ v ∙ h
total_score-insert p v a ((q, w) ∷ b) h = elim (Bool-cases (q == p)) [
  | inl e ↦
      let here : v ≡ w +ℤ a = h ∙ rw e refl in
      rw e (ap (λ s. s +ℤ total_score b) here ∙ plus_right w (total_score b) a)
  | inr e ↦
      let there : v ≡ score p b +ℤ a = h ∙ rw e refl in
      rw e
        (ap (λ s. w +ℤ s) (total_score-insert p v a b there) ∙ sym (plus_assoc w (total_score b) a))
]

module _ (player : String) (amount : ℤ) (c : Snapshot) where
  -- A hit moves what it lands from the HP to the board: the HP and the scores keep their sum.
  pub total_score-hit :
      (hp : ℤ)
      → c.hp ≡ some hp
      → let c' = (hit player amount c).1 in
        (hp' : ℤ) × (c'.hp ≡ some hp') × (hp' +ℤ total_score c'.board ≡ hp +ℤ total_score c.board)
  total_score-hit hp e = elim (Bool-cases (leb_ℤ amount (pos 0))) [
    | inl x ↦ rw (e, x) (hp, refl, refl)
    | inr x ↦ elim (Bool-cases (leb_ℤ hp (pos 0))) [
      | inl y ↦ rw (e, x, y) (hp, refl, refl)
      | inr y ↦
          let a = landed hp amount in
          rw (e, x, y)
            (
              hp -ℤ a,
              refl,
              cc (
                total_score-insert player _ a c.board refl,
                plus_comm (total_score c.board) a,
                plus_assoc (hp -ℤ a) a (total_score c.board),
                minus_plus hp a,
              ),
            )
    ]
  ]

  IsRestored : ℤ → Snapshot → Type 0
  IsRestored hp u =
      (u.hp ≡ some hp)
      × (u.state ≡ some "alive")
      × (u.max_hp ≡ c.max_hp)
      × ((q : String) → score q u.board ≡ score q c.board)

  score-undone :
      (a : ℤ) (q : String)
      → pos 0 ≤ℤ score player c.board
      → score q (debit player a (credit player a c.board)) ≡ score q c.board
  score-undone a q g =
      let s = score player c.board in
      let own : score player (credit player a c.board) ≡ s +ℤ a =
        score-credit player player a c.board ∙ rw (eq_refl player) refl in
      let back : score player (credit player a c.board) -ℤ a ≡ s =
        ap (λ t. t -ℤ a) own ∙ plus_minus s a in
      score-debit player q a (credit player a c.board) (subst (λ t. pos 0 ≤ℤ t) (sym back) g)
      ∙ elim (Bool-cases (player == q)) [
        | inl e ↦ rw e (back ∙ ap (λ x. score x c.board) ((eq_iff player q).0 e))
        | inr e ↦ rw e (score-credit player q a c.board ∙ rw e refl)
      ]

  undo-landed :
      (hp a : ℤ) (state : Option String)
      → pos 0 <ℤ hp
      → pos 0 <ℤ a
      → pos 0 ≤ℤ score player c.board
      → IsRestored hp (
          undo player a
            (record c { hp = some (hp -ℤ a); state = state; board = credit player a c.board }))
  unfolding IsRestored
  undo-landed hp a state alive gain g =
      let idle : leb_ℤ a (pos 0) ≡ false = ground arith in
      let up : ltb_ℤ (pos 0) hp ≡ true = ground arith in
      rw (idle, minus_plus hp a, up) (refl, refl, refl, λ q. score-undone a q g)

  -- The undo of a hit that landed gives the HP and every score back, and revives the boss.
  pub undo-hit :
      let (r, c') = hit player amount c in
      r.status ≡ status_applied
      → pos 0 ≤ℤ score player c.board
      → let u = undo player r.applied c' in
        (u.hp ≡ c.hp)
        × (u.state ≡ some "alive")
        × (u.max_hp ≡ c.max_hp)
        × ((q : String) → score q u.board ≡ score q c.board)
  unfolding IsRestored
  undo-hit h g = elim (Option-cases c.hp) [
    | inl e ↦ ground (arith, e)
    | inr (hp, e) ↦ elim (Bool-cases (leb_ℤ amount (pos 0))) [
      | inl x ↦ ground (arith, e, x)
      | inr x ↦ elim (Bool-cases (leb_ℤ hp (pos 0))) [
        | inl y ↦ ground (arith, e, x, y)
        | inr y ↦
            let l = landed-Landed amount hp x y in
            rw (e, x, y) (undo-landed hp (landed hp amount) _ l.alive l.gained g)
      ]
    ]
  ]
