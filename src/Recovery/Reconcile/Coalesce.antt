-- ===== src/Recovery/Reconcile/Coalesce.antt =====
-- At most one rebuild of a boss is pending, and the map of queued bosses is exactly what is pending.
use enigma_behemoth.Prelude.{
  ℕ, ◌+◌, ◌≤◌, String, ◌≡◌, refl, List, [], ◌∷◌, ◌++◌, true, false, length, length-append, ltb,
  ◌==◌, arith, eq_iff, if◌then◌else◌, inl, inr, Bool-cases,
}
use enigma_behemoth.Recovery.Reconcile.{
  Reconciler, new_reconciler, has, delete, drop_one, mark, send, free, Step, marks, sends, receives,
  frees, Reaches, here, next, reconcile_queue_size,
}

-- How often a boss stands in a list.
abbrev pub count : String → List String → ℕ
count id [] = 0
count id (j ∷ js) = (if j == id then 1 else 0) + count id js

pub count-append :
    (id : String) (xs ys : List String) → count id (xs ++ ys) ≡ count id xs + count id ys
count-append id [] ys = omega arith
count-append id (x ∷ xs) ys = ground (arith, count-append id xs ys)

count-has : (id : String) (xs : List String) → has id xs ≡ false → count id xs ≡ 0
count-has id [] h = refl
count-has id (x ∷ xs) h = ground (arith, count-has id xs)

count-delete :
    (k id : String) (xs : List String)
    → count k (delete id xs) ≡ (if id == k then 0 else count k xs)
count-delete k id [] = ground arith
count-delete k id (x ∷ xs) =
    ground (arith, eq_iff x id, eq_iff x k, eq_iff id k, count-delete k id xs)

pub count-drop_one :
    (k id : String) (xs : List String)
    → has id xs ≡ true
    → count k (drop_one id xs) + (if id == k then 1 else 0) ≡ count k xs
count-drop_one k id [] h = ground arith
count-drop_one k id (x ∷ xs) h =
    ground (arith, eq_iff x id, eq_iff x k, eq_iff id k, count-drop_one k id xs)

-- Every boss is pending as often as it is queued, which is once at most, and the channel is within its
-- size.
pub record IsCoalesced (r : Reconciler) : Type 0 where
  pub pending :
      (id : String) → count id r.queued ≡ count id r.sending + (count id r.ch + count id r.sleeping)
  pub once : (id : String) → count id r.queued ≤ 1
  pub bounded : length r.ch ≤ reconcile_queue_size

pub mark-IsCoalesced : (id : String) (r : Reconciler) → IsCoalesced r → IsCoalesced (mark id r)
unfolding mark
mark-IsCoalesced id r c = elim (Bool-cases (has id r.queued)) [
  | inl dup ↦ rw dup c
  | inr fresh ↦ rw fresh (record {
    pending = λ k. ground (arith, c.pending k);
    once = λ k. ground (arith, c.once k, eq_iff id k, count-has id r.queued);
    bounded = c.bounded;
  })
]

pub send-IsCoalesced :
    (id : String) (r : Reconciler)
    → has id r.sending ≡ true
    → IsCoalesced r
    → IsCoalesced (send id r)
unfolding send
send-IsCoalesced id r h c = elim (Bool-cases (ltb (length r.ch) reconcile_queue_size)) [
  | inl room ↦ rw room (record {
    pending = λ k.
        ground (arith, c.pending k, count-drop_one k id r.sending, count-append k r.ch (id ∷ []));
    once = c.once;
    bounded = ground (arith, length-append r.ch (id ∷ []));
  })
  | inr full ↦ rw full (record {
    pending = λ k.
        ground
          (arith, c.pending k, c.once k, count-drop_one k id r.sending, count-delete k id r.queued);
    once = λ k. ground (arith, c.once k, count-delete k id r.queued);
    bounded = c.bounded;
  })
]

pub free-IsCoalesced :
    (id : String) (r : Reconciler)
    → has id r.sleeping ≡ true
    → IsCoalesced r
    → IsCoalesced (free id r)
unfolding free
free-IsCoalesced id r h c = record {
  pending = λ k.
      ground
        (arith, c.pending k, c.once k, count-drop_one k id r.sleeping, count-delete k id r.queued);
  once = λ k. ground (arith, c.once k, count-delete k id r.queued);
  bounded = c.bounded;
}

pub receive-IsCoalesced :
    (id : String) (rest : List String) (r : Reconciler)
    → r.ch ≡ id ∷ rest
    → IsCoalesced r
    → IsCoalesced (record r { ch = rest; sleeping = id ∷ r.sleeping })
receive-IsCoalesced id rest r e c = record {
  pending = λ k. ground (arith, c.pending k, e);
  once = c.once;
  bounded = ground (arith, c.bounded, e);
}

Step-IsCoalesced : {a b : Reconciler} → Step a b → IsCoalesced a → IsCoalesced b
Step-IsCoalesced (marks id r) c = mark-IsCoalesced id r c
Step-IsCoalesced (sends id r h) c = send-IsCoalesced id r h c
Step-IsCoalesced (receives id rest r e) c = receive-IsCoalesced id rest r e c
Step-IsCoalesced (frees id r h) c = free-IsCoalesced id r h c

Reaches-keeps : {a b : Reconciler} → Reaches a b → IsCoalesced a → IsCoalesced b
Reaches-keeps (here r) c = c
Reaches-keeps (next a b d p s) c = Step-IsCoalesced s (Reaches-keeps p c)

-- In every state that Enqueue and the workers reach, from an empty reconciler and in any interleaving,
-- each boss is pending as often as it is queued, once at most, and the channel is within its size.
pub Reaches-IsCoalesced : (r : Reconciler) → Reaches new_reconciler r → IsCoalesced r
Reaches-IsCoalesced r p =
    Reaches-keeps p
      (record { pending = λ k. omega arith; once = λ k. omega arith; bounded = omega arith })
