-- ===== src/Redis/Expiry/Boards.antt =====
-- What the commands on a leaderboard do to its expiry.
use enigma_behemoth.Prelude.{
  ℕ, String, Option, some, none, List, [], ◌∷◌, ◌≡◌, refl, erase, insert, false, arith,
}
use enigma_behemoth.Prelude.Int.{ℤ, ◌+ℤ◌}
use enigma_behemoth.Redis.Keyspace.{Cell, passed, increment, remove, keep_nonempty, score}
use enigma_behemoth.Redis.Expiry.{cell_at}

abbrev pub Board : Type 0
Board = Option (Cell (List (String × ℤ)))

-- A sorted set, if there is one, whose expiry is as given.
abbrev pub Expires : (Option ℕ → Type 0) → Board → Type 0
Expires P none = Unit
Expires P (some z) = P z.expires

abbrev pub IsLive : ℕ → Option ℕ → Type 0
IsLive now e = passed now e ≡ false

-- A change of a live sorted set that keeps its expiry, or creates it with none.
abbrev pub KeepsExpiry : ℕ → (Board → Board) → Type 1
KeepsExpiry now f =
    (P : Option ℕ → Type 0) (b : Board)
    → P none
    → Expires (IsLive now) b
    → Expires P b
    → Expires P (f b)

module _ (now : ℕ) (player : String) where
  pub increment_live :
      (a : ℤ) (z : Cell (List (String × ℤ)))
      → IsLive now z.expires
      → increment now a player (some z)
        ≡ some (cell_at (insert player (score player z.value +ℤ a) z.value) z.expires)
  increment_live a z alive = ground arith

  remove_live :
      (z : Cell (List (String × ℤ)))
      → IsLive now z.expires
      → remove now player (some z) ≡ keep_nonempty z.expires (erase player z.value)
  remove_live z alive = ground arith

  pub increment-KeepsExpiry : (a : ℤ) → KeepsExpiry now (increment now a player)
  increment-KeepsExpiry a P none new alive h = new
  increment-KeepsExpiry a P (some z) new alive h = rw (increment_live a z alive) h

  keep_nonempty-Expires :
      (P : Option ℕ → Type 0) (e : Option ℕ) (z : List (String × ℤ))
      → P e
      → Expires P (keep_nonempty e z)
  keep_nonempty-Expires P e [] h = tt
  keep_nonempty-Expires P e (x ∷ z) h = h

  remove-KeepsExpiry : KeepsExpiry now (remove now player)
  remove-KeepsExpiry P none new alive h = tt
  remove-KeepsExpiry P (some z) new alive h =
      rw (remove_live z alive) (keep_nonempty-Expires P z.expires (erase player z.value) h)

  pub debit-KeepsExpiry :
      (a : ℤ) → KeepsExpiry now (λ b. remove now player (increment now a player b))
  debit-KeepsExpiry a P b new alive h =
      remove-KeepsExpiry P (increment now a player b) new
        (increment-KeepsExpiry a (IsLive now) b refl alive alive)
        (increment-KeepsExpiry a P b new alive h)
