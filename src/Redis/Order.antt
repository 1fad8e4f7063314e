-- ===== src/Redis/Order.antt =====
-- The order of a leaderboard: higher scores first, and among equal scores the greater member first,
-- as ZREVRANGE lists a sorted set.
use Prim.Native.Char.{code}
use enigma_behemoth.Prelude.{String, Bool, true, false, List, [], ◌∷◌, ltb, eqb, if◌then◌else◌}
use enigma_behemoth.Prelude.Int.{ℤ, ltb_ℤ}

-- `s < t` of Go on texts. Code points order as their UTF-8 bytes do.
pub str_lt : String → String → Bool
str_lt String.[] String.[] = false
str_lt String.[] (String.◌∷◌ d t) = true
str_lt (String.◌∷◌ c s) String.[] = false
str_lt (String.◌∷◌ c s) (String.◌∷◌ d t) =
    let rest = str_lt s t in
    if ltb (code c) (code d) then true else if eqb (code c) (code d) then rest else false

-- Whether the first entry stands before the second.
unfoldable pub before : String × ℤ → String × ℤ → Bool
unfolding str_lt
before (m, a) (n, b) = if ltb_ℤ b a then true else if ltb_ℤ a b then false else str_lt n m

unfoldable pub insert_entry : String × ℤ → List (String × ℤ) → List (String × ℤ)
insert_entry e [] = e ∷ []
insert_entry e (f ∷ rest) = if before f e then f ∷ insert_entry e rest else e ∷ f ∷ rest

unfoldable pub rank : List (String × ℤ) → List (String × ℤ)
unfolding insert_entry before
rank [] = []
rank (e ∷ rest) = insert_entry e (rank rest)
