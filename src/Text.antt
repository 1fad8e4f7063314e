-- ===== src/Text.antt =====
-- What the program uses of the Go packages strconv and strings, on the bytes of a text.
pub mod Decimal
use Prim.Native.Char.{code}
use enigma_behemoth.Prelude.{
  ℕ, ◌≡◌, refl, suc, zero, ◌+◌, ◌-◌, ◌*◌, ◌/◌, ◌%◌, ◌^◌, String, Option, none, some, List, [], ◌∷◌,
  Bool, true, false, ◌&&◌, ◌||◌, ltb, leb, eqb, if◌then◌else◌,
}
use enigma_behemoth.Prelude.Int.{ℤ, pos, negsuc, neg}

-- The bytes of a text in ASCII.
abbrev pub codes : String → List ℕ
codes String.[] = []
codes (String.◌∷◌ c s) = code c ∷ codes s

-- strings.Contains
abbrev pub has_prefix : List ℕ → List ℕ → Bool
has_prefix [] s = true
has_prefix (c ∷ p) [] = false
has_prefix (c ∷ p) (d ∷ s) = let rest = has_prefix p s in eqb c d && rest

unfoldable pub contains : List ℕ → List ℕ → Bool
contains [] p = has_prefix p []
contains (c ∷ s) p = let rest = contains s p in has_prefix p (c ∷ s) || rest

-- The value of decimal digits after those that make `n`; `none` on another byte.
unfoldable pub scan : List ℕ → ℕ → Option ℕ
scan [] n = some n
scan (c ∷ s) n =
    let rest = scan s (n * 10 + (c - b'0')) in if ltb c b'0' || ltb b'9' c then none else rest

unfoldable pub parse_uint : List ℕ → Option ℕ
unfolding scan
parse_uint [] = none
parse_uint (c ∷ s) = scan (c ∷ s) 0

-- The range of int64.
unfoldable pub in_int64 : Bool → Option ℕ → Option ℤ
in_int64 negative none = none
in_int64 true (some n) = if leb n (2 ^ 63) then some (neg (pos n)) else none
in_int64 false (some n) = if ltb n (2 ^ 63) then some (pos n) else none

-- strconv.ParseInt(s, 10, 64), and strconv.Atoi where an int has 64 bits; `none` is an error.
unfoldable pub parse_int : List ℕ → Option ℤ
unfolding parse_uint in_int64
parse_int [] = none
parse_int (c ∷ s) =
    if eqb c b'-'
    then in_int64 true (parse_uint s)
    else if eqb c b'+'
    then in_int64 false (parse_uint s)
    else in_int64 false (parse_uint (c ∷ s))

-- The decimal digits of `n` before `out`; the fuel is more than `n`.
unfoldable pub digits : ℕ → ℕ → List ℕ → List ℕ
digits zero n out = out
digits (suc fuel) n out =
    let more = digits fuel (n / 10) ((b'0' + n % 10) ∷ out) in
    if ltb n 10 then (b'0' + n) ∷ out else more

-- How an integer is written.
unfoldable pub print_int : ℤ → List ℕ
unfolding digits
print_int (pos n) = digits (suc n) n []
print_int (negsuc n) = b'-' ∷ digits (suc (suc n)) (suc n) []

test_min : parse_int (codes "-9223372036854775808") ≡ some (negsuc (2 ^ 63 - 1))
unfolding parse_int
test_min = refl

test_range : parse_int (codes "9223372036854775808") ≡ none
unfolding parse_int
test_range = refl

test_plus : parse_int (codes "+20") ≡ some (pos 20)
unfolding parse_int
test_plus = refl

test_space : parse_int (codes "20 ") ≡ none
unfolding parse_int
test_space = refl

test_contains : contains (codes "dial tcp: connection refused") (codes "refused") ≡ true
unfolding contains
test_contains = refl
