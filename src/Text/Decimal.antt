-- ===== src/Text/Decimal.antt =====
-- A printed int64 parses to itself, and a printed integer outside the range is an error.
use enigma_behemoth.Prelude.{
  ℕ, zero, suc, ◌+◌, ◌*◌, ◌/◌, ◌%◌, ◌^◌, ◌<◌, ◌≤◌, ◌≡◌, refl, sym, ap, ◌∙◌, Option, none, some,
  List, [], ◌∷◌, true, false, arith, ltb, if◌then◌else◌, inl, inr, Bool-cases,
}
use enigma_behemoth.Prelude.Int.{ℤ, pos, negsuc}
use enigma_behemoth.Text.{scan, parse_uint, in_int64, parse_int, digits, print_int}

scan-digit : (d n : ℕ) (out : List ℕ) → d < 10 → scan ((b'0' + d) ∷ out) n ≡ scan out (n * 10 + d)
unfolding scan
scan-digit d n out h = ground arith

scan-digits : (fuel n : ℕ) (out : List ℕ) → n < fuel → scan (digits fuel n out) 0 ≡ scan out n
unfolding digits
scan-digits zero n out h = absurd (omega arith)
scan-digits (suc fuel) n out h = elim (Bool-cases (ltb n 10)) [
  | inl small ↦ rw small (scan-digit n 0 out (ground arith) ∙ ap (scan out) (omega arith))
  | inr big ↦ rw big (
      scan-digits fuel (n / 10) ((b'0' + n % 10) ∷ out) (ground arith)
      ∙ scan-digit (n % 10) (n / 10) out (omega arith)
      ∙ ap (scan out) (omega arith))
]

-- The first byte is a digit, and what follows is not lost.
digits-first :
    (fuel n : ℕ) (out : List ℕ)
    → n < fuel
    → (c : ℕ) × (s : List ℕ) × (digits fuel n out ≡ c ∷ s) × (b'0' ≤ c) × (c ≤ b'9')
unfolding digits
digits-first zero n out h = absurd (omega arith)
digits-first (suc fuel) n out h = elim (Bool-cases (ltb n 10)) [
  | inl small ↦ rw small (b'0' + n, out, refl, omega arith, ground arith)
  | inr big ↦ rw big (digits-first fuel (n / 10) ((b'0' + n % 10) ∷ out) (ground arith))
]

parse_uint-digits : (fuel n : ℕ) → n < fuel → parse_uint (digits fuel n []) ≡ some n
unfolding parse_uint
parse_uint-digits fuel n h =
    let (c, s, e, low, high) = digits-first fuel n [] h in
    rw e (sym (ap (λ (t : List ℕ). scan t 0) e) ∙ scan-digits fuel n [] h)

-- What ParseInt makes of the decimal notation of an integer.
abbrev pub read_back : ℤ → Option ℤ
read_back (pos n) = if ltb n (2 ^ 63) then some (pos n) else none
read_back (negsuc n) = if ltb n (2 ^ 63) then some (negsuc n) else none

parse_int-digits : (fuel n : ℕ) → n < fuel → parse_int (digits fuel n []) ≡ in_int64 false (some n)
unfolding parse_int
parse_int-digits fuel n h =
    let (c, s, e, low, high) = digits-first fuel n [] h in
    rw e (ground (arith, sym (ap parse_uint e) ∙ parse_uint-digits fuel n h))

parse_int_negative :
    (fuel n : ℕ) → n < fuel → parse_int (b'-' ∷ digits fuel n []) ≡ in_int64 true (some n)
unfolding parse_int
parse_int_negative fuel n h = ap (in_int64 true) (parse_uint-digits fuel n h)

in_int64-pos : (n : ℕ) → in_int64 false (some n) ≡ read_back (pos n)
unfolding in_int64
in_int64-pos n = refl

in_int64-negsuc : (n : ℕ) → in_int64 true (some (suc n)) ≡ read_back (negsuc n)
unfolding in_int64
in_int64-negsuc n = ground arith

pub parse_int-print_int : (z : ℤ) → parse_int (print_int z) ≡ read_back z
unfolding print_int
parse_int-print_int (pos n) = parse_int-digits (suc n) n (omega arith) ∙ in_int64-pos n
parse_int-print_int (negsuc n) =
    parse_int_negative (suc (suc n)) (suc n) (omega arith) ∙ in_int64-negsuc n
