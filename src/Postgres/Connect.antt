-- ===== src/Postgres/Connect.antt =====
-- NewPostgresStore of internal/store/postgres.go, and the conversion of its argument in cmd/server/main.go.
use enigma_behemoth.Prelude.{
  ℕ, ◌+◌, ◌-◌, ◌%◌, ◌^◌, ◌<◌, ◌≡◌, refl, none, some, ltb, if◌then◌else◌, arith,
}
use enigma_behemoth.Prelude.Int.{ℤ, pos, negsuc, ltb_ℤ}
use enigma_behemoth.Errors.{Result, ok, err, wrap}
use enigma_behemoth.Postgres.Claims.{Fault}

-- What pgx does: each call may fail, and the DSN brings a number of connections.
pub record Dial : Type 0 where
  pub parse_fault : Fault
  pub default_conns : ℤ
  pub pool_fault : Fault
  pub ping_fault : Fault

-- The value of a residue modulo 2^32 as a signed 32-bit number.
abbrev signed32 : ℕ → ℤ
signed32 r = if ltb r (2 ^ 31) then pos r else negsuc (2 ^ 32 - 1 - r)

-- Go's conversion of an int to int32.
unfoldable pub to_int32 : ℤ → ℤ
to_int32 (pos n) = signed32 (n % 2 ^ 32)
to_int32 (negsuc n) = signed32 (2 ^ 32 - 1 - n % 2 ^ 32)

-- The largest number of connections of the pool, if it can be opened.
unfoldable pub new_postgres_store : Dial → ℤ → Result ℤ
new_postgres_store d max_conns =
    let conns = if ltb_ℤ (pos 0) max_conns then max_conns else d.default_conns in
    elim d.parse_fault [
      | some e ↦ err (wrap "parse dsn" e)
      | none ↦ elim d.pool_fault [
        | some e ↦ err (wrap "pgx pool" e)
        | none ↦ elim d.ping_fault [ some e ↦ err (wrap "postgres ping" e) | none ↦ ok conns ]
      ]
    ]

-- In the range of int32 nothing is lost; a setting of 2^32 + 1 opens one connection.
pub to_int32-pos : (n : ℕ) → n < 2 ^ 31 → to_int32 (pos n) ≡ pos n
unfolding to_int32
to_int32-pos n h = ground arith

to_int32_wraps : to_int32 (pos (2 ^ 32 + 1)) ≡ pos 1
unfolding to_int32
to_int32_wraps = refl
