-- ===== src/Redis/Ready.antt =====
-- NewRedisStore and waitRedisReady of internal/store/redis.go. The context ends at a deadline and in no
-- other way. Times are instants and durations in nanoseconds.
pub mod Wait
use enigma_behemoth.Prelude.{
  ℕ, ◌≡◌, refl, zero, suc, ◌+◌, ◌*◌, String, Option, none, some, List, [], ◌∷◌, Bool, true, false,
  ◌&&◌, ◌||◌, not, ltb, leb, eqb, if◌then◌else◌,
}
use enigma_behemoth.Prelude.Int.{ℤ, pos}
use enigma_behemoth.Errors.{Err, Result, ok, err, opaque, wrap, sentinel, deadline_exceeded}
use enigma_behemoth.Text.{codes, contains}

-- One PING: how long it takes, the text of its error if it fails, and, where the backoff and the deadline
-- end at one instant, whether `select` picks the deadline.
pub record Ping : Type 0 where
  pub took : ℕ
  pub error : Option String
  pub cut : Bool

abbrev pub base_backoff : ℕ
base_backoff = 100000000

abbrev pub max_backoff : ℕ
max_backoff = 1000000000

unfoldable pub redis_starting : String → Bool
redis_starting msg =
    contains (codes msg) (codes "LOADING") || contains (codes msg) (codes "refused")

unfoldable pub next_backoff : ℕ → ℕ
next_backoff b = if ltb max_backoff (b * 2) then max_backoff else b * 2

-- The `select` between the deadline and the backoff that ends at `again`.
unfoldable pub cuts : ℕ → ℕ → Ping → Bool
cuts deadline again p = ltb deadline again || (eqb deadline again && p.cut)

-- One round of the loop from `now` on: its result, or `none` if it goes round again.
unfoldable pub attempt : ℕ → Ping → ℕ → ℕ → Option (Result (Unit {0}))
unfolding cuts
attempt deadline p now backoff = elim p.error [
  | none ↦ some (ok tt)
  | some msg ↦
      let failed = now + p.took in
      let again = failed + backoff in
      if leb deadline failed || not (redis_starting msg)
      then some (err (wrap "redis ping" (opaque msg)))
      else if cuts deadline again p
      then some (err (wrap "redis ping" (sentinel deadline_exceeded)))
      else none
]

-- `pings n` is the PING of round `n`. `none` means that the fuel ran out.
unfoldable pub wait_redis_ready : ℕ → ℕ → (ℕ → Ping) → ℕ → ℕ → ℕ → Option (Result (Unit {0}))
wait_redis_ready zero deadline pings n now backoff = none
wait_redis_ready (suc fuel) deadline pings n now backoff =
    let rest =
      wait_redis_ready fuel deadline pings (suc n) (now + (pings n).took + backoff)
        (next_backoff backoff) in
    elim (attempt deadline (pings n) now backoff) [ some r ↦ some r | none ↦ rest ]

-- The options of NewRedisStore, on the field `ttl`.
abbrev pub RedisOption : Type 0
RedisOption = ℤ → ℤ

abbrev pub with_cache_ttl : ℤ → RedisOption
with_cache_ttl d = λ ttl. d

abbrev pub apply_options : List RedisOption → ℤ → ℤ
apply_options [] ttl = ttl
apply_options (opt ∷ opts) ttl = apply_options opts (opt ttl)

-- The store's `ttl`, if Redis gets ready.
unfoldable pub new_redis_store : ℕ → ℕ → (ℕ → Ping) → ℕ → List RedisOption → Option (Result ℤ)
new_redis_store fuel deadline pings now opts =
    elim (wait_redis_ready fuel deadline pings 0 now base_backoff) [
      | none ↦ none
      | some (err e) ↦ some (err e)
      | some (ok u) ↦ some (ok (apply_options opts (pos 0)))
    ]

-- "LOADING" is tried again after 100 ms, 200 ms, and so on; another error is final.
abbrev loading : ℕ → Ping
loading n = record {
  took = 0;
  error = if ltb n 2 then some "LOADING Redis is loading the dataset in memory" else none;
  cut = false;
}

test_loading : wait_redis_ready 5 1000000000 loading 0 0 base_backoff ≡ some (ok tt)
unfolding wait_redis_ready attempt next_backoff redis_starting contains
test_loading = refl

test_deadline :
    wait_redis_ready 5 200000000 loading 0 0 base_backoff
    ≡ some (err (wrap "redis ping" (sentinel deadline_exceeded)))
unfolding wait_redis_ready attempt next_backoff redis_starting contains
test_deadline = refl
