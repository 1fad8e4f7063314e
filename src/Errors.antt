-- ===== src/Errors.antt =====
-- Go error values of internal/store/store.go and internal/boss/service.go, the two errors of the
-- `context` package, driver errors, and `errors.Is` over wrapped errors.
use enigma_behemoth.Prelude.{String, Bool, true, false, ◌||◌, ◌≡◌, refl, ◌⊎◌, inl, inr}

pub data Sentinel : Type 0 where
  -- internal/boss/service.go
  invalid_damage boss_not_found boss_already_defeated boss_not_defeated : Sentinel
  no_contribution overloaded : Sentinel
  -- internal/store/store.go
  queue_full commit_failed : Sentinel
  -- context
  canceled deadline_exceeded : Sentinel

-- `wrap msg e` is `fmt.Errorf("msg: %w", e)`; `join a b` is `fmt.Errorf("%w: %w", a, b)`; `opaque`
-- is an error value that the program does not name.
pub data Err : Type 0 where
  sentinel : Sentinel → Err
  opaque : String → Err
  wrap : String → Err → Err
  join : Err → Err → Err

abbrev pub same : Sentinel → Sentinel → Bool
same invalid_damage invalid_damage = true
same boss_not_found boss_not_found = true
same boss_already_defeated boss_already_defeated = true
same boss_not_defeated boss_not_defeated = true
same no_contribution no_contribution = true
same overloaded overloaded = true
same queue_full queue_full = true
same commit_failed commit_failed = true
same canceled canceled = true
same deadline_exceeded deadline_exceeded = true
same _ _ = false

-- `errors.Is(err, target)`: the error itself, or one that it wraps.
abbrev pub is : Err → Sentinel → Bool
is (sentinel s) t = same s t
is (opaque m) t = false
is (wrap m e) t = is e t
is (join a b) t = is a t || is b t

-- A Go result: a value or an error.
pub data Result {ℓ} (A : Type ℓ) : Type ℓ where
  ok : A → Result A
  err : Err → Result A

infixl 5 ◌>>=◌
abbrev pub ◌>>=◌ {ℓ κ} : {A : Type ℓ} {B : Type κ} → Result A → (A → Result B) → Result B
ok a >>= f = f a
err e >>= f = err e

pub Result-cases {ℓ} :
    {A : Type ℓ} → (r : Result A) → ((a : A) × (r ≡ ok a)) ⊎ ((e : Err) × (r ≡ err e))
Result-cases (ok a) = inl (a, refl)
Result-cases (err e) = inr (e, refl)
