-- ===== src/Redis/Keys.antt =====
-- The key functions of internal/store/redis.go, and that no two of their keys are the same.
use Prim.Native.String.{◌++◌ as append, len}
use text.Mathlib.TextPositions.{len-append, slice-append_right}
use text.Mathlib.TextLemmas.{append_assoc, append_cancel_left, append_cancel_right}
use mathlib.Core.Bool.{false≢true}
use enigma_behemoth.Prelude.{
  String, ◌≡◌, refl, sym, ap, ◌∙◌, false, inl, inr, arith, ◌==◌, eq_iff, eq_refl, str_ne,
  Bool-cases,
}

unfoldable pub hp_key : String → String
hp_key id = append (append "boss:" id) ":hp"

unfoldable pub max_key : String → String
max_key id = append (append "boss:" id) ":maxhp"

unfoldable pub state_key : String → String
state_key id = append (append "boss:" id) ":state"

unfoldable pub lb_key : String → String
lb_key id = append (append "boss:" id) ":lb"

-- Texts that end in parts of one length agree in those parts.
append-right_eq : (x y s t : String) → append x s ≡ append y t → len s ≡ len t → s ≡ t
append-right_eq x y s t e h = cc (slice-append_right x s, slice-append_right y t, e, same_start, h)
  where
    same_start : len x ≡ len y
    same_start = omega (arith, ap len e, len-append x s, len-append y t, h)

append_differ :
    (x y s t : String) → len s ≡ len t → (s == t) ≡ false → (append x s == append y t) ≡ false
append_differ x y s t h differ =
    str_ne (append x s) (append y t)
      (λ e. false≢true (sym differ ∙ (eq_iff s t).1 (append-right_eq x y s t e h)))

-- Keys of one kind are the same for the same boss only.
enclosed : (p a b s : String) → (append (append p a) s == append (append p b) s) ≡ (a == b)
enclosed p a b s = elim (Bool-cases (a == b)) [
  | inl e ↦ rw ((eq_iff a b).0 e, eq_refl b) (eq_refl _)
  | inr d ↦ rw d (str_ne _ _ (λ e. false≢true (sym d ∙ (eq_iff a b).1 (inner e))))
]
  where
    inner : append (append p a) s ≡ append (append p b) s → a ≡ b
    inner e = append_cancel_left p a b (append_cancel_right (append p a) (append p b) s e)

-- The keys by their last three characters.
max_key_tail : (id : String) → max_key id ≡ append (append (append "boss:" id) ":ma") "xhp"
unfolding max_key
max_key_tail id = sym (append_assoc (append "boss:" id) ":ma" "xhp")

state_key_tail : (id : String) → state_key id ≡ append (append (append "boss:" id) ":st") "ate"
unfolding state_key
state_key_tail id = sym (append_assoc (append "boss:" id) ":st" "ate")

module _ (a b : String) where
  pub hp_key-eq : (hp_key a == hp_key b) ≡ (a == b)
  unfolding hp_key
  hp_key-eq = enclosed "boss:" a b ":hp"

  pub max_key-eq : (max_key a == max_key b) ≡ (a == b)
  unfolding max_key
  max_key-eq = enclosed "boss:" a b ":maxhp"

  pub state_key-eq : (state_key a == state_key b) ≡ (a == b)
  unfolding state_key
  state_key-eq = enclosed "boss:" a b ":state"

  pub lb_key-eq : (lb_key a == lb_key b) ≡ (a == b)
  unfolding lb_key
  lb_key-eq = enclosed "boss:" a b ":lb"

  -- Keys of two kinds differ, whatever the bosses.
  pub hp-ne-max : (hp_key a == max_key b) ≡ false
  unfolding hp_key
  hp-ne-max = rw (max_key_tail b) (append_differ _ _ ":hp" "xhp" refl refl)

  pub hp-ne-state : (hp_key a == state_key b) ≡ false
  unfolding hp_key
  hp-ne-state = rw (state_key_tail b) (append_differ _ _ ":hp" "ate" refl refl)

  pub hp-ne-lb : (hp_key a == lb_key b) ≡ false
  unfolding hp_key lb_key
  hp-ne-lb = append_differ _ _ ":hp" ":lb" refl refl

  pub max-ne-hp : (max_key a == hp_key b) ≡ false
  unfolding hp_key
  max-ne-hp = rw (max_key_tail a) (append_differ _ _ "xhp" ":hp" refl refl)

  pub max-ne-state : (max_key a == state_key b) ≡ false
  max-ne-state = rw (max_key_tail a, state_key_tail b) (append_differ _ _ "xhp" "ate" refl refl)

  pub max-ne-lb : (max_key a == lb_key b) ≡ false
  unfolding lb_key
  max-ne-lb = rw (max_key_tail a) (append_differ _ _ "xhp" ":lb" refl refl)

  pub state-ne-hp : (state_key a == hp_key b) ≡ false
  unfolding hp_key
  state-ne-hp = rw (state_key_tail a) (append_differ _ _ "ate" ":hp" refl refl)

  pub state-ne-max : (state_key a == max_key b) ≡ false
  state-ne-max = rw (state_key_tail a, max_key_tail b) (append_differ _ _ "ate" "xhp" refl refl)

  pub state-ne-lb : (state_key a == lb_key b) ≡ false
  unfolding lb_key
  state-ne-lb = rw (state_key_tail a) (append_differ _ _ "ate" ":lb" refl refl)

  pub lb-ne-hp : (lb_key a == hp_key b) ≡ false
  unfolding lb_key hp_key
  lb-ne-hp = append_differ _ _ ":lb" ":hp" refl refl

  pub lb-ne-max : (lb_key a == max_key b) ≡ false
  unfolding lb_key
  lb-ne-max = rw (max_key_tail b) (append_differ _ _ ":lb" "xhp" refl refl)

  pub lb-ne-state : (lb_key a == state_key b) ≡ false
  unfolding lb_key
  lb-ne-state = rw (state_key_tail b) (append_differ _ _ ":lb" "ate" refl refl)

pub ruleset key_laws = (
  hp_key-eq, max_key-eq, state_key-eq, lb_key-eq, hp-ne-max, hp-ne-state, hp-ne-lb, max-ne-hp,
  max-ne-state, max-ne-lb, state-ne-hp, state-ne-max, state-ne-lb, lb-ne-hp, lb-ne-max, lb-ne-state,
)
