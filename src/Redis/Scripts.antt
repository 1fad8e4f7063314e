-- ===== src/Redis/Scripts.antt =====
-- The two Lua scripts of internal/store/redis.go. Lua's numbers are exact on integers up to 2^53.
use enigma_behemoth.Prelude.{ℕ, ◌*◌, String, none, some, List, [], ◌∷◌, if◌then◌else◌}
use enigma_behemoth.Prelude.Int.{ℤ, pos, negsuc, pos_part, ◌+ℤ◌, ◌-ℤ◌, neg, leb_ℤ, ltb_ℤ}
use enigma_behemoth.Redis.Server.{Script, reply, get, set, set_text, expire, zincrby, zrem}

-- An element of a script's reply, as the client library hands it over: `float64` is given by its
-- value rounded toward zero.
pub data Any : Type 0 where
  int64 int float64 : ℤ → Any
  other : Any

-- Lua's table of three numbers.
abbrev pub triple : ℤ → ℤ → ℤ → List Any
triple a b c = int64 a ∷ int64 b ∷ int64 c ∷ []

abbrev pub millisecond : ℕ
millisecond = 1_000_000

abbrev pub second : ℕ
second = 1_000_000_000

-- `EX ttl`
abbrev pub seconds : ℤ → ℕ
seconds ttl = pos_part ttl * second

module _ (hp_k lb_k state_k : String) where
  -- The writes after a hit has landed: the new HP, and the state if the boss is down.
  unfoldable pub settle_hit : {R : Type 0} → ℤ → ℤ → R → Script R
  settle_hit newhp ttl answer =
      if ltb_ℤ (pos 0) ttl
      then set hp_k newhp (some (seconds ttl)) (
          expire lb_k (seconds ttl) (
            if leb_ℤ newhp (pos 0)
            then set_text state_k "defeated" (some (seconds ttl)) (reply answer)
            else expire state_k (seconds ttl) (reply answer)))
      else set hp_k newhp none (
          if leb_ℤ newhp (pos 0)
          then set_text state_k "defeated" none (reply answer)
          else reply answer)

  unfoldable pub damage_script : String → ℤ → ℤ → Script (List Any)
  unfolding settle_hit
  damage_script player dmg ttl = get hp_k λ found. elim found [
    | none ↦ reply (triple (negsuc 0) (pos 0) (pos 0))
    | some hp ↦
        if leb_ℤ dmg (pos 0)
        then reply (triple (negsuc 1) (pos 0) hp)
        else if leb_ℤ hp (pos 0)
        then reply (triple (pos 0) (pos 0) hp)
        else let applied = if ltb_ℤ hp dmg then hp else dmg in
          let newhp = hp -ℤ applied in
          zincrby lb_k applied player λ _. settle_hit newhp ttl (triple (pos 1) applied newhp)
  ]

  -- The writes after a hit is taken back.
  unfoldable pub settle_undo : ℤ → ℤ → Script ℤ
  settle_undo newhp ttl =
      if ltb_ℤ (pos 0) ttl
      then set hp_k newhp (some (seconds ttl)) (
          expire lb_k (seconds ttl) (
            if ltb_ℤ (pos 0) newhp
            then set_text state_k "alive" (some (seconds ttl)) (reply newhp)
            else expire state_k (seconds ttl) (reply newhp)))
      else set hp_k newhp none
          (if ltb_ℤ (pos 0) newhp then set_text state_k "alive" none (reply newhp) else reply newhp)

  unfoldable pub compensate_script : String → ℤ → ℤ → Script ℤ
  unfolding settle_undo
  compensate_script player amt ttl = get hp_k λ found. elim found [
    | none ↦ reply (negsuc 0)
    | some hp ↦
        if leb_ℤ amt (pos 0)
        then reply hp
        else let rest = settle_undo (hp +ℤ amt) ttl in
          zincrby lb_k (neg amt) player
            λ newscore. if leb_ℤ newscore (pos 0) then zrem lb_k player rest else rest
  ]
