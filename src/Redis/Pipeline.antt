-- ===== src/Redis/Pipeline.antt =====
-- The pipeline of Rehydrate as the changes it makes to the keyspace.
use enigma_behemoth.Prelude.{
  ℕ, zero, suc, ◌<◌, String, ◌≡◌, refl, Option, none, some, List, arith, ◌%◌,
}
use enigma_behemoth.Prelude.Int.{ℤ, pos, negsuc, ltb_ℤ}
use enigma_behemoth.Store.{LeaderEntry, RecoveryState}
use enigma_behemoth.Redis.Keyspace.{Cell, Keyspace}
use enigma_behemoth.Redis.Server.{exec, kept, put_int, put_text, del_key}
use enigma_behemoth.Redis.Keys.{hp_key, max_key, state_key, lb_key}
use enigma_behemoth.Redis.Scripts.{second}
use enigma_behemoth.Redis.Views.{IsLater}
use enigma_behemoth.Redis.Client.{
  whole_units, ttl_arg, client_expiry, board_expiry, fill, rehydrate_script,
}

-- The expiry that SET gives a key, from what is left of the old one where the client keeps it.
abbrev pub expiry_of : {A : Type 0} → ℤ → ℕ → Option (Cell A) → Option ℕ
expiry_of (pos n) now c = client_expiry (pos n)
expiry_of (negsuc zero) now c = kept now c
expiry_of (negsuc (suc n)) now c = none

abbrev pub refill : ℕ → String → RecoveryState → Option ℕ → Option ℕ → Keyspace → Keyspace
refill now id rs e1 e2 s = del_key (lb_key id) (
    put_text now (state_key id) rs.state e2
      (put_int now (max_key id) rs.max_hp none (put_int now (hp_key id) rs.current_hp e1 s)))

pub exec-rehydrate_script :
    (now : ℕ) (id : String) (ttl : ℤ) (rs : RecoveryState) (contribs : List LeaderEntry)
    (s : Keyspace)
    → exec (rehydrate_script id ttl rs contribs) now s
      ≡ exec (fill id (board_expiry ttl) contribs) now (
          refill now id rs
            (expiry_of ttl now (s.ints (hp_key id)))
            (expiry_of ttl now (s.texts (state_key id)))
            s)
unfolding exec rehydrate_script put_int
exec-rehydrate_script now id (pos n) rs contribs s = refl
exec-rehydrate_script now id (negsuc zero) rs contribs s = refl
exec-rehydrate_script now id (negsuc (suc n)) rs contribs s = refl

whole_units-positive : (unit d : ℕ) → 0 < unit → 0 < whole_units unit d
whole_units-positive unit d h = ground arith

pub client_expiry-IsLater : (ttl : ℤ) → IsLater (client_expiry ttl)
unfolding client_expiry
client_expiry-IsLater (pos zero) = tt
client_expiry-IsLater (pos (suc n)) =
    ground (arith, whole_units-positive 1_000_000 (suc n), whole_units-positive second (suc n))
client_expiry-IsLater (negsuc n) = tt

pub board_expiry-IsLater : (ttl : ℤ) → IsLater (board_expiry ttl)
unfolding board_expiry
board_expiry-IsLater (pos zero) = tt
board_expiry-IsLater (pos (suc n)) = whole_units-positive second (suc n) (omega arith)
board_expiry-IsLater (negsuc n) = tt

expires-IsLater :
    {A : Type 0} (now : ℕ) (e : Option ℕ) (x : Cell A) → x.expires ≡ e → IsLater (kept now (some x))
expires-IsLater now none x h = ground (arith, h)
expires-IsLater now (some t) x h = ground (arith, h)

kept-IsLater : {A : Type 0} (now : ℕ) (c : Option (Cell A)) → IsLater (kept now c)
kept-IsLater now none = tt
kept-IsLater now (some x) = expires-IsLater now x.expires x refl

pub expiry_of-IsLater :
    {A : Type 0} (ttl : ℤ) (now : ℕ) (c : Option (Cell A)) → IsLater (expiry_of ttl now c)
expiry_of-IsLater (pos n) now c = client_expiry-IsLater (pos n)
expiry_of-IsLater (negsuc zero) now c = kept-IsLater now c
expiry_of-IsLater (negsuc (suc n)) now c = tt

-- A TTL of a whole number of seconds, or zero, which is none.
abbrev pub IsSteady : ℤ → Type 0
IsSteady (pos n) = n % second ≡ 0
IsSteady (negsuc n) = ⊥

-- With a steady TTL all keys get one expiry.
pub steady-expiry :
    {A : Type 0} (ttl : ℤ) (now : ℕ) (c : Option (Cell A))
    → IsSteady ttl
    → expiry_of ttl now c ≡ board_expiry ttl
unfolding client_expiry board_expiry
steady-expiry (pos zero) now c h = refl
steady-expiry (pos (suc n)) now c h = ground (arith, h)
steady-expiry (negsuc n) now c h = absurd h

pub steady-ttl_arg : (ttl : ℤ) → IsSteady ttl → ltb_ℤ (pos 0) (ttl_arg ttl) ≡ ltb_ℤ (pos 0) ttl
unfolding ttl_arg
steady-ttl_arg (pos n) h = ground (arith, h)
steady-ttl_arg (negsuc n) h = absurd h
