-- ===== src/Redis/Server.antt =====
-- Scripts over the keyspace, and the Redis server that evaluates them. The server is not part of the
-- repository: it is a record with one law, that it evaluates a script (a Lua script, or a MULTI/EXEC
-- pipeline) atomically and each command as documented.
use mathlib.Core.Path.{refl}
use enigma_behemoth.Prelude.{ℕ, ◌+◌, ◌-◌, String, Option, none, some, List, ◌≡◌, update, take}
use enigma_behemoth.Prelude.Int.{ℤ, ◌+ℤ◌}
use enigma_behemoth.Errors.{Err, Result, ok, err}
use enigma_behemoth.Redis.Keyspace.{
  Cell, Keyspace, read, members, score, increment, remove, add_members, set_expiry, deadline, live,
}
use enigma_behemoth.Redis.Order.{rank}

-- An expiry is a number of nanoseconds from the present; SET with `none` clears it, and SET with KEEPTTL
-- (`set_keep`) keeps that of a live key.
pub data Script (R : Type 0) : Type 0 where
  reply : R → Script R
  get : String → (Option ℤ → Script R) → Script R
  get_text : String → (Option String → Script R) → Script R
  set : String → ℤ → Option ℕ → Script R → Script R
  set_text : String → String → Option ℕ → Script R → Script R
  set_keep : String → ℤ → Script R → Script R
  set_text_keep : String → String → Script R → Script R
  expire : String → ℕ → Script R → Script R
  del : String → Script R → Script R
  zincrby : String → ℤ → String → (ℤ → Script R) → Script R
  zrem : String → String → Script R → Script R
  zadd : String → List (String × ℤ) → Script R → Script R
  zrevrange : String → ℕ → (List (String × ℤ) → Script R) → Script R

-- What is left of the expiry of a live key.
abbrev pub kept {ℓ} : {A : Type ℓ} → ℕ → Option (Cell A) → Option ℕ
kept now c = elim (live now c) [
  | none ↦ none
  | some x ↦ elim x.expires [ none ↦ none | some t ↦ some (t - now) ]
]

-- What the commands do to the keyspace, at the instant `now`.
unfoldable pub put_int : ℕ → String → ℤ → Option ℕ → Keyspace → Keyspace
put_int now k v e s = record s {
  ints = update s.ints k (some (record { value = v; expires = deadline now e }));
}

unfoldable pub put_text : ℕ → String → String → Option ℕ → Keyspace → Keyspace
put_text now k v e s = record s {
  texts = update s.texts k (some (record { value = v; expires = deadline now e }));
}

-- EXPIRE and DEL act on the key at whatever type it holds.
unfoldable pub expire_key : ℕ → String → ℕ → Keyspace → Keyspace
expire_key now k d s = record {
  ints = update s.ints k (set_expiry now (now + d) (s.ints k));
  texts = update s.texts k (set_expiry now (now + d) (s.texts k));
  zsets = update s.zsets k (set_expiry now (now + d) (s.zsets k));
}

unfoldable pub del_key : String → Keyspace → Keyspace
del_key k s = record {
  ints = update s.ints k none;
  texts = update s.texts k none;
  zsets = update s.zsets k none;
}

unfoldable pub zset_map :
    String
    → (Option (Cell (List (String × ℤ))) → Option (Cell (List (String × ℤ))))
    → Keyspace
    → Keyspace
zset_map k f s = record s { zsets = update s.zsets k (f (s.zsets k)) }

-- The documented meaning of a script that runs at the instant `now`.
unfoldable pub exec : {R : Type 0} → Script R → ℕ → Keyspace → R × Keyspace
exec (reply r) now s = (r, s)
exec (get k f) now s = exec (f (read now (s.ints k))) now s
exec (get_text k f) now s = exec (f (read now (s.texts k))) now s
exec (set k v e rest) now s = exec rest now (put_int now k v e s)
exec (set_text k v e rest) now s = exec rest now (put_text now k v e s)
exec (set_keep k v rest) now s = exec rest now (put_int now k v (kept now (s.ints k)) s)
exec (set_text_keep k v rest) now s = exec rest now (put_text now k v (kept now (s.texts k)) s)
exec (expire k d rest) now s = exec rest now (expire_key now k d s)
exec (del k rest) now s = exec rest now (del_key k s)
exec (zincrby k a m f) now s =
    exec (f (score m (members now (s.zsets k)) +ℤ a)) now (zset_map k (increment now a m) s)
exec (zrem k m rest) now s = exec rest now (zset_map k (remove now m) s)
exec (zadd k ms rest) now s = exec rest now (zset_map k (add_members now ms) s)
exec (zrevrange k n f) now s = exec (f (take n (rank (members now (s.zsets k))))) now s

pub record Server : Type 1 where
  pub Db : Type 0
  pub contents : Db → Keyspace
  pub eval : {R : Type 0} → Script R → ℕ → Db → R × Db
  pub eval-exec :
      {R : Type 0} (p : Script R) (now : ℕ) (d : Db)
      → ((eval p now d).0 ≡ (exec p now (contents d)).0)
        × (contents (eval p now d).1 ≡ (exec p now (contents d)).1)

-- What the network does to a call: it is answered, it never reaches the server, or it is evaluated
-- and the answer is lost.
pub data Delivery : Type 0 where
  answered : Delivery
  refused lost : Err → Delivery

module _ (S : Server) where
  open S use {Db, eval}

  unfoldable pub call : {R : Type 0} → Delivery → Script R → ℕ → Db → Result R × Db
  call answered p now d = let (r, d') = eval p now d in (ok r, d')
  call (refused e) p now d = (err e, d)
  call (lost e) p now d = (err e, (eval p now d).1)

-- A server that is its keyspace.
abbrev pub plain : Server
plain = record {
  Db = Keyspace;
  contents = λ s. s;
  eval = exec;
  eval-exec = λ p now d. (refl, refl);
}
