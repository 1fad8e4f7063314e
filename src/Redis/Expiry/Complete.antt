-- ===== src/Redis/Expiry/Complete.antt =====
-- The calls of internal/store/redis.go that write, in any order and with any fate of each call, keep the keys
-- of every boss aligned.
use enigma_behemoth.Prelude.{
  ℕ, ◌≤◌, String, some, ◌≡◌, sym, subst, false, ◌==◌, arith, inl, inr, Bool-cases, eq_iff,
}
use enigma_behemoth.Prelude.Int.{ℤ, pos, ltb_ℤ}
use enigma_behemoth.Redis.Keyspace.{Keyspace, Cell, live, empty}
use enigma_behemoth.Redis.Server.{Server, Script, Delivery, answered, refused, lost, call, exec}
use enigma_behemoth.Redis.Client.{ttl_arg, apply_damage, compensate_damage, rehydrate}
use enigma_behemoth.Redis.Pipeline.{IsSteady, steady-ttl_arg}
use enigma_behemoth.Redis.Expiry.{cells}
use enigma_behemoth.Redis.Expiry.Scripts.{damage-Change, compensate-Change}
use enigma_behemoth.Redis.Expiry.Beside.{damage-beside, compensate-beside, rehydrate-beside}
use enigma_behemoth.Redis.Expiry.Aligned.{IsWhole, IsAligned, Change-IsAligned, later-IsAligned}
use enigma_behemoth.Redis.Expiry.Refilled.{rehydrate-IsAligned}
use enigma_behemoth.Store.{LeaderEntry, RecoveryState}
use enigma_behemoth.Prelude.{List}

module _ (S : Server) (ttl : ℤ) where
  open S use {Db, contents, eval-exec}

  abbrev pub AllAligned : ℕ → Db → Type 0
  AllAligned now db = (id : String) → IsAligned (ltb_ℤ (pos 0) ttl) now (cells id (contents db))

  -- A call that keeps the keys aligned on the server keeps them whatever the network does to it.
  call-IsAligned :
      {R : Type 0} (net : Delivery) (p : Script R) (now : ℕ) (db : Db)
      → ((id : String) → IsAligned (ltb_ℤ (pos 0) ttl) now (cells id (exec p now (contents db)).1))
      → AllAligned now db
      → AllAligned now (call S net p now db).1
  unfolding call
  call-IsAligned answered p now db k a id =
      subst (λ (s : Keyspace). IsAligned (ltb_ℤ (pos 0) ttl) now (cells id s))
        (sym (eval-exec p now db).1) (k id)
  call-IsAligned (refused e) p now db k a id = a id
  call-IsAligned (lost e) p now db k a id =
      subst (λ (s : Keyspace). IsAligned (ltb_ℤ (pos 0) ttl) now (cells id s))
        (sym (eval-exec p now db).1) (k id)

  -- What holds of the boss of a script and of every other boss holds of all.
  own_or_other :
      (id : String) (now : ℕ) (s s' : Keyspace)
      → IsAligned (ltb_ℤ (pos 0) ttl) now (cells id s')
      → ((j : String) → (id == j) ≡ false → cells j s' ≡ cells j s)
      → ((j : String) → IsAligned (ltb_ℤ (pos 0) ttl) now (cells j s))
      → (j : String) → IsAligned (ltb_ℤ (pos 0) ttl) now (cells j s')
  own_or_other id now s s' own other a j = elim (Bool-cases (id == j)) [
    | inl e ↦
        subst (λ (k : String). IsAligned (ltb_ℤ (pos 0) ttl) now (cells k s')) ((eq_iff id j).0 e)
          own
    | inr e ↦ subst (IsAligned (ltb_ℤ (pos 0) ttl) now) (sym (other j e)) (a j)
  ]

  module _ (steady : IsSteady ttl) where
    pub apply_damage-IsAligned :
        (net : Delivery) (now : ℕ) (id player : String) (amount : ℤ) (db : Db)
        → AllAligned now db
        → AllAligned now (apply_damage S ttl net now id player amount db).1
    unfolding apply_damage
    apply_damage-IsAligned net now id player amount db a =
        call-IsAligned net _ now db
          (own_or_other id now (contents db) _
            (Change-IsAligned _ now (ttl_arg ttl) _ _ (steady-ttl_arg ttl steady)
              (damage-Change now id player amount (ttl_arg ttl) (contents db)) (a id))
            (λ j differ. damage-beside now id j differ player amount (ttl_arg ttl) (contents db)) a)
          a

    pub compensate_damage-IsAligned :
        (net : Delivery) (now : ℕ) (id player : String) (amount : ℤ) (db : Db)
        → AllAligned now db
        → AllAligned now (compensate_damage S ttl net now id player amount db).1
    unfolding compensate_damage
    compensate_damage-IsAligned net now id player amount db a =
        call-IsAligned net _ now db
          (own_or_other id now (contents db) _
            (Change-IsAligned _ now (ttl_arg ttl) _ _ (steady-ttl_arg ttl steady)
              (compensate-Change now id player amount (ttl_arg ttl) (contents db)) (a id))
            (λ j differ.
              compensate-beside now id j differ player amount (ttl_arg ttl) (contents db))
            a)
          a

  pub rehydrate-AllAligned :
      IsSteady ttl
      → (net : Delivery) (now : ℕ) (id : String) (rs : RecoveryState) (contribs : List LeaderEntry)
        (db : Db)
      → AllAligned now db
      → AllAligned now (rehydrate S ttl net now id rs contribs db).1
  unfolding rehydrate
  rehydrate-AllAligned steady net now id rs contribs db a =
      call-IsAligned net _ now db
        (own_or_other id now (contents db) _
          (rehydrate-IsAligned now id ttl rs contribs (contents db) steady)
          (λ j differ. rehydrate-beside now id j differ ttl rs contribs (contents db)) a)
        a

  -- The server and the time.
  pub record Instant : Type 0 where
    pub now : ℕ
    pub db : Db

  pub data Touch : Instant → Instant → Type 0 where
    hits :
        (net : Delivery) (id player : String) (amount : ℤ) (s : Instant)
        → Touch s (record s { db = (apply_damage S ttl net s.now id player amount s.db).1 })
    undoes :
        (net : Delivery) (id player : String) (amount : ℤ) (s : Instant)
        → Touch s (record s { db = (compensate_damage S ttl net s.now id player amount s.db).1 })
    rebuilds :
        (net : Delivery) (id : String) (rs : RecoveryState) (contribs : List LeaderEntry)
        (s : Instant)
        → Touch s (record s { db = (rehydrate S ttl net s.now id rs contribs s.db).1 })
    passes : (later : ℕ) (s : Instant) → s.now ≤ later → Touch s (record s { now = later })

  pub data Touches : Instant → Instant → Type 0 where
    here : (s : Instant) → Touches s s
    next : (a b c : Instant) → Touches a b → Touch b c → Touches a c

  Touch-IsAligned :
      {s t : Instant} → IsSteady ttl → Touch s t → AllAligned s.now s.db → AllAligned t.now t.db
  Touch-IsAligned steady (hits net id player amount s) a =
      apply_damage-IsAligned steady net s.now id player amount s.db a
  Touch-IsAligned steady (undoes net id player amount s) a =
      compensate_damage-IsAligned steady net s.now id player amount s.db a
  Touch-IsAligned steady (rebuilds net id rs contribs s) a =
      rehydrate-AllAligned steady net s.now id rs contribs s.db a
  Touch-IsAligned steady (passes later s le) a =
      λ id. later-IsAligned _ s.now later (cells id (contents s.db)) le (a id)

  Touches-IsAligned :
      {s t : Instant} → IsSteady ttl → Touches s t → AllAligned s.now s.db → AllAligned t.now t.db
  Touches-IsAligned steady (here _) a = a
  Touches-IsAligned steady (next _ m _ ms step) a =
      Touch-IsAligned steady step (Touches-IsAligned steady ms a)

  pub empty-IsAligned : (now : ℕ) (db : Db) → contents db ≡ empty → AllAligned now db
  unfolding cells
  empty-IsAligned now db clear id =
      subst (λ (s : Keyspace). IsAligned (ltb_ℤ (pos 0) ttl) now (cells id s)) (sym clear)
        (λ h e. ground arith)

  -- From an empty cache, with a TTL of zero or a whole number of seconds, every sequence of ApplyDamage,
  -- CompensateDamage and Rehydrate, for any bosses, each answered, refused or with its answer lost, with any
  -- time in between, leads to a cache in which, of each boss with live HP: the maximum is there and never
  -- expires, the state is there and expires with the HP, and so does the leaderboard, if there is one.
  pub Touches-IsComplete :
      (s t : Instant) (id : String) (h : Cell ℤ)
      → IsSteady ttl
      → contents s.db ≡ empty
      → Touches s t
      → live t.now (cells id (contents t.db)).hp ≡ some h
      → IsWhole (ltb_ℤ (pos 0) ttl) h.expires (cells id (contents t.db))
  Touches-IsComplete s t id h steady clear run alive =
      Touches-IsAligned steady run (empty-IsAligned s.now s.db clear) id h alive
