-- ===== src/Postgres/Batch.antt =====
-- CommitBatch of internal/store/postgres.go. Go's maps have a random iteration order: `order` and
-- `boss_order` are the orders in which this run meets the keys.
pub mod Keys
pub mod Sums
pub mod Distinct
pub mod Rows
pub mod Keyed
pub mod Bosses
pub mod Commit
pub mod Reorder
pub mod Effect
pub mod Log
pub mod Atomic
pub mod Books
use enigma_behemoth.Prelude.{
  ℕ, String, Option, none, some, List, [], ◌∷◌, map, Bool, true, false, ◌&&◌, ◌==◌, if◌then◌else◌,
}
use enigma_behemoth.Prelude.Int.{ℤ, pos, add64}
use enigma_behemoth.Errors.{Err, Result, ok, err, opaque, wrap, ◌>>=◌}
use enigma_behemoth.Store.{DamageEvent}
use enigma_behemoth.Redis.Order.{str_lt}
use enigma_behemoth.Postgres.Tables.{Tables, Boss, Contribution, copy_rows, upsert, update_boss}

pub record Key : Type 0 where
  pub boss : String
  pub player : String

unfoldable pub same_key : Key → Key → Bool
same_key j k = (j.boss == k.boss) && (j.player == k.player)

-- perPlayer[k] += applied
unfoldable pub bump : Key → ℤ → List (Key × ℤ) → List (Key × ℤ)
bump k a [] = (k, add64 (pos 0) a) ∷ []
bump k a ((j, v) ∷ m) = if same_key j k then (j, add64 v a) ∷ m else (j, v) ∷ bump k a m

-- m[k], zero for a missing key
unfoldable pub at_key : Key → List (Key × ℤ) → ℤ
at_key k [] = pos 0
at_key k ((j, v) ∷ m) = if same_key j k then v else at_key k m

unfoldable pub key_of : DamageEvent → Key
key_of e = record { boss = e.boss_id; player = e.player_id }

unfoldable pub boss_key : DamageEvent → Key
boss_key e = record { boss = e.boss_id; player = "" }

-- One pass over the events for each of the two maps. A boss is a key with no player.
unfoldable pub per_key : (DamageEvent → Key) → List DamageEvent → List (Key × ℤ) → List (Key × ℤ)
per_key f [] m = m
per_key f (e ∷ es) m = per_key f es (bump (f e) e.applied m)

unfoldable pub per_player : List DamageEvent → List (Key × ℤ)
unfolding key_of
per_player es = per_key key_of es []

unfoldable pub per_boss : List DamageEvent → List (Key × ℤ)
unfolding boss_key
per_boss es = per_key boss_key es []

-- The `less` of sort.Slice
unfoldable pub key_lt : Key → Key → Bool
key_lt i j = if i.boss == j.boss then str_lt i.player j.player else str_lt i.boss j.boss

insert_key : Key → List Key → List Key
insert_key k [] = k ∷ []
insert_key k (j ∷ ks) = if key_lt j k then j ∷ insert_key k ks else k ∷ j ∷ ks

unfoldable pub sort_keys : List Key → List Key
unfolding insert_key
sort_keys [] = []
sort_keys (k ∷ ks) = insert_key k (sort_keys ks)

abbrev pub keys : List (Key × ℤ) → List Key
keys = map (λ e. e.0)

-- The queued statements, in order.
unfoldable pub upserts : List (Key × ℤ) → List Key → List Contribution → Option (List Contribution)
upserts m [] rows = some rows
upserts m (k ∷ ks) rows = elim (upsert k.boss k.player (at_key k m) rows) [
  | none ↦ none
  | some rows' ↦ upserts m ks rows'
]

unfoldable pub updates : ℕ → List (Key × ℤ) → List Key → List Boss → Option (List Boss)
updates now m [] bosses = some bosses
updates now m (k ∷ ks) bosses = elim (update_boss now k.boss (at_key k m) bosses) [
  | none ↦ none
  | some bosses' ↦ updates now m ks bosses'
]

-- Where the connection fails: before an answer, with the transaction rolled back, or after the server
-- has committed, with the answer to COMMIT lost.
pub data Stage : Type 0 where
  at_begin at_copy at_exec at_close at_commit : Stage

pub data Link : Type 0 where
  sound : Link
  broken : Stage → Err → Link
  ack_lost : Err → Link

abbrev pub stage_eq : Stage → Stage → Bool
stage_eq at_begin at_begin = true
stage_eq at_copy at_copy = true
stage_eq at_exec at_exec = true
stage_eq at_close at_close = true
stage_eq at_commit at_commit = true
stage_eq _ _ = false

-- A step of the transaction: it fails with the link, or with the statement.
unfoldable pub step {ℓ} : {A : Type ℓ} → Link → Stage → String → Option A → Result A
step (broken s e) at msg (some a) = if stage_eq s at then err (wrap msg e) else ok a
step (broken s e) at msg none =
    if stage_eq s at then err (wrap msg e) else err (wrap msg (opaque "statement failed"))
step _ at msg (some a) = ok a
step _ at msg none = err (wrap msg (opaque "statement failed"))

-- The tables that the transaction would leave.
unfoldable pub batch_tx :
    Link
    → (List Key → List Key)
    → (List Key → List Key)
    → ℕ
    → List DamageEvent
    → Tables
    → Result Tables
batch_tx link order boss_order now es t = do
  let m = per_player es
  let n = per_boss es
  _ ← step link at_begin "begin batch tx" (some t)
  log ← step link at_copy "copy damage_events" (copy_rows t.bosses es t.damage_events)
  rows ← step link at_exec "batch exec" (upserts m (sort_keys (order (keys m))) t.contributions)
  bosses ← step link at_exec "batch exec" (updates now n (sort_keys (boss_order (keys n))) t.bosses)
  _ ← step link at_close "batch close" (some t)
  step link at_commit "commit batch"
      (some (record t { bosses = bosses; damage_events = log; contributions = rows }))

-- What the caller is told, and the tables afterwards.
unfoldable pub settle_tx : Link → Tables → Result Tables → Result (Unit {0}) × Tables
settle_tx link t (err e) = (err e, t)
settle_tx (ack_lost e) t (ok t') = (err (wrap "commit batch" e), t')
settle_tx _ t (ok t') = (ok tt, t')

unfoldable pub commit_batch :
    Link
    → (List Key → List Key)
    → (List Key → List Key)
    → ℕ
    → List DamageEvent
    → Tables
    → Result (Unit {0}) × Tables
unfolding settle_tx
commit_batch link order boss_order now [] t = (ok tt, t)
commit_batch link order boss_order now (e ∷ es) t =
    settle_tx link t (batch_tx link order boss_order now (e ∷ es) t)
