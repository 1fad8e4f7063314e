-- ===== src/Recovery/Reconcile.antt =====
-- internal/recovery/reconcile.go: Enqueue and the workers, as steps of one mutex, one channel operation
-- or one worker at a time. Stop is in the child Stop.
pub mod Coalesce
pub mod Stop
use enigma_behemoth.Prelude.{
  ℕ, String, Option, none, some, List, [], ◌∷◌, ◌++◌, Bool, true, false, length, ltb, ◌==◌, ◌≡◌,
  ◌||◌, if◌then◌else◌,
}

abbrev pub reconcile_queue_size : ℕ
reconcile_queue_size = 2048

-- `queued` is the keys of the map, `sending` the calls of Enqueue between the first unlock and the
-- select, `ch` the channel, oldest first, `sleeping` the workers that have received a boss and not yet
-- freed it, and `rebuilding` the rebuilds that they have begun.
pub record Reconciler : Type 0 where
  pub queued : List String
  pub sending : List String
  pub ch : List String
  pub sleeping : List String
  pub rebuilding : List String

abbrev pub new_reconciler : Reconciler
new_reconciler = record { queued = []; sending = []; ch = []; sleeping = []; rebuilding = [] }

abbrev pub has : String → List String → Bool
has id [] = false
has id (j ∷ js) = let rest = has id js in (j == id) || rest

-- The key of a map goes.
abbrev pub delete : String → List String → List String
delete id [] = []
delete id (j ∷ js) = let rest = delete id js in if j == id then rest else j ∷ rest

-- One call, or one worker, moves on.
abbrev pub drop_one : String → List String → List String
drop_one id [] = []
drop_one id (j ∷ js) = let rest = drop_one id js in if j == id then js else j ∷ rest

-- The first critical section of Enqueue.
unfoldable pub mark : String → Reconciler → Reconciler
mark id r =
    if has id r.queued then r else record r { queued = id ∷ r.queued; sending = id ∷ r.sending }

-- The select of Enqueue, with the critical section of its default.
unfoldable pub send : String → Reconciler → Reconciler
send id r =
    if ltb (length r.ch) reconcile_queue_size
    then record r { sending = drop_one id r.sending; ch = r.ch ++ id ∷ [] }
    else record r { sending = drop_one id r.sending; queued = delete id r.queued }

-- A worker frees the slot and begins the rebuild.
unfoldable pub free : String → Reconciler → Reconciler
free id r = record r {
  queued = delete id r.queued;
  sleeping = drop_one id r.sleeping;
  rebuilding = r.rebuilding ++ id ∷ [];
}

pub data Step : Reconciler → Reconciler → Type 0 where
  marks : (id : String) (r : Reconciler) → Step r (mark id r)
  sends : (id : String) (r : Reconciler) → has id r.sending ≡ true → Step r (send id r)
  receives :
      (id : String) (rest : List String) (r : Reconciler)
      → r.ch ≡ id ∷ rest
      → Step r (record r { ch = rest; sleeping = id ∷ r.sleeping })
  frees : (id : String) (r : Reconciler) → has id r.sleeping ≡ true → Step r (free id r)

pub data Reaches : Reconciler → Reconciler → Type 0 where
  here : (r : Reconciler) → Reaches r r
  next : (a b c : Reconciler) → Reaches a b → Step b c → Reaches a c
