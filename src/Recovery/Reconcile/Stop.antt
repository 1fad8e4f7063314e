-- ===== src/Recovery/Reconcile/Stop.antt =====
-- internal/recovery/reconcile.go: Start, the workers and Stop, as steps of one mutex, one channel operation
-- or one worker at a time.
pub mod Emptied
use enigma_behemoth.Prelude.{
  ℕ, suc, String, List, [], ◌∷◌, ◌++◌, Bool, true, false, length, ltb, ◌≡◌, if◌then◌else◌,
}
use enigma_behemoth.Recovery.Reconcile.{
  Reconciler, new_reconciler, reconcile_queue_size, has, mark, send, free,
}

abbrev pub reconcile_workers : ℕ
reconcile_workers = 2

-- The reconciler, whether its channel is closed, and how many workers wait at the channel, are in a
-- rebuild, and have ended; those in the settle delay are in `sleeping`. `sent` is the history of what
-- Enqueue has put into the channel.
pub record Crew : Type 0 where
  pub queue : Reconciler
  pub is_closed : Bool
  pub waiting : ℕ
  pub busy : ℕ
  pub ended : ℕ
  pub sent : List String

-- NewReconciler and Start.
abbrev pub hired : Crew
hired = record {
  queue = new_reconciler;
  is_closed = false;
  waiting = reconcile_workers;
  busy = 0;
  ended = 0;
  sent = [];
}

-- The select of Enqueue, with the history.
unfoldable pub post : String → Crew → Crew
post id c = record c {
  queue = send id c.queue;
  sent = if ltb (length (c.queue).ch) reconcile_queue_size then c.sent ++ id ∷ [] else c.sent;
}

-- A worker receives a boss, and sleeps.
unfoldable pub receive : String → List String → ℕ → Crew → Crew
receive id rest waiting c = record c {
  queue = record (c.queue) { ch = rest; sleeping = id ∷ (c.queue).sleeping };
  waiting = waiting;
}

-- After the delay it frees the slot and begins the rebuild.
unfoldable pub begin_rebuild : String → Crew → Crew
begin_rebuild id c = record c { queue = free id c.queue; busy = suc c.busy }

-- The steps. The context of a rebuild ends it at last, whatever comes of it. A send on the closed channel
-- would panic, so Enqueue does not reach its select after Stop.
pub data CrewStep : Crew → Crew → Type 0 where
  marks : (id : String) (c : Crew) → CrewStep c (record c { queue = mark id c.queue })
  posts :
      (id : String) (c : Crew)
      → c.is_closed ≡ false
      → has id (c.queue).sending ≡ true
      → CrewStep c (post id c)
  receives :
      (id : String) (rest : List String) (n : ℕ) (c : Crew)
      → (c.queue).ch ≡ id ∷ rest
      → c.waiting ≡ suc n
      → CrewStep c (receive id rest n c)
  frees :
      (id : String) (c : Crew) → has id (c.queue).sleeping ≡ true → CrewStep c (begin_rebuild id c)
  finishes :
      (n : ℕ) (c : Crew)
      → c.busy ≡ suc n
      → CrewStep c (record c { busy = n; waiting = suc c.waiting })
  stops : (c : Crew) → CrewStep c (record c { is_closed = true })
  leaves :
      (n : ℕ) (c : Crew)
      → c.is_closed ≡ true
      → (c.queue).ch ≡ []
      → c.waiting ≡ suc n
      → CrewStep c (record c { waiting = n; ended = suc c.ended })

pub data CrewSteps : Crew → Crew → Type 0 where
  here : (c : Crew) → CrewSteps c c
  next : (a b c : Crew) → CrewSteps a b → CrewStep b c → CrewSteps a c
