-- ===== src/Recovery/Reconcile/Stop/Emptied.antt =====
-- Once Stop of the reconciler has returned, every boss that Enqueue has put into the channel was rebuilt.
use enigma_behemoth.Prelude.{
  ℕ, suc, ◌+◌, ◌<◌, ◌≡◌, refl, ap, ◌∙◌, String, List, [], ◌∷◌, Bool, true, false, length, ltb,
  arith, inl, inr, Bool-cases,
}
use enigma_behemoth.Recovery.Reconcile.{
  Reconciler, reconcile_queue_size, has, drop_one, mark, send, free,
}
use enigma_behemoth.Recovery.Reconcile.Coalesce.{
  count, count-append, count-drop_one, IsCoalesced, mark-IsCoalesced, send-IsCoalesced,
  free-IsCoalesced, receive-IsCoalesced,
}
use enigma_behemoth.Recovery.Reconcile.Stop.{
  reconcile_workers, Crew, hired, post, receive, begin_rebuild, CrewStep, marks, posts, receives,
  frees, finishes, stops, leaves, CrewSteps, here, next,
}

-- The bosses put into the channel are in it, in a settle delay, or in a rebuild that has begun; no worker is
-- lost; and one ends only on a closed and empty channel.
record IsManned (c : Crew) : Type 0 where
  pub coalesced : IsCoalesced c.queue
  pub kept :
      (id : String)
      → count id c.sent
        ≡ count id (c.queue).ch + (count id (c.queue).sleeping + count id (c.queue).rebuilding)
  pub workers : c.waiting + (length (c.queue).sleeping + (c.busy + c.ended)) ≡ reconcile_workers
  pub empty : 0 < c.ended → (c.is_closed ≡ true) × ((c.queue).ch ≡ [])

length-drop_one :
    (id : String) (xs : List String) → has id xs ≡ true → suc (length (drop_one id xs)) ≡ length xs
length-drop_one id [] h = ground arith
length-drop_one id (x ∷ xs) h = ground (arith, length-drop_one id xs)

open_closed : {b : Bool} → b ≡ false → b ≡ true → ⊥
open_closed h k = cc

mark-frame :
    (id : String) (r : Reconciler)
    → ((mark id r).ch ≡ r.ch)
      × ((mark id r).sleeping ≡ r.sleeping)
      × ((mark id r).rebuilding ≡ r.rebuilding)
unfolding mark
mark-frame id r = elim (Bool-cases (has id r.queued)) [
  | inl dup ↦ rw dup (refl, refl, refl)
  | inr fresh ↦ rw fresh (refl, refl, refl)
]

mark-IsManned :
    (id : String) (c : Crew) → IsManned c → IsManned (record c { queue = mark id c.queue })
mark-IsManned id c v =
    let (ch, sleeping, rebuilding) = mark-frame id c.queue in
    record {
      coalesced = mark-IsCoalesced id c.queue v.coalesced;
      kept = λ k.
          omega (arith, v.kept k, ap (count k) ch, ap (count k) sleeping, ap (count k) rebuilding);
      workers = omega (arith, v.workers, ap (length {A = String}) sleeping);
      empty = λ some. ((v.empty some).0, ch ∙ (v.empty some).1);
    }

-- What the select of Enqueue does to the channel and to the history, and leaves alone.
post-frame :
    (id : String) (c : Crew)
    → ((k : String)
        → count k (post id c).sent + count k (c.queue).ch
          ≡ count k (post id c).queue.ch + count k c.sent)
      × ((post id c).queue.sleeping ≡ (c.queue).sleeping)
      × ((post id c).queue.rebuilding ≡ (c.queue).rebuilding)
unfolding post send
post-frame id c = elim (Bool-cases (ltb (length (c.queue).ch) reconcile_queue_size)) [
  | inl room ↦ rw room (
    λ k. omega (arith, count-append k c.sent (id ∷ []), count-append k (c.queue).ch (id ∷ [])),
    refl,
    refl,
  )
  | inr full ↦ rw full (λ k. omega arith, refl, refl)
]

post-IsCoalesced :
    (id : String) (c : Crew)
    → has id (c.queue).sending ≡ true
    → IsCoalesced c.queue
    → IsCoalesced (post id c).queue
unfolding post
post-IsCoalesced id c h v = send-IsCoalesced id c.queue h v

post-workers :
    (id : String) (c : Crew)
    → IsManned c
    → (post id c).waiting
        + (length (post id c).queue.sleeping + ((post id c).busy + (post id c).ended))
      ≡ reconcile_workers
unfolding post
post-workers id c v = omega (arith, v.workers, ap (length {A = String}) (post-frame id c).1)

post-ended : (id : String) (c : Crew) → 0 < (post id c).ended → 0 < c.ended
unfolding post
post-ended id c h = h

post-IsManned :
    (id : String) (c : Crew)
    → c.is_closed ≡ false
    → has id (c.queue).sending ≡ true
    → IsManned c
    → IsManned (post id c)
post-IsManned id c open_yet h v =
    let (moved, sleeping, rebuilding) = post-frame id c in
    record {
      coalesced = post-IsCoalesced id c h v.coalesced;
      kept = λ k. omega (arith, v.kept k, moved k, ap (count k) sleeping, ap (count k) rebuilding);
      workers = post-workers id c v;
      empty = λ some. absurd (open_closed open_yet (v.empty (post-ended id c some)).0);
    }

receive-IsManned :
    (id : String) (rest : List String) (n : ℕ) (c : Crew)
    → (c.queue).ch ≡ id ∷ rest
    → c.waiting ≡ suc n
    → IsManned c
    → IsManned (receive id rest n c)
unfolding receive
receive-IsManned id rest n c e w v = record {
  coalesced = receive-IsCoalesced id rest c.queue e v.coalesced;
  kept = λ k. omega (arith, v.kept k, ap (count k) e);
  workers = omega (arith, v.workers, w);
  empty = λ some. ground (arith, (v.empty some).1, e);
}

begin_rebuild-IsManned :
    (id : String) (c : Crew)
    → has id (c.queue).sleeping ≡ true
    → IsManned c
    → IsManned (begin_rebuild id c)
unfolding begin_rebuild free
begin_rebuild-IsManned id c h v = record {
  coalesced = free-IsCoalesced id c.queue h v.coalesced;
  kept = λ k. omega (
    arith,
    v.kept k,
    count-drop_one k id (c.queue).sleeping h,
    count-append k (c.queue).rebuilding (id ∷ []),
  );
  workers = omega (arith, v.workers, length-drop_one id (c.queue).sleeping h);
  empty = v.empty;
}

CrewStep-IsManned : {a b : Crew} → CrewStep a b → IsManned a → IsManned b
CrewStep-IsManned (marks id c) v = mark-IsManned id c v
CrewStep-IsManned (posts id c open_yet h) v = post-IsManned id c open_yet h v
CrewStep-IsManned (receives id rest n c e w) v = receive-IsManned id rest n c e w v
CrewStep-IsManned (frees id c h) v = begin_rebuild-IsManned id c h v
CrewStep-IsManned (finishes n c e) v = record {
  coalesced = v.coalesced;
  kept = v.kept;
  workers = omega (arith, v.workers, e);
  empty = v.empty;
}
CrewStep-IsManned (stops c) v = record {
  coalesced = v.coalesced;
  kept = v.kept;
  workers = v.workers;
  empty = λ some. (refl, (v.empty some).1);
}
CrewStep-IsManned (leaves n c shut none e) v = record {
  coalesced = v.coalesced;
  kept = v.kept;
  workers = omega (arith, v.workers, e);
  empty = λ some. (shut, none);
}

CrewSteps-IsManned : {a b : Crew} → CrewSteps a b → IsManned a → IsManned b
CrewSteps-IsManned (here c) v = v
CrewSteps-IsManned (next a b c ss s) v = CrewStep-IsManned s (CrewSteps-IsManned ss v)

hired-IsManned : IsManned hired
hired-IsManned = record {
  coalesced = record { pending = λ k. omega arith; once = λ k. omega arith; bounded = omega arith };
  kept = λ k. omega arith;
  workers = refl;
  empty = λ some. absurd (omega arith);
}

no_sleeper : (xs : List String) → length xs ≡ 0 → xs ≡ []
no_sleeper [] h = refl
no_sleeper (x ∷ xs) h = absurd (omega arith)

-- Once both workers have ended, which Stop waits for, in any interleaving of Enqueue, the workers and Stop:
-- the channel is closed and empty, no worker is in a settle delay or in a rebuild, and for each boss as many
-- rebuilds have begun as Enqueue has put it into the channel.
pub emptied :
    (c : Crew)
    → CrewSteps hired c
    → c.ended ≡ reconcile_workers
    → (c.is_closed ≡ true)
      × ((c.queue).ch ≡ [])
      × ((c.queue).sleeping ≡ [])
      × (c.busy ≡ 0)
      × ((id : String) → count id (c.queue).rebuilding ≡ count id c.sent)
emptied c run all_ended =
    let v = CrewSteps-IsManned run hired-IsManned in
    let (shut, none) = v.empty (omega (arith, all_ended)) in
    let awake = no_sleeper (c.queue).sleeping (omega (arith, v.workers, all_ended)) in
    (
      shut,
      none,
      awake,
      omega (arith, v.workers, all_ended),
      λ id. omega (arith, v.kept id, ap (count id) none, ap (count id) awake),
    )
