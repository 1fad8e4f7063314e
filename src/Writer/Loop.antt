-- ===== src/Writer/Loop.antt =====
-- The loop of the writer commits every event that it receives once, in order, in batches within the
-- limit, and never lets an event wait without a running timer.
use mathlib.Core.List.{append-nil, append_assoc}
use enigma_behemoth.Prelude.{
  ℕ, ◌≤◌, ◌<◌, ◌≡◌, refl, sym, ap, ◌∙◌, Bool, true, false, List, [], ◌∷◌, ◌++◌, length,
  length-append, arith, All, leb, inl, inr, Bool-cases,
}
use enigma_behemoth.Writer.{
  WriteReq, LoopState, idle, Event, received, closed, timer_fired, flush, round, loop,
}

abbrev pub is_nonempty : List WriteReq → Bool
is_nonempty [] = false
is_nonempty (r ∷ rs) = true

-- The events that wait are fewer than a batch, and the timer runs exactly while some wait.
pub record IsWaiting (max_batch : ℕ) (s : LoopState) : Type 0 where
  pub short : length s.batch < max_batch
  pub timed : s.timer_active ≡ is_nonempty s.batch

-- The requests received before the channel is closed.
abbrev pub requests : List Event → List WriteReq
requests [] = []
requests (received r ∷ es) = r ∷ requests es
requests (closed ∷ es) = []
requests (timer_fired ∷ es) = requests es

abbrev pub concat : List (List WriteReq) → List WriteReq
concat [] = []
concat (b ∷ bs) = b ++ concat bs

abbrev pub IsBatch : ℕ → List WriteReq → Type 0
IsBatch max_batch b = (0 < length b) × (length b ≤ max_batch)

nonempty-append : (rs : List WriteReq) (r : WriteReq) → is_nonempty (rs ++ r ∷ []) ≡ true
nonempty-append [] r = refl
nonempty-append (x ∷ rs) r = refl

flush-keeps :
    (batch : List WriteReq) (t : Bool)
    → let r = flush (record { batch = batch; timer_active = t }) in concat r.1 ++ r.0.batch ≡ batch
unfolding flush
flush-keeps [] t = refl
flush-keeps (r ∷ rs) t = simp append-nil

module _ (max_batch : ℕ) (room : 0 < max_batch) where
  pub round-IsWaiting :
      (e : Event) (s : LoopState)
      → IsWaiting max_batch s
      → IsWaiting max_batch (round max_batch e s).0
  unfolding round
  round-IsWaiting (received r) s w =
      ground (arith, length-append s.batch (r ∷ []), nonempty-append s.batch r)
  round-IsWaiting closed s w = ground arith
  round-IsWaiting timer_fired s w = ground arith

  pub round-IsBatch :
      (e : Event) (s : LoopState)
      → IsWaiting max_batch s
      → All (IsBatch max_batch) (round max_batch e s).1
  unfolding round
  round-IsBatch (received r) s w = ground (arith, length-append s.batch (r ∷ []))
  round-IsBatch closed s w = ground arith
  round-IsBatch timer_fired s w = ground arith

  -- The batches of a round and what waits after it are what waited, with the event received.
  abbrev pub arrived : Event → List WriteReq
  arrived (received r) = r ∷ []
  arrived _ = []

  pub round-keeps :
      (e : Event) (s : LoopState)
      → concat (round max_batch e s).1 ++ (round max_batch e s).0.batch ≡ s.batch ++ arrived e
  unfolding round
  round-keeps (received r) s = elim (Bool-cases (leb max_batch (length (s.batch ++ r ∷ [])))) [
    | inl full ↦ rw full (flush-keeps (s.batch ++ r ∷ []) s.timer_active)
    | inr more ↦ rw more
  ]
  round-keeps closed s = flush-keeps s.batch s.timer_active ∙ sym (append-nil s.batch)
  round-keeps timer_fired s = flush-keeps s.batch false ∙ sym (append-nil s.batch)

  concat-append : (xs ys : List (List WriteReq)) → concat (xs ++ ys) ≡ concat xs ++ concat ys
  concat-append [] ys = refl
  concat-append (x ∷ xs) ys = simp (concat-append xs ys, append_assoc)

  rejoin :
      (out rest : List (List WriteReq)) (b c waiting arr reqs : List WriteReq)
      → concat out ++ b ≡ waiting ++ arr
      → concat rest ++ c ≡ b ++ reqs
      → concat (out ++ rest) ++ c ≡ waiting ++ (arr ++ reqs)
  rejoin out rest b c waiting arr reqs h k = cc (
    concat-append out rest,
    append_assoc (concat out) (concat rest) c,
    append_assoc (concat out) b reqs,
    append_assoc waiting arr reqs,
  )

  All-append :
      (xs ys : List (List WriteReq))
      → All (IsBatch max_batch) xs
      → All (IsBatch max_batch) ys
      → All (IsBatch max_batch) (xs ++ ys)
  All-append [] ys hx hy = hy
  All-append (x ∷ xs) ys hx hy = (hx.0, All-append xs ys hx.1 hy)

  -- What the loop has committed and what waits, together, are what waited first and what it received
  -- before the channel closed, in order.
  loop-keeps :
      (es : List Event) (s : LoopState)
      → concat (loop max_batch es s).1 ++ (loop max_batch es s).0.batch ≡ s.batch ++ requests es
  unfolding loop
  loop-keeps [] s = sym (append-nil s.batch)
  loop-keeps (closed ∷ es) s = round-keeps closed s
  loop-keeps (received r ∷ es) s =
      let p = round max_batch (received r) s in
      let q = loop max_batch es p.0 in
      rejoin p.1 q.1 p.0.batch q.0.batch s.batch (r ∷ []) (requests es) (round-keeps (received r) s)
        (loop-keeps es p.0)
  loop-keeps (timer_fired ∷ es) s =
      let p = round max_batch timer_fired s in
      let q = loop max_batch es p.0 in
      rejoin p.1 q.1 p.0.batch q.0.batch s.batch [] (requests es) (round-keeps timer_fired s)
        (loop-keeps es p.0)

  closed_empties :
      (es rest : List Event) (s : LoopState) → (loop max_batch (es ++ closed ∷ rest) s).0.batch ≡ []
  unfolding loop round
  closed_empties [] rest s = ground arith
  closed_empties (closed ∷ es) rest s = ground arith
  closed_empties (received r ∷ es) rest s =
      closed_empties es rest (round max_batch (received r) s).0
  closed_empties (timer_fired ∷ es) rest s =
      closed_empties es rest (round max_batch timer_fired s).0

  loop-IsWaiting :
      (es : List Event) (s : LoopState)
      → IsWaiting max_batch s
      → IsWaiting max_batch (loop max_batch es s).0
        × All (IsBatch max_batch) (loop max_batch es s).1
  unfolding loop
  loop-IsWaiting [] s w = (w, tt)
  loop-IsWaiting (closed ∷ es) s w = (round-IsWaiting closed s w, round-IsBatch closed s w)
  loop-IsWaiting (e ∷ es) s w =
      let s' = (round max_batch e s).0 in
      let rest = loop-IsWaiting es s' (round-IsWaiting e s w) in
      (rest.0, All-append _ _ (round-IsBatch e s w) rest.1)

-- From an idle loop, on any events: each batch that is committed has between one and `max_batch`
-- requests; the batches in order, followed by the requests that still wait, are the requests received
-- before the channel closed; fewer than a batch wait, and the timer runs exactly if some do.
pub loop_total :
    (max_batch : ℕ) (es : List Event)
    → 0 < max_batch
    → let (s, out) = loop max_batch es idle in
      All (IsBatch max_batch) out × (concat out ++ s.batch ≡ requests es) × IsWaiting max_batch s
loop_total max_batch es room =
    let start : IsWaiting max_batch idle = record { short = room; timed = refl } in
    let r = loop-IsWaiting max_batch room es idle start in
    (r.1, loop-keeps max_batch room es idle, r.0)

-- Once the channel is closed nothing waits: every request received is in a committed batch.
pub loop_closed :
    (max_batch : ℕ) (es rest : List Event)
    → 0 < max_batch
    → let (s, out) = loop max_batch (es ++ closed ∷ rest) idle in
      (s.batch ≡ []) × (concat out ≡ requests (es ++ closed ∷ rest))
loop_closed max_batch es rest room =
    let all = es ++ closed ∷ rest in
    let q = loop max_batch all idle in
    let empty : q.0.batch ≡ [] = closed_empties max_batch room es rest idle in
    (
      empty,
      sym (append-nil (concat q.1))
          ∙ ap (λ b. concat q.1 ++ b) (sym empty)
          ∙ loop-keeps max_batch room all idle,
    )
