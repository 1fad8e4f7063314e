-- ===== src/Postgres/Ledger/Grouped.antt =====
-- Group commit: how the events are put into batches, and in which order, does not matter to the tables.
use mathlib.Core.List.{Perm}
use mathlib.Core.List.Perm
use mathlib.Core.Quot
use enigma_behemoth.Prelude.{
  ℕ, ◌+◌, String, ◌≡◌, refl, sym, ap, ◌∙◌, subst, List, [], ◌∷◌, ◌++◌, true, ◌==◌, All, arith, inl,
  inr, Bool-cases,
}
use enigma_behemoth.Errors.{Result, ok}
use enigma_behemoth.Store.{DamageEvent}
use enigma_behemoth.Postgres.Tables.{Tables, Boss, is_some, find_boss}
use enigma_behemoth.Postgres.Batch.{Key, sound, commit_batch}
use enigma_behemoth.Postgres.Batch.Sums.{IsGain, total_applied}
use enigma_behemoth.Postgres.Batch.Bosses.{IsSettled}
use enigma_behemoth.Postgres.Batch.Commit.{IsOrder, Fits}
use enigma_behemoth.Postgres.Batch.Reorder.{
  All_rest, IsGain-perm, dealt-append, dealt-perm, All-perm, total_applied-perm,
}
use enigma_behemoth.Postgres.Batch.Effect.{Pairs, Hurt, Committed, commit_batch-Committed}
use enigma_behemoth.Postgres.Ledger.{ledger, charge, charge-union}
use enigma_behemoth.Postgres.Ledger.Bags.{of_list, union, add_all}
use enigma_behemoth.Postgres.Ledger.Refines.{Committed-charge, commit_batch-charge}

-- One call of CommitBatch: its events, its instant, and the orders in which it walks its maps.
pub record Call : Type 0 where
  pub events : List DamageEvent
  pub at : ℕ
  pub order : List Key → List Key
  pub boss_order : List Key → List Key
  pub walk : IsOrder order
  pub boss_walk : IsOrder boss_order

abbrev pub call : Call → Tables → Result (Unit {0}) × Tables
call c t = commit_batch sound c.order c.boss_order c.at c.events t

-- The calls one after another, and their events.
abbrev pub calls : List Call → Tables → Tables
calls [] t = t
calls (c ∷ cs) t = calls cs (call c t).1

abbrev pub events_of : List Call → List DamageEvent
events_of [] = []
events_of (c ∷ cs) = Call.events c ++ events_of cs

-- No call gives an error.
abbrev pub AllOk : List Call → Tables → Type 0
AllOk [] t = Unit
AllOk (c ∷ cs) t = ((call c t).0 ≡ ok tt) × AllOk cs (call c t).1

All_first {ℓ} : (P : DamageEvent → Type ℓ) (xs ys : List DamageEvent) → All P (xs ++ ys) → All P xs
All_first P [] ys h = tt
All_first P (x ∷ xs) ys h = (h.0, All_first P xs ys h.1)

total_applied-append :
    (xs ys : List DamageEvent) → total_applied (xs ++ ys) ≡ total_applied xs + total_applied ys
total_applied-append [] ys = omega arith
total_applied-append (x ∷ xs) ys = omega (arith, total_applied-append xs ys)

Fits-first : (es fs : List DamageEvent) (t : Tables) → Fits (es ++ fs) t → Fits es t
Fits-first es fs t f = record {
  gains = All_first IsGain es fs f.gains;
  known = All_first _ es fs f.known;
  small = omega (arith, total_applied-append es fs, f.small);
  room = λ k. omega (arith, dealt-append k es fs, f.room k);
  settled = f.settled;
}

known-Hurt :
    (es : List DamageEvent) (id : String) (xs ys : List Boss)
    → Pairs (Hurt es) xs ys
    → is_some (find_boss id ys) ≡ is_some (find_boss id xs)
unfolding find_boss
known-Hurt es id [] [] p = refl
known-Hurt es id [] (y ∷ ys) p = absurd p
known-Hurt es id (x ∷ xs) [] p = absurd p
known-Hurt es id (x ∷ xs) (y ∷ ys) (h, rest) = elim (Bool-cases (x.id == id)) [
  | inl e ↦ rw (h.same_id, e) refl
  | inr e ↦ rw (h.same_id, e) (known-Hurt es id xs ys rest)
]

settled-Hurt :
    (es : List DamageEvent) (xs ys : List Boss) → Pairs (Hurt es) xs ys → All IsSettled ys
settled-Hurt es [] [] p = tt
settled-Hurt es [] (y ∷ ys) p = absurd p
settled-Hurt es (x ∷ xs) [] p = absurd p
settled-Hurt es (x ∷ xs) (y ∷ ys) p = (p.0.settled, settled-Hurt es xs ys p.1)

All_known :
    (es : List DamageEvent) (t t' : Tables) (fs : List DamageEvent)
    → Pairs (Hurt es) t.bosses t'.bosses
    → All (λ (e : DamageEvent). is_some (find_boss e.boss_id t.bosses) ≡ true) fs
    → All (λ (e : DamageEvent). is_some (find_boss e.boss_id t'.bosses) ≡ true) fs
All_known es t t' [] p h = tt
All_known es t t' (f ∷ fs) p h =
    (known-Hurt es f.boss_id t.bosses t'.bosses p ∙ h.0, All_known es t t' fs p h.1)

Fits-rest :
    (es fs : List DamageEvent) (t t' : Tables) → Committed es t t' → Fits (es ++ fs) t → Fits fs t'
Fits-rest es fs t t' c f = record {
  gains = All_rest IsGain es fs f.gains;
  known = All_known es t t' fs c.bosses (All_rest _ es fs f.known);
  small = omega (arith, total_applied-append es fs, f.small);
  room = λ k. omega (arith, dealt-append k es fs, f.room k, c.totals k);
  settled = settled-Hurt es t.bosses t'.bosses c.bosses;
}

ledger_kept : (t : Tables) → Fits [] t → ledger t ≡ charge (of_list []) (ledger t)
unfolding commit_batch
ledger_kept t f =
    (commit_batch-charge (λ ks. ks) (λ ks. ks) 0 [] t (λ ks. Perm.refl ks) (λ ks. Perm.refl ks) f).1

-- Calls whose events fit the tables all succeed, and the tables then say what they said, charged with
-- the bag of all events.
calls-charge :
    (cs : List Call) (t : Tables)
    → Fits (events_of cs) t
    → AllOk cs t × (ledger (calls cs t) ≡ charge (of_list (events_of cs)) (ledger t))
unfolding union add_all
calls-charge [] t f = (tt, ledger_kept t f)
calls-charge (c ∷ cs) t f =
    let es = c.events in
    let first = Fits-first es (events_of cs) t f in
    let (t1, eq, done) =
      commit_batch-Committed c.order c.boss_order c.at es t c.walk c.boss_walk first in
    let (fine, rest) = calls-charge cs t1 (Fits-rest es (events_of cs) t t1 done f) in
    subst
      (λ (r : Result (Unit {0}) × Tables).
        ((r.0 ≡ ok tt) × AllOk cs r.1)
        × (ledger (calls cs r.1) ≡ charge (of_list (es ++ events_of cs)) (ledger t)))
      (sym eq)
      (
        (refl, fine),
        rest
            ∙ ap (charge (of_list (events_of cs))) (Committed-charge es t t1 done)
            ∙ charge-union (of_list es) (of_list (events_of cs)) (ledger t),
      )

Fits-perm : {es fs : List DamageEvent} (t : Tables) → Perm es fs → Fits es t → Fits fs t
Fits-perm t p f = record {
  gains = IsGain-perm p f.gains;
  known = All-perm (λ e. is_some (find_boss (DamageEvent.boss_id e) t.bosses)) p f.known;
  small = omega (arith, total_applied-perm p, f.small);
  room = λ k. omega (arith, dealt-perm k p, f.room k);
  settled = f.settled;
}

-- The same events in other batches and in another order, each call at its own instant and with its own
-- orders of the maps, if they fit the tables together: all calls succeed both times, and leave tables
-- that say the same, up to the order of the log and of the rows of contributions.
pub calls_regrouped :
    (cs ds : List Call) (t : Tables)
    → Perm (events_of cs) (events_of ds)
    → Fits (events_of cs) t
    → AllOk cs t
      × AllOk ds t
      × (ledger (calls cs t) ≡ charge (of_list (events_of cs)) (ledger t))
      × (ledger (calls ds t) ≡ ledger (calls cs t))
calls_regrouped cs ds t p f =
    let (fine, one) = calls-charge cs t f in
    let (fine', other) = calls-charge ds t (Fits-perm t p f) in
    (fine, fine', one, other ∙ ap (λ x. charge x (ledger t)) (sym (Quot.sound p)) ∙ sym one)
