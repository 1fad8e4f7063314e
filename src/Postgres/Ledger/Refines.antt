-- ===== src/Postgres/Ledger/Refines.antt =====
-- CommitBatch keeps what the specification promises.
use enigma_behemoth.Prelude.{ℕ, ◌≡◌, refl, ap, ◌∙◌, List, [], ◌∷◌, map}
use enigma_behemoth.Errors.{Result, ok}
use enigma_behemoth.Store.{DamageEvent}
use enigma_behemoth.Postgres.Tables.{Tables, Boss}
use enigma_behemoth.Postgres.Batch.{Key, sound, commit_batch}
use enigma_behemoth.Postgres.Batch.Bosses.{state_of}
use enigma_behemoth.Postgres.Batch.Commit.{IsOrder, Fits}
use enigma_behemoth.Postgres.Batch.Effect.{Pairs, Hurt, Committed, commit_batch-Committed}
use enigma_behemoth.Postgres.Ledger.{standing, ledger, charge, fall}
use enigma_behemoth.Postgres.Ledger.Bags.{of_list, union, add_all, map_bag, dealt_bag, dealt_to_bag}

standing-Hurt :
    (es : List DamageEvent) (b b' : Boss)
    → Hurt es b b'
    → standing b' ≡ fall (of_list es) (standing b)
unfolding dealt_to_bag
standing-Hurt es b b' h = λ i. record {
  id = h.same_id i;
  max_hp = h.same_max i;
  hp = h.hp i;
  state = (h.settled.state ∙ ap state_of h.hp) i;
}

standings-Hurt :
    (es : List DamageEvent) (xs ys : List Boss)
    → Pairs (Hurt es) xs ys
    → map standing ys ≡ map (fall (of_list es)) (map standing xs)
standings-Hurt es [] [] p = refl
standings-Hurt es [] (y ∷ ys) p = absurd p
standings-Hurt es (x ∷ xs) [] p = absurd p
standings-Hurt es (x ∷ xs) (y ∷ ys) p =
    rw (standing-Hurt es x y p.0, standings-Hurt es xs ys p.1) refl

pub Committed-charge :
    (es : List DamageEvent) (t t' : Tables)
    → Committed es t t'
    → ledger t' ≡ charge (of_list es) (ledger t)
unfolding ledger charge map_bag union add_all dealt_bag
Committed-charge es t t' c = λ i. record {
  log = of_list (c.log i);
  totals = λ k. c.totals k i;
  standings = standings-Hurt es t.bosses t'.bosses c.bosses i;
  claims = c.claims i;
}

-- A batch that fits is committed without an error, and what the tables then say is what they said,
-- charged with the bag of its events.
pub commit_batch-charge :
    (order boss_order : List Key → List Key) (now : ℕ) (es : List DamageEvent) (t : Tables)
    → IsOrder order
    → IsOrder boss_order
    → Fits es t
    → let r = commit_batch sound order boss_order now es t in
      (r.0 ≡ ok tt) × (ledger r.1 ≡ charge (of_list es) (ledger t))
commit_batch-charge order boss_order now es t walk boss_walk fits =
    let (t', eq, done) = commit_batch-Committed order boss_order now es t walk boss_walk fits in
    (
      ap (λ (r : Result (Unit {0}) × Tables). r.0) eq,
      ap (λ (r : Result (Unit {0}) × Tables). ledger r.1) eq ∙ Committed-charge es t t' done,
    )
