-- ===== src/Postgres/Batch/Books.antt =====
-- The tables agree with each other: the totals and the HP are what the audit log implies.
use enigma_behemoth.Prelude.{
  ℕ, ◌+◌, ◌-◌, String, ◌≡◌, refl, sym, ap, ◌∙◌, subst, List, [], ◌∷◌, ◌++◌, map, arith, none, some,
  inl, inr, Bool-cases, ◌==◌, ◌&&◌, if◌then◌else◌, All,
}
use enigma_behemoth.Prelude.Int.{pos}
use enigma_behemoth.Errors.{ok}
use enigma_behemoth.Store.{DamageEvent}
use enigma_behemoth.Postgres.Tables.{Tables, Boss, EventRow, sum_of, find_boss}
use enigma_behemoth.Postgres.Reads.{recovery_state, derive}
use enigma_behemoth.Postgres.Batch.{Key, same_key, key_of, sound, commit_batch}
use enigma_behemoth.Postgres.Batch.Rows.{total}
use enigma_behemoth.Postgres.Batch.Commit.{IsOrder, Fits, dealt, dealt_to, row_of}
use enigma_behemoth.Postgres.Batch.Effect.{Pairs, Hurt, Committed, commit_batch-Committed}

-- The damage that the audit log holds of a player, and of all players, at one boss.
abbrev pub logged : Key → List EventRow → ℕ
logged k [] = 0
logged k (r ∷ rows) =
    (if (r.boss_id == k.boss) && (r.player_id == k.player) then r.damage_applied else 0)
    + logged k rows

abbrev pub logged_to : String → List EventRow → ℕ
logged_to b [] = 0
logged_to b (r ∷ rows) = (if r.boss_id == b then r.damage_applied else 0) + logged_to b rows

logged-append :
    (k : Key) (rows : List EventRow) (es : List DamageEvent)
    → logged k (rows ++ map row_of es) ≡ logged k rows + dealt k es
unfolding same_key key_of
logged-append k [] [] = omega arith
logged-append k [] (e ∷ es) = ground (arith, logged-append k [] es)
logged-append k (r ∷ rows) es = ground (arith, logged-append k rows es)

logged_to-append :
    (b : String) (rows : List EventRow) (es : List DamageEvent)
    → logged_to b (rows ++ map row_of es) ≡ logged_to b rows + dealt_to b es
logged_to-append b [] [] = omega arith
logged_to-append b [] (e ∷ es) = ground (arith, logged_to-append b [] es)
logged_to-append b (r ∷ rows) es = ground (arith, logged_to-append b rows es)

-- The HP of a boss is its maximum less what the log holds against it.
abbrev pub IsCharged : List EventRow → Boss → Type 0
IsCharged log b = b.current_hp ≡ b.max_hp - logged_to b.id log

some_inj : (a b : Boss) → some a ≡ some b → a ≡ b
some_inj a b h = cc

-- Tables that agree: each player's total is what the log holds, each boss's totals are what the log holds
-- against it, and each boss has the HP that is left.
pub record IsBooked (t : Tables) : Type 0 where
  pub totals : (k : Key) → total k t.contributions ≡ logged k t.damage_events
  pub sums : (b : String) → sum_of b t.contributions ≡ logged_to b t.damage_events
  pub charged : All (IsCharged t.damage_events) t.bosses

IsCharged-one :
    (es : List DamageEvent) (log : List EventRow) (x y : Boss)
    → Hurt es x y
    → IsCharged log x
    → IsCharged (log ++ map row_of es) y
IsCharged-one es log x y h c =
    let own = ap (λ i. logged_to i (log ++ map row_of es)) h.same_id in
    omega (arith, own, logged_to-append x.id log es, h.hp, h.same_max, c)

IsCharged-Hurt :
    (es : List DamageEvent) (log : List EventRow) (xs ys : List Boss)
    → Pairs (Hurt es) xs ys
    → All (IsCharged log) xs
    → All (IsCharged (log ++ map row_of es)) ys
IsCharged-Hurt es log [] [] p c = tt
IsCharged-Hurt es log [] (y ∷ ys) p c = absurd p
IsCharged-Hurt es log (x ∷ xs) [] p c = tt
IsCharged-Hurt es log (x ∷ xs) (y ∷ ys) p c =
    (IsCharged-one es log x y p.0 c.0, IsCharged-Hurt es log xs ys p.1 c.1)

Committed-IsBooked :
    (es : List DamageEvent) (t t' : Tables) → Committed es t t' → IsBooked t → IsBooked t'
Committed-IsBooked es t t' c b = record {
  totals = λ k.
      c.totals k
      ∙ ap (λ n. n + dealt k es) (b.totals k)
      ∙ sym (logged-append k t.damage_events es)
      ∙ ap (logged k) (sym c.log);
  sums = λ x.
      c.boss_sums x
      ∙ ap (λ n. n + dealt_to x es) (b.sums x)
      ∙ sym (logged_to-append x t.damage_events es)
      ∙ ap (logged_to x) (sym c.log);
  charged =
      subst (λ log. All (IsCharged log) t'.bosses) (sym c.log)
        (IsCharged-Hurt es t.damage_events t.bosses t'.bosses c.bosses b.charged);
}

-- CommitBatch keeps the tables in agreement: with a sound connection, for known bosses, no negative
-- damage and totals within a BIGINT, the totals and the HP are what the log implies afterwards, if they
-- were before.
pub commit_batch-IsBooked :
    (order boss_order : List Key → List Key) (now : ℕ) (es : List DamageEvent) (t : Tables)
    → IsOrder order
    → IsOrder boss_order
    → Fits es t
    → IsBooked t
    → (t' : Tables) × (commit_batch sound order boss_order now es t ≡ (ok tt, t')) × IsBooked t'
commit_batch-IsBooked order boss_order now es t walk boss_walk fits books =
    let r = commit_batch-Committed order boss_order now es t walk boss_walk fits in
    (r.0, r.1, Committed-IsBooked es t r.0 r.2 books)

pub found-IsCharged :
    (id : String) (b : Boss) (log : List EventRow) (bosses : List Boss)
    → find_boss id bosses ≡ some b
    → All (IsCharged log) bosses
    → IsCharged log b
unfolding find_boss
found-IsCharged id b log [] h c = ground arith
found-IsCharged id b log (x ∷ xs) h c = elim (Bool-cases (x.id == id)) [
  | inl e ↦ subst (IsCharged log) (some_inj x b (sym (rw e refl) ∙ h)) c.0
  | inr e ↦ found-IsCharged id b log xs (sym (rw e refl) ∙ h) c.1
]

-- On tables that agree, the HP that RecoveryState derives from the contributions is the HP that the row
-- of the boss holds.
recovery_state-IsBooked :
    (t : Tables) (id : String) (b : Boss)
    → IsBooked t
    → find_boss id t.bosses ≡ some b
    → recovery_state none t id
      ≡ ok (some (record { max_hp = pos b.max_hp; current_hp = pos b.current_hp; state = b.state }))
unfolding recovery_state derive
recovery_state-IsBooked t id b books found = ground (
  arith,
  found,
  books.sums b.id,
  found-IsCharged id b t.damage_events t.bosses found books.charged,
)
