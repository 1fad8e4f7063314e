-- ===== src/Postgres/Batch/Effect.antt =====
-- CommitBatch on a sound link: the transaction goes through, and adds the damage of the batch to the
-- tables.
use mathlib.Core.List.{append-nil}
use enigma_behemoth.Prelude.{
  ℕ, ◌+◌, ◌-◌, String, ◌≡◌, List, [], ◌∷◌, ◌++◌, map, some, arith, All, refl, sym, ap, ◌∙◌, ◌*◌,
}
use enigma_behemoth.Errors.{ok}
use enigma_behemoth.Store.{DamageEvent}
use enigma_behemoth.Postgres.Tables.{Tables, Boss, sum_of}
use enigma_behemoth.Postgres.Batch.{
  Key, key_of, boss_key, per_player, per_boss, sound, step, batch_tx, commit_batch, upserts,
  updates,
}
use enigma_behemoth.Postgres.Batch.Sums.{load}
use enigma_behemoth.Postgres.Batch.Keys.{count, sum_keys}
use enigma_behemoth.Postgres.Batch.Rows.{
  total, credit_rows, total-credit_rows, sum_of-credit_rows, upserts-credit_rows,
}
use enigma_behemoth.Postgres.Batch.Keyed.{IsKeyed, credit_rows-IsKeyed}
use enigma_behemoth.Postgres.Batch.Bosses.{
  IsSettled, struck_all, updates-struck_all, id-struck_all, struck_all-IsSettled, hp-struck_all,
}
use enigma_behemoth.Postgres.Batch.Commit.{
  IsOrder, Fits, dealt, dealt_to, row_of, copy_rows-map, dealt_to-boss_load, player_load, walked,
  sums, count-walked, sum-walked,
}

-- A relation between the entries of two lists of one length.
abbrev pub Pairs : (Boss → Boss → Type 0) → List Boss → List Boss → Type 0
Pairs R [] [] = Unit
Pairs R (a ∷ xs) (b ∷ ys) = R a b × Pairs R xs ys
Pairs R _ _ = ⊥

-- A boss before and after the events: the HP falls by their damage and stops at zero.
pub record Hurt (es : List DamageEvent) (b b' : Boss) : Type 0 where
  pub same_id : b'.id ≡ b.id
  pub same_max : b'.max_hp ≡ b.max_hp
  pub hp : b'.current_hp ≡ b.current_hp - dealt_to b.id es
  pub settled : IsSettled b'

pub record Committed (es : List DamageEvent) (t t' : Tables) : Type 0 where
  pub log : t'.damage_events ≡ t.damage_events ++ map row_of es
  pub totals : (k : Key) → total k t'.contributions ≡ total k t.contributions + dealt k es
  pub boss_sums :
      (b : String) → sum_of b t'.contributions ≡ sum_of b t.contributions + dealt_to b es
  pub bosses : Pairs (Hurt es) t.bosses t'.bosses
  pub claims : t'.reward_claims ≡ t.reward_claims
  pub keyed : IsKeyed t.contributions → IsKeyed t'.contributions

module _ (order boss_order : List Key → List Key) (walk : IsOrder order)
    (boss_walk : IsOrder boss_order) (now : ℕ) (es : List DamageEvent) (t : Tables)
    (fits : Fits es t) where
  player_keys : List Key
  player_keys = walked key_of order walk es

  boss_keys : List Key
  boss_keys = walked boss_key boss_order boss_walk es

  after_batch : Tables
  after_batch = record t {
    bosses = map (struck_all now (λ k. load boss_key k es) boss_keys) t.bosses;
    damage_events = t.damage_events ++ map row_of es;
    contributions = credit_rows (λ k. dealt k es) player_keys t.contributions;
  }

  upserts-after :
      upserts (per_player es) player_keys t.contributions ≡ some after_batch.contributions
  unfolding player_keys after_batch per_player
  upserts-after =
      upserts-credit_rows (λ k. dealt k es) (per_player es)
        (sums key_of order walk es fits.gains fits.small) player_keys t.contributions
        (λ k.
          ground (arith, fits.room k, count-walked key_of order walk es fits.gains fits.small k))

  updates-after : updates now (per_boss es) boss_keys t.bosses ≡ some after_batch.bosses
  unfolding boss_keys after_batch per_boss
  updates-after =
      updates-struck_all now (λ k. load boss_key k es) (per_boss es)
        (sums boss_key boss_order boss_walk es fits.gains fits.small) boss_keys t.bosses
        fits.settled

  batch_tx-after : batch_tx sound order boss_order now es t ≡ ok after_batch
  unfolding batch_tx step player_keys boss_keys after_batch per_player per_boss
  batch_tx-after = ground (
    arith,
    copy_rows-map t.bosses es t.damage_events fits.gains fits.known,
    upserts-after,
    updates-after,
  )

  Hurt-All :
      (bosses : List Boss)
      → All IsSettled bosses
      → Pairs (Hurt es) bosses (map (struck_all now (λ k. load boss_key k es) boss_keys) bosses)
  Hurt-All [] h = tt
  Hurt-All (b ∷ rest) h = (
    record {
      same_id = (id-struck_all now (λ k. load boss_key k es) boss_keys b).0;
      same_max = (id-struck_all now (λ k. load boss_key k es) boss_keys b).1;
      hp = hp;
      settled = struck_all-IsSettled now (λ k. load boss_key k es) boss_keys b h.0;
    },
    Hurt-All rest h.1,
  )
    where
      hp :
          (struck_all now (λ k. load boss_key k es) boss_keys b).current_hp
          ≡ b.current_hp - dealt_to b.id es
      hp =
          hp-struck_all now (λ k. load boss_key k es) boss_keys b
          ∙ ap (λ n. b.current_hp - n)
              (unfold boss_keys in
                sum-walked boss_key boss_order boss_walk es b.id ∙ dealt_to-boss_load b.id es)

  player_count : (k : Key) → count k player_keys * dealt k es ≡ dealt k es
  unfolding player_keys
  player_count k = count-walked key_of order walk es fits.gains fits.small k

  player_sum : (b : String) → sum_keys b (λ k. dealt k es) player_keys ≡ dealt_to b es
  unfolding player_keys
  player_sum b = sum-walked key_of order walk es b ∙ player_load b es

  after_batch-Committed : Committed es t after_batch
  unfolding after_batch
  after_batch-Committed = record {
    log = refl;
    totals = λ k.
        ground (
          arith,
          total-credit_rows (λ j. dealt j es) k player_keys t.contributions,
          player_count k,
        );
    boss_sums = λ b.
        ground
          (arith, sum_of-credit_rows (λ j. dealt j es) b player_keys t.contributions, player_sum b);
    bosses = Hurt-All t.bosses fits.settled;
    claims = refl;
    keyed = credit_rows-IsKeyed (λ k. dealt k es) player_keys t.contributions;
  }

Hurt-nothing : (bosses : List Boss) → All IsSettled bosses → Pairs (Hurt []) bosses bosses
Hurt-nothing [] h = tt
Hurt-nothing (b ∷ rest) h = (
  record { same_id = refl; same_max = refl; hp = omega arith; settled = h.0 },
  Hurt-nothing rest h.1,
)

-- A batch that fits is committed, whatever the orders in which Go walks its maps: the log grows by the
-- events in order, each player's total and each boss's sum by their damage, and each boss loses the
-- damage dealt to it, with its state set to defeated exactly when no HP is left. The claims stay, and there
-- is still one row of contributions for each boss and player, if there was before.
pub commit_batch-Committed :
    (order boss_order : List Key → List Key) (now : ℕ) (es : List DamageEvent) (t : Tables)
    → IsOrder order
    → IsOrder boss_order
    → Fits es t
    → (t' : Tables) × (commit_batch sound order boss_order now es t ≡ (ok tt, t'))
      × Committed es t t'
unfolding commit_batch
commit_batch-Committed order boss_order now [] t walk boss_walk fits = (
  t,
  refl,
  record {
    log = sym (append-nil t.damage_events);
    totals = λ k. omega arith;
    boss_sums = λ b. omega arith;
    bosses = Hurt-nothing t.bosses fits.settled;
    claims = refl;
    keyed = λ h. h;
  },
)
commit_batch-Committed order boss_order now (e ∷ es) t walk boss_walk fits = (
  after_batch order boss_order walk boss_walk now (e ∷ es) t fits,
  ground (arith, batch_tx-after order boss_order walk boss_walk now (e ∷ es) t fits),
  after_batch-Committed order boss_order walk boss_walk now (e ∷ es) t fits,
)
