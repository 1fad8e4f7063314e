-- ===== src/Postgres/Ledger.antt =====
-- What the tables say, with the order of the audit log and of the rows of contributions forgotten, and what
-- CommitBatch is to do to it: an abstract specification of internal/store/postgres.go.
pub mod Bags
pub mod Refines
pub mod Grouped
use enigma_behemoth.Prelude.{
  ℕ, ◌+◌, ◌-◌, String, ◌≡◌, refl, sym, ap, ◌∙◌, List, [], ◌∷◌, map, arith,
}
use enigma_behemoth.Store.{DamageEvent}
use enigma_behemoth.Postgres.Tables.{Tables, Boss, EventRow, ClaimRow}
use enigma_behemoth.Postgres.Batch.{Key}
use enigma_behemoth.Postgres.Batch.Rows.{total}
use enigma_behemoth.Postgres.Batch.Bosses.{state_of}
use enigma_behemoth.Postgres.Batch.Commit.{row_of}
use enigma_behemoth.Postgres.Ledger.Bags.{
  Bag, of_list, union, map_bag, dealt_bag, dealt_to_bag, union_assoc, map_bag-union,
  dealt_bag-union, dealt_to_bag-union,
}

-- A row of bosses, without its times.
pub record Standing : Type 0 where
  pub id : String
  pub max_hp : ℕ
  pub hp : ℕ
  pub state : String

pub record Ledger : Type 0 where
  pub log : Bag EventRow
  pub totals : Key → ℕ
  pub standings : List Standing
  pub claims : List ClaimRow

abbrev pub standing : Boss → Standing
standing b = record { id = b.id; max_hp = b.max_hp; hp = b.current_hp; state = b.state }

unfoldable pub ledger : Tables → Ledger
ledger t = record {
  log = of_list t.damage_events;
  totals = λ k. total k t.contributions;
  standings = map standing t.bosses;
  claims = t.reward_claims;
}

-- A boss that loses HP.
abbrev pub fall : Bag DamageEvent → Standing → Standing
fall x s = let hp = s.hp - dealt_to_bag s.id x in record s { hp = hp; state = state_of hp }

-- The damage of a bag of events, logged, added to the totals and taken from the bosses, in one.
unfoldable pub charge : Bag DamageEvent → Ledger → Ledger
charge x l = record {
  log = union l.log (map_bag row_of x);
  totals = λ k. l.totals k + dealt_bag k x;
  standings = map (fall x) l.standings;
  claims = l.claims;
}

fall-union : (x y : Bag DamageEvent) (s : Standing) → fall y (fall x s) ≡ fall (union x y) s
fall-union x y s =
    ap (λ (n : ℕ). record s { hp = n; state = state_of n })
      (omega (arith, dealt_to_bag-union s.id x y))

falls-union :
    (x y : Bag DamageEvent) (ss : List Standing)
    → map (fall y) (map (fall x) ss) ≡ map (fall (union x y)) ss
falls-union x y [] = refl
falls-union x y (s ∷ ss) = rw (fall-union x y s, falls-union x y ss) refl

-- One bag after another is their union.
pub charge-union :
    (x y : Bag DamageEvent) (l : Ledger) → charge y (charge x l) ≡ charge (union x y) l
unfolding charge
charge-union x y l = λ i. record {
  log = logs i;
  totals = λ k. totals k i;
  standings = falls-union x y l.standings i;
  claims = l.claims;
}
  where
    logs :
        union (union l.log (map_bag row_of x)) (map_bag row_of y)
        ≡ union l.log (map_bag row_of (union x y))
    logs =
        union_assoc l.log (map_bag row_of x) (map_bag row_of y)
        ∙ ap (union l.log) (sym (map_bag-union row_of x y))

    totals :
        (k : Key)
        → (l.totals k + dealt_bag k x) + dealt_bag k y ≡ l.totals k + dealt_bag k (union x y)
    totals k = omega (arith, dealt_bag-union k x y)
