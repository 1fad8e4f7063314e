-- ===== src/Tests/Ledgers.antt =====
-- Three events, committed in two batches and in one.
use mathlib.Core.List.Perm
use enigma_behemoth.Prelude.{◌≡◌, refl, List, [], ◌∷◌, arith}
use enigma_behemoth.Prelude.Int.{pos}
use enigma_behemoth.Store.{DamageEvent}
use enigma_behemoth.Postgres.Tables.{find_boss, find_total}
use enigma_behemoth.Postgres.Batch.{key_of, same_key}
use enigma_behemoth.Postgres.Batch.Commit.{Fits}
use enigma_behemoth.Postgres.Ledger.{ledger, charge}
use enigma_behemoth.Postgres.Ledger.Bags.{of_list}
use enigma_behemoth.Postgres.Ledger.Grouped.{Call, calls, AllOk, calls_regrouped}
use enigma_behemoth.Tests.Data.{event, tables}

abbrev eve_event : DamageEvent
eve_event = record { boss_id = "b"; player_id = "eve"; applied = pos 10 }

abbrev call_of : List DamageEvent → Call
call_of es = record {
  events = es;
  at = 9;
  order = λ ks. ks;
  boss_order = λ ks. ks;
  walk = λ ks. Perm.refl ks;
  boss_walk = λ ks. Perm.refl ks;
}

abbrev in_two : List Call
in_two = call_of (event ∷ eve_event ∷ []) ∷ call_of (event ∷ []) ∷ []

abbrev in_one : List Call
in_one = call_of (eve_event ∷ event ∷ event ∷ []) ∷ []

fits : Fits (event ∷ eve_event ∷ event ∷ []) tables
unfolding find_boss find_total key_of same_key
fits = record {
  gains = (refl, (refl, (refl, tt)));
  known = (refl, (refl, (refl, tt)));
  small = omega arith;
  room = λ k. ground arith;
  settled = (record { fits = omega arith; state = refl }, tt);
}

calls_regrouped_example :
    AllOk in_two tables
    × AllOk in_one tables
    × (ledger (calls in_two tables)
        ≡ charge (of_list (event ∷ eve_event ∷ event ∷ [])) (ledger tables))
    × (ledger (calls in_one tables) ≡ ledger (calls in_two tables))
calls_regrouped_example =
    calls_regrouped in_two in_one tables (Perm.swap eve_event event (event ∷ [])) fits
