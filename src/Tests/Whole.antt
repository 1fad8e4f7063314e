-- ===== src/Tests/Whole.antt =====
-- A run of the whole system.
use mathlib.Core.List.Perm
use enigma_behemoth.Prelude.{refl, ap, ◌∙◌, [], ◌∷◌, arith}
use enigma_behemoth.Prelude.Int.{pos}
use enigma_behemoth.Errors.{Err, ok, opaque}
use enigma_behemoth.Store.{DamageEvent, status_applied}
use enigma_behemoth.Redis.Server.{Delivery, answered, plain}
use enigma_behemoth.Redis.Client.{apply_damage}
use enigma_behemoth.Redis.Keys.{hp_key, max_key, state_key, lb_key}
use enigma_behemoth.Redis.Snapshot.{Snapshot, snapshot, hit, result}
use enigma_behemoth.Redis.Calls.{apply_damage-hit, apply_damage_faults}
use enigma_behemoth.Postgres.Tables.{find_boss, find_total, sum_of}
use enigma_behemoth.Postgres.Batch.{key_of, same_key, sound, commit_batch}
use enigma_behemoth.Postgres.Batch.Commit.{Fits}
use enigma_behemoth.System.{System, Move, Moves}
use enigma_behemoth.System.Agree.{IsAgreed, Moves-IsAgreed}
use enigma_behemoth.System.Balance.{IsBalanced, Moves-IsBalanced}
use enigma_behemoth.Tests.Tables.{booked}
use enigma_behemoth.Tests.Data.{boss, cache, tables}

abbrev pub begin : System plain (pos 0)
begin = record { now = 5; db = cache; pending = []; lost = []; tables = tables }

pub begin-IsBalanced : IsBalanced plain (pos 0) "b" 100 begin
unfolding snapshot hp_key max_key state_key lb_key find_boss sum_of
begin-IsBalanced = record {
  gains = tt;
  row = (boss, refl, refl);
  within = omega arith;
  left = λ hp h. ground arith;
}

-- "eve" hits for 10 and the answer is lost; "bob" takes the last 20; the event of "bob" is committed.
abbrev gone : Err
gone = opaque "i/o timeout"

abbrev eve_event : DamageEvent
eve_event = record { boss_id = "b"; player_id = "eve"; applied = pos 10 }

abbrev bob_event : DamageEvent
bob_event = record { boss_id = "b"; player_id = "bob"; applied = pos 20 }

abbrev after_loss : System plain (pos 0)
after_loss = record begin {
  db = (apply_damage plain (pos 0) (Delivery.lost gone) 5 "b" "eve" (pos 10) cache).1;
  lost = eve_event ∷ [];
}

abbrev after_hit : System plain (pos 0)
after_hit = record after_loss {
  db = (apply_damage plain (pos 0) answered 5 "b" "bob" (pos 40) after_loss.db).1;
  pending = bob_event ∷ [];
}

abbrev after_commit : System plain (pos 0)
after_commit = record after_hit {
  pending = [];
  tables = (commit_batch sound (λ ks. ks) (λ ks. ks) 5 (bob_event ∷ []) tables).1;
}

loss_moves : Move plain (pos 0) begin after_loss
unfolding snapshot hp_key max_key state_key lb_key
loss_moves =
    Move.loses gone "b" "eve" (pos 10) (result status_applied (pos 10) (pos 20)) begin
      (apply_damage-hit plain (pos 0) 5 "b" "eve" (pos 10) cache).0

hit_moves : Move plain (pos 0) after_loss after_hit
unfolding snapshot hp_key max_key state_key lb_key
hit_moves = Move.hits "b" "bob" (pos 40) (result status_applied (pos 20) (pos 0)) after_loss (
    (apply_damage-hit plain (pos 0) 5 "b" "bob" (pos 40) after_loss.db).0
    ∙ ap (λ (c : Snapshot). ok (hit "bob" (pos 40) c).0)
        (apply_damage_faults plain (pos 0) 5 "b" "eve" (pos 10) gone cache).2)

fits : Fits (bob_event ∷ []) tables
unfolding find_boss find_total key_of same_key
fits = record {
  gains = (refl, tt);
  known = (refl, tt);
  small = omega arith;
  room = λ k. ground arith;
  settled = (record { fits = omega arith; state = refl }, tt);
}

commit_moves : Move plain (pos 0) after_hit after_commit
commit_moves =
    Move.commits (λ ks. ks) (λ ks. ks) (bob_event ∷ []) [] after_hit Perm.refl Perm.refl
      (Perm.refl _) fits

whole_run : Moves plain (pos 0) begin after_commit
whole_run =
    Moves.next _ _ _ (Moves.next _ _ _ (Moves.next _ _ _ (Moves.here begin) loss_moves) hit_moves)
      commit_moves

Moves-IsBalanced_example : IsBalanced plain (pos 0) "b" 100 after_commit
Moves-IsBalanced_example =
    Moves-IsBalanced plain (pos 0) "b" 100 begin after_commit whole_run begin-IsBalanced

Moves-IsAgreed_example : IsAgreed plain (pos 0) "b" after_commit
Moves-IsAgreed_example =
    Moves-IsAgreed plain (pos 0) "b" 100 begin after_commit whole_run begin-IsBalanced booked
