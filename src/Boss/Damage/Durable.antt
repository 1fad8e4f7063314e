-- ===== src/Boss/Damage/Durable.antt =====
-- The three ends of make_durable: the answer, a full queue, and an error of the writer or the context.
use enigma_behemoth.Prelude.{
  String, ◌≡◌, refl, true, false, none, some, [], ◌∷◌, ◌++◌, length, ltb, arith,
}
use enigma_behemoth.Prelude.Int.{pos, leb_ℤ}
use enigma_behemoth.Errors.{Err, ok, err, sentinel, queue_full}
use enigma_behemoth.Store.{ApplyResult}
use enigma_behemoth.Redis.Server.{Server}
use enigma_behemoth.Writer.{WriteReq, Wait, await, submit}
use enigma_behemoth.Writer
use enigma_behemoth.Boss.Service.{
  Config, DamageResult, World, Env, make_durable, reconcile_failed_write,
}

pub await_ok : (w : Wait) (u : Unit {0}) → await w ≡ ok u → w ≡ Writer.answered none
unfolding await
await_ok (Writer.answered none) u h = refl
await_ok (Writer.answered (some e)) u h = ground arith
await_ok Writer.cancelled u h = ground arith
await_ok Writer.expired u h = ground arith

-- The answer of make_durable once its event is queued and acknowledged.
abbrev pub durable : String → String → ApplyResult → DamageResult
durable id player res = record {
  boss_id = id;
  player_id = player;
  applied = res.applied;
  boss_hp = res.new_hp;
  defeated = leb_ℤ res.new_hp (pos 0);
}

-- The request that a hit queues.
abbrev pub request : {S : Server} → Env S → String → String → ApplyResult → WriteReq
request env id player res = record {
  ev = record { boss_id = id; player_id = player; applied = res.applied };
  done = env.ticket;
}

module _ (S : Server) (cfg : Config) (env : Env S) (id player : String) where
  pub make_durable-done :
      (res : ApplyResult) (w : World S) (u : Unit {0})
      → ltb (length w.queue) cfg.queue_size ≡ true
      → await env.wait ≡ ok u
      → make_durable S cfg env id player res w ≡ (
        ok (durable id player res),
        record w { queue = w.queue ++ request env id player res ∷ [] },
      )
  unfolding make_durable submit
  make_durable-done res w u room good = ground (arith, room, good)

  pub make_durable-refused :
      (res : ApplyResult) (w : World S)
      → ltb (length w.queue) cfg.queue_size ≡ false
      → make_durable S cfg env id player res w ≡ (
          let p =
            reconcile_failed_write S cfg env id player res.applied
              (sentinel queue_full)
              (env.waited w) in
          (err p.0, p.1))
  unfolding make_durable submit
  make_durable-refused res w full = ground (arith, full)

  pub make_durable-failed :
      (res : ApplyResult) (w : World S) (e : Err)
      → ltb (length w.queue) cfg.queue_size ≡ true
      → await env.wait ≡ err e
      → make_durable S cfg env id player res w ≡ (
          let p =
            reconcile_failed_write S cfg env id player res.applied e
              (env.waited (record w { queue = w.queue ++ request env id player res ∷ [] })) in
          (err p.0, p.1))
  unfolding make_durable submit
  make_durable-failed res w e room bad = ground (arith, room, bad)
