-- ===== src/Start/FirstHit.antt =====
-- The first hit after a start: from the tables, through the rebuild of the cache and the service that run
-- makes, to the reply of POST /damage.
use enigma_behemoth.Prelude.{
  ℕ, ◌-◌, ◌<◌, ◌≡◌, refl, ap, ◌∙◌, String, Option, none, some, [], Bool, true, false, ◌||◌, ◌==◌,
  ltb, leb, length, arith, inl, inr, Bool-cases, if◌then◌else◌,
}
use enigma_behemoth.Prelude.Int.{pos, leb_ℤ, ltb_ℤ}
use enigma_behemoth.Errors.{Err, ok}
use enigma_behemoth.Store.{ApplyResult, status_applied}
use enigma_behemoth.Redis.Server.{Server, answered}
use enigma_behemoth.Redis.Snapshot.{Snapshot, snapshot, hit, result}
use enigma_behemoth.Postgres.Tables.{Tables, Boss, find_boss, sum_of}
use enigma_behemoth.Postgres.Reads.{derive}
use enigma_behemoth.Recovery.All.{steady}
use enigma_behemoth.Writer
use enigma_behemoth.Boss.Service.{
  Config, DamageResult, World, Env, new_service, with_reconciler, damage,
}
use enigma_behemoth.Boss.Damage.Durable.{durable}
use enigma_behemoth.Boss.Damage.Hot.{IsHot, damage_succeeds}
use enigma_behemoth.Config.{Tunables, load}
use enigma_behemoth.Config.Checked.{IsChecked, load-IsChecked}
use enigma_behemoth.Api.{DamageRequest, handle_damage, respond}
use enigma_behemoth.Api.Json.{
  Json, body_of, decode_damage, is_int64, encode_damage, write_json, write_response, serve_damage,
}
use enigma_behemoth.Api.Json.Decode.{encode_request, decode_damage-encode_request}
use enigma_behemoth.Start.{Surroundings, service_config, run}
use enigma_behemoth.Start.Serving.{serves, run-IsImplied}

-- A hit of `n` on a boss with `left` HP.
hit_left :
    (player : String) (n left : ℕ) (c : Snapshot)
    → c.hp ≡ some (pos left)
    → 0 < n
    → 0 < left
    → (hit player (pos n) c).0
      ≡ result status_applied (pos (if ltb left n then left else n)) (pos (left - n))
hit_left player n left c h some_hit alive = elim (Bool-cases (ltb left n)) [
  | inl e ↦ ground (arith, h, e)
  | inr e ↦ ground (arith, h, e)
]

-- What the first hit of `n` on a boss with `left` HP is answered.
abbrev pub first_result : String → String → ℕ → ℕ → DamageResult
first_result id player n left = record {
  boss_id = id;
  player_id = player;
  applied = pos (if ltb left n then left else n);
  boss_hp = pos (left - n);
  defeated = leb left n;
}

durable-first_result :
    (id player : String) (n left : ℕ)
    → durable id player
        (result status_applied (pos (if ltb left n then left else n)) (pos (left - n)))
      ≡ first_result id player n left
durable-first_result id player n left =
    ap {B = DamageResult}
      (λ d. record {
        boss_id = id;
        player_id = player;
        applied = pos (if ltb left n then left else n);
        boss_hp = pos (left - n);
        defeated = d;
      })
      (ground arith)

within_limits :
    (c : Tunables) (n : ℕ)
    → 0 < n
    → leb_ℤ (pos n) c.max_damage_per_hit ≡ true
    → (leb_ℤ (pos n) (pos 0) || ltb_ℤ c.max_damage_per_hit (pos n)) ≡ false
within_limits c n some_hit fits = ground arith

-- A request with no one else about, at an instant, whose call is answered and whose event is committed.
pub record IsAlone {S : Server} (now : ℕ) (env : Env S) : Type 0 where
  pub reached : env.first ≡ answered
  pub at : env.first_at ≡ now
  pub applied : (v : World S) → env.applied v ≡ v
  pub committed : env.wait ≡ Writer.answered none

module _ (S : Server) where
  first_damage :
      (c : Tunables) (env : Env S) (now n left : ℕ) (id player : String) (db : S.Db)
      → IsChecked c
      → IsAlone now env
      → (snapshot now id (S.contents db)).hp ≡ some (pos left)
      → 0 < n
      → leb_ℤ (pos n) c.max_damage_per_hit ≡ true
      → 0 < left
      → (damage S
          (service_config c c.redis_cache_ttl)
          env
          id
          player
          (pos n)
          (record { db = db; queue = []; enqueued = [] })).0
        ≡ ok (first_result id player n left)
  unfolding service_config new_service with_reconciler
  first_damage c env now n left id player db checked alone held some_hit fits alive =
      let cfg = service_config c c.redis_cache_ttl in
      let w : World S = record { db = db; queue = []; enqueued = [] } in
      let c0 = snapshot env.first_at id (S.contents db) in
      let hp : c0.hp ≡ some (pos left) =
        ap (λ t. (snapshot t id (S.contents db)).hp) alone.at ∙ held in
      let landed_hit = hit_left player n left c0 hp some_hit alive in
      let hot : IsHot S cfg env id player (pos n) w = record {
        limits = within_limits c n some_hit fits;
        reached = alone.reached;
        lands = ap (λ (r : ApplyResult). r.status) landed_hit;
      } in
      damage_succeeds S cfg env id player (pos n) w hot
        (ap (λ (v : World S). ltb (length v.queue) cfg.queue_size) (alone.applied _)
          ∙ ground (arith, checked.queue))
        alone.committed
      ∙ ap (λ r. ok (durable id player r)) landed_hit
      ∙ ap ok (durable-first_result id player n left)

  -- POST /damage with a request that Damage answers with a result.
  serve_damage-encode_request :
      (parse : String → Option Json) (fold : String → String → Bool) (error : Err → String)
      (cfg : Config) (env : Env S) (text : String) (w : World S) (r : DamageRequest)
      (d : DamageResult)
      → parse text ≡ some (encode_request r)
      → is_int64 r.damage_amount ≡ true
      → (r.player_id == "") || (r.boss_id == "") ≡ false
      → (damage S cfg env r.boss_id r.player_id r.damage_amount w).0 ≡ ok d
      → (serve_damage S parse fold error cfg env text w).0 ≡ write_json 200 (encode_damage d)
  unfolding serve_damage handle_damage respond write_response
  serve_damage-encode_request parse fold error cfg env text w r d parsed small full done =
      let read : body_of parse (decode_damage fold) text ≡ some r =
        rw (parsed, body_of) (decode_damage-encode_request fold r small) in
      rw (read, full, done) refl

  -- If a run serves traffic with the configuration `c`, from tables that do not change and with every query
  -- and pipeline of the start answered, and the first request is a hit of `n` within the limit, by a named
  -- player on a boss with HP left, alone, with its call answered and its event committed, the reply is a 200
  -- with the damage that lands, the HP that is left of what the tables imply, and whether it is none.
  pub run-first_hit :
      (env : Surroundings) (db : S.Db) (t : Tables) (now : ℕ) (b : Boss) (c : Tunables)
      (request : Env S) (parse : String → Option Json) (fold : String → String → Bool)
      (error : Err → String) (text id player : String) (n : ℕ)
      → load env.parse env.environ ≡ ok c
      → env.list_fault ≡ none
      → env.list_tables ≡ t
      → env.rebuilds ≡ (λ k. steady t now)
      → find_boss id t.bosses ≡ some b
      → serves (run S env db).1 ≡ true
      → IsAlone now request
      → parse text
        ≡ some (encode_request (record { player_id = player; boss_id = id; damage_amount = pos n }))
      → (player == "") || (id == "") ≡ false
      → 0 < n
      → leb_ℤ (pos n) c.max_damage_per_hit ≡ true
      → sum_of b.id t.contributions < b.max_hp
      → (serve_damage S parse fold error
          (service_config c c.redis_cache_ttl)
          request
          text
          (record { db = (run S env db).2; queue = []; enqueued = [] })).0
        ≡ write_json 200
            (encode_damage (first_result id player n (b.max_hp - sum_of b.id t.contributions)))
  unfolding derive is_int64
  run-first_hit env db t now b c request parse fold error text id player n loaded lf lt rb found
        served alone parsed full some_hit fits alive =
      let checked = (load-IsChecked env.parse env.environ c loaded).1 in
      let held = (run-IsImplied S env db t now id b lf lt rb found served).1 in
      let done =
        first_damage c request now n (b.max_hp - sum_of b.id t.contributions) id player
          (run S env db).2 checked alone (ap (λ (x : Snapshot). x.hp) held) some_hit fits
          (omega (arith, alive)) in
      serve_damage-encode_request parse fold error (service_config c c.redis_cache_ttl) request text
        (record { db = (run S env db).2; queue = []; enqueued = [] })
        (record { player_id = player; boss_id = id; damage_amount = pos n })
        (first_result id player n (b.max_hp - sum_of b.id t.contributions)) parsed
        (ground (arith, checked.hit_bound, fits)) full done
