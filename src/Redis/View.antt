-- ===== src/Redis/View.antt =====
-- GetBossView of internal/store/redis.go. Its pipeline is no transaction: other clients may act between
-- its four commands.
pub mod Top
use enigma_behemoth.Prelude.{
  ℕ, String, Option, none, some, List, [], ◌∷◌, map, Bool, true, false, ◌==◌, if◌then◌else◌,
}
use enigma_behemoth.Prelude.Int.{ℤ, pos}
use enigma_behemoth.Errors.{Result, ok, err, wrap}
use enigma_behemoth.Store.{LeaderEntry, BossView}
use enigma_behemoth.Redis.Keyspace.{or_zero}
use enigma_behemoth.Redis.Server.{
  Script, reply, get, get_text, zrevrange, Server, Delivery, answered, refused, lost,
}
use enigma_behemoth.Redis.Keys.{hp_key, max_key, state_key, lb_key}

-- The zero value of the struct.
abbrev pub no_view : BossView
no_view = record {
  boss_id = "";
  name = "";
  hp = pos 0;
  max_hp = pos 0;
  state = "";
  leaderboard = [];
}

-- A missing or an empty state reads "alive".
unfoldable pub state_or_alive : Option String → String
state_or_alive none = "alive"
state_or_alive (some s) = if s == "" then "alive" else s

abbrev pub entries_of : List (String × ℤ) → List LeaderEntry
entries_of = map (λ z. record { player_id = z.0; damage = z.1 })

-- The four replies made into a view.
unfoldable pub view_of :
    String → Option ℤ → Option ℤ → Option String → List (String × ℤ) → BossView × Bool
unfolding state_or_alive
view_of id none max state top = (no_view, false)
view_of id (some hp) max state top = (
  record {
    boss_id = id;
    name = "";
    hp = hp;
    max_hp = or_zero max;
    state = state_or_alive state;
    leaderboard = entries_of top;
  },
  true,
)

module _ (S : Server) where
  open S use {Db, eval}

  -- `hp_read`, `max_read` and `state_read` are what other clients do after these commands.
  pub record ViewEnv : Type 0 where
    pub net : Delivery
    pub at : ℕ
    pub hp_read : Db → Db
    pub max_read : Db → Db
    pub state_read : Db → Db

  view_pipeline : ViewEnv → String → Db → (BossView × Bool) × Db
  view_pipeline env id db =
      let (hp, d1) = eval (get (hp_key id) reply) env.at db in
      let (max, d2) = eval (get (max_key id) reply) env.at (env.hp_read d1) in
      let (state, d3) = eval (get_text (state_key id) reply) env.at (env.max_read d2) in
      let (top, d4) = eval (zrevrange (lb_key id) 10 reply) env.at (env.state_read d3) in
      (view_of id hp max state top, d4)

  view_reply : Delivery → (BossView × Bool) × Db → Db → Result (BossView × Bool) × Db
  view_reply answered p db = (ok p.0, p.1)
  view_reply (refused e) p db = (err (wrap "boss view pipeline" e), db)
  view_reply (lost e) p db = (err (wrap "boss view pipeline" e), p.1)

  unfoldable pub get_boss_view : ViewEnv → String → Db → Result (BossView × Bool) × Db
  unfolding view_pipeline view_reply
  get_boss_view env id db = view_reply env.net (view_pipeline env id db) db
