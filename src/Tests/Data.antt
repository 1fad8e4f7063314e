-- ===== src/Tests/Data.antt =====
-- A boss that the cache and the tables hold, with one contributor.
use enigma_behemoth.Prelude.{ℕ, none, some, [], ◌∷◌, true, ◌==◌, if◌then◌else◌}
use enigma_behemoth.Prelude.Int.{pos}
use enigma_behemoth.Store.{DamageEvent}
use enigma_behemoth.Redis.Keyspace.{Cell, Keyspace}
use enigma_behemoth.Redis.Server.{answered, plain}
use enigma_behemoth.Postgres.Tables.{Boss, Tables}
use enigma_behemoth.Recovery.Rehydrate.{Rebuild}
use enigma_behemoth.Writer.{WriteReq}
use enigma_behemoth.Writer
use enigma_behemoth.Boss.Service.{Config, World, Env}

abbrev pub cell {ℓ} : {A : Type ℓ} → A → Cell A
cell a = record { value = a; expires = none }

-- The boss "b" has 30 of 100 HP left; "ann" has dealt 70.
abbrev pub cache : Keyspace
cache = record {
  ints = λ k.
      if k == "boss:b:hp"
      then some (cell (pos 30))
      else if k == "boss:b:maxhp"
      then some (cell (pos 100))
      else none;
  texts = λ k. if k == "boss:b:state" then some (cell "alive") else none;
  zsets = λ k. if k == "boss:b:lb" then some (cell (("ann", pos 70) ∷ [])) else none;
}

abbrev pub boss : Boss
boss = record {
  id = "b";
  max_hp = 100;
  current_hp = 30;
  state = "alive";
  defeated_at = none;
  updated_at = 1;
}

abbrev pub tables : Tables
tables = record {
  bosses = boss ∷ [];
  damage_events = (record { boss_id = "b"; player_id = "ann"; damage_applied = 70 }) ∷ [];
  contributions = (record { boss_id = "b"; player_id = "ann"; total_damage = 70 }) ∷ [];
  reward_claims = [];
}

abbrev pub event : DamageEvent
event = record { boss_id = "b"; player_id = "bob"; applied = pos 30 }

abbrev pub waiting : WriteReq
waiting = record { ev = event; done = 1 }

abbrev pub config : ℕ → Config
config size = record { ttl = pos 0; max_hit = pos 1000; queue_size = size; has_reconciler = true }

abbrev pub world : World plain
world = record { db = cache; queue = []; enqueued = [] }

abbrev pub rebuild : Rebuild
rebuild = record {
  state_fault = none;
  state_tables = tables;
  rows_fault = none;
  rows_tables = tables;
  net = answered;
  at = 5;
}

-- A request with no one else about, whose wait ends as it is told to.
abbrev pub quiet : Writer.Wait → Env plain
quiet w = record {
  first = answered;
  first_at = 5;
  cold = λ v. v;
  rebuild = rebuild;
  loaded = λ v. v;
  second = answered;
  second_at = 5;
  applied = λ v. v;
  ticket = 7;
  wait = w;
  waited = λ v. v;
  undo = answered;
  undo_at = 5;
}
