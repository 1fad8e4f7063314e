-- ===== src/Api/Metrics.antt =====
-- internal/api/metrics.go, middleware.go and router.go: what a request leaves in the collectors. The text of
-- a status (net/http.StatusText) and the pattern that chi has matched are arguments; a counter that
-- Prometheus keeps in a float64 is an integer, exact up to 2^53.
pub mod Counted
use enigma_behemoth.Prelude.{
  ℕ, ◌+◌, String, Option, none, some, List, [], ◌∷◌, ◌++◌, Bool, true, false, ◌&&◌, ◌==◌, eqb,
  if◌then◌else◌,
}
use enigma_behemoth.Prelude.Int.{ℤ, pos, ◌+ℤ◌}
use enigma_behemoth.Redis.Server.{Server}
use enigma_behemoth.Boss.Service.{Config, DamageResult, World, Env}
use enigma_behemoth.Api.{Response, sent, failed, DamageRequest, handle_damage}

-- The labels of behemoth_http_requests_total.
pub record Labels : Type 0 where
  pub route : String
  pub method : String
  pub status : String

abbrev pub same_labels : Labels → Labels → Bool
same_labels a b = a.route == b.route && (a.method == b.method && a.status == b.status)

-- A counter for each set of labels, the latencies observed for each route, and the damage counter.
pub record Metrics : Type 0 where
  pub requests : Labels → ℕ
  pub durations : String → List ℕ
  pub damage_applied : ℤ

abbrev pub new_metrics : Metrics
new_metrics = record { requests = λ l. 0; durations = λ r. []; damage_applied = pos 0 }

-- What a handler does to the response writer: it writes a status, or nothing, or it panics.
pub data Handled : Type 0 where
  wrote : ℕ → Handled
  silent panicked : Handled

pub record Exchange : Type 0 where
  pub path : String
  pub pattern : String
  pub method : String
  pub elapsed : ℕ
  pub handled : Handled

-- The route pattern, or the path where there is none.
unfoldable pub route_of : Exchange → String
route_of x = if x.pattern == "" then x.path else x.pattern

unfoldable pub record_request : (ℕ → String) → ℕ → Exchange → Metrics → Metrics
unfolding route_of
record_request text code x m =
    let labels : Labels = record { route = route_of x; method = x.method; status = text code } in
    record m {
      requests = λ l. if same_labels labels l then m.requests l + 1 else m.requests l;
      durations = λ r. if route_of x == r then m.durations r ++ x.elapsed ∷ [] else m.durations r;
    }

-- A panic leaves `observe` before it records anything.
unfoldable pub observe : (ℕ → String) → Exchange → Metrics → Metrics
unfolding record_request
observe text x m = elim x.handled [
  | panicked ↦ m
  | silent ↦ record_request text 200 x m
  | wrote code ↦ record_request text (if eqb code 0 then 200 else code) x m
]

-- DamageApplied.Add in handleDamage, on the way to a success.
unfoldable pub count_damage : Response DamageResult → Metrics → Metrics
count_damage (sent code d) m = record m { damage_applied = m.damage_applied +ℤ d.applied }
count_damage (failed code e) m = m

abbrev pub handled_by : {A : Type 0} → Response A → Handled
handled_by (sent code a) = wrote code
handled_by (failed code e) = wrote code

-- The routes of Router, with the handler's name.
pub data Handler : Type 0 where
  damage_handler get_boss_handler claim_handler healthz_handler readyz_handler : Handler
  metrics_handler : Handler

-- A handler for every method has the method "*".
unfoldable pub routes : List (String × String × Handler)
routes =
    ("POST", "/damage", damage_handler)
    ∷ ("GET", "/boss/{id}", get_boss_handler)
    ∷ ("POST", "/rewards/claim", claim_handler)
    ∷ ("GET", "/healthz", healthz_handler)
    ∷ ("GET", "/readyz", readyz_handler)
    ∷ ("*", "/metrics", metrics_handler)
    ∷ []

unfoldable pub handle_healthz : Response String
handle_healthz = sent 200 "ok"

-- POST /damage behind `observe`.
unfoldable pub post_damage :
    (S : Server) (text : ℕ → String)
    → Config
    → Env S
    → ℕ
    → Option DamageRequest
    → World S
    → Metrics
    → Response DamageResult × World S × Metrics
post_damage S text cfg env elapsed req w m =
    let (r, w') = handle_damage S cfg env req w in
    let x : Exchange = record {
      path = "/damage";
      pattern = "/damage";
      method = "POST";
      elapsed = elapsed;
      handled = handled_by r;
    } in
    (r, w', observe text x (count_damage r m))
