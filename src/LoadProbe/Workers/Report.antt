-- ===== src/LoadProbe/Workers/Report.antt =====
-- What scripts/loadprobe/main.go prints when its workers have ended, and its exit code.
use enigma_behemoth.Prelude.{ℕ, ◌+◌, String, Option, Bool, ltb, if◌then◌else◌}
use enigma_behemoth.LoadProbe.{Tally, sort_lats, pct, limit}
use enigma_behemoth.LoadProbe.Workers.{Settings}

-- The values that are printed.
pub record Report : Type 0 where
  pub target : String
  pub boss : String
  pub concurrency : ℕ
  pub duration : ℕ
  pub total : ℕ
  pub succeeded : ℕ
  pub fail : ℕ
  pub transport_errors : ℕ
  pub http503 : ℕ
  pub http5xx : ℕ
  pub sample : Option String
  pub throughput : ℕ
  pub p50 : ℕ
  pub p90 : ℕ
  pub p99 : ℕ
  pub p999 : ℕ
  pub max : ℕ
  pub passed : Bool

-- `index m n` is int(p / 100 * float64(n)) for p = m / 10, and `rate` the throughput of successes in a time.
unfoldable pub report : (ℕ → ℕ → ℕ) → (ℕ → ℕ → ℕ) → Settings → Tally → Option String → Report
unfolding sort_lats pct
report index rate s t sample =
    let lats = sort_lats t.lats in
    let fail = t.transport_errors + t.s503 + t.s5xx in
    record {
      target = s.base;
      boss = s.boss;
      concurrency = s.concurrency;
      duration = s.duration;
      total = t.succeeded + fail;
      succeeded = t.succeeded;
      fail = fail;
      transport_errors = t.transport_errors;
      http503 = t.s503;
      http5xx = t.s5xx;
      sample = sample;
      throughput = rate t.succeeded s.duration;
      p50 = pct (index 500) lats;
      p90 = pct (index 900) lats;
      p99 = pct (index 990) lats;
      p999 = pct (index 999) lats;
      max = pct (index 1000) lats;
      passed = ltb (pct (index 990) lats) limit;
    }

unfoldable pub exit_code : Report → ℕ
exit_code r = if r.passed then 0 else 1
