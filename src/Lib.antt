-- ===== src/Lib.antt =====
-- Verification of Behemoth, a world boss event service: players hit a boss, the hits are counted in a
-- Redis cache and written to PostgreSQL in groups, and players claim a reward once the boss has fallen.
--
-- How the parts interact. internal/api decodes a request and calls internal/boss. Service.Damage runs the
-- damage script of internal/store/redis.go, with a rebuild of the boss from Postgres if the cache does not
-- hold it (internal/recovery), then submits the event to the group-commit writer
-- (internal/store/writer.go) and waits until CommitBatch (internal/store/postgres.go) has committed it. If
-- the write does not persist, the hit is undone in the cache; if that is unknown or the undo fails, the
-- reconciler (internal/recovery/reconcile.go) rebuilds the boss. Service.Claim works on Postgres alone.
--
-- Which file models what:
--   Prelude, Prelude/*     shared names, Boolean tests, lists, maps and signed integers
--   Errors, Store          error values with errors.Is; the structs of internal/store/store.go
--   Text                   strconv.ParseInt and strings.Contains on bytes; proofs in Text/Decimal
--   Redis/Keyspace, Order, Server, Keys
--                          what a client sees of Redis, the order of a sorted set, scripts and pipelines
--                          as trees of commands, and the server as a parameter with one law; the keys
--   Redis/Scripts, Client, View
--                          damageScript and compensateScript; ApplyDamage, CompensateDamage and Rehydrate;
--                          GetBossView
--   Redis/Snapshot         the promise of the scripts: a hit and an undo of what the cache holds of a boss
--   Redis/Views, Frame, Hits, Calls, Laws, Refund, Balance, View/Top
--                          proofs that the scripts keep that promise, and what follows
--   Redis/Pipeline         the pipeline of Rehydrate as changes of the keys, with the units of go-redis: EXPIRE
--                          in seconds, SET in seconds or milliseconds, and -1 ns as KEEPTTL
--   Redis/Expiry           the cells of a boss with their expiry, under every script and under time
--   Postgres/Tables        db/init.sql and the SQL statements
--   Postgres/Batch         CommitBatch; its children prove what it does to every table
--   Postgres/Ledger        what the tables say up to order, as a quotient, and a batch as a bag of events that
--                          charges it; proofs in Refines and Grouped
--   Postgres/Claims        ClaimBasis, SaveClaim, decodePayload; Postgres/Reads the queries of recovery
--   Writer                 Writer.loop as a function of the events that its select receives, Submit, and
--                          the release of the waiters by commit; proofs in Writer/Loop; commit on
--                          CommitBatch in Writer/Acks
--   Writer/Pool            the loops of Start over one channel as a step relation; proofs in its children
--                          Kept and Told
--   Writer/Pool/Stop       Stop beside the loops; proofs in Drained and Ends
--   Writer/Durable         the writer from Start to the end of Stop on the tables: the batches of the pool
--                          committed one after another
--   Recovery/Rehydrate     RehydrateBoss and RehydrateAll; proofs in Recovery/Rebuilt and All
--   Recovery/Reconcile     Enqueue and the workers as a step relation; proofs in its child Coalesce; Stop
--                          beside two workers in its child Stop, with proofs in Emptied
--   Boss/Service           Damage, applyWithRehydrate, reconcileFailedWrite; proofs in Boss/Damage
--   Boss/View, Claim, Reward
--                          Get, Claim, TierFor and RewardFor
--   Api                    the handlers and writeDomainError; proofs in Api/Status
--   Api/Json               decodeJSON, writeJSON and writeError on JSON values; proofs in its children Decode
--                          and Served
--   Api/Metrics            the collectors, observe and the route table; proofs in its child Counted
--   Redis/Ready, Postgres/Connect
--                          NewRedisStore with waitRedisReady, and NewPostgresStore; proofs in Ready/Wait
--   Config                 internal/config/config.go; its child Said is what each variable means, Checked
--                          what Load checks
--   Start                  run of cmd/server/main.go, as the trace of what it does; Stages, Order and
--                          Serving prove what a run goes through and in which order, FirstHit what the
--                          first request then gets
--   LoadProbe              the answers, counters and percentiles of scripts/loadprobe/main.go; proofs in its
--                          child Verdict; Workers is the workers in any interleaving, Workers/Report what is
--                          printed, with proofs in Taken, Counted, Ends and Reported
--   System                 the cache, the events that wait and the tables, moved by the calls of all
--                          parts; proofs in Left, Sums, Balance (with a child for each kind of move, and
--                          Surplus for a rebuild that is none), Agree, Defeat and Scores
--   Tests                  concrete runs
--
-- How state and effects are modelled. A method is a function from the state to its result and the state
-- afterwards. The network is an argument: a Redis call is answered, refused, or run with its answer lost; a
-- transaction of Postgres fails at a stage, or is committed with the answer lost. What other requests do
-- between two calls of one request is an argument too, a function on the state, so a theorem about a
-- request holds for every interleaving at those points. The orders in which Go walks the two maps of
-- CommitBatch are arguments. A float64 is an opaque number, with monotone operations as a parameter; the
-- JSON codec of the reward is a parameter with a round trip on the rewards that the program grants.
--
-- Numbers. A BIGINT that a check keeps from being negative is a natural number, and a total that reaches
-- 2^63 fails the statement. The sums of CommitBatch wrap around as int64 does. Numbers of Redis are
-- integers: Lua and sorted sets hold them in doubles, exactly up to 2^53, which HP and scores are taken to
-- stay below. Times are instants in nanoseconds. Every loop follows a list but one: the wait for Redis has
-- fuel, a round for each 100 ms up to the deadline and one more, and always ends within it. The
-- goroutines of the writer, the reconciler and the load probe take the steps of a relation, in any order.
--
-- Not modelled: the length of the reconciler's settle delay; Ping and Close of the stores; the matching of
-- routes, the recovery from panics and the timeout of requests, which are chi's; the text of a JSON body,
-- as a parser is an argument; signals and log lines; the HTTP client of the load probe. They are calls of
-- libraries, or act outside the state described here. time.ParseDuration, http.StatusText and the index of a
-- percentile in float64 are arguments.
pub mod Prelude
pub mod Errors
pub mod Store
pub mod Text
pub mod Redis
pub mod Postgres
pub mod Writer
pub mod Recovery
pub mod Boss
pub mod Api
pub mod Config
pub mod Start
pub mod LoadProbe
pub mod System
pub mod Tests
