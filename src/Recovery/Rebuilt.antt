-- ===== src/Recovery/Rebuilt.antt =====
-- RehydrateBoss leaves in the cache what Postgres implies, whatever was there before.
use enigma_behemoth.Prelude.{
  ℕ, String, ◌≡◌, refl, ap, ◌∙◌, Option, none, some, List, [], ◌∷◌, true, false, ◌==◌, arith,
}
use enigma_behemoth.Prelude.Int.{ℤ}
use enigma_behemoth.Errors.{ok}
use enigma_behemoth.Store.{LeaderEntry, RecoveryState}
use enigma_behemoth.Redis.Keyspace.{Keyspace, insert_all}
use enigma_behemoth.Redis.Server.{Script, Server, answered, exec, call}
use enigma_behemoth.Redis.Snapshot.{Snapshot, snapshot}
use enigma_behemoth.Redis.Views.{IsLater, views}
use enigma_behemoth.Redis.Frame.{frames}
use enigma_behemoth.Redis.Keys.{hp_key, state_key}
use enigma_behemoth.Redis.Pipeline.{
  expiry_of, refill, exec-rehydrate_script, board_expiry-IsLater, expiry_of-IsLater,
}
use enigma_behemoth.Redis.Client.{
  members_of, board_expiry, fill, expiring, rehydrate_script, rehydrate, wrapped,
}
use enigma_behemoth.Postgres.Tables.{Boss, find_boss}
use enigma_behemoth.Postgres.Reads.{rows_of, recovery_state, contributions, derive}
use enigma_behemoth.Recovery.Rehydrate.{Rebuild, rehydrate_boss}

-- The cache entry of a boss that the durable rows imply.
abbrev pub rebuilt : RecoveryState → List LeaderEntry → Snapshot
rebuilt rs contribs = record {
  hp = some rs.current_hp;
  max_hp = some rs.max_hp;
  state = some rs.state;
  board = insert_all (members_of contribs) [];
}

module _ (now : ℕ) (id : String) where
  fill-snapshot :
      (e : Option ℕ) (contribs : List LeaderEntry) (s : Keyspace)
      → IsLater e
      → (snapshot now id s).board ≡ []
      → snapshot now id (exec (fill id e contribs) now s).1
        ≡ record (snapshot now id s) { board = insert_all (members_of contribs) [] }
  unfolding fill expiring exec
  fill-snapshot e [] s h b = ground (arith, b)
  fill-snapshot none (c ∷ cs) s h b = simp (views, b)
  fill-snapshot (some d) (c ∷ cs) s h b = simp (views, b, h)

  refill-snapshot :
      (rs : RecoveryState) (contribs : List LeaderEntry) (e1 e2 e3 : Option ℕ) (s : Keyspace)
      → IsLater e1
      → IsLater e2
      → IsLater e3
      → snapshot now id (exec (fill id e3 contribs) now (refill now id rs e1 e2 s)).1
        ≡ rebuilt rs contribs
  refill-snapshot rs contribs e1 e2 e3 s h1 h2 h3 =
      fill-snapshot e3 contribs _ h3 (simp views) ∙ simp (views, h1, h2)

  rehydrate-snapshot :
      (ttl : ℤ) (rs : RecoveryState) (contribs : List LeaderEntry) (s : Keyspace)
      → snapshot now id (exec (rehydrate_script id ttl rs contribs) now s).1 ≡ rebuilt rs contribs
  rehydrate-snapshot ttl rs contribs s =
      ap (λ (p : Unit {0} × Keyspace). snapshot now id p.1)
        (exec-rehydrate_script now id ttl rs contribs s)
      ∙ refill-snapshot rs contribs (expiry_of ttl now (s.ints (hp_key id)))
          (expiry_of ttl now (s.texts (state_key id))) (board_expiry ttl) s
          (expiry_of-IsLater ttl now (s.ints (hp_key id)))
          (expiry_of-IsLater ttl now (s.texts (state_key id))) (board_expiry-IsLater ttl)

module _ (now : ℕ) (id j : String) (differ : (id == j) ≡ false) where
  fill-frame :
      (e : Option ℕ) (contribs : List LeaderEntry) (s : Keyspace)
      → snapshot now j (exec (fill id e contribs) now s).1 ≡ snapshot now j s
  unfolding fill expiring exec
  fill-frame e [] s = refl
  fill-frame none (c ∷ cs) s = simp (frames, differ)
  fill-frame (some d) (c ∷ cs) s = simp (frames, differ)

  rehydrate-frame :
      (ttl : ℤ) (rs : RecoveryState) (contribs : List LeaderEntry) (s : Keyspace)
      → snapshot now j (exec (rehydrate_script id ttl rs contribs) now s).1 ≡ snapshot now j s
  rehydrate-frame ttl rs contribs s =
      ap (λ (p : Unit {0} × Keyspace). snapshot now j p.1)
        (exec-rehydrate_script now id ttl rs contribs s)
      ∙ fill-frame (board_expiry ttl) contribs _
      ∙ simp (frames, differ)

-- A rebuild whose queries and pipeline are answered.
pub record IsAnswered (env : Rebuild) : Type 0 where
  pub state_fault : env.state_fault ≡ none
  pub rows_fault : env.rows_fault ≡ none
  pub net : env.net ≡ answered

module _ (S : Server) (ttl : ℤ) (env : Rebuild) (up : IsAnswered env) (id : String) where
  open S use {Db, contents, eval-exec}

  abbrev pipeline : Boss → Script (Unit {0})
  pipeline b =
      rehydrate_script id ttl (derive env.state_tables.contributions b)
        (rows_of id env.rows_tables.contributions)

  rehydrate_boss-eval :
      (b : Boss) (db : Db)
      → find_boss id env.state_tables.bosses ≡ some b
      → rehydrate_boss S ttl env id db ≡ (ok true, (S.eval (pipeline b) env.at db).1)
  unfolding rehydrate_boss rehydrate wrapped call recovery_state contributions
  rehydrate_boss-eval b db found = ground (arith, up.state_fault, up.rows_fault, up.net)

  -- For a boss in Postgres the rebuild succeeds, and the cache then holds the derived HP, the maximum,
  -- the stored state and the players' totals, and nothing of what it held of that boss; the other
  -- bosses stay as they were.
  pub rehydrate_boss-rebuilt :
      (b : Boss) (db : Db)
      → find_boss id env.state_tables.bosses ≡ some b
      → let r = rehydrate_boss S ttl env id db in
        (r.0 ≡ ok true)
        × (snapshot env.at id (contents r.1)
            ≡ rebuilt
                (derive env.state_tables.contributions b)
                (rows_of id env.rows_tables.contributions))
        × ((j : String)
            → (id == j) ≡ false
            → snapshot env.at j (contents r.1) ≡ snapshot env.at j (contents db))
  rehydrate_boss-rebuilt b db found = rw (rehydrate_boss-eval b db found) (
    refl,
    ap (snapshot env.at id) (eval-exec (pipeline b) env.at db).1
        ∙ rehydrate-snapshot env.at id ttl _ _ (contents db),
    λ j differ.
        ap (snapshot env.at j) (eval-exec (pipeline b) env.at db).1
        ∙ rehydrate-frame env.at id j differ ttl _ _ (contents db),
  )

  -- For an unknown boss nothing changes.
  pub rehydrate_boss_unknown :
      (db : Db)
      → find_boss id env.state_tables.bosses ≡ none
      → rehydrate_boss S ttl env id db ≡ (ok false, db)
  unfolding rehydrate_boss recovery_state
  rehydrate_boss_unknown db found = ground (arith, up.state_fault)
