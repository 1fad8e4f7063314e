-- ===== src/Redis/Balance.antt =====
-- ApplyDamage moves HP to the leaderboard, and CompensateDamage takes an answered hit back.
use enigma_behemoth.Redis.Refund.{entries, total_score-undo}
use enigma_behemoth.Prelude.{false, ◌≤◌, ℕ, String, ◌≡◌, sym, ap, ◌∙◌, some}
use enigma_behemoth.Prelude.Int.{ℤ, pos, ◌+ℤ◌, ◌-ℤ◌, leb_ℤ, ◌≤ℤ◌}
use enigma_behemoth.Errors.{ok}
use enigma_behemoth.Store.{ApplyResult, status_applied}
use enigma_behemoth.Redis.Keyspace.{score}
use enigma_behemoth.Redis.Server.{Server, answered}
use enigma_behemoth.Redis.Snapshot.{Snapshot, snapshot, hit, undo}
use enigma_behemoth.Redis.Client.{apply_damage, compensate_damage}
use enigma_behemoth.Redis.Calls.{apply_damage-hit, compensate_damage-undo}
use enigma_behemoth.Redis.Laws.{total_score, total_score-hit, undo-hit}

ok_inj : (a b : ApplyResult) → ok a ≡ ok b → a ≡ b
ok_inj a b h = cc

module _ (S : Server) (ttl : ℤ) (now : ℕ) (id player : String) (amount : ℤ) where
  open S use {Db, contents}

  abbrev at : Db → Snapshot
  at db = snapshot now id (contents db)

  -- An answered ApplyDamage on a boss that the cache holds keeps the sum of the HP and of all scores,
  -- whether the hit lands or not: what the boss loses is what the leaderboard gains.
  apply_damage_conserves :
      (db : Db) (hp : ℤ)
      → (at db).hp ≡ some hp
      → let after = at (apply_damage S ttl answered now id player amount db).1 in
        (hp' : ℤ) × (after.hp ≡ some hp')
        × (hp' +ℤ total_score after.board ≡ hp +ℤ total_score (at db).board)
  apply_damage_conserves db hp e =
      rw ((apply_damage-hit S ttl now id player amount db).1)
        (total_score-hit player amount (at db) hp e)

  -- An answered CompensateDamage of a positive amount, on a boss that the cache holds and for a player who
  -- has scored as much and stands once on the leaderboard, gives the HP back and keeps the sum of the HP
  -- and of all scores.
  compensate_damage_conserves :
      (db : Db) (hp : ℤ)
      → (at db).hp ≡ some hp
      → leb_ℤ amount (pos 0) ≡ false
      → entries player (at db).board ≤ 1
      → pos 0 ≤ℤ score player (at db).board -ℤ amount
      → let after = at (compensate_damage S ttl answered now id player amount db).1 in
        (after.hp ≡ some (hp +ℤ amount))
        × ((hp +ℤ amount) +ℤ total_score after.board ≡ hp +ℤ total_score (at db).board)
  compensate_damage_conserves db hp e gain once own =
      rw ((compensate_damage-undo S ttl now id player amount db).0)
        (total_score-undo player amount hp (at db) e gain once own)

  -- An answered ApplyDamage that lands, followed by an answered CompensateDamage of what it applied,
  -- restores the HP, the maximum and every score, and leaves the boss alive, for a player whose score was
  -- not negative.
  compensate_damage-apply_damage :
      (db : Db) (res : ApplyResult)
      → (apply_damage S ttl answered now id player amount db).0 ≡ ok res
      → res.status ≡ status_applied
      → pos 0 ≤ℤ score player (at db).board
      → let db' = (apply_damage S ttl answered now id player amount db).1 in
        let u = at (compensate_damage S ttl answered now id player res.applied db').1 in
        (u.hp ≡ (at db).hp)
        × (u.state ≡ some "alive")
        × (u.max_hp ≡ (at db).max_hp)
        × ((q : String) → score q u.board ≡ score q (at db).board)
  compensate_damage-apply_damage db res h s own =
      let a = apply_damage-hit S ttl now id player amount db in
      let same : (hit player amount (at db)).0 ≡ res = ok_inj _ res (sym a.0 ∙ h) in
      let db' = (apply_damage S ttl answered now id player amount db).1 in
      let u : at (compensate_damage S ttl answered now id player res.applied db').1
          ≡ undo player (hit player amount (at db)).0.applied (hit player amount (at db)).1 =
        (compensate_damage-undo S ttl now id player res.applied db').0
        ∙ ap (λ (c : Snapshot). undo player res.applied c) a.1
        ∙ ap (λ (r : ApplyResult). undo player r.applied (hit player amount (at db)).1)
            (sym same) in
      rw u (undo-hit player amount (at db) (ap (λ (r : ApplyResult). r.status) same ∙ s) own)
