-- ===== src/Redis/Expiry/Subsecond.antt =====
-- A TTL below one second, which ttlArg rounds to none.
use enigma_behemoth.Prelude.{
  ℕ, suc, ◌+◌, ◌<◌, ◌≤◌, String, Option, some, none, List, [], ◌∷◌, ◌≡◌, refl, ap, ◌∙◌, false,
  arith, insert, inl, inr, ◌==◌, Bool-cases,
}
use enigma_behemoth.Prelude.Int.{ℤ, pos, leb_ℤ, ◌-ℤ◌}
use enigma_behemoth.Store.{LeaderEntry, RecoveryState}
use enigma_behemoth.Redis.Keyspace.{
  Keyspace, read, members, deadline, set_expiry, insert_all, keep_nonempty, increment,
}
use enigma_behemoth.Redis.Server.{Server, answered, call}
use enigma_behemoth.Redis.Keys.{hp_key, state_key, lb_key}
use enigma_behemoth.Redis.Scripts.{second, damage_script}
use enigma_behemoth.Redis.Snapshot.{snapshot, landed}
use enigma_behemoth.Redis.Client.{
  ttl_arg, client_expiry, board_expiry, members_of, rehydrate_script, rehydrate, apply_damage,
}
use enigma_behemoth.Redis.Views.{IsLater}
use enigma_behemoth.Redis.Pipeline.{client_expiry-IsLater}
use enigma_behemoth.Redis.Expiry.{Cells, cells, cell_at}
use enigma_behemoth.Redis.Expiry.Boards.{increment_live}
use enigma_behemoth.Redis.Expiry.Scripts.{settled, damage-settled, cells-hp}
use enigma_behemoth.Redis.Expiry.Refilled.{filled, refilled}

insert_some :
    (k : String) (v : ℤ) (z : List (String × ℤ))
    → (x : String × ℤ) × (r : List (String × ℤ)) × (insert k v z ≡ x ∷ r)
insert_some k v [] = ((k, v), [], refl)
insert_some k v ((j, w) ∷ z) = elim (Bool-cases (j == k)) [
  | inl e ↦ ((j, v), z, rw e refl)
  | inr e ↦ ((j, w), insert k v z, rw e refl)
]

insert_all-some :
    (ms : List (String × ℤ)) (x : String × ℤ) (z : List (String × ℤ))
    → (y : String × ℤ) × (r : List (String × ℤ)) × (insert_all ms (x ∷ z) ≡ y ∷ r)
insert_all-some [] x z = (x, z, refl)
insert_all-some ((m, s) ∷ ms) x z =
    let (y, r, e) = insert_some m s (x ∷ z) in
    let (y', r', e') = insert_all-some ms y r in (y', r', ap (insert_all ms) e ∙ e')

-- The leaderboard that a rebuild with contributors leaves, with a TTL.
filled-some :
    (now d : ℕ) (c : LeaderEntry) (cs : List LeaderEntry)
    → (z : List (String × ℤ)) × (filled now (some d) (c ∷ cs) ≡ some (cell_at z (some (now + d))))
filled-some now d c cs =
    let (x, r, e) = insert_all-some (members_of cs) (c.player_id, c.damage) [] in
    (x ∷ r, ap (λ z. set_expiry now (now + d) (keep_nonempty none z)) e)

ttl_arg_sub : (n : ℕ) → n < second → ttl_arg (pos n) ≡ pos 0
unfolding ttl_arg
ttl_arg_sub n h = ap pos (omega arith)

-- The client sends at least a second to EXPIRE.
board_expiry_sub : (m : ℕ) → suc m < second → board_expiry (pos (suc m)) ≡ some second
unfolding board_expiry
board_expiry_sub m h = ground arith

read_fresh :
    (now : ℕ) (v : ℤ) (e : Option ℕ)
    → IsLater e
    → read now (some (cell_at v (deadline now e))) ≡ some v
read_fresh now v none h = refl
read_fresh now v (some d) h = ground arith

-- The two keys that outlive each other, at a later instant.
kept_hp :
    (later : ℕ) (id : String) (s : Keyspace) (v : ℤ)
    → (cells id s).hp ≡ some (cell_at v none)
    → (snapshot later id s).hp ≡ some v
unfolding cells snapshot
kept_hp later id s v h = ap (read later) h

gone_board :
    (later t : ℕ) (id : String) (s : Keyspace) (z : List (String × ℤ))
    → t ≤ later
    → (cells id s).board ≡ some (cell_at z (some t))
    → (snapshot later id s).board ≡ []
unfolding cells snapshot
gone_board later t id s z le h = ap (members later) h ∙ ground arith

module _ (S : Server) (m now : ℕ) (id player : String) (amount : ℤ) (rs : RecoveryState)
    (c : LeaderEntry) (cs : List LeaderEntry) where
  open S use {Db, contents, eval-exec}

  abbrev ttl : ℤ
  ttl = pos (suc m)

  abbrev rebuilt : Db → Db
  rebuilt db = (rehydrate S ttl answered now id rs (c ∷ cs) db).1

  abbrev struck : Db → Db
  struck db = (apply_damage S ttl answered now id player amount (rebuilt db)).1

  rebuilt-cells :
      (db : Db)
      → suc m < second
      → cells id (contents (rebuilt db)) ≡ record {
        hp = some (cell_at rs.current_hp (deadline now (client_expiry ttl)));
        max_hp = some (cell_at rs.max_hp none);
        state = some (cell_at rs.state (deadline now (client_expiry ttl)));
        board = filled now (some second) (c ∷ cs);
      }
  unfolding rehydrate call
  rebuilt-cells db small =
      ap (cells id) (eval-exec (rehydrate_script id ttl rs (c ∷ cs)) now db).1
      ∙ refilled now id ttl rs (c ∷ cs) (contents db)
      ∙ ap
          (λ e. record {
            hp = some (cell_at rs.current_hp (deadline now (client_expiry ttl)));
            max_hp = some (cell_at rs.max_hp none);
            state = some (cell_at rs.state (deadline now (client_expiry ttl)));
            board = filled now e (c ∷ cs);
          })
          (board_expiry_sub m small)

  rebuilt-hp :
      (db : Db)
      → suc m < second
      → read now ((contents (rebuilt db)).ints (hp_key id)) ≡ some rs.current_hp
  rebuilt-hp db small =
      cells-hp now id (contents (rebuilt db))
      ∙ ap (λ (x : Cells). read now x.hp) (rebuilt-cells db small)
      ∙ read_fresh now rs.current_hp (client_expiry ttl) (client_expiry-IsLater ttl)

  struck-cells :
      (db : Db)
      → suc m < second
      → leb_ℤ amount (pos 0) ≡ false
      → leb_ℤ rs.current_hp (pos 0) ≡ false
      → (z : List (String × ℤ)) × ((cells id (contents (struck db))).hp
          ≡ some (cell_at (rs.current_hp -ℤ landed rs.current_hp amount) none))
        × ((cells id (contents (struck db))).board ≡ some (cell_at z (some (now + second))))
  unfolding apply_damage call
  struck-cells db small x y =
      let a = landed rs.current_hp amount in
      let before = contents (rebuilt db) in
      let (z, full) = filled-some now second c cs in
      let same : cells id (contents (struck db))
          ≡ settled now (rs.current_hp -ℤ a) (pos 0) (leb_ℤ (rs.current_hp -ℤ a) (pos 0)) "defeated"
              (record (cells id before) {
                board = increment now a player (cells id before).board;
              }) =
        ap (cells id)
          (eval-exec
            (damage_script (hp_key id) (lb_key id) (state_key id) player amount (ttl_arg ttl)) now
            (rebuilt db)).1
        ∙ damage-settled now id player amount (ttl_arg ttl) before rs.current_hp
            (rebuilt-hp db small) x y
        ∙ ap
            (λ t.
              settled now (rs.current_hp -ℤ a) t (leb_ℤ (rs.current_hp -ℤ a) (pos 0)) "defeated"
                (record (cells id before) {
                  board = increment now a player (cells id before).board;
                }))
            (ttl_arg_sub (suc m) small) in
      (
        _,
        ap (λ (k : Cells). k.hp) same,
        ap (λ (k : Cells). k.board) same
            ∙ ap (λ (k : Cells). increment now a player k.board) (rebuilt-cells db small)
            ∙ ap (increment now a player) full
            ∙ increment_live now player a (cell_at z (some (now + second))) (ground arith),
      )

-- With a TTL below one second, a boss with HP and contributors that is rebuilt and, at the same instant, hit, both
-- calls answered, keeps its HP in the cache for good, while its leaderboard is gone after a second.
pub apply_damage_sub_second :
    (S : Server) (m now later : ℕ) (id player : String) (amount : ℤ) (rs : RecoveryState)
    (c : LeaderEntry) (cs : List LeaderEntry) (db : S.Db)
    → suc m < second
    → leb_ℤ amount (pos 0) ≡ false
    → leb_ℤ rs.current_hp (pos 0) ≡ false
    → now + second ≤ later
    → let db' = (rehydrate S (pos (suc m)) answered now id rs (c ∷ cs) db).1 in
      let db'' = (apply_damage S (pos (suc m)) answered now id player amount db').1 in
      ((snapshot later id (S.contents db'')).hp
        ≡ some (rs.current_hp -ℤ landed rs.current_hp amount))
      × ((snapshot later id (S.contents db'')).board ≡ [])
apply_damage_sub_second S m now later id player amount rs c cs db small x y le =
    let (z, hp, board) = struck-cells S m now id player amount rs c cs db small x y in
    (
      kept_hp later id (S.contents (struck S m now id player amount rs c cs db)) _ hp,
      gone_board later (now + second) id (S.contents (struck S m now id player amount rs c cs db)) z
          le board,
    )
