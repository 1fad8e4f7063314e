-- ===== src/Redis/View/Top.antt =====
-- The leaderboard that GetBossView answers is the top of the sorted set.
use mathlib.Core.List.{Perm}
use mathlib.Core.List.Perm
use enigma_behemoth.Prelude.{
  ℕ, ◌++◌, All, String, ◌≡◌, ap, ◌∙◌, List, [], ◌∷◌, take, length, leb, if◌then◌else◌,
}
use enigma_behemoth.Prelude.Int.{ℤ, ◌≤ℤ◌}
use enigma_behemoth.Errors.{ok}
use enigma_behemoth.Redis.Keyspace.{Keyspace, read, members}
use enigma_behemoth.Redis.Order.{rank}
use enigma_behemoth.Redis.Server.{Server, answered, get, get_text, zrevrange, reply, exec}
use enigma_behemoth.Redis.Keys.{hp_key, max_key, state_key, lb_key}
use enigma_behemoth.Redis.Snapshot.{snapshot}
use enigma_behemoth.Redis.View.{ViewEnv, view_of, get_boss_view}

-- No other client acts between the commands.
pub record IsAlone (S : Server) (env : ViewEnv S) : Type 0 where
  pub net : env.net ≡ answered
  pub hp_read : (db : S.Db) → env.hp_read db ≡ db
  pub max_read : (db : S.Db) → env.max_read db ≡ db
  pub state_read : (db : S.Db) → env.state_read db ≡ db

module _ (S : Server) (env : ViewEnv S) (alone : IsAlone S env) (id : String) where
  open S use {Db, contents, eval-exec}

  pub get_boss_view-snapshot :
      (db : Db)
      → let c = snapshot env.at id (contents db) in
        let r = get_boss_view S env id db in
        (r.0 ≡ ok (view_of id c.hp c.max_hp c.state (take 10 (rank c.board))))
        × (contents r.1 ≡ contents db)
  unfolding get_boss_view snapshot exec
  get_boss_view-snapshot db =
      let q1 = eval-exec (get (hp_key id) reply) env.at db in
      let d1 = (S.eval (get (hp_key id) reply) env.at db).1 in
      let c1 : contents (env.hp_read d1) ≡ contents db = ap contents (alone.hp_read d1) ∙ q1.1 in
      let q2 = eval-exec (get (max_key id) reply) env.at (env.hp_read d1) in
      let d2 = (S.eval (get (max_key id) reply) env.at (env.hp_read d1)).1 in
      let c2 : contents (env.max_read d2) ≡ contents db =
        ap contents (alone.max_read d2) ∙ q2.1 ∙ c1 in
      let q3 = eval-exec (get_text (state_key id) reply) env.at (env.max_read d2) in
      let d3 = (S.eval (get_text (state_key id) reply) env.at (env.max_read d2)).1 in
      let c3 : contents (env.state_read d3) ≡ contents db =
        ap contents (alone.state_read d3) ∙ q3.1 ∙ c2 in
      let q4 = eval-exec (zrevrange (lb_key id) 10 reply) env.at (env.state_read d3) in
      let max_seen = q2.0 ∙ ap (λ (s : Keyspace). read env.at (s.ints (max_key id))) c1 in
      let state_seen = q3.0 ∙ ap (λ (s : Keyspace). read env.at (s.texts (state_key id))) c2 in
      let top_seen =
        q4.0 ∙ ap (λ (s : Keyspace). take 10 (rank (members env.at (s.zsets (lb_key id))))) c3 in
      rw alone.net (cc (q1.0, max_seen, state_seen, top_seen), q4.1 ∙ c3)

-- No entry scores more than one before it.
abbrev pub IsDescending : List (String × ℤ) → Type 0
IsDescending [] = Unit
IsDescending (x ∷ xs) = All (λ y. y.1 ≤ℤ x.1) xs × IsDescending xs

-- A list is the top of a board, of ten or of the whole if it has fewer: with the rest, it is the board in order of the scores.
pub IsTop : List (String × ℤ) → List (String × ℤ) → Type 0
IsTop top board =
    (length top ≡ (if leb 10 (length board) then 10 else length board))
    × ((rest : List (String × ℤ)) × Perm (top ++ rest) board × IsDescending (top ++ rest))

abbrev at_most : ℕ → ℕ → ℕ
at_most n k = if leb n k then n else k
