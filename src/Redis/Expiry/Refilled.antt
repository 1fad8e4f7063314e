-- ===== src/Redis/Expiry/Refilled.antt =====
-- A rebuild sets the keys of its boss, with one expiry if the TTL is a whole number of seconds.
use enigma_behemoth.Prelude.{
  ℕ, zero, suc, ◌+◌, String, Option, some, none, List, [], ◌∷◌, ◌≡◌, refl, sym, ap, ◌∙◌, subst,
  false, arith,
}
use enigma_behemoth.Prelude.Int.{ℤ, pos, negsuc, ltb_ℤ}
use enigma_behemoth.Store.{LeaderEntry, RecoveryState}
use enigma_behemoth.Redis.Keyspace.{
  Keyspace, set_expiry, add_members, insert_all, keep_nonempty, deadline,
}
use enigma_behemoth.Redis.Server.{exec}
use enigma_behemoth.Redis.Client.{board_expiry, fill, expiring, rehydrate_script, members_of}
use enigma_behemoth.Redis.Keys.{hp_key, state_key}
use enigma_behemoth.Redis.Pipeline.{
  expiry_of, refill, exec-rehydrate_script, IsSteady, steady-expiry,
}
use enigma_behemoth.Redis.Expiry.{cells, cell_at, cell_laws}
use enigma_behemoth.Redis.Expiry.Boards.{Board, Expires}
use enigma_behemoth.Redis.Expiry.Aligned.{IsAligned, at_hp-IsAligned, set_expiry-Expires}

-- The leaderboard that is filled from nothing.
abbrev pub filled : ℕ → Option ℕ → List LeaderEntry → Board
filled now e [] = none
filled now none (c ∷ cs) = add_members now (members_of (c ∷ cs)) none
filled now (some d) (c ∷ cs) = set_expiry now (now + d) (add_members now (members_of (c ∷ cs)) none)

keep_nonempty-none :
    (P : Option ℕ → Type 0) (z : List (String × ℤ)) → P none → Expires P (keep_nonempty none z)
keep_nonempty-none P [] h = tt
keep_nonempty-none P (x ∷ z) h = h

filled-Expires :
    (now : ℕ) (e : Option ℕ) (contribs : List LeaderEntry)
    → Expires (λ x. x ≡ deadline now e) (filled now e contribs)
filled-Expires now e [] = tt
filled-Expires now none (c ∷ cs) = keep_nonempty-none _ (insert_all (members_of (c ∷ cs)) []) refl
filled-Expires now (some d) (c ∷ cs) =
    set_expiry-Expires now (now + d) (add_members now (members_of (c ∷ cs)) none)
      (keep_nonempty-none _ (insert_all (members_of (c ∷ cs)) []) refl)

module _ (now : ℕ) (id : String) where
  fill-filled :
      (e : Option ℕ) (contribs : List LeaderEntry) (s : Keyspace)
      → (cells id s).board ≡ none
      → cells id (exec (fill id e contribs) now s).1
        ≡ record (cells id s) { board = filled now e contribs }
  unfolding fill expiring exec
  fill-filled e [] s h = ap (λ b. record (cells id s) { board = b }) h
  fill-filled none (c ∷ cs) s h = simp (cell_laws, h)
  fill-filled (some d) (c ∷ cs) s h = simp (cell_laws, h)

  refill-filled :
      (rs : RecoveryState) (contribs : List LeaderEntry) (e1 e2 e3 : Option ℕ) (s : Keyspace)
      → cells id (exec (fill id e3 contribs) now (refill now id rs e1 e2 s)).1 ≡ record {
        hp = some (cell_at rs.current_hp (deadline now e1));
        max_hp = some (cell_at rs.max_hp none);
        state = some (cell_at rs.state (deadline now e2));
        board = filled now e3 contribs;
      }
  refill-filled rs contribs e1 e2 e3 s = fill-filled e3 contribs _ (simp cell_laws) ∙ simp cell_laws

  pub refilled :
      (ttl : ℤ) (rs : RecoveryState) (contribs : List LeaderEntry) (s : Keyspace)
      → cells id (exec (rehydrate_script id ttl rs contribs) now s).1 ≡ record {
        hp = some (cell_at rs.current_hp (deadline now (expiry_of ttl now (s.ints (hp_key id)))));
        max_hp = some (cell_at rs.max_hp none);
        state = some (cell_at rs.state (deadline now (expiry_of ttl now (s.texts (state_key id)))));
        board = filled now (board_expiry ttl) contribs;
      }
  refilled ttl rs contribs s =
      ap (λ (p : Unit {0} × Keyspace). cells id p.1)
        (exec-rehydrate_script now id ttl rs contribs s)
      ∙ refill-filled rs contribs _ _ (board_expiry ttl) s

board_expiry_untimed :
    (now : ℕ) (ttl : ℤ) → ltb_ℤ (pos 0) ttl ≡ false → deadline now (board_expiry ttl) ≡ none
unfolding board_expiry
board_expiry_untimed now (pos zero) h = refl
board_expiry_untimed now (pos (suc n)) h = ground arith
board_expiry_untimed now (negsuc n) h = refl

pub rehydrate-IsAligned :
    (now : ℕ) (id : String) (ttl : ℤ) (rs : RecoveryState) (contribs : List LeaderEntry)
    (s : Keyspace)
    → IsSteady ttl
    → IsAligned
        (ltb_ℤ (pos 0) ttl)
        now
        (cells id (exec (rehydrate_script id ttl rs contribs) now s).1)
rehydrate-IsAligned now id ttl rs contribs s steady =
    let same_hp = steady-expiry ttl now (s.ints (hp_key id)) steady in
    let same_state = steady-expiry ttl now (s.texts (state_key id)) steady in
    subst (IsAligned (ltb_ℤ (pos 0) ttl) now) (sym (refilled now id ttl rs contribs s)) (
      at_hp-IsAligned (ltb_ℤ (pos 0) ttl) now rs.current_hp (deadline now (board_expiry ttl)) _
        (ap (λ e. some (cell_at rs.current_hp (deadline now e))) same_hp)
        (record {
          max_hp = (rs.max_hp, refl);
          state = (rs.state, ap (λ e. some (cell_at rs.state (deadline now e))) same_state);
          board = filled-Expires now (board_expiry ttl) contribs;
          untimed = board_expiry_untimed now ttl;
        }))
