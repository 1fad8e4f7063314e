-- ===== src/Redis/Expiry/Scripts.antt =====
-- The scripts on the cells of a boss, and on those of another.
use enigma_behemoth.Prelude.{
  ℕ, ◌+◌, String, some, none, ◌≡◌, refl, sym, ap, ◌∙◌, Bool, false, inl, inr, Bool-cases,
  Option-cases, if◌then◌else◌,
}
use enigma_behemoth.Prelude.Int.{ℤ, pos, neg, ◌+ℤ◌, ◌-ℤ◌, ltb_ℤ, leb_ℤ}
use enigma_behemoth.Redis.Keyspace.{Keyspace, read, set_expiry, increment, remove, score, members}
use enigma_behemoth.Redis.Server.{exec, zset_map}
use enigma_behemoth.Redis.Keys.{hp_key, state_key, lb_key}
use enigma_behemoth.Redis.Scripts.{
  seconds, settle_hit, settle_undo, damage_script, compensate_script,
}
use enigma_behemoth.Redis.Expiry.{Cells, cells, cell_at, cell_laws, cells-zset_map}
use enigma_behemoth.Redis.Expiry.Boards.{
  Board, KeepsExpiry, increment-KeepsExpiry, debit-KeepsExpiry,
}
use enigma_behemoth.Redis.Snapshot.{landed}

-- What is written once the score has changed: the HP, the state if it turns, and the expiries.
abbrev pub settled : ℕ → ℤ → ℤ → Bool → String → Cells → Cells
settled now newhp ttl turns word c =
    if ltb_ℤ (pos 0) ttl
    then record c {
      hp = some (cell_at newhp (some (now + seconds ttl)));
      board = set_expiry now (now + seconds ttl) c.board;
      state =
          if turns
          then some (cell_at word (some (now + seconds ttl)))
          else set_expiry now (now + seconds ttl) c.state;
    }
    else record c {
      hp = some (cell_at newhp none);
      state = if turns then some (cell_at word none) else c.state;
    }

module _ (now : ℕ) (id : String) where
  pub settle_hit-settled :
      {R : Type 0} (newhp ttl : ℤ) (a : R) (s : Keyspace)
      → cells id (exec (settle_hit (hp_key id) (lb_key id) (state_key id) newhp ttl a) now s).1
        ≡ settled now newhp ttl (leb_ℤ newhp (pos 0)) "defeated" (cells id s)
  unfolding settle_hit exec
  settle_hit-settled newhp ttl a s = elim (Bool-cases (ltb_ℤ (pos 0) ttl)) [
    | inl t ↦ elim (Bool-cases (leb_ℤ newhp (pos 0))) [
      | inl u ↦ rw (t, u) (simp cell_laws)
      | inr u ↦ rw (t, u) (simp cell_laws)
    ]
    | inr t ↦ elim (Bool-cases (leb_ℤ newhp (pos 0))) [
      | inl u ↦ rw (t, u) (simp cell_laws)
      | inr u ↦ rw (t, u) (simp cell_laws)
    ]
  ]

  pub settle_undo-settled :
      (newhp ttl : ℤ) (s : Keyspace)
      → cells id (exec (settle_undo (hp_key id) (lb_key id) (state_key id) newhp ttl) now s).1
        ≡ settled now newhp ttl (ltb_ℤ (pos 0) newhp) "alive" (cells id s)
  unfolding settle_undo exec
  settle_undo-settled newhp ttl s = elim (Bool-cases (ltb_ℤ (pos 0) ttl)) [
    | inl t ↦ elim (Bool-cases (ltb_ℤ (pos 0) newhp)) [
      | inl u ↦ rw (t, u) (simp cell_laws)
      | inr u ↦ rw (t, u) (simp cell_laws)
    ]
    | inr t ↦ elim (Bool-cases (ltb_ℤ (pos 0) newhp)) [
      | inl u ↦ rw (t, u) (simp cell_laws)
      | inr u ↦ rw (t, u) (simp cell_laws)
    ]
  ]

-- What a script does to the cells of its boss: nothing, or, on HP that is there, a change of the leaderboard
-- and the writes that settle it.
pub data Change (now : ℕ) (ttl : ℤ) (c : Cells) : Cells → Type 1 where
  nothing : (c' : Cells) → c' ≡ c → Change now ttl c c'
  written :
      (hp newhp : ℤ) (turns : Bool) (word : String) (f : Board → Board) (c' : Cells)
      → read now c.hp ≡ some hp
      → KeepsExpiry now f
      → c' ≡ settled now newhp ttl turns word (record c { board = f c.board })
      → Change now ttl c c'

pub cells-hp :
    (now : ℕ) (id : String) (s : Keyspace)
    → read now (s.ints (hp_key id)) ≡ read now (cells id s).hp
unfolding cells
cells-hp now id s = refl

module _ (now : ℕ) (id player : String) (n ttl : ℤ) (s : Keyspace) where
  abbrev damaged : Keyspace
  damaged = (exec (damage_script (hp_key id) (lb_key id) (state_key id) player n ttl) now s).1

  -- A hit that lands.
  pub damage-settled :
      (hp : ℤ)
      → read now (s.ints (hp_key id)) ≡ some hp
      → leb_ℤ n (pos 0) ≡ false
      → leb_ℤ hp (pos 0) ≡ false
      → let a = landed hp n in
        cells id damaged
        ≡ settled now
            (hp -ℤ a)
            ttl
            (leb_ℤ (hp -ℤ a) (pos 0))
            "defeated"
            (record (cells id s) { board = increment now a player (cells id s).board })
  unfolding exec damage_script
  damage-settled hp e x y =
      let a = landed hp n in
      rw (e, x, y, damaged)
        (settle_hit-settled now id (hp -ℤ a) ttl _ _
          ∙ ap (settled now (hp -ℤ a) ttl (leb_ℤ (hp -ℤ a) (pos 0)) "defeated")
              (cells-zset_map now id s (increment now a player)))

  pub damage-Change : Change now ttl (cells id s) (cells id damaged)
  unfolding exec damage_script
  damage-Change = elim (Option-cases (read now (s.ints (hp_key id)))) [
    | inl e ↦ nothing _ (rw (e, damaged) refl)
    | inr (hp, e) ↦ elim (Bool-cases (leb_ℤ n (pos 0))) [
      | inl x ↦ nothing _ (rw (e, x, damaged) refl)
      | inr x ↦ elim (Bool-cases (leb_ℤ hp (pos 0))) [
        | inl y ↦ nothing _ (rw (e, x, y, damaged) refl)
        | inr y ↦
            written hp _ _ "defeated" (increment now (landed hp n) player) _
              (sym (cells-hp now id s) ∙ e) (increment-KeepsExpiry now player (landed hp n))
              (damage-settled hp e x y)
      ]
    ]
  ]

  abbrev compensated : Keyspace
  compensated =
      (exec (compensate_script (hp_key id) (lb_key id) (state_key id) player n ttl) now s).1

  abbrev debited : Keyspace
  debited = zset_map (lb_key id) (increment now (neg n) player) s

  settled_change :
      (hp : ℤ) (f : Board → Board) (s' : Keyspace)
      → read now (s.ints (hp_key id)) ≡ some hp
      → KeepsExpiry now f
      → cells id s' ≡ record (cells id s) { board = f (cells id s).board }
      → compensated
        ≡ (exec (settle_undo (hp_key id) (lb_key id) (state_key id) (hp +ℤ n) ttl) now s').1
      → Change now ttl (cells id s) (cells id compensated)
  settled_change hp f s' e keeps same run =
      written hp (hp +ℤ n) (ltb_ℤ (pos 0) (hp +ℤ n)) "alive" f _ (sym (cells-hp now id s) ∙ e) keeps
        (ap (cells id) run
          ∙ settle_undo-settled now id (hp +ℤ n) ttl s'
          ∙ ap (settled now (hp +ℤ n) ttl (ltb_ℤ (pos 0) (hp +ℤ n)) "alive") same)

  pub compensate-Change : Change now ttl (cells id s) (cells id compensated)
  unfolding exec compensate_script
  compensate-Change = elim (Option-cases (read now (s.ints (hp_key id)))) [
    | inl e ↦ nothing _ (rw (e, compensated) refl)
    | inr (hp, e) ↦ elim (Bool-cases (leb_ℤ n (pos 0))) [
      | inl x ↦ nothing _ (rw (e, x, compensated) refl)
      | inr x ↦
          elim (Bool-cases
            (leb_ℤ (score player (members now (s.zsets (lb_key id))) +ℤ neg n) (pos 0))) [
              | inl y ↦
                  settled_change hp _ (zset_map (lb_key id) (remove now player) debited) e
                    (debit-KeepsExpiry now player (neg n))
                    (cells-zset_map now id debited (remove now player)
                      ∙ ap (λ (c : Cells). record c { board = remove now player c.board })
                          (cells-zset_map now id s (increment now (neg n) player)))
                    (rw (e, x, y, compensated) refl)
              | inr y ↦
                  settled_change hp _ debited e (increment-KeepsExpiry now player (neg n))
                    (cells-zset_map now id s (increment now (neg n) player))
                    (rw (e, x, y, compensated) refl)
            ]
    ]
  ]
