-- ===== src/Redis/Expiry/Aligned.antt =====
-- The keys of a boss that the cache holds expire together, with the maximum left for good.
use enigma_behemoth.Prelude.{
  ℕ, ◌+◌, ◌≤◌, String, Option, some, none, ◌≡◌, refl, sym, ap, ◌∙◌, subst, Bool, true, false, arith,
  inl, inr, Bool-cases, if◌then◌else◌,
}
use enigma_behemoth.Prelude.Int.{ℤ, pos, ltb_ℤ}
use enigma_behemoth.Redis.Keyspace.{Cell, read, live, passed, passed_later, set_expiry}
use enigma_behemoth.Redis.Scripts.{seconds}
use enigma_behemoth.Redis.Expiry.{Cells, cell_at}
use enigma_behemoth.Redis.Expiry.Boards.{Board, Expires, IsLive, KeepsExpiry}
use enigma_behemoth.Redis.Expiry.Scripts.{Change, nothing, written, settled}

-- HP with the expiry `e` is there: the maximum is there for good, the state expires with the HP, and so does
-- the leaderboard, if there is one. Without expiry (`timed` is false) nothing expires.
pub record IsWhole (timed : Bool) (e : Option ℕ) (c : Cells) : Type 0 where
  pub max_hp : (m : ℤ) × (c.max_hp ≡ some (cell_at m none))
  pub state : (w : String) × (c.state ≡ some (cell_at w e))
  pub board : Expires (λ x. x ≡ e) c.board
  pub untimed : timed ≡ false → e ≡ none

-- Whatever HP is live, the other keys of the boss go with it.
abbrev pub IsAligned : Bool → ℕ → Cells → Type 0
IsAligned timed now c = (h : Cell ℤ) → live now c.hp ≡ some h → IsWhole timed h.expires c

pub live-read :
    (now : ℕ) (c : Option (Cell ℤ)) (v : ℤ)
    → read now c ≡ some v
    → (h : Cell ℤ) × (live now c ≡ some h) × (IsLive now h.expires)
live-read now none v h = ground arith
live-read now (some x) v h = elim (Bool-cases (passed now x.expires)) [
  | inl e ↦ ground (arith, e)
  | inr e ↦ (x, rw e refl, e)
]

live-some : (now : ℕ) (x h : Cell ℤ) → live now (some x) ≡ some h → x ≡ h
live-some now x h e = elim (Bool-cases (passed now x.expires)) [
  | inl p ↦ ground (arith, p)
  | inr p ↦ cell_inj (sym (rw p refl) ∙ e)
]
  where
    cell_inj : {a b : Cell ℤ} → some a ≡ some b → a ≡ b
    cell_inj q = cc

Expires-map :
    (P Q : Option ℕ → Type 0) (b : Board) → ((x : Option ℕ) → P x → Q x) → Expires P b → Expires Q b
Expires-map P Q none k h = tt
Expires-map P Q (some z) k h = k z.expires h

pub set_expiry-Expires :
    (now t : ℕ) (b : Board)
    → Expires (IsLive now) b
    → Expires (λ x. x ≡ some t) (set_expiry now t b)
set_expiry-Expires now t none h = tt
set_expiry-Expires now t (some z) h = subst (Expires (λ x. x ≡ some t)) (sym set) refl
  where
    set : set_expiry now t (some z) ≡ some (cell_at z.value (some t))
    set = ground (arith, h)

-- The state after it is set anew, or given a new expiry.
turned :
    (now t : ℕ) (turns : Bool) (word w : String) (e : Option ℕ)
    → IsLive now e
    → (v : String) × ((if turns
          then some (cell_at word (some t))
          else set_expiry now t (some (cell_at w e)))
        ≡ some (cell_at v (some t)))
turned now t true word w e h = (word, refl)
turned now t false word w e h = (w, ground (arith, h))

turned_untimed :
    (turns : Bool) (word w : String) (e : Option ℕ)
    → e ≡ none
    → (v : String) × ((if turns then some (cell_at word none) else some (cell_at w e))
        ≡ some (cell_at v none))
turned_untimed true word w e h = (word, refl)
turned_untimed false word w e h = (w, ap (λ x. some (cell_at w x)) h)

module _ (now : ℕ) (ttl newhp : ℤ) (turns : Bool) (word : String) (e : Option ℕ) (c : Cells)
    (alive : IsLive now e) where
  timed-IsWhole :
      ltb_ℤ (pos 0) ttl ≡ true
      → (m : ℤ) × (c.max_hp ≡ some (cell_at m none))
      → (w : String) × (c.state ≡ some (cell_at w e))
      → Expires (IsLive now) c.board
      → (settled now newhp ttl turns word c).hp ≡ some (cell_at newhp (some (now + seconds ttl)))
        × IsWhole true (some (now + seconds ttl)) (settled now newhp ttl turns word c)
  timed-IsWhole t m (w, state) board =
      let (v, turn) = turned now (now + seconds ttl) turns word w e alive in
      rw t (
        refl,
        record {
          max_hp = m;
          state = (
            v,
            ap
                  (λ x.
                    if turns
                    then some (cell_at word (some (now + seconds ttl)))
                    else set_expiry now (now + seconds ttl) x)
                  state
                ∙ turn,
          );
          board = set_expiry-Expires now (now + seconds ttl) c.board board;
          untimed = λ x. cc;
        },
      )

  untimed-IsWhole :
      ltb_ℤ (pos 0) ttl ≡ false
      → e ≡ none
      → (m : ℤ) × (c.max_hp ≡ some (cell_at m none))
      → (w : String) × (c.state ≡ some (cell_at w e))
      → Expires (λ x. x ≡ none) c.board
      → (settled now newhp ttl turns word c).hp ≡ some (cell_at newhp none)
        × IsWhole false none (settled now newhp ttl turns word c)
  untimed-IsWhole t forever m (w, state) board =
      let (v, turn) = turned_untimed turns word w e forever in
      rw t (
        refl,
        record {
          max_hp = m;
          state = (v, ap (λ x. if turns then some (cell_at word none) else x) state ∙ turn);
          board = board;
          untimed = λ x. refl;
        },
      )

-- Cells whose HP is known are aligned if they are whole at its expiry.
pub at_hp-IsAligned :
    (timed : Bool) (now : ℕ) (v : ℤ) (e : Option ℕ) (c : Cells)
    → c.hp ≡ some (cell_at v e)
    → IsWhole timed e c
    → IsAligned timed now c
at_hp-IsAligned timed now v e c has w h alive =
    subst (λ (x : Cell ℤ). IsWhole timed x.expires c)
      (live-some now (cell_at v e) h (ap (live now) (sym has) ∙ alive)) w

settled-IsAligned :
    (timed : Bool) (now : ℕ) (ttl newhp : ℤ) (turns : Bool) (word : String) (f : Board → Board)
    (c : Cells) (e : Option ℕ)
    → ltb_ℤ (pos 0) ttl ≡ timed
    → KeepsExpiry now f
    → IsLive now e
    → IsWhole timed e c
    → IsAligned timed now (settled now newhp ttl turns word (record c { board = f c.board }))
settled-IsAligned timed now ttl newhp turns word f c e t keeps alive w =
    let living =
      Expires-map _ (IsLive now) c.board (λ x h. subst (IsLive now) (sym h) alive) w.board in
    elim timed
        as (λ (b : Bool).
          ltb_ℤ (pos 0) ttl ≡ b
          → IsWhole b e c
          → IsAligned b now (settled now newhp ttl turns word (record c { board = f c.board }))) [
            | true ↦ λ t w.
                let (has, whole) =
                  timed-IsWhole now ttl newhp turns word e (record c { board = f c.board }) alive t
                    w.max_hp w.state (keeps (IsLive now) c.board refl living living) in
                at_hp-IsAligned true now newhp _ _ has whole
            | false ↦ λ t w.
                let none_e = w.untimed refl in
                let (has, whole) =
                  untimed-IsWhole now ttl newhp turns word e (record c { board = f c.board }) alive
                    t none_e w.max_hp w.state
                    (keeps (λ x. x ≡ none) c.board refl living
                      (Expires-map _ _ c.board (λ x h. h ∙ none_e) w.board)) in
                at_hp-IsAligned false now newhp _ _ has whole
          ]
      t w

-- A script keeps the keys of its boss aligned.
pub Change-IsAligned :
    (timed : Bool) (now : ℕ) (ttl : ℤ) (c c' : Cells)
    → ltb_ℤ (pos 0) ttl ≡ timed
    → Change now ttl c c'
    → IsAligned timed now c
    → IsAligned timed now c'
Change-IsAligned timed now ttl c c' t (nothing _ same) a = subst (IsAligned timed now) (sym same) a
Change-IsAligned timed now ttl c c' t (written hp newhp turns word f _ found keeps same) a =
    let (h, lives, alive) = live-read now c.hp hp found in
    subst (IsAligned timed now) (sym same)
      (settled-IsAligned timed now ttl newhp turns word f c h.expires t keeps alive (a h lives))

pub live_later :
    (now later : ℕ) (c : Option (Cell ℤ)) (h : Cell ℤ)
    → now ≤ later
    → live later c ≡ some h
    → live now c ≡ some h
live_later now later none h le e = e
live_later now later (some x) h le e = elim (Bool-cases (passed later x.expires)) [
  | inl p ↦ ground (arith, p)
  | inr p ↦ ground (arith, p, passed_later now later x.expires le p)
]

pub later-IsAligned :
    (timed : Bool) (now later : ℕ) (c : Cells)
    → now ≤ later
    → IsAligned timed now c
    → IsAligned timed later c
later-IsAligned timed now later c le a h e = a h (live_later now later c.hp h le e)
