-- ===== src/Postgres/Tables.antt =====
-- The tables of db/init.sql and the SQL statements of internal/store/postgres.go. A column with a
-- check `>= 0` is a natural number, and a BIGINT ends below 2^63. A statement that breaks a constraint
-- is `none`. Times are instants of the server's clock; columns that the code does not use (name,
-- created_at, an event's id) are left out.
use mathlib.Core.Option.{map as Option_map}
use enigma_behemoth.Prelude.{
  ℕ, ◌+◌, ◌^◌, String, Option, none, some, List, [], ◌∷◌, ◌++◌, Bool, true, false, ◌&&◌, ◌==◌, ltb,
  if◌then◌else◌,
}
use enigma_behemoth.Prelude.Int.{ℤ, pos, negsuc, pos_part, ◌-ℤ◌, leb_ℤ}
use enigma_behemoth.Store.{DamageEvent}

pub record Boss : Type 0 where
  pub id : String
  pub max_hp : ℕ
  pub current_hp : ℕ
  pub state : String
  pub defeated_at : Option ℕ
  pub updated_at : ℕ

pub record EventRow : Type 0 where
  pub boss_id : String
  pub player_id : String
  pub damage_applied : ℕ

pub record Contribution : Type 0 where
  pub boss_id : String
  pub player_id : String
  pub total_damage : ℕ

-- `damage_pct` is the bit pattern of a double, `reward_payload` the text of a JSONB value.
pub record ClaimRow : Type 0 where
  pub boss_id : String
  pub player_id : String
  pub tier : String
  pub damage_pct : ℕ
  pub reward_payload : String
  pub claimed_at : ℕ

pub record Tables : Type 0 where
  pub bosses : List Boss
  pub damage_events : List EventRow
  pub contributions : List Contribution
  pub reward_claims : List ClaimRow

abbrev pub bigint_end : ℕ
bigint_end = 2 ^ 63

-- SELECT … FROM bosses WHERE id = $1
unfoldable pub find_boss : String → List Boss → Option Boss
find_boss id [] = none
find_boss id (b ∷ rest) = if b.id == id then some b else find_boss id rest

abbrev pub is_some {ℓ} : {A : Type ℓ} → Option A → Bool
is_some none = false
is_some (some a) = true

-- COPY damage_events: each row has a known boss and no negative damage.
unfoldable pub copy_rows : List Boss → List DamageEvent → List EventRow → Option (List EventRow)
copy_rows bosses [] log = some log
copy_rows bosses (e ∷ es) log = elim e.applied [
  | negsuc n ↦ none
  | pos n ↦
      let rest = copy_rows bosses es (
        log
        ++ (record { boss_id = e.boss_id; player_id = e.player_id; damage_applied = n } ∷ [])) in
      if is_some (find_boss e.boss_id bosses) then rest else none
]

-- INSERT INTO contributions … ON CONFLICT (boss_id, player_id) DO UPDATE SET total_damage = …
unfoldable pub add_total : String → String → ℕ → List Contribution → Option (List Contribution)
add_total b p d [] =
    if ltb d bigint_end
    then some (record { boss_id = b; player_id = p; total_damage = d } ∷ [])
    else none
add_total b p d (c ∷ rest) =
    let more = Option_map (λ r. c ∷ r) (add_total b p d rest) in
    let sum = c.total_damage + d in
    if (c.boss_id == b) && (c.player_id == p)
    then (if ltb sum bigint_end then some (record c { total_damage = sum } ∷ rest) else none)
    else more

unfoldable pub upsert : String → String → ℤ → List Contribution → Option (List Contribution)
unfolding add_total
upsert b p (pos d) rows = add_total b p d rows
upsert b p (negsuc d) rows = none

-- UPDATE bosses SET current_hp = GREATEST(0, current_hp - $2), state = …, defeated_at = … WHERE id = $1
unfoldable pub strike : ℕ → ℤ → Boss → Option Boss
strike now d b =
    let left = pos b.current_hp -ℤ d in
    if ltb (pos_part left) bigint_end
    then some (record b {
      current_hp = pos_part left;
      state = if leb_ℤ left (pos 0) then "defeated" else b.state;
      defeated_at =
          if leb_ℤ left (pos 0)
          then elim b.defeated_at [ none ↦ some now | some t ↦ some t ]
          else b.defeated_at;
      updated_at = now;
    })
    else none

unfoldable pub update_boss : ℕ → String → ℤ → List Boss → Option (List Boss)
update_boss now id d [] = some []
update_boss now id d (b ∷ rest) =
    let more = update_boss now id d rest in
    if b.id == id
    then elim (strike now d b) [ none ↦ none | some b' ↦ Option_map (λ r. b' ∷ r) more ]
    else Option_map (λ r. b ∷ r) more

-- COALESCE(SUM(total_damage), 0) over the rows of one boss
unfoldable pub sum_of : String → List Contribution → ℕ
sum_of b [] = 0
sum_of b (c ∷ rest) = (if c.boss_id == b then c.total_damage else 0) + sum_of b rest

-- SELECT total_damage FROM contributions WHERE boss_id = $1 AND player_id = $2
unfoldable pub find_total : String → String → List Contribution → Option ℕ
find_total b p [] = none
find_total b p (c ∷ rest) =
    if (c.boss_id == b) && (c.player_id == p) then some c.total_damage else find_total b p rest

-- SELECT … FROM reward_claims WHERE boss_id = $1 AND player_id = $2
unfoldable pub find_claim : String → String → List ClaimRow → Option ClaimRow
find_claim b p [] = none
find_claim b p (c ∷ rest) =
    if (c.boss_id == b) && (c.player_id == p) then some c else find_claim b p rest
