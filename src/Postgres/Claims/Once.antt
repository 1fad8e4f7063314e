-- ===== src/Postgres/Claims/Once.antt =====
-- A reward is granted once: the first claim's row answers every later claim of that player.
use enigma_behemoth.Prelude.{
  ℕ, String, ◌≡◌, refl, ap, ◌∙◌, Bool, true, false, none, some, List, [], ◌∷◌, ◌++◌, arith, eq_refl,
}
use enigma_behemoth.Errors.{ok}
use enigma_behemoth.Postgres.Tables.{ClaimRow, Tables, find_boss, find_claim, is_some}
use enigma_behemoth.Postgres.Claims.{
  Codec, ClaimInput, ClaimResult, ClaimLink, claim_sound, decode_payload, claim_row, claim_result,
  save_claim,
}

-- Appending a row leaves the first row of a key, and is that row where there was none.
find_claim-append :
    (b p : String) (rows : List ClaimRow) (r : ClaimRow)
    → find_claim b p (rows ++ r ∷ [])
      ≡ elim (find_claim b p rows) [ none ↦ find_claim b p (r ∷ []) | some x ↦ some x ]
unfolding find_claim
find_claim-append b p [] r = refl
find_claim-append b p (x ∷ rows) r = ground (arith, find_claim-append b p rows r)

module _ (c : Codec) where
  -- A row, once there, is what any claim of its player finds afterwards.
  pub find_claim-save_claim :
      (link : ClaimLink) (now : ℕ) (i : ClaimInput) (t : Tables) (b p : String) (r : ClaimRow)
      → find_claim b p t.reward_claims ≡ some r
      → find_claim b p (save_claim c link now i t).1.reward_claims ≡ some r
  unfolding save_claim
  find_claim-save_claim link now i t b p r h =
      ground (arith, find_claim-append b p t.reward_claims (claim_row c now i))

  -- Claims that other requests make, in the order of their transactions.
  pub later_claims : List (ClaimLink × ℕ × ClaimInput) → Tables → Tables
  later_claims [] t = t
  later_claims ((link, now, i) ∷ rest) t = later_claims rest (save_claim c link now i t).1

  find_claim-later_claims :
      (calls : List (ClaimLink × ℕ × ClaimInput)) (t : Tables) (b p : String) (r : ClaimRow)
      → find_claim b p t.reward_claims ≡ some r
      → find_claim b p (later_claims calls t).reward_claims ≡ some r
  unfolding later_claims
  find_claim-later_claims [] t b p r h = h
  find_claim-later_claims ((link, now, i) ∷ rest) t b p r h =
      find_claim-later_claims rest (save_claim c link now i t).1 b p r
        (find_claim-save_claim link now i t b p r h)

  granted : (now : ℕ) (i : ClaimInput) (t : Tables) → Bool → ClaimResult
  granted now i t claimed = claim_result c i claimed (claim_row c now i)

  first_claim :
      (now : ℕ) (i : ClaimInput) (t : Tables)
      → find_claim i.boss_id i.player_id t.reward_claims ≡ none
      → is_some (find_boss i.boss_id t.bosses) ≡ true
      → save_claim c claim_sound now i t ≡ (
        ok (claim_result c i true (claim_row c now i)),
        record t { reward_claims = t.reward_claims ++ claim_row c now i ∷ [] },
      )
  unfolding save_claim
  first_claim now i t fresh known = ground arith

  replayed :
      (now : ℕ) (i : ClaimInput) (t : Tables) (r : ClaimRow)
      → find_claim i.boss_id i.player_id t.reward_claims ≡ some r
      → save_claim c claim_sound now i t ≡ (ok (claim_result c i false r), t)
  unfolding save_claim
  replayed now i t r found = ground arith

  found-first :
      (now : ℕ) (i : ClaimInput) (t : Tables)
      → find_claim i.boss_id i.player_id t.reward_claims ≡ none
      → find_claim i.boss_id i.player_id (t.reward_claims ++ claim_row c now i ∷ [])
        ≡ some (claim_row c now i)
  unfolding find_claim claim_row
  found-first now i t fresh = ground (
    arith,
    find_claim-append i.boss_id i.player_id t.reward_claims (claim_row c now i),
    eq_refl i.boss_id,
    eq_refl i.player_id,
  )

  -- The first claim of a player is granted as it was priced. Whatever claims come in between, failed
  -- ones and those with a lost COMMIT included, a later claim of the player, at any price, gets the
  -- tier, percentage, payload and time of the first, marked as already claimed, and writes nothing.
  pub save_claim_once :
      (now later : ℕ) (i j : ClaimInput) (t : Tables) (between : List (ClaimLink × ℕ × ClaimInput))
      → find_claim i.boss_id i.player_id t.reward_claims ≡ none
      → is_some (find_boss i.boss_id t.bosses) ≡ true
      → j.boss_id ≡ i.boss_id
      → j.player_id ≡ i.player_id
      → let first = save_claim c claim_sound now i t in
        let t' = later_claims between first.1 in
        let g : ClaimResult = record {
          boss_id = i.boss_id;
          player_id = i.player_id;
          tier = i.tier;
          pct = i.pct;
          payload = decode_payload c (c.jsonb i.payload);
          claimed_at = now;
          already_claimed = false;
        } in
        (first.0 ≡ ok g)
        × (save_claim c claim_sound later j t' ≡ (ok (record g { already_claimed = true }), t'))
  unfolding claim_result claim_row
  save_claim_once now later i j t between fresh known eb ep = (
    ap (λ x. x.0) (first_claim now i t fresh known),
    replayed later j after (claim_row c now i) found ∙ rw (eb, ep),
  )
    where
      after : Tables
      after = later_claims between (save_claim c claim_sound now i t).1

      found : find_claim j.boss_id j.player_id after.reward_claims ≡ some (claim_row c now i)
      found =
          rw (eb, ep)
            (find_claim-later_claims between (save_claim c claim_sound now i t).1 i.boss_id
              i.player_id (claim_row c now i)
              (rw (first_claim now i t fresh known) (found-first now i t fresh)))
