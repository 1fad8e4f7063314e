-- ===== src/System/Balance/Commits.antt =====
-- A commit of pending events keeps the balance.
use mathlib.Core.List.{Perm}
use enigma_behemoth.Prelude.{ℕ, ◌+◌, String, ◌≡◌, refl, ◌∙◌, subst, List, ◌++◌, arith}
use enigma_behemoth.Prelude.Int.{ℤ}
use enigma_behemoth.Store.{DamageEvent}
use enigma_behemoth.Redis.Server.{Server}
use enigma_behemoth.Postgres.Tables.{Tables, sum_of}
use enigma_behemoth.Postgres.Batch.Sums.{IsGain}
use enigma_behemoth.Postgres.Batch.Commit.{dealt_to}
use enigma_behemoth.Postgres.Batch.{Key, sound, commit_batch}
use enigma_behemoth.Postgres.Batch.Commit.{IsOrder, Fits}
use enigma_behemoth.Postgres.Batch.Effect.{commit_batch-Committed}
use enigma_behemoth.System.Sums.{
  dealt_to-perm, dealt_to-append, find_boss-Hurt, IsGain-perm, All_rest,
}
use enigma_behemoth.System.{System}
use enigma_behemoth.System.Left.{rebase}
use enigma_behemoth.System.Balance.Defs

module _ (S : Server) (ttl : ℤ) (id : String) (max : ℕ) where
  open S use {contents}

  abbrev spent : System S ttl → ℕ
  spent = Defs.spent S ttl id max

  abbrev IsBalanced : System S ttl → Type 0
  IsBalanced = Defs.IsBalanced S ttl id max

  pub commits-IsBalanced :
      (order boss_order : List Key → List Key) (es rest : List DamageEvent) (s : System S ttl)
      → IsOrder order
      → IsOrder boss_order
      → Perm s.pending (es ++ rest)
      → Fits es s.tables
      → IsBalanced s
      → IsBalanced (record s {
        pending = rest;
        tables = (commit_batch sound order boss_order s.now es s.tables).1;
      })
  commits-IsBalanced order boss_order es rest s walk boss_walk p fits v =
      let (t', eq, done) =
        commit_batch-Committed order boss_order s.now es s.tables walk boss_walk fits in
      let same : t' ≡ (commit_batch sound order boss_order s.now es s.tables).1 = rw eq refl in
      let (b, found, max_hp) = v.row in
      let (b', found', max_hp') =
        find_boss-Hurt id b es s.tables.bosses t'.bosses done.bosses found in
      let sums : spent s ≡ dealt_to id rest + (dealt_to id s.lost + sum_of id t'.contributions) =
        omega (arith, dealt_to-perm id p, dealt_to-append id es rest, done.boss_sums id) in
      let kept = rebase max _ _ _ _ sums refl (v.within, v.left) in
      subst (λ (x : Tables). IsBalanced (record s { pending = rest; tables = x })) same
        (record {
          gains = All_rest IsGain es rest (IsGain-perm p v.gains);
          row = (b', found', max_hp' ∙ max_hp);
          within = kept.0;
          left = kept.1;
        })
