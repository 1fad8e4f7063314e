-- ===== src/Boss/View.antt =====
-- internal/boss/service.go, Get.
pub mod Cold
use enigma_behemoth.Prelude.{String, true, false}
use enigma_behemoth.Prelude.Int.{ℤ}
use enigma_behemoth.Errors.{Result, ok, err, sentinel, boss_not_found}
use enigma_behemoth.Store.{BossView}
use enigma_behemoth.Redis.Server.{Server}
use enigma_behemoth.Redis.View.{ViewEnv, get_boss_view}
use enigma_behemoth.Recovery.Rehydrate.{Rebuild, rehydrate_boss}

module _ (S : Server) where
  open S use {Db}

  -- `missed` and `loaded` are what other requests do before the rebuild and before the second read.
  pub record GetEnv : Type 0 where
    pub first : ViewEnv S
    pub missed : Db → Db
    pub rebuild : Rebuild
    pub loaded : Db → Db
    pub second : ViewEnv S

  -- The second reading, whose bool is not looked at.
  reread : GetEnv → String → Db → Result BossView × Db
  reread env id db =
      let (r, db') = get_boss_view S env.second id db in
      elim r [ err e ↦ (err e, db') | ok p ↦ (ok p.0, db') ]

  get_cold : ℤ → GetEnv → String → Db → Result BossView × Db
  unfolding reread
  get_cold ttl env id db =
      let (r, db') = rehydrate_boss S ttl env.rebuild id db in
      elim r [
        | err e ↦ (err e, db')
        | ok false ↦ (err (sentinel boss_not_found), db')
        | ok true ↦ reread env id (env.loaded db')
      ]

  unfoldable pub get_boss : ℤ → GetEnv → String → Db → Result BossView × Db
  unfolding get_cold
  get_boss ttl env id db =
      let (r, db') = get_boss_view S env.first id db in
      elim r [
        | err e ↦ (err e, db')
        | ok (view, true) ↦ (ok view, db')
        | ok (view, false) ↦ get_cold ttl env id (env.missed db')
      ]
