-- ===== src/Db/Laws.antt =====
-- db.rs: connecting to a database.
use mathlib.Core.Path.{subst}
use fabricd.Base.{
  ℕ, ◌≡◌, refl, Bool, true, false, Option, none, some, ok, err, ok-inj, resume-eq-ok, resume,
}
use fabricd.Wire.{EgressError, Collectors, Breakers}
use fabricd.Resources.Configs.{DbConfig}
use fabricd.Db.{
  Postgres, circuit_open, set_timeout, connect_db, target_of, through_guard,
  connect_through_breaker, connect_backend, connect_db_resource, connect_error_to_resource,
}

module _ {W : Type 0} (pg : Postgres W) (breakers : Breakers W) (log : Collectors) where
  -- The breaker refuses the target of the config in this world.
  abbrev pub Refused : DbConfig → Option breakers.Breaker → W → Type 0
  Refused config none w = ⊥
  Refused config (some guard) w =
      (breakers.allow guard (target_of pg breakers log config) w).0 ≡ false

  through_guard-refused :
      (guard : breakers.Breaker) (config : DbConfig) (r : Bool × W)
      → r.0 ≡ false
      → through_guard pg breakers log guard config r ≡ (err circuit_open, r.1)
  unfolding through_guard
  through_guard-refused guard config (false, w) refused = refl
  through_guard-refused guard config (true, w) refused = cc

  -- Under an open breaker connecting fails with the retryable DB_CIRCUIT_OPEN: nothing is dialled and
  -- nothing is reported, and only the breaker's own test has touched the world.
  pub connect_of_Refused :
      (config : DbConfig) (guard : breakers.Breaker) (timeout_ms : ℕ) (w : W)
      → Refused config (some guard) w
      → (e : EgressError) × (connect_db_resource pg breakers log config
            (record { breaker = some guard; timeout_ms = timeout_ms })
            w
          ≡ (err e, (breakers.allow guard (target_of pg breakers log config) w).1))
        × (e.code ≡ "DB_CIRCUIT_OPEN")
        × (e.retryable ≡ true)
  unfolding connect_db_resource connect_backend connect_through_breaker connect_error_to_resource
  connect_of_Refused config guard timeout_ms w refused =
      rw
        (through_guard-refused guard config
          (breakers.allow guard (target_of pg breakers log config) w) refused)
        (_, refl, refl, refl)

  -- A client that connecting gives has had its statement timeout set to the config's, and the server
  -- took the command.
  pub connect_db-sets_timeout :
      (config : DbConfig) (w : W) (client : pg.Client)
      → (connect_db pg breakers log config w).0 ≡ ok client
      → (dialled : W) × ((pg.batch_execute client
            (set_timeout pg breakers log config.statement_timeout_ms)
            dialled).0
          ≡ ok tt)
  unfolding connect_db
  connect_db-sets_timeout config w client h =
      let dial =
        pg.connect config.host config.port config.user config.password config.database config.ssl
          w in
      let (c, dialled, h₁) =
        resume-eq-ok dial
          (λ c w₁.
            resume (pg.batch_execute c (set_timeout pg breakers log config.statement_timeout_ms) w₁)
              (λ done w₂. (ok c, w₂)))
          h in
      let (done, was_set, h₂) =
        resume-eq-ok
          (pg.batch_execute c (set_timeout pg breakers log config.statement_timeout_ms) dial.1)
          (λ done w₂. (ok c, w₂)) h₁ in
      let same : c ≡ client = ok-inj h₂ in
      (
        dial.1,
        subst
            (λ x.
              (pg.batch_execute x (set_timeout pg breakers log config.statement_timeout_ms)
                dial.1).0
              ≡ ok tt)
            same was_set,
      )
