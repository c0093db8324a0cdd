-- ===== src/BackendSet/Timeouts.antt =====
-- backendset.rs and resources.rs: the operator's ceiling on the statement timeout, in a session.
use mathlib.Core.Path.{subst}
use fabricd.Base.{ℕ, ◌≤◌, ◌<◌, String, sym, Option, none, some, arith}
use fabricd.Wire.{Toolkit}
use fabricd.Resources.Configs.{DbConfig}
use fabricd.Resources.Table.{ResolvedConfigs}
use fabricd.Resources.Clamp.{clamp_db_statement_timeout}
use fabricd.Resources.Bounds.{IsClamped, clamp-IsClamped}
use fabricd.Capability.Laws.{slot_config, call_slot-config}
use fabricd.BackendSet.Payloads.{Decoders}
use fabricd.BackendSet.Drivers.{AsyncDeps, DriverSet}
use fabricd.BackendSet.Laws.{call_cases}
use fabricd.BackendSet.{
  BackendSet, wire_slot, with_deps, from_configs, call_db, call_mongo, call_mail, call_redis,
  call_amq, call_auth, call,
}

module _ {W Breaker : Type 0} (t : Toolkit) (upper : String → String)
    (d : DriverSet W Breaker) where
  abbrev Within : ℕ → Option (DbConfig × AsyncDeps Breaker) → Type 0
  Within ceiling none = Unit
  Within ceiling (some (cfg, deps)) =
      (0 < cfg.statement_timeout_ms) × (cfg.statement_timeout_ms ≤ ceiling)

  -- The statement timeout that the set can hand to the database driver, if it has a database, is
  -- set and within the ceiling.
  abbrev pub IsCapped : ℕ → BackendSet t upper d → Type 0
  IsCapped ceiling set = Within ceiling (slot_config d.db set.db)

  clamped_slot :
      (ceiling : ℕ) (before after : Option DbConfig) (deps : AsyncDeps Breaker)
      → IsClamped ceiling before after
      → Within ceiling
          (slot_config d.db (wire_slot t upper d d.db (with_deps t upper d deps after)))
  clamped_slot ceiling none none deps same = tt
  clamped_slot ceiling (some db) none deps h = tt
  clamped_slot ceiling none (some db) deps same = cc
  clamped_slot ceiling (some db) (some db') deps (x, same, above, below, _, _) =
      (ground arith, ground arith)

  -- Under a ceiling above zero, the set that a session is given is capped.
  pub from_configs-IsCapped :
      (ceiling : ℕ) (configs : ResolvedConfigs) (deps : AsyncDeps Breaker)
      → 0 < ceiling
      → IsCapped ceiling (from_configs t upper d (clamp_db_statement_timeout ceiling configs) deps)
  unfolding from_configs
  from_configs-IsCapped ceiling configs deps h =
      clamped_slot ceiling configs.db _ deps (clamp-IsClamped ceiling configs h).0

  -- Every call keeps a capped set capped.
  pub call-IsCapped :
      (decode : Decoders) (ceiling : ℕ) (name action payload : String) (set : BackendSet t upper d)
      (w : W)
      → IsCapped ceiling set
      → IsCapped ceiling (call t upper d decode name action payload set w).1
  unfolding call_db call_mongo call_mail call_redis call_amq call_auth
  call-IsCapped decode ceiling name action payload set w h =
      call_cases t upper d decode action payload set w (λ _ out. IsCapped ceiling out.1) name
        (subst (Within ceiling) (sym (call_slot-config d.db _ action _ set.db w)) h) h h h h h
        (λ _. h)
