-- ===== src/BackendSet/Metrics.antt =====
-- backendset.rs: the metrics of a session before and after a call.
use mathlib.Core.List.{append-nil}
use fabricd.Base.{String, ◌≡◌, refl, sym, Option, none, some, List, [], ◌++◌}
use fabricd.Wire.{Toolkit, BackendMetrics}
use fabricd.Resources.Configs.{AmqConfig}
use fabricd.Resources.Table.{ResolvedConfigs}
use fabricd.Capability.{Capability, Producer, slot_metrics, call_producer, producer_metrics}
use fabricd.Capability.Laws.{IsMetered, call_slot-metrics}
use fabricd.BackendSet.Payloads.{Decoders}
use fabricd.BackendSet.Drivers.{AsyncDeps, DriverSet}
use fabricd.BackendSet.Laws.{call_cases}
use fabricd.BackendSet.{
  BackendSet, wire_slot, wire_producer, with_deps, from_configs, metrics, call_db, call_mongo,
  call_mail, call_redis, call_amq, call_auth, call,
}

-- `after` extends `before`.
abbrev pub Extends {ℓ} : {M : Type ℓ} → List M → List M → Type ℓ
Extends {M} before after = (more : List M) × (after ≡ before ++ more)

kept {ℓ} : {M : Type ℓ} {l : List M} → Extends l l
kept {l} = ([], sym (append-nil l))

pub record Grows (before after : BackendMetrics) : Type 0 where
  pub db : Extends before.db after.db
  pub mongo : Extends before.mongo after.mongo
  pub mail : Extends before.mail after.mail
  pub redis : Extends before.redis after.redis
  pub amq : Extends before.amq after.amq
  pub auth : Extends before.auth after.auth

grows :
    {b a : BackendMetrics}
    → Extends b.db a.db
    → Extends b.mongo a.mongo
    → Extends b.mail a.mail
    → Extends b.redis a.redis
    → Extends b.amq a.amq
    → Extends b.auth a.auth
    → Grows b a
grows db mongo mail redis amq auth = record {
  db = db;
  mongo = mongo;
  mail = mail;
  redis = redis;
  amq = amq;
  auth = auth;
}

-- The producer of amq starts with no metrics and keeps what it recorded.
pub record IsMeteredProducer {W C A M : Type 0} (cap : Producer W C A M) : Type 0 where
  pub new_empty : (config : C) → cap.drain_metrics (cap.new config) ≡ []
  pub call_keeps :
      (action : String) (args : A) (b : cap.Backend) (w : W)
      → Extends (cap.drain_metrics b) (cap.drain_metrics (cap.call action args b w).1)

pub record AllMetered {W Breaker : Type 0} (d : DriverSet W Breaker) : Type 0 where
  pub db : IsMetered d.db
  pub mongo : IsMetered d.mongo
  pub mail : IsMetered d.mail
  pub redis : IsMetered d.redis
  pub amq : IsMeteredProducer d.amq
  pub auth : IsMetered d.auth

module _ {W Breaker : Type 0} (t : Toolkit) (upper : String → String) (d : DriverSet W Breaker)
    (metered : AllMetered d) where
  producer_grows :
      (action payload : String) (unset : _) (o : Option d.amq.Backend) (w : W)
      → Extends
          (producer_metrics d.amq o)
          (producer_metrics d.amq (call_producer d.amq unset action payload o w).1)
  unfolding producer_metrics call_producer
  producer_grows action payload unset none w = ([], refl)
  producer_grows action payload unset (some b) w = metered.amq.call_keeps action payload b w

  wired_metrics :
      {C A M : Type 0} (cap : Capability W C A M) (o : Option C)
      → slot_metrics cap (wire_slot t upper d cap o) ≡ []
  unfolding slot_metrics
  wired_metrics cap none = refl
  wired_metrics cap (some cfg) = refl

  produced_metrics :
      (o : Option AmqConfig) → producer_metrics d.amq (wire_producer t upper d d.amq o) ≡ []
  unfolding producer_metrics
  produced_metrics none = refl
  produced_metrics (some cfg) = metered.amq.new_empty cfg

  -- A fresh set, which has connected to nothing, reports no metrics.
  pub from_configs-metrics :
      (configs : ResolvedConfigs) (deps : AsyncDeps Breaker)
      → metrics t upper d (from_configs t upper d configs deps)
        ≡ record { db = []; mongo = []; mail = []; redis = []; amq = []; auth = [] }
  unfolding metrics from_configs
  from_configs-metrics configs deps =
      rw
        (
          wired_metrics d.db (with_deps t upper d deps configs.db),
          wired_metrics d.mongo (with_deps t upper d deps configs.mongo),
          wired_metrics d.mail configs.mail,
          wired_metrics d.redis configs.redis,
          produced_metrics configs.amq,
          wired_metrics d.auth configs.auth,
        )
        refl

  module _ (decode : Decoders) (action payload : String) (set : BackendSet t upper d) (w : W) where
    -- A call, answered or failed, only adds to the metrics that the session reports.
    pub call-Grows :
        (name : String)
        → Grows
            (metrics t upper d set)
            (metrics t upper d (call t upper d decode name action payload set w).1)
    unfolding metrics call_db call_mongo call_mail call_redis call_amq call_auth
    call-Grows name =
        call_cases t upper d decode action payload set w
          (λ _ out. Grows (metrics t upper d set) (metrics t upper d out.1)) name
          (grows (call_slot-metrics d.db metered.db _ action _ set.db w) kept kept kept kept kept)
          (grows kept (call_slot-metrics d.mongo metered.mongo _ action _ set.mongo w) kept kept
            kept kept)
          (grows kept kept (call_slot-metrics d.mail metered.mail _ action _ set.mail w) kept kept
            kept)
          (grows kept kept kept (call_slot-metrics d.redis metered.redis _ action _ set.redis w)
            kept kept)
          (grows kept kept kept kept (producer_grows action payload _ set.amq w) kept)
          (grows kept kept kept kept kept
            (call_slot-metrics d.auth metered.auth _ action _ set.auth w))
          (λ _. grows kept kept kept kept kept kept)
