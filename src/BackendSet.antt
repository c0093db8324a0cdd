-- ===== src/BackendSet.antt =====
-- crates/fabric-backends/src/backendset.rs: the capabilities of one session and their dispatch.
pub mod Payloads
pub mod Drivers
pub mod Laws
pub mod Errors
pub mod Metrics
pub mod Timeouts
pub mod Configs
use fabricd.Base.{
  String, Option, none, some, List, [], ◌∷◌, ◌==◌, if◌then◌else◌, format, Result, ok, err, Eff,
}
use fabricd.Wire.{
  developer, EgressError, Toolkit, BackendMetrics, DbMetric, MongoMetric, MailMetric, RedisMetric,
  AmqMetric, AuthMetric,
}
use fabricd.Resources.Configs.{
  DbConfig, MongoConfig, MailConfig, RedisConfig, AmqConfig, AuthConfig,
}
use fabricd.Resources.Table.{ResolvedConfigs}
use fabricd.Capability.{
  Capability, Producer, Slot, new_slot, abandoned_slot, abandoned_producer, slot_metrics, call_slot,
  producer_metrics, call_producer,
}
use fabricd.BackendSet.Payloads.{Decoders, parse_db_payload, parse_mongo_payload, parse_auth_token}
use fabricd.BackendSet.Drivers.{AsyncDeps, DriverSet}

module _ {W Breaker : Type 0} (t : Toolkit) (upper : String → String)
    (d : DriverSet W Breaker) where
  -- `not_configured`; `upper` is `str::to_uppercase`.
  unfoldable pub not_configured : String → EgressError
  not_configured name = t.with_owner developer (
      t.error_new name (format (upper name ∷ "_NOT_CONFIGURED" ∷ []))
        (format (name ∷ " egress is not configured" ∷ [])))

  pub record BackendSet : Type 0 where
    pub db : Option (Slot d.db)
    pub mongo : Option (Slot d.mongo)
    pub mail : Option (Slot d.mail)
    pub redis : Option (Slot d.redis)
    pub auth : Option (Slot d.auth)
    pub amq : Option d.amq.Backend

  -- `BackendSet::new`
  abbrev pub empty_set : BackendSet
  empty_set = record { db = none; mongo = none; mail = none; redis = none; auth = none; amq = none }

  -- `with_db` and its siblings, under the `if let Some(cfg)` of `from_configs`.
  abbrev pub wire_slot : {C A M : Type 0} (cap : Capability W C A M) → Option C → Option (Slot cap)
  wire_slot cap none = none
  wire_slot cap (some cfg) = some (new_slot cap cfg)

  abbrev pub wire_producer :
      {C A M : Type 0} (cap : Producer W C A M) → Option C → Option cap.Backend
  wire_producer cap none = none
  wire_producer cap (some cfg) = some (cap.new cfg)

  abbrev pub with_deps :
      {C : Type 0} → AsyncDeps Breaker → Option C → Option (C × AsyncDeps Breaker)
  with_deps deps none = none
  with_deps deps (some cfg) = some (cfg, deps)

  unfoldable pub from_configs : ResolvedConfigs → AsyncDeps Breaker → BackendSet
  from_configs configs deps = record {
    db = wire_slot d.db (with_deps deps configs.db);
    mongo = wire_slot d.mongo (with_deps deps configs.mongo);
    mail = wire_slot d.mail configs.mail;
    redis = wire_slot d.redis configs.redis;
    auth = wire_slot d.auth configs.auth;
    amq = wire_producer d.amq configs.amq;
  }

  -- What a panic left inside the backends.
  pub record Remains : Type 0 where
    pub db : Option (Result EgressError d.db.Backend)
    pub mongo : Option (Result EgressError d.mongo.Backend)
    pub mail : Option (Result EgressError d.mail.Backend)
    pub redis : Option (Result EgressError d.redis.Backend)
    pub auth : Option (Result EgressError d.auth.Backend)
    pub amq : Option d.amq.Backend

  -- The shared set after a call under this name panicked.
  unfoldable pub abandoned_set : String → BackendSet → Remains → BackendSet
  unfolding abandoned_slot abandoned_producer
  abandoned_set name set left = record {
    db = abandoned_slot d.db (name == "db") set.db left.db;
    mongo = abandoned_slot d.mongo (name == "mongo") set.mongo left.mongo;
    mail = abandoned_slot d.mail (name == "mail") set.mail left.mail;
    redis = abandoned_slot d.redis (name == "redis") set.redis left.redis;
    auth = abandoned_slot d.auth (name == "auth") set.auth left.auth;
    amq = abandoned_producer d.amq (name == "amq") set.amq left.amq;
  }

  -- `BackendSet::metrics`, with `db_metrics` and its siblings.
  unfoldable pub metrics : BackendSet → BackendMetrics
  unfolding slot_metrics producer_metrics
  metrics set = record {
    db = slot_metrics d.db set.db;
    mongo = slot_metrics d.mongo set.mongo;
    mail = slot_metrics d.mail set.mail;
    redis = slot_metrics d.redis set.redis;
    amq = producer_metrics d.amq set.amq;
    auth = slot_metrics d.auth set.auth;
  }

  module _ (decode : Decoders) where
    abbrev pub Outcome : Type 0
    Outcome = Result EgressError String × BackendSet × W

    unfoldable pub call_db : String → String → BackendSet → W → Outcome
    unfolding parse_db_payload not_configured
    call_db action payload set w =
        let (r, slot, w') =
          call_slot d.db (not_configured "db") action (parse_db_payload t decode payload) set.db
            w in
        (r, record set { db = slot }, w')

    unfoldable pub call_mongo : String → String → BackendSet → W → Outcome
    unfolding parse_mongo_payload not_configured
    call_mongo action payload set w =
        let (r, slot, w') =
          call_slot d.mongo (not_configured "mongo") action (parse_mongo_payload t decode payload)
            set.mongo w in
        (r, record set { mongo = slot }, w')

    unfoldable pub call_mail : String → String → BackendSet → W → Outcome
    unfolding not_configured
    call_mail action payload set w =
        let (r, slot, w') =
          call_slot d.mail (not_configured "mail") action (ok payload) set.mail w in
        (r, record set { mail = slot }, w')

    unfoldable pub call_redis : String → String → BackendSet → W → Outcome
    unfolding not_configured
    call_redis action payload set w =
        let (r, slot, w') =
          call_slot d.redis (not_configured "redis") action (ok payload) set.redis w in
        (r, record set { redis = slot }, w')

    unfoldable pub call_amq : String → String → BackendSet → W → Outcome
    unfolding not_configured
    call_amq action payload set w =
        let (r, producer, w') =
          call_producer d.amq (not_configured "amq") action payload set.amq w in
        (r, record set { amq = producer }, w')

    unfoldable pub call_auth : String → String → BackendSet → W → Outcome
    unfolding parse_auth_token not_configured
    call_auth action payload set w =
        let (r, slot, w') =
          call_slot d.auth (not_configured "auth") action (parse_auth_token t decode payload)
            set.auth w in
        (r, record set { auth = slot }, w')

    unfoldable pub unknown_egress : String → EgressError
    unknown_egress name =
        t.with_owner developer
          (t.error_new "engine" "IO_UNKNOWN" (format ("unknown egress '" ∷ name ∷ "'" ∷ [])))

    -- `Egress::call`
    unfoldable pub call : String → String → String → BackendSet → W → Outcome
    unfolding unknown_egress
    call name action payload set w =
        if name == "db"
        then call_db action payload set w
        else if name == "mongo"
        then call_mongo action payload set w
        else if name == "mail"
        then call_mail action payload set w
        else if name == "redis"
        then call_redis action payload set w
        else if name == "amq"
        then call_amq action payload set w
        else if name == "auth"
        then call_auth action payload set w
        else (err (unknown_egress name), set, w)
