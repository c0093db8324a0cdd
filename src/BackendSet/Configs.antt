-- ===== src/BackendSet/Configs.antt =====
-- backendset.rs: the configs that a session's set works with, from its wiring on.
use fabricd.Base.{Bool, true, false, ◌==◌, String, ◌≡◌, refl, ap, Option, none, some}
use fabricd.Wire.{EgressError, Toolkit}
use fabricd.Resources.Configs.{
  DbConfig, MongoConfig, MailConfig, RedisConfig, AmqConfig, AuthConfig,
}
use fabricd.Resources.Table.{ResolvedConfigs}
use fabricd.Capability.{Capability, Producer, call_producer, abandoned_producer}
use fabricd.Capability.Laws.{slot_config, call_slot-config, abandoned_slot-config}
use fabricd.BackendSet.Payloads.{Decoders}
use fabricd.BackendSet.Drivers.{AsyncDeps, DriverSet}
use fabricd.BackendSet.Laws.{call_cases}
use fabricd.BackendSet.{
  BackendSet, Remains, abandoned_set, wire_slot, wire_producer, with_deps, from_configs, call_db,
  call_mongo, call_mail, call_redis, call_amq, call_auth, call,
}

-- A producer's config, which no call changes.
pub record IsConfigured {W C A M : Type 0} (cap : Producer W C A M) : Type 0 where
  pub config_of : cap.Backend → C
  pub of_new : (cfg : C) → config_of (cap.new cfg) ≡ cfg
  pub of_recorded : (b left : cap.Backend) → config_of (cap.with_recorded b left) ≡ config_of b
  pub of_call :
      (action : String) (args : A) (b : cap.Backend) (w : W)
      → config_of (cap.call action args b w).1 ≡ config_of b

module _ {W C A M : Type 0} (cap : Producer W C A M) (configured : IsConfigured cap) where
  abbrev pub producer_config : Option cap.Backend → Option C
  producer_config none = none
  producer_config (some b) = some (configured.config_of b)

  call_producer-config :
      (unset : EgressError) (action : String) (args : A) (b : Option cap.Backend) (w : W)
      → producer_config (call_producer cap unset action args b w).1 ≡ producer_config b
  unfolding call_producer
  call_producer-config unset action args none w = refl
  call_producer-config unset action args (some b) w = ap some (configured.of_call action args b w)

  abandoned_producer-config :
      (called : Bool) (b left : Option cap.Backend)
      → producer_config (abandoned_producer cap called b left) ≡ producer_config b
  unfolding abandoned_producer
  abandoned_producer-config true none left = refl
  abandoned_producer-config true (some b) none = refl
  abandoned_producer-config true (some b) (some left) = ap some (configured.of_recorded b left)
  abandoned_producer-config false b left = refl

module _ {W Breaker : Type 0} (t : Toolkit) (upper : String → String) (d : DriverSet W Breaker)
    (configured : IsConfigured d.amq) where
  wire_slot-config :
      {C A M : Type 0} (cap : Capability W C A M) (cfg : Option C)
      → slot_config cap (wire_slot t upper d cap cfg) ≡ cfg
  wire_slot-config cap none = refl
  wire_slot-config cap (some cfg) = refl

  wire_producer-config :
      (cfg : Option AmqConfig)
      → producer_config d.amq configured (wire_producer t upper d d.amq cfg) ≡ cfg
  wire_producer-config none = refl
  wire_producer-config (some cfg) = ap some (configured.of_new cfg)

  -- What a set can hand to its drivers: the configs, the shared breaker and the deadline.
  pub record Wired : Type 0 where
    pub db : Option (DbConfig × AsyncDeps Breaker)
    pub mongo : Option (MongoConfig × AsyncDeps Breaker)
    pub mail : Option MailConfig
    pub redis : Option RedisConfig
    pub amq : Option AmqConfig
    pub auth : Option AuthConfig

  abbrev pub wired : BackendSet t upper d → Wired
  wired set = record {
    db = slot_config d.db set.db;
    mongo = slot_config d.mongo set.mongo;
    mail = slot_config d.mail set.mail;
    redis = slot_config d.redis set.redis;
    amq = producer_config d.amq configured set.amq;
    auth = slot_config d.auth set.auth;
  }

  abbrev pub wiring : ResolvedConfigs → AsyncDeps Breaker → Wired
  wiring c deps = record {
    db = with_deps t upper d deps c.db;
    mongo = with_deps t upper d deps c.mongo;
    mail = c.mail;
    redis = c.redis;
    amq = c.amq;
    auth = c.auth;
  }

  pub from_configs-wiring :
      (c : ResolvedConfigs) (deps : AsyncDeps Breaker)
      → wired (from_configs t upper d c deps) ≡ wiring c deps
  unfolding from_configs
  from_configs-wiring c deps =
      rw
        (
          wire_slot-config d.db (with_deps t upper d deps c.db),
          wire_slot-config d.mongo (with_deps t upper d deps c.mongo),
          wire_slot-config d.mail c.mail,
          wire_slot-config d.redis c.redis,
          wire_producer-config c.amq,
          wire_slot-config d.auth c.auth,
        )
        refl

  -- A call, answered or failed, leaves the set with all that it was wired with.
  pub call-wired :
      (decode : Decoders) (name action payload : String) (set : BackendSet t upper d) (w : W)
      → wired (call t upper d decode name action payload set w).1 ≡ wired set
  unfolding call_db call_mongo call_mail call_redis call_amq call_auth
  call-wired decode name action payload set w =
      call_cases t upper d decode action payload set w (λ _ out. wired out.1 ≡ wired set) name
        (ap (λ x. record (wired set) { db = x }) (call_slot-config d.db _ action _ set.db w))
        (ap (λ x. record (wired set) { mongo = x })
          (call_slot-config d.mongo _ action _ set.mongo w))
        (ap (λ x. record (wired set) { mail = x }) (call_slot-config d.mail _ action _ set.mail w))
        (ap (λ x. record (wired set) { redis = x })
          (call_slot-config d.redis _ action _ set.redis w))
        (ap (λ x. record (wired set) { amq = x })
          (call_producer-config d.amq configured _ action payload set.amq w))
        (ap (λ x. record (wired set) { auth = x }) (call_slot-config d.auth _ action _ set.auth w))
        (λ _. refl)

  -- And so does a call that panicked.
  pub abandoned_set-wired :
      (name : String) (set : BackendSet t upper d) (left : Remains t upper d)
      → wired (abandoned_set t upper d name set left) ≡ wired set
  unfolding abandoned_set
  abandoned_set-wired name set left =
      rw
        (
          abandoned_slot-config d.db (name == "db") set.db left.db,
          abandoned_slot-config d.mongo (name == "mongo") set.mongo left.mongo,
          abandoned_slot-config d.mail (name == "mail") set.mail left.mail,
          abandoned_slot-config d.redis (name == "redis") set.redis left.redis,
          abandoned_producer-config d.amq configured (name == "amq") set.amq left.amq,
          abandoned_slot-config d.auth (name == "auth") set.auth left.auth,
        )
        refl
