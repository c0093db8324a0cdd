-- ===== src/BackendSet/Drivers.antt =====
-- The six drivers as the set sees them, with the arguments that each call unpacks.
use fabricd.Base.{ℕ, String, Option}
use fabricd.Wire.{DbMetric, MongoMetric, MailMetric, RedisMetric, AmqMetric, AuthMetric}
use fabricd.Resources.Configs.{
  DbConfig, MongoConfig, MailConfig, RedisConfig, AmqConfig, AuthConfig,
}
use fabricd.Capability.{Capability, Producer}
use fabricd.BackendSet.Payloads.{DbArgs}

-- backendset.rs, `AsyncDeps`: the runtime handle is part of the world.
pub record AsyncDeps (Breaker : Type 0) : Type 0 where
  pub breaker : Option Breaker
  pub timeout_ms : ℕ

pub record DriverSet (W Breaker : Type 0) : Type 1 where
  pub db : Capability W (DbConfig × AsyncDeps Breaker) DbArgs DbMetric
  pub mongo : Capability W (MongoConfig × AsyncDeps Breaker) (String × String) MongoMetric
  pub mail : Capability W MailConfig String MailMetric
  pub redis : Capability W RedisConfig String RedisMetric
  pub amq : Producer W AmqConfig String AmqMetric
  pub auth : Capability W AuthConfig String AuthMetric
