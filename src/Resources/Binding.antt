-- ===== src/Resources/Binding.antt =====
-- resources.rs: one binding of the operator's table, its kind, and the tenant that may use it.
use fabricd.Base.{String, Option, none, some}
use fabricd.Resources.Configs.{
  DbConfig, MongoConfig, MailConfig, RedisConfig, AmqConfig, AuthConfig,
}

pub data ResourceBinding : Type 0 where
  db : DbConfig → ResourceBinding
  mongo : MongoConfig → ResourceBinding
  mail : MailConfig → ResourceBinding
  redis : RedisConfig → ResourceBinding
  amq : AmqConfig → ResourceBinding
  auth : AuthConfig → ResourceBinding

unfoldable pub as_db : ResourceBinding → Option DbConfig
as_db (db cfg) = some cfg
as_db _ = none

unfoldable pub as_mongo : ResourceBinding → Option MongoConfig
as_mongo (mongo cfg) = some cfg
as_mongo _ = none

unfoldable pub as_mail : ResourceBinding → Option MailConfig
as_mail (mail cfg) = some cfg
as_mail _ = none

unfoldable pub as_redis : ResourceBinding → Option RedisConfig
as_redis (redis cfg) = some cfg
as_redis _ = none

unfoldable pub as_amq : ResourceBinding → Option AmqConfig
as_amq (amq cfg) = some cfg
as_amq _ = none

unfoldable pub as_auth : ResourceBinding → Option AuthConfig
as_auth (auth cfg) = some cfg
as_auth _ = none

pub record TenantResourceBinding : Type 0 where
  pub tenant : Option String
  pub binding : ResourceBinding
