-- ===== src/Resources/Table.antt =====
-- resources.rs: resolving the names of a session against the operator's table.
use fabricd.Base.{
  String, not, Option, none, some, [], ◌∷◌, opt_eq, if◌then◌else◌, format, HashMap, Result, ok, err,
  map_ok, ok_or, and_then,
}
use fabricd.Wire.{WireInit}
use fabricd.Resources.Configs.{
  DbConfig, MongoConfig, MailConfig, RedisConfig, AmqConfig, AuthConfig,
}
use fabricd.Resources.Binding.{
  ResourceBinding, TenantResourceBinding, as_db, as_mongo, as_mail, as_redis, as_amq, as_auth,
}

pub record ResolvedConfigs : Type 0 where
  pub db : Option DbConfig
  pub mongo : Option MongoConfig
  pub mail : Option MailConfig
  pub redis : Option RedisConfig
  pub amq : Option AmqConfig
  pub auth : Option AuthConfig

pub data ResolveError : Type 0 where
  not_found : (name : String) → ResolveError
  kind_mismatch : (name kind : String) → ResolveError

-- `ResolveError::code` and `ResolveError::message`
unfoldable pub error_code : ResolveError → String
error_code (not_found name) = "RESOURCE_NOT_FOUND"
error_code (kind_mismatch name kind) = "RESOURCE_KIND_MISMATCH"

unfoldable pub error_message : ResolveError → String
error_message (not_found name) = format ("no operator resource named `" ∷ name ∷ "`" ∷ [])
error_message (kind_mismatch name kind) =
    format ("resource `" ∷ name ∷ "` is not a " ∷ kind ∷ " resource" ∷ [])

abbrev pub Table : Type 0
Table = HashMap TenantResourceBinding

module _ {T : Type 0} (session_tenant : Option String) (kind : String)
    (extract : ResourceBinding → Option T) where
  -- `pick` once the name has an entry in the table, or none.
  unfoldable pub pick_entry : String → Option TenantResourceBinding → Result ResolveError (Option T)
  pick_entry name none = err (not_found name)
  pick_entry name (some entry) =
      if not (opt_eq entry.tenant session_tenant)
      then err (not_found name)
      else map_ok some (ok_or (extract entry.binding) (kind_mismatch name kind))

  unfoldable pub pick : Table → Option String → Result ResolveError (Option T)
  unfolding pick_entry
  pick table none = ok none
  pick table (some name) = pick_entry name (table name)

infixl 5 ◌>>=◌
abbrev pub ◌>>=◌ {ℓ} : {E A B : Type ℓ} → Result E A → (A → Result E B) → Result E B
r >>= f = and_then r f

unfoldable pub resolve : Table → WireInit → Result ResolveError ResolvedConfigs
unfolding as_db as_mongo as_mail as_redis as_amq as_auth
resolve table init = do
  let tenant = init.tenant
  db ← pick tenant "db" as_db table init.db
  mongo ← pick tenant "mongo" as_mongo table init.mongo
  mail ← pick tenant "mail" as_mail table init.mail
  redis ← pick tenant "redis" as_redis table init.redis
  amq ← pick tenant "amq" as_amq table init.amq
  auth ← pick tenant "auth" as_auth table init.auth
  ok (record { db = db; mongo = mongo; mail = mail; redis = redis; amq = amq; auth = auth })
