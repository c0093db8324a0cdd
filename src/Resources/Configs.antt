-- ===== src/Resources/Configs.antt =====
-- The connection configs of the six drivers (db.rs, mongo.rs, mail.rs, kv.rs, amq.rs, auth.rs of
-- crates/fabric-backends/src). A file path is the text that names it.
use fabricd.Base.{ℕ, String, Bool, Option, List}

pub record DbConfig : Type 0 where
  pub host : String
  pub port : ℕ
  pub user : String
  pub password : String
  pub database : String
  pub ssl : Bool
  pub statement_timeout_ms : ℕ
  pub max_rows : ℕ

pub record MongoConfig : Type 0 where
  pub host : String
  pub port : ℕ
  pub username : Option String
  pub password : Option String
  pub database : String
  pub auth_source : String
  pub tls : Bool
  pub ca_cert : Option String
  pub op_timeout_ms : ℕ
  pub max_docs : ℕ

pub data TlsMode : Type 0 where
  starttls wrapper plain : TlsMode

pub record MailConfig : Type 0 where
  pub host : String
  pub port : ℕ
  pub user : String
  pub password : String
  pub tls : TlsMode
  pub from : String
  pub max_recipients : ℕ
  pub allowed_recipient_domains : List String
  pub max_sends : ℕ
  pub timeout_ms : ℕ

pub record RedisConfig : Type 0 where
  pub url : String
  pub timeout_ms : ℕ

pub data AmqBackend : Type 0 where
  rabbitmq nats : AmqBackend

pub record AmqConfig : Type 0 where
  pub backend : AmqBackend
  pub host : String
  pub port : Option ℕ
  pub username : Option String
  pub password : Option String
  pub token : Option String
  pub vhost : String
  pub exchange : String
  pub max_batch : ℕ
  pub request_timeout_ms : ℕ
  pub tls : Bool
  pub ca_cert : Option String

pub record AuthConfig : Type 0 where
  pub issuer : String
  pub userinfo_url : Option String
  pub introspect_url : Option String
  pub client_id : String
  pub client_secret : String
  pub timeout_ms : ℕ
