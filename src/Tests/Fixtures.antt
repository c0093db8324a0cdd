-- ===== src/Tests/Fixtures.antt =====
-- Concrete libraries, tables and drivers for the tests.
use fabricd.Base.{
  ℕ, suc, String, refl, ◌==◌, eq_iff, true, false, none, some, List, [], ◌∷◌, ◌++◌, length,
  if◌then◌else◌, empty_map, insert, ok, err, pure,
}
use fabricd.Json.{Value, members}
use fabricd.Wire.{
  operator, Toolkit, IsToolkit, Collectors, IsLog, WireInit, DbMetric, MongoMetric, MailMetric,
  RedisMetric, AmqMetric, AuthMetric,
}
use fabricd.Resources.Configs.{DbConfig, RedisConfig}
use fabricd.Resources.Binding.{ResourceBinding}
use fabricd.Resources.Table.{Table, ResolvedConfigs}
use fabricd.SaToken.Keys.{Jwt}
use fabricd.SaToken.Refresh.{Http}
use fabricd.SaToken.{ClientBuilder}
use fabricd.Capability.{Capability, Producer}
use fabricd.Capability.Laws.{IsMetered}
use fabricd.BackendSet.{Remains}
use fabricd.BackendSet.Payloads.{Decoders}
use fabricd.BackendSet.Drivers.{DriverSet}
use fabricd.BackendSet.Metrics.{AllMetered}
use fabricd.Session.{Shared, Process}

abbrev pub toolkit : Toolkit
toolkit = record {
  error_new = λ source code message. record {
    code = code;
    message = message;
    source = source;
    details = none;
    retryable = false;
    owner = operator;
  };
  with_owner = λ owner e. record e { owner = owner };
  ct_eq = λ a b. a == b;
}

pub toolkit-IsToolkit : IsToolkit toolkit
toolkit-IsToolkit = record {
  new_source = λ s c m. refl;
  new_code = λ s c m. refl;
  new_message = λ s c m. refl;
  owner_set = λ o e. refl;
  ct_eq_iff = eq_iff;
}

abbrev pub list_log : Collectors
list_log = record {
  Collector = λ M. List M;
  new = λ M. [];
  push = λ M l m. l ++ m ∷ [];
  drain = λ M l. l;
  op_count = λ M l. length l;
}

pub list_log-IsLog : IsLog list_log
list_log-IsLog = record { drain_new = λ M. refl; drain_push = λ M l m. refl; counts = λ M l. refl }

-- A token names its key by its own text, and the key of a kid is the kid.
abbrev pub plain_jwt : Jwt
plain_jwt = record {
  Jwk = String;
  Key = String;
  Validation = List String × List String;
  rs256 = λ start. ([], []);
  set_audience = λ audience v. (audience, v.1);
  set_issuer = λ issuer v. (v.0, issuer);
  key_id = λ jwk. some jwk;
  from_jwk = λ jwk. ok jwk;
  decode_header = λ token. ok (some token);
  decode = λ now token key v. if key == token then ok tt else err "InvalidSignature";
}

-- An endpoint whose key set has one key, and one that is down. The world counts the requests.
abbrev pub key_server : Http ℕ String
key_server = record {
  Response = String;
  send = λ url w. (ok url, suc w);
  status = λ r. 200;
  status_text = λ n. "200 OK";
  json_value =
      λ r. pure (Value.object (members (("jwks_uri", Value.string "https://issuer/keys") ∷ [])));
  json_keys = λ r. pure ("kid-1" ∷ []);
}

abbrev pub dead_server : Http ℕ String
dead_server = record {
  Response = String;
  send = λ url w. (err "connection refused", suc w);
  status = λ r. 200;
  status_text = λ n. "200 OK";
  json_value = λ r. pure Value.null;
  json_keys = λ r. pure [];
}

abbrev pub files : ClientBuilder
files = record {
  Client = Unit;
  Certificate = String;
  read = λ path. ok path;
  from_pem_bundle = λ pem. ok (pem ∷ []);
  build = λ certs. ok tt;
}

abbrev pub orders_db : DbConfig
orders_db = record {
  host = "db.internal";
  port = 5432;
  user = "orders";
  password = "pw";
  database = "orders";
  ssl = true;
  statement_timeout_ms = 0;
  max_rows = 1000;
}

abbrev pub cache_redis : RedisConfig
cache_redis = record { url = "redis://cache:6379/0"; timeout_ms = 5000 }

abbrev pub acme_table : Table
acme_table =
    insert empty_map "orders"
      (record { tenant = some "acme"; binding = ResourceBinding.db orders_db })

abbrev pub both_table : Table
both_table =
    insert acme_table "cache"
      (record { tenant = some "globex"; binding = ResourceBinding.redis cache_redis })

abbrev pub acme_init : WireInit
acme_init = record {
  db = some "orders";
  mongo = none;
  mail = none;
  redis = none;
  amq = none;
  auth = none;
  tenant = some "acme";
  token = some "s3cret";
  timeout_ms = 1000;
}

abbrev pub acme_configs : ResolvedConfigs
acme_configs = record {
  db = some orders_db;
  mongo = none;
  mail = none;
  redis = none;
  amq = none;
  auth = none;
}

-- A driver that answers each call with its action and records one metric; the world counts calls.
abbrev pub echo : {C A : Type 0} (M : Type 0) → M → Capability ℕ C A M
echo M m = record {
  Backend = List M;
  connect = λ config w. (ok [], suc w);
  call = λ action args b w. (ok action, b ++ m ∷ [], suc w);
  drain_metrics = λ b. b;
}

abbrev pub echo_producer : {C A : Type 0} (M : Type 0) → M → Producer ℕ C A M
echo_producer M m = record {
  Backend = List M;
  with_recorded = λ b left. left;
  new = λ config. [];
  call = λ action args b w. (ok action, b ++ m ∷ [], suc w);
  drain_metrics = λ b. b;
}

echo-IsMetered : {C A : Type 0} (M : Type 0) (m : M) → IsMetered (echo {C = C} {A = A} M m)
echo-IsMetered M m = record { call_keeps = λ action args b w. (m ∷ [], refl) }

abbrev db_metric : DbMetric
db_metric = record {
  action = "query";
  duration_us = 7;
  rows_returned = 1;
  rows_affected = 0;
  truncated = false;
}

abbrev mongo_metric : MongoMetric
mongo_metric = record {
  action = "find";
  duration_us = 7;
  docs_returned = 1;
  docs_affected = 0;
  truncated = false;
}

abbrev mail_metric : MailMetric
mail_metric = record {
  action = "send";
  duration_us = 7;
  recipients = 1;
  bytes = 90;
  accepted = true;
}

abbrev redis_metric : RedisMetric
redis_metric = record { action = "get"; duration_us = 7; bytes = 3; hit = true }

abbrev amq_metric : AmqMetric
amq_metric = record { action = "send"; duration_us = 7; messages = 1; bytes = 3; published = true }

abbrev auth_metric : AuthMetric
auth_metric = record { action = "userInfo"; host = "idp"; status = 200; duration_us = 7 }

abbrev pub echoes : DriverSet ℕ Unit
echoes = record {
  db = echo DbMetric db_metric;
  mongo = echo MongoMetric mongo_metric;
  mail = echo MailMetric mail_metric;
  redis = echo RedisMetric redis_metric;
  amq = echo_producer AmqMetric amq_metric;
  auth = echo AuthMetric auth_metric;
}

pub echoes-AllMetered : AllMetered echoes
echoes-AllMetered = record {
  db = echo-IsMetered DbMetric db_metric;
  mongo = echo-IsMetered MongoMetric mongo_metric;
  mail = echo-IsMetered MailMetric mail_metric;
  redis = echo-IsMetered RedisMetric redis_metric;
  amq = record {
    new_empty = λ config. refl;
    call_keeps = λ action args b w. (amq_metric ∷ [], refl);
  };
  auth = echo-IsMetered AuthMetric auth_metric;
}

abbrev pub raw_payloads : Decoders
raw_payloads = record {
  db = λ text. ok (record { sql = text; params = Value.null });
  mongo = λ text. ok (record { collection = text; data_value = Value.null });
  auth = λ text. ok (record { token = text });
  to_string = λ v. ok "[]";
}

abbrev pub unchanged : String → String
unchanged s = s

abbrev pub no_remains : {d : DriverSet ℕ Unit} → Remains toolkit unchanged d
no_remains = record { db = none; mongo = none; mail = none; redis = none; auth = none; amq = none }

abbrev pub calm : {d : DriverSet ℕ Unit} → Process toolkit unchanged d
calm = record {
  takes = λ n. true;
  write_error = "broken pipe";
  panics = λ c set w. none;
  remains = λ c set w. no_remains;
  abandoned = λ c set w. w;
}

abbrev pub daemon : Shared Unit
daemon = record {
  table = acme_table;
  max_statement_timeout_ms = 30000;
  breaker = none;
  auth_failures = 4;
}
