-- ===== src/Daemon/Drivers.antt =====
-- crates/fabric-backends/src/backendset.rs: the six drivers of this repository in the slots of a
-- session.
use fabricd.Base.{String, Result, Eff}
use fabricd.Json.{Value, Codec}
use fabricd.Wire.{Collectors, IsLog, Breakers}
use fabricd.BackendSet.Drivers.{DriverSet}
use fabricd.BackendSet.Metrics.{AllMetered}
use fabricd.Db.{Postgres}
use fabricd.Db.Rows.{SqlTypes}
use fabricd.Db.Params.{Encoders, ParamsDecoder, SqlValue}
use fabricd.Db.Calls.{Statements, db_capability}
use fabricd.Db.Metrics.{db_capability-IsMetered}
use fabricd.Mongo.Bson.{BsonTypes}
use fabricd.Mongo.Driver.{Mongodb, MongoCodecs}
use fabricd.Mongo.Calls.{mongo_capability}
use fabricd.Mongo.Laws.{mongo_capability-IsMetered}
use fabricd.Mail.Smtp.{Lettre, SendPayload}
use fabricd.Mail.{mail_capability}
use fabricd.Mail.Cap.{mail_capability-IsMetered}
use fabricd.Kv.Driver.{Redis}
use fabricd.Kv.Driver
use fabricd.Kv.{redis_capability}
use fabricd.Kv.Laws.{redis_capability-IsMetered}
use fabricd.Amq.Clients.{Rabbit, Nats}
use fabricd.Amq
use fabricd.Amq.Laws.{amq_producer-IsMeteredProducer, amq_producer-IsConfigured}
use fabricd.BackendSet.Configs.{IsConfigured}
use fabricd.Oidc.Client.{Reqwest}
use fabricd.Oidc.{auth_capability}
use fabricd.Oidc.Laws.{auth_capability-IsMetered}

-- The libraries that the drivers call, and the decoders that serde derives.
module _ {W : Type 0} (log : Collectors) (codec : Codec) (lower : String → String)
    (breakers : Breakers W) (pg : Postgres W) (sql : SqlTypes) (enc : Encoders)
    (params : ParamsDecoder) (stm : Statements W pg.Client pg.Error sql.Row (SqlValue enc codec))
    (bson : BsonTypes) (mongo : Mongodb W bson) (documents : MongoCodecs bson) (smtp : Lettre W)
    (envelope : String → Result String SendPayload) (redis : Redis W) (keys : Driver.Decoders)
    (rabbit : Rabbit W) (nats : Nats W) (display : Value → String)
    (runtime : Eff W String (Unit {0})) (batches : Amq.Decoders) (http : Reqwest W) where
  abbrev pub drivers : DriverSet W breakers.Breaker
  drivers = record {
    db = db_capability pg breakers log codec sql enc params stm;
    mongo = mongo_capability bson mongo documents codec log;
    mail = mail_capability smtp lower envelope codec log;
    redis = redis_capability redis codec keys log;
    amq = Amq.amq_producer rabbit nats lower codec display runtime stm.elapsed_us batches log;
    auth = auth_capability http codec log;
  }

  pub drivers-AllMetered : IsLog log → AllMetered drivers
  drivers-AllMetered is_log = record {
    db = db_capability-IsMetered pg breakers log codec sql enc params stm is_log;
    mongo = mongo_capability-IsMetered bson mongo documents codec log is_log;
    mail = mail_capability-IsMetered smtp lower envelope codec log is_log;
    redis = redis_capability-IsMetered redis codec keys log is_log;
    amq =
        amq_producer-IsMeteredProducer rabbit nats lower codec display runtime stm.elapsed_us
          batches log is_log;
    auth = auth_capability-IsMetered http codec log is_log;
  }

  pub drivers-IsConfigured : IsLog log → IsConfigured drivers.amq
  drivers-IsConfigured is_log =
      amq_producer-IsConfigured rabbit nats lower codec display runtime stm.elapsed_us batches log
        is_log
