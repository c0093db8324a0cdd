-- ===== src/Mongo/Calls.antt =====
-- crates/fabric-backends/src/mongo.rs: connecting, the dispatch of a call, and its metric.
use fabricd.Base.{
  ℕ, ◌+◌, ◌-◌, String, Bool, true, false, Option, none, some, List, [], ◌∷◌, ◌++◌, if◌then◌else◌,
  ◌==◌, format, show, Result, ok, err, Eff, map_err, map_ok, mapping, raise, lift, ◌>>=◌,
}
use fabricd.Json.{Codec}
use fabricd.Wire.{EgressError, MongoMetric, Collectors}
use fabricd.Resources.Configs.{MongoConfig}
use fabricd.Capability.{Capability}
use fabricd.BackendSet.Drivers.{AsyncDeps}
use fabricd.Mongo.Faults.{MongoError, query_error, mongo_timeout_error, into_mongo_resource_error}
use fabricd.Mongo.Bson.{BsonTypes}
use fabricd.Mongo.Driver.{MongoPayload, Mongodb, MongoCodecs}
use fabricd.Mongo.{
  MongoOutcome, from_mongo, do_find, do_find_one, do_count, do_aggregate, do_insert_one,
  do_insert_many, do_update, do_delete,
}

module _ {W : Type 0} (t : BsonTypes) (mongo : Mongodb W t) (codecs : MongoCodecs t) (codec : Codec)
    (log : Collectors) where
  pub record MongoBackend : Type 0 where
    pub database : mongo.Database
    pub deadline_ms : ℕ
    pub max_docs : ℕ
    pub op_timeout_ms : ℕ
    pub metrics : log.Collector MongoMetric

  abbrev password_part : Option String → List String
  password_part none = []
  password_part (some password) = ":" ∷ mongo.percent_encode password ∷ []

  abbrev login_part : Option String → Option String → List String
  login_part none password = []
  login_part (some username) password =
      (mongo.percent_encode username ∷ password_part password) ++ "@" ∷ []

  abbrev source_part : Option String → String → List String
  source_part none auth_source = []
  source_part (some username) auth_source = "&authSource=" ∷ mongo.percent_encode auth_source ∷ []

  abbrev ca_part : Option String → List String
  ca_part none = []
  ca_part (some ca) = "&tlsCAFile=" ∷ mongo.percent_encode ca ∷ []

  abbrev tls_part : Bool → Option String → List String
  tls_part false ca_cert = []
  tls_part true ca_cert = "&tls=true" ∷ ca_part ca_cert

  -- `build_uri`, by the pieces that it pushes.
  unfoldable pub build_uri : MongoConfig → String
  build_uri config = format (
      ("mongodb://" ∷ [])
      ++ login_part config.username config.password
      ++ config.host
        ∷ ":"
        ∷ show config.port
        ∷ "/?directConnection=true&appName=runlet"
        ∷ "&connectTimeoutMS=5000&serverSelectionTimeoutMS=5000"
        ∷ []
      ++ source_part config.username config.auth_source
      ++ tls_part config.tls config.ca_cert)

  -- `MongoBackend::connect_resource`; the clock does not overflow.
  unfoldable pub connect_mongo :
      {Breaker : Type 0} → MongoConfig → AsyncDeps Breaker → Eff W EgressError MongoBackend
  unfolding build_uri from_mongo
  connect_mongo config deps = do
    options ←
        mapping (λ e. into_mongo_resource_error (from_mongo t mongo codecs codec e))
          (mongo.parse (build_uri config))
    client ←
        mapping (λ e. into_mongo_resource_error (from_mongo t mongo codecs codec e))
          (mongo.with_options options)
    λ w. (
      ok (record {
        database = mongo.database client config.database;
        deadline_ms = mongo.now_ms w + deps.timeout_ms;
        max_docs = config.max_docs;
        op_timeout_ms = config.op_timeout_ms;
        metrics = log.new MongoMetric;
      }),
      w,
    )

  -- `run`
  unfoldable pub run_mongo :
      MongoBackend → mongo.Collection → String → MongoPayload → Eff W MongoError MongoOutcome
  run_mongo b collection action payload =
      if action == "find"
      then do_find t mongo codecs codec b.op_timeout_ms b.max_docs collection payload
      else if action == "find_one"
      then do_find_one t mongo codecs codec collection payload
      else if action == "count"
      then do_count t mongo codecs codec b.op_timeout_ms collection payload
      else if action == "aggregate"
      then do_aggregate t mongo codecs codec b.op_timeout_ms b.max_docs collection payload
      else if action == "insert_one"
      then do_insert_one t mongo codecs codec collection payload
      else if action == "insert_many"
      then do_insert_many t mongo codecs codec collection payload
      else if action == "update_one"
      then do_update t mongo codecs codec collection payload false
      else if action == "update_many"
      then do_update t mongo codecs codec collection payload true
      else if action == "delete_one"
      then do_delete t mongo codecs codec collection payload false
      else if action == "delete_many"
      then do_delete t mongo codecs codec collection payload true
      else raise (query_error (format ("unknown mongo action: " ∷ action ∷ [])))

  abbrev pub in_time :
      Option (Result MongoError MongoOutcome) × W → Result MongoError MongoOutcome × W
  in_time (none, w) = (err mongo_timeout_error, w)
  in_time (some result, w) = (result, w)

  -- An operation under what is left of the deadline.
  abbrev pub under_deadline :
      MongoBackend → Eff W MongoError MongoOutcome → Eff W MongoError MongoOutcome
  under_deadline b operation w = in_time (mongo.within (b.deadline_ms - mongo.now_ms w) operation w)

  unfoldable pub dispatch_mongo :
      MongoBackend → String → String → String → Eff W MongoError MongoOutcome
  unfolding run_mongo
  dispatch_mongo b action name payload_json = do
    payload ← lift (
        map_err (λ e. query_error (format ("invalid mongo payload: " ∷ e ∷ [])))
          (codecs.payload payload_json))
    under_deadline b (run_mongo b (mongo.collection b.database name) action payload)

  abbrev pub counts_of : Result MongoError MongoOutcome → ℕ × ℕ × Bool
  counts_of (ok out) = (out.docs_returned, out.docs_affected, out.truncated)
  counts_of (err e) = (0, 0, false)

  -- `build_metric`, with the elapsed time as an argument.
  unfoldable pub build_mongo_metric : String → Result MongoError MongoOutcome → ℕ → MongoMetric
  build_mongo_metric action result elapsed =
      let (returned, affected, truncated) = counts_of result in
      record {
        action = action;
        duration_us = elapsed;
        docs_returned = returned;
        docs_affected = affected;
        truncated = truncated;
      }

  abbrev pub recorded :
      W
      → String
      → MongoBackend
      → Result MongoError MongoOutcome × W
      → Result MongoError String × MongoBackend × W
  recorded start action b (result, w) =
      let metric = build_mongo_metric action result (mongo.elapsed_us start w) in
      (
        map_ok MongoOutcome.json result,
        record b { metrics = log.push MongoMetric b.metrics metric },
        w,
      )

  -- `MongoBackend::call`
  unfoldable pub call_mongo_backend :
      String → String → String → MongoBackend → W → Result MongoError String × MongoBackend × W
  unfolding build_mongo_metric dispatch_mongo
  call_mongo_backend action collection payload_json b w =
      recorded w action b (dispatch_mongo b action collection payload_json w)

  abbrev outward :
      Result MongoError String × MongoBackend × W → Result EgressError String × MongoBackend × W
  outward (r, b, w) = (map_err into_mongo_resource_error r, b, w)

  -- `MongoSlot` over this backend (backendset.rs).
  abbrev pub mongo_capability :
      {Breaker : Type 0}
      → Capability W (MongoConfig × AsyncDeps Breaker) (String × String) MongoMetric
  mongo_capability = record {
    Backend = MongoBackend;
    connect = λ c. connect_mongo c.0 c.1;
    call = λ action args b w. outward (call_mongo_backend action args.0 args.1 b w);
    drain_metrics = λ b. log.drain MongoMetric b.metrics;
  }
