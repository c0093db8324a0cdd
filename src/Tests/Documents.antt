-- ===== src/Tests/Documents.antt =====
-- mongo.rs over a cursor of documents.
use fabricd.Base.{
  ℕ, ◌-◌, min, ltb, String, ◌≡◌, refl, true, none, some, [], ◌∷◌, map, ok, err, show,
}
use fabricd.Json.{Value, pos}
use fabricd.Resources.Configs.{MongoConfig}
use fabricd.Mongo.Faults.{ErrorKind}
use fabricd.Mongo.Bson.{BsonTypes, Document, new, entry, int64, document_to_json}
use fabricd.Mongo.Driver.{IsTimeout, Mongodb, MongoCodecs, MongoPayload}
use fabricd.Mongo.{MongoOutcome, drain_cursor}
use fabricd.Mongo.Cursors.{reply_of, Yields, done, next, drain_cursor-Yields}
use fabricd.Mongo.Calls.{MongoBackend, call_mongo_backend, build_uri}
use fabricd.Mongo.Laws.{call_mongo_backend-records}
use fabricd.Tests.Fixtures.{list_log, list_log-IsLog}
use fabricd.Tests.Databases.{row_codec}

abbrev pub plain_bson : BsonTypes
plain_bson = record {
  ObjectId = String;
  to_hex = λ oid. oid;
  Decimal128 = String;
  decimal_text = λ dec. dec;
  DateTime = Unit;
  try_to_rfc3339_string = λ date. none;
  timestamp_millis = λ date. pos 0;
  Exotic = String;
  exotic_text = λ x. x;
  base64_encode = λ bytes. "";
  from_f64 = λ bits. none;
}

abbrev order : ℕ → Document plain_bson
order n = entry "n" (int64 (pos n)) new

abbrev empty_payload : MongoPayload
empty_payload = record {
  filter = Value.null;
  update = Value.null;
  doc = Value.null;
  docs = Value.null;
  pipeline = Value.null;
  options = record { limit = none; skip = none; sort = none; projection = none };
}

abbrev pub mongo_codecs : MongoCodecs plain_bson
mongo_codecs = record {
  payload = λ text. ok empty_payload;
  to_bson = λ v. err "unsupported";
  display = λ v. "{..}";
}

-- The world is the number of documents that the cursor has left; every write is refused.
abbrev pub shelf : Mongodb ℕ plain_bson
shelf = record {
  Error = String;
  error_text = λ e. e;
  kind = λ e. ErrorKind.write;
  ClientOptions = String;
  Client = Unit;
  Database = Unit;
  Collection = Unit;
  parse = λ uri w. (ok uri, w);
  with_options = λ options w. (ok tt, w);
  database = λ client name. tt;
  collection = λ database name. tt;
  FindAction = Unit;
  find = λ collection filter. tt;
  max_time = λ ms action. action;
  limit = λ n action. action;
  skip = λ n action. action;
  sort = λ doc action. action;
  projection = λ doc action. action;
  Cursor = Unit;
  run_find = λ action w. (ok tt, w);
  find_one = λ collection filter w. (ok none, w);
  count_documents = λ collection filter max_time w. (ok w, w);
  aggregate = λ collection pipeline max_time w. (ok tt, w);
  advance = λ cursor w. (ok (ltb 0 w), w);
  deserialize_current = λ cursor w. (ok (order w), w - 1);
  insert_one = λ collection doc w. (err "duplicate key", w);
  insert_many = λ collection docs w. (err "duplicate key", w);
  update_one = λ collection filter update w. (err "duplicate key", w);
  update_many = λ collection filter update w. (err "duplicate key", w);
  delete_one = λ collection filter w. (ok 1, w);
  delete_many = λ collection filter w. (ok w, 0);
  now_ms = λ w. 0;
  within = λ ms operation w. let (r, w') = operation w in (some r, w');
  elapsed_us = λ start stop. 7;
  percent_encode = λ s. s;
}

shelf-IsTimeout : IsTimeout shelf
shelf-IsTimeout = record { ended = λ ms operation w r h. cc }

three_left : Yields plain_bson shelf mongo_codecs row_codec tt 3 (order 3 ∷ order 2 ∷ order 1 ∷ [])
three_left = next refl refl (next refl refl (next refl refl (done refl)))

drain_cursor-Yields_example :
    (out : MongoOutcome) × ((drain_cursor plain_bson shelf mongo_codecs row_codec tt 2 3).0
      ≡ ok out)
    × (out
        ≡ reply_of plain_bson shelf mongo_codecs row_codec
            (map (document_to_json plain_bson) (order 3 ∷ order 2 ∷ []))
            true)
    × (out.docs_returned ≡ min 2 3)
drain_cursor-Yields_example =
    drain_cursor-Yields plain_bson shelf mongo_codecs row_codec tt 2 3
      (order 3 ∷ order 2 ∷ order 1 ∷ []) three_left

abbrev mongo_backend : MongoBackend plain_bson shelf mongo_codecs row_codec list_log
mongo_backend = record {
  database = tt;
  deadline_ms = 1000;
  max_docs = 2;
  op_timeout_ms = 500;
  metrics = [];
}

call_mongo_backend-records_example :
    let after =
      (call_mongo_backend plain_bson shelf mongo_codecs row_codec list_log "find" "orders" "{}"
        mongo_backend 3).1 in
    after ≡ record mongo_backend { metrics = after.metrics }
call_mongo_backend-records_example =
    (call_mongo_backend-records plain_bson shelf mongo_codecs row_codec list_log shelf-IsTimeout
      list_log-IsLog mongo_backend "find" "orders" "{}" 3).1

abbrev archive : MongoConfig
archive = record {
  host = "docs";
  port = 27017;
  username = some "app";
  password = none;
  database = "archive";
  auth_source = "admin";
  tls = true;
  ca_cert = none;
  op_timeout_ms = 500;
  max_docs = 2;
}

archive_uri :
    build_uri plain_bson shelf mongo_codecs row_codec list_log archive
    ≡ "mongodb://app@docs:27017/?directConnection=true&appName=runlet&connectTimeoutMS=5000&serverSelectionTimeoutMS=5000&authSource=admin&tls=true"
unfolding build_uri show
archive_uri = refl
