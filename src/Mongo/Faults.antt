-- ===== src/Mongo/Faults.antt =====
-- crates/fabric-backends/src/mongo.rs: the errors of the `mongo` capability and their classification.
use fabricd.Base.{
  String, Option, none, true, false, if◌then◌else◌, ℕ, Bool, List, [], ◌∷◌, any, nat_eq,
}
use fabricd.Json.{ℤ, pos, negsuc, Value}
use fabricd.Wire.{operator, developer, Fault, EgressError}

abbrev pub mongo_fallback : Fault
mongo_fallback = record { code = "MONGO_ERROR"; retryable = true; owner = operator }

abbrev pub mongo_connection : Fault
mongo_connection = record { code = "MONGO_CONNECTION"; retryable = true; owner = operator }

abbrev pub mongo_timeout : Fault
mongo_timeout = record { code = "MONGO_TIMEOUT"; retryable = true; owner = operator }

abbrev pub mongo_write : Fault
mongo_write = record { code = "MONGO_WRITE"; retryable = false; owner = developer }

abbrev pub mongo_query : Fault
mongo_query = record { code = "MONGO_QUERY"; retryable = false; owner = developer }

pub record MongoError : Type 0 where
  pub fault : Fault
  pub message : String
  pub details : Option Value

-- `MongoError::query` and `MongoError::timeout`
abbrev pub query_error : String → MongoError
query_error message = record { fault = mongo_query; message = message; details = none }

abbrev pub mongo_timeout_error : MongoError
mongo_timeout_error = record {
  fault = mongo_timeout;
  message = "mongo operation exceeded the execution deadline";
  details = none;
}

unfoldable pub into_mongo_resource_error : MongoError → EgressError
into_mongo_resource_error e = record {
  code = e.fault.code;
  message = e.message;
  source = "mongo";
  details = e.details;
  retryable = e.fault.retryable;
  owner = e.fault.owner;
}

-- `mongodb::error::ErrorKind`, as far as the source matches on it.
pub data ErrorKind : Type 0 where
  authentication io server_selection write bulk_write invalid_argument unlisted : ErrorKind
  command : ℤ → ErrorKind

abbrev one_of : List ℕ → ℕ → Bool
one_of codes code = any (nat_eq code) codes

unfoldable pub classify_command : ℤ → Fault
classify_command (pos code) =
    if one_of (11000 ∷ 11001 ∷ []) code
    then mongo_write
    else if one_of (13 ∷ 18 ∷ []) code
    then mongo_connection
    else if one_of (2 ∷ 4 ∷ 9 ∷ 14 ∷ 40 ∷ 51 ∷ 52 ∷ 168 ∷ []) code
    then mongo_query
    else mongo_fallback
classify_command (negsuc code) = mongo_fallback

unfoldable pub classify_mongo : ErrorKind → Fault
unfolding classify_command
classify_mongo authentication = mongo_connection
classify_mongo io = mongo_connection
classify_mongo server_selection = mongo_connection
classify_mongo write = mongo_write
classify_mongo bulk_write = mongo_write
classify_mongo (command code) = classify_command code
classify_mongo invalid_argument = mongo_query
classify_mongo unlisted = mongo_fallback
