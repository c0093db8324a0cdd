-- ===== src/Db/Faults.antt =====
-- crates/fabric-backends/src/db.rs: the errors of the `db` capability and their classification.
use Prim.Native.String.{String, [], ◌∷◌, len}
use fabricd.Base.{true, false, Option, none, some, ◌==◌, nat_eq, if◌then◌else◌, opt_eq}
use fabricd.Json.{Value, members}
use mathlib.Core.List.{[], ◌∷◌}
use fabricd.Wire.{operator, developer, Fault, EgressError}

abbrev pub db_fallback : Fault
db_fallback = record { code = "DB_ERROR"; retryable = true; owner = operator }

abbrev pub db_connection : Fault
db_connection = record { code = "DB_CONNECTION"; retryable = true; owner = operator }

abbrev pub db_timeout : Fault
db_timeout = record { code = "DB_TIMEOUT"; retryable = true; owner = operator }

abbrev pub db_circuit_open : Fault
db_circuit_open = record { code = "DB_CIRCUIT_OPEN"; retryable = true; owner = operator }

pub record DbError : Type 0 where
  pub fault : Fault
  pub message : String
  pub details : Option Value

-- `DbError::fallback` and `DbError::timeout`
abbrev pub db_error : String → DbError
db_error message = record { fault = db_fallback; message = message; details = none }

abbrev pub db_timeout_error : DbError
db_timeout_error = record {
  fault = db_timeout;
  message = "database query exceeded the execution deadline";
  details = none;
}

unfoldable pub into_db_resource_error : DbError → EgressError
into_db_resource_error e = record {
  code = e.fault.code;
  message = e.message;
  source = "db";
  details = e.details;
  retryable = e.fault.retryable;
  owner = e.fault.owner;
}

-- `code.get(..2)`: the first two bytes, where they end at a character's end.
unfoldable pub class_of : String → Option String
class_of [] = none
class_of (c ∷ []) = if nat_eq (len (c ∷ [])) 2 then some (c ∷ []) else none
class_of (c ∷ d ∷ s) =
    if nat_eq (len (c ∷ [])) 2
    then some (c ∷ [])
    else if nat_eq (len (c ∷ d ∷ [])) 2
    then some (c ∷ d ∷ [])
    else none

unfoldable pub classify_by_class : String → Fault
unfolding class_of
classify_by_class code =
    if opt_eq (class_of code) (some "08")
    then db_connection
    else if opt_eq (class_of code) (some "23")
    then record { code = "DB_CONSTRAINT"; retryable = false; owner = developer }
    else if opt_eq (class_of code) (some "42")
    then record { code = "DB_QUERY"; retryable = false; owner = developer }
    else db_fallback

-- `classify`, on the SQLSTATE of the driver's error.
unfoldable pub classify_state : Option String → Fault
unfolding classify_by_class
classify_state none = db_fallback
classify_state (some state) =
    if state == "40001"
    then record { code = "DB_SERIALIZATION"; retryable = true; owner = operator }
    else if state == "40P01"
    then record { code = "DB_DEADLOCK"; retryable = true; owner = operator }
    else if state == "57014"
    then record { code = "DB_CANCELED"; retryable = true; owner = operator }
    else classify_by_class state

abbrev sqlstate_details : Option String → Option Value
sqlstate_details none = none
sqlstate_details (some state) =
    some (Value.object (members (("sqlstate", Value.string state) ∷ [])))

-- `DbError::from_driver`, on the driver's SQLSTATE and text.
unfoldable pub from_postgres : Option String → String → DbError
unfolding classify_state
from_postgres state text = record {
  fault = classify_state state;
  message = text;
  details = sqlstate_details state;
}
