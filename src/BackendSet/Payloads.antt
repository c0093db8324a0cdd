-- ===== src/BackendSet/Payloads.antt =====
-- backendset.rs, "Payload unpacking". The decoders that serde derives are parameters.
use fabricd.Base.{String, [], ◌∷◌, if◌then◌else◌, format, Result, ok, err, map_err, map_ok}
use fabricd.Wire.{developer, EgressError, Toolkit}
use fabricd.Json.{Value, is_null}

pub record DbPayload : Type 0 where
  pub sql : String
  pub params : Value

pub record DbArgs : Type 0 where
  pub sql : String
  pub params_json : String

pub record MongoEnvelope : Type 0 where
  pub collection : String
  pub data_value : Value

pub record AuthPayload : Type 0 where
  pub token : String

-- `serde_json::from_str` at each payload type, with the text of its error, and `to_string`.
pub record Decoders : Type 0 where
  pub db : String → Result String DbPayload
  pub mongo : String → Result String MongoEnvelope
  pub auth : String → Result String AuthPayload
  pub to_string : Value → Result String String

abbrev pub unwrap_or : Result String String → String → String
unwrap_or (ok s) other = s
unwrap_or (err e) other = other

module _ (t : Toolkit) (decode : Decoders) where
  -- The text of a value, with a default where it is null or cannot be printed.
  unfoldable pub text_or : Value → String → String
  text_or v default = if is_null v then default else unwrap_or (decode.to_string v) default

  bad_payload : String → String → String → String → EgressError
  bad_payload source code what e =
      t.with_owner developer
        (t.error_new source code (format ("invalid " ∷ what ∷ " payload: " ∷ e ∷ [])))

  unfoldable pub parse_db_payload : String → Result EgressError DbArgs
  unfolding text_or bad_payload
  parse_db_payload payload_json =
      map_ok (λ p. record { sql = p.sql; params_json = text_or p.params "[]" })
        (map_err (bad_payload "db" "DB_BAD_PAYLOAD" "db") (decode.db payload_json))

  unfoldable pub parse_mongo_payload : String → Result EgressError (String × String)
  unfolding text_or bad_payload
  parse_mongo_payload payload_json =
      map_ok (λ p. (p.collection, text_or p.data_value "{}"))
        (map_err (bad_payload "mongo" "MONGO_QUERY" "mongo") (decode.mongo payload_json))

  unfoldable pub parse_auth_token : String → Result EgressError String
  unfolding bad_payload
  parse_auth_token payload_json =
      map_ok (λ p. p.token)
        (map_err (bad_payload "auth" "AUTH_REQUEST" "auth") (decode.auth payload_json))
