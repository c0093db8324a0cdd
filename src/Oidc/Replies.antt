-- ===== src/Oidc/Replies.antt =====
-- crates/fabric-backends/src/auth.rs: the errors of the `auth` capability and the JSON of its
-- replies.
use fabricd.Base.{
  ℕ, String, Bool, true, false, Option, none, some, [], ◌∷◌, leb, ◌&&◌, non_empty, format, show,
  Result, ok, err, map_err,
}
use fabricd.Json.{Value, number, int, pos, members, get, as_str, Codec}
use fabricd.Wire.{operator, Fault, EgressError}

abbrev pub auth_unavailable : Fault
auth_unavailable = record { code = "AUTH_UNAVAILABLE"; retryable = true; owner = operator }

abbrev pub auth_request : Fault
auth_request = record { code = "AUTH_REQUEST"; retryable = false; owner = operator }

pub record Endpoints : Type 0 where
  pub userinfo : Option String
  pub introspect : Option String

pub record AuthError : Type 0 where
  pub fault : Fault
  pub message : String
  pub details : Option Value

-- `AuthError::{new, with_status}`
abbrev pub auth_error : Fault → String → AuthError
auth_error fault message = record { fault = fault; message = message; details = none }

abbrev pub http_status : ℕ → Value
http_status status = Value.object (members (("http_status", number (int (pos status))) ∷ []))

unfoldable pub with_status : Fault → String → ℕ → AuthError
with_status fault message status = record {
  fault = fault;
  message = format (message ∷ " (status " ∷ show status ∷ ")" ∷ []);
  details = some (http_status status);
}

unfoldable pub into_auth_resource_error : AuthError → EgressError
into_auth_resource_error e = record {
  code = e.fault.code;
  message = e.message;
  source = "auth";
  details = e.details;
  retryable = e.fault.retryable;
  owner = e.fault.owner;
}

pub record AuthOutcome : Type 0 where
  pub json : String
  pub status : ℕ

-- `(low..=high).contains(&status)`
abbrev pub within_range : ℕ → ℕ → ℕ → Bool
within_range low high status = leb low status && leb status high

abbrev string_of : Option Value → Option String
string_of none = none
string_of (some v) = as_str v

unfoldable pub string_field : Value → String → Option String
string_field doc key = non_empty (string_of (get doc key))

module _ (codec : Codec) where
  abbrev printed_or : {E : Type 0} → Result E String → String → String
  printed_or (ok s) other = s
  printed_or (err e) other = other

  -- `encode`
  abbrev pub encode_reply : Value → String
  encode_reply value =
      printed_or (codec.to_string value)
        "{\"ok\":false,\"status\":0,\"code\":\"AUTH_INVALID_TOKEN\"}"

  unfoldable pub ok_claims_json : Value → String
  ok_claims_json claims =
      encode_reply (Value.object (members (("ok", Value.bool true) ∷ ("claims", claims) ∷ [])))

  unfoldable pub invalid_token_json : ℕ → String
  invalid_token_json status = encode_reply (
      Value.object (
        members (
          ("ok", Value.bool false)
          ∷ ("status", number (int (pos status)))
          ∷ ("code", Value.string "AUTH_INVALID_TOKEN")
          ∷ [])))

  unfoldable pub parse_claims : String → ℕ → Result AuthError Value
  unfolding with_status
  parse_claims body status =
      map_err
        (λ e.
          with_status auth_request (format ("invalid claims JSON: " ∷ codec.error_text e ∷ []))
            status)
        (codec.from_str body)
