-- ===== src/Amq/Clients.antt =====
-- crates/fabric-backends/src/amq.rs: the errors of the `amq` capability, its payloads, and the
-- clients of RabbitMQ and NATS as parameters.
use fabricd.Base.{
  ℕ, String, Bool, true, false, Option, none, some, List, ◌||◌, if◌then◌else◌, contains, Result,
  Eff,
}
use fabricd.Wire.{operator, developer, Fault, EgressError}
use fabricd.Resources.Configs.{AmqBackend, AmqConfig}

abbrev pub amq_fallback : Fault
amq_fallback = record { code = "AMQ_ERROR"; retryable = true; owner = operator }

abbrev pub amq_connection : Fault
amq_connection = record { code = "AMQ_CONNECTION"; retryable = true; owner = operator }

abbrev pub amq_batch : Fault
amq_batch = record { code = "AMQ_BATCH_TOO_LARGE"; retryable = false; owner = developer }

abbrev pub amq_timeout : Fault
amq_timeout = record { code = "AMQ_TIMEOUT"; retryable = true; owner = operator }

abbrev pub amq_unsupported : Fault
amq_unsupported = record { code = "AMQ_UNSUPPORTED"; retryable = false; owner = developer }

pub record AmqError : Type 0 where
  pub fault : Fault
  pub message : String

-- `AmqError::fallback`, `connection` and `unsupported`
abbrev pub amq_error : String → AmqError
amq_error message = record { fault = amq_fallback; message = message }

abbrev pub connection_error : String → AmqError
connection_error message = record { fault = amq_connection; message = message }

abbrev pub unsupported : String → AmqError
unsupported message = record { fault = amq_unsupported; message = message }

unfoldable pub into_amq_resource_error : AmqError → EgressError
into_amq_resource_error e = record {
  code = e.fault.code;
  message = e.message;
  source = "amq";
  details = none;
  retryable = e.fault.retryable;
  owner = e.fault.owner;
}

-- The payload of a message is the JSON text as it was received.
pub record AmqMessage : Type 0 where
  pub key : String
  pub payload : String

pub record BatchPayload : Type 0 where
  pub messages : List AmqMessage

pub record RequestPayload : Type 0 where
  pub subject : String
  pub payload : String

pub record AmqOutcome : Type 0 where
  pub json : String
  pub messages : ℕ
  pub bytes : ℕ

default_port : AmqBackend → ℕ
default_port AmqBackend.rabbitmq = 5672
default_port AmqBackend.nats = 4222

port_or : Option ℕ → AmqBackend → ℕ
unfolding default_port
port_or (some port) backend = port
port_or none backend = default_port backend

unfoldable pub resolved_port : AmqConfig → ℕ
unfolding port_or
resolved_port config = port_or config.port config.backend

-- `lower` is `str::to_lowercase`.
unfoldable pub classify_request_error : (lower : String → String) → String → Fault
classify_request_error lower message =
    let lowered = lower message in
    if contains lowered "no responders"
      || (contains lowered "timed out" || contains lowered "timeout")
    then amq_timeout
    else amq_fallback

-- `amqprs`, over the world `W`, which holds the broker.
pub record Rabbit (W : Type 0) : Type 1 where
  pub Connection : Type 0
  pub Channel : Type 0
  pub TlsAdaptor : Type 0
  pub without_client_auth : Option String → String → Result String TlsAdaptor
  pub connect :
      (host : String) (port : ℕ) (username password vhost : String)
      → Option TlsAdaptor
      → Eff W String Connection
  pub open_channel : Connection → Eff W String Channel
  pub basic_publish : Channel → (exchange key content : String) → Eff W String (Unit {0})
  pub close_channel : Channel → Eff W String (Unit {0})
  pub close : Connection → Eff W String (Unit {0})

pub data NatsAuth : Type 0 where
  anonymous : NatsAuth
  user_and_password : (username password : String) → NatsAuth
  bearer : String → NatsAuth

pub record ConnectOptions : Type 0 where
  pub request_timeout_ms : ℕ
  pub auth : NatsAuth
  pub require_tls : Bool
  pub root_certificates : Option String

-- `async_nats`; the body of a reply is the text that `from_utf8_lossy` reads.
pub record Nats (W : Type 0) : Type 1 where
  pub Client : Type 0
  pub connect_with_options : String → ConnectOptions → Eff W String Client
  pub publish : Client → (subject content : String) → Eff W String (Unit {0})
  pub flush : Client → Eff W String (Unit {0})
  pub request : Client → (subject payload : String) → Eff W String String
