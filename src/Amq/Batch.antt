-- ===== src/Amq/Batch.antt =====
-- crates/fabric-backends/src/amq.rs: publishing a batch over one connection.
use Prim.Native.String.{len}
use fabricd.Base.{
  ℕ, ◌+◌, ◌-◌, ◌^◌, min, String, Option, none, some, if◌then◌else◌, List, [], ◌∷◌, format, show,
  Result, ok, Eff, map_err, map_ok, mapping, pure, lift, attempt, ◌>>=◌,
}
use fabricd.Resources.Configs.{AmqConfig}
use fabricd.Amq.Clients.{
  AmqError, amq_error, connection_error, AmqMessage, resolved_port, Rabbit, NatsAuth, anonymous,
  user_and_password, bearer, ConnectOptions, Nats,
}

abbrev pub usize_limit : ℕ
usize_limit = 2 ^ 64 - 1

abbrev pub saturating_add : ℕ → ℕ → ℕ
saturating_add a b = min (a + b) usize_limit

abbrev or_text : Option String → String → String
or_text none default = default
or_text (some text) default = text

module _ {W : Type 0} (publish : String → String → Eff W AmqError (Unit {0})) where
  -- The loop over the messages; `total_bytes` is counted before each message is published.
  unfoldable pub publish_each : ℕ → List AmqMessage → Eff W AmqError ℕ
  publish_each total_bytes [] = pure total_bytes
  publish_each total_bytes (message ∷ messages) = publish message.key message.payload >>= λ done.
      publish_each (saturating_add total_bytes (len message.payload)) messages

module _ {W : Type 0} (rabbit : Rabbit W) where
  abbrev pub adaptor : AmqConfig → Result AmqError (Option rabbit.TlsAdaptor)
  adaptor config =
      if config.tls
      then map_ok some (
          map_err (λ e. connection_error (format ("amq tls setup failed: " ∷ e ∷ [])))
            (rabbit.without_client_auth config.ca_cert config.host))
      else ok none

  abbrev pub open_connection :
      AmqConfig → Option rabbit.TlsAdaptor → Eff W AmqError rabbit.Connection
  open_connection config tls =
      mapping (λ e. connection_error (format ("amq connect failed: " ∷ e ∷ [])))
        (rabbit.connect config.host (resolved_port config) (or_text config.username "guest")
          (or_text config.password "guest") config.vhost tls)

  abbrev pub channel_of : rabbit.Connection → Eff W AmqError rabbit.Channel
  channel_of connection =
      mapping (λ e. connection_error (format ("amq channel failed: " ∷ e ∷ [])))
        (rabbit.open_channel connection)

  abbrev pub publish_on : AmqConfig → rabbit.Channel → String → String → Eff W AmqError (Unit {0})
  publish_on config channel key content =
      mapping (λ e. amq_error (format ("amq publish failed: " ∷ e ∷ [])))
        (rabbit.basic_publish channel config.exchange key content)

  -- What closing gives is dropped.
  unfoldable pub publish_batch : AmqConfig → List AmqMessage → Eff W AmqError ℕ
  unfolding publish_each
  publish_batch config messages = do
    tls ← lift (adaptor config)
    connection ← open_connection config tls
    channel ← channel_of connection
    total ← publish_each (publish_on config channel) 0 messages
    _ ← attempt (rabbit.close_channel channel)
    _ ← attempt (rabbit.close connection)
    pure total

abbrev auth_of : AmqConfig → Option String → Option String → NatsAuth
auth_of config (some username) token = user_and_password username (or_text config.password "")
auth_of config none (some token) = bearer token
auth_of config none none = anonymous

abbrev options_of : AmqConfig → ConnectOptions
options_of config = record {
  request_timeout_ms = config.request_timeout_ms;
  auth = auth_of config config.username config.token;
  require_tls = config.tls;
  root_certificates = if config.tls then config.ca_cert else none;
}

module _ {W : Type 0} (nats : Nats W) where
  unfoldable pub nats_connect : AmqConfig → Eff W AmqError nats.Client
  unfolding resolved_port
  nats_connect config =
      mapping (λ e. connection_error (format ("nats connect failed: " ∷ e ∷ [])))
        (nats.connect_with_options (format (config.host ∷ ":" ∷ show (resolved_port config) ∷ []))
          (options_of config))

  abbrev pub publish_to : nats.Client → String → String → Eff W AmqError (Unit {0})
  publish_to client subject content =
      mapping (λ e. amq_error (format ("nats publish failed: " ∷ e ∷ [])))
        (nats.publish client subject content)

  abbrev pub flush_of : nats.Client → Eff W AmqError (Unit {0})
  flush_of client =
      mapping (λ e. amq_error (format ("nats flush failed: " ∷ e ∷ []))) (nats.flush client)

  unfoldable pub nats_publish : AmqConfig → List AmqMessage → Eff W AmqError ℕ
  unfolding nats_connect publish_each
  nats_publish config messages = do
    client ← nats_connect config
    total ← publish_each (publish_to client) 0 messages
    _ ← flush_of client
    pure total
