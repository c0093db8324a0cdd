-- ===== src/Amq.antt =====
-- crates/fabric-backends/src/amq.rs: the `amq` capability: batches and requests, on RabbitMQ or NATS.
pub mod Clients
pub mod Batch
pub mod Bytes
pub mod Laws
use Prim.Native.String.{len}
use fabricd.Base.{
  ℕ, String, Bool, true, false, Option, none, some, ◌==◌, nat_eq, ltb, length, if◌then◌else◌, List,
  [], ◌∷◌, format, show, Result, ok, err, to_option, Eff, map_err, map_ok, mapping, raise, pure,
  lift, ◌>>=◌, ◌>>◌,
}
use fabricd.Json.{Value, members, Codec}
use fabricd.Wire.{EgressError, AmqMetric, Collectors}
use fabricd.Resources.Configs.{AmqConfig, AmqBackend}
use fabricd.Capability.{Producer}
use fabricd.Amq.Clients.{
  AmqError, amq_error, unsupported, amq_batch, into_amq_resource_error, BatchPayload,
  RequestPayload, AmqOutcome, Rabbit, Nats, classify_request_error,
}
use fabricd.Amq.Batch.{nats_connect, nats_publish, publish_batch}

-- The decoders that serde derives.
pub record Decoders : Type 0 where
  pub batch : String → Result String BatchPayload
  pub request : String → Result String RequestPayload

-- `build_runtime` is `runtime`, whose error is a text; `display` prints a JSON value; `elapsed_us`
-- is the time between two worlds.
module _ {W : Type 0} (rabbit : Rabbit W) (nats : Nats W) (lower : String → String) (codec : Codec)
    (display : Value → String) (runtime : Eff W String (Unit {0})) (elapsed_us : W → W → ℕ)
    (decode : Decoders) (log : Collectors) where
  pub record AmqProducer : Type 0 where
    pub config : AmqConfig
    pub metrics : log.Collector AmqMetric

  -- `AmqProducer::new`
  abbrev pub new_producer : AmqConfig → AmqProducer
  new_producer config = record { config = config; metrics = log.new AmqMetric }

  unfoldable pub build_runtime : Eff W AmqError (Unit {0})
  build_runtime = mapping (λ e. amq_error (format ("failed to build runtime: " ∷ e ∷ []))) runtime

  abbrev pub publish_by : AmqBackend → AmqConfig → BatchPayload → Eff W AmqError ℕ
  publish_by AmqBackend.rabbitmq config batch = publish_batch rabbit config batch.messages
  publish_by AmqBackend.nats config batch = nats_publish nats config batch.messages

  -- `do_send` after the payload is decoded and counted.
  unfoldable pub send_batch : AmqConfig → BatchPayload → ℕ → Eff W AmqError AmqOutcome
  unfolding build_runtime
  send_batch config batch count = do
    _ ← build_runtime
    bytes ← publish_by config.backend config batch
    pure (record {
      json = format ("{\"published\":" ∷ show count ∷ "}" ∷ []);
      messages = count;
      bytes = bytes;
    })

  unfoldable pub send_counted : AmqConfig → BatchPayload → ℕ → Eff W AmqError AmqOutcome
  unfolding send_batch
  send_counted config batch count =
      if nat_eq count 0
      then raise (amq_error "amq.send requires at least one message")
      else if ltb config.max_batch count
      then raise (record {
        fault = amq_batch;
        message =
            format ("batch too large: " ∷ show count ∷ " (max " ∷ show config.max_batch ∷ ")" ∷ []);
      })
      else send_batch config batch count

  bad_payload : String → AmqError
  bad_payload e = amq_error (format ("invalid amq payload: " ∷ e ∷ []))

  unfoldable pub do_send_batch : AmqConfig → String → Eff W AmqError AmqOutcome
  unfolding send_counted bad_payload
  do_send_batch config payload_json = do
    batch ← lift (map_err bad_payload (decode.batch payload_json))
    send_counted config batch (length batch.messages)

  abbrev body_of : Result codec.Error Value → String → Value
  body_of (ok v) text = v
  body_of (err e) text = Value.string text

  unfoldable pub nats_request : AmqConfig → String → String → Eff W AmqError (String × ℕ)
  unfolding nats_connect classify_request_error
  nats_request config subject payload = do
    client ← nats_connect nats config
    body_text ←
        mapping
          (λ e. record {
            fault = classify_request_error lower e;
            message = format ("nats request failed: " ∷ e ∷ []);
          })
          (nats.request client subject payload)
    let body = body_of (codec.from_str body_text) body_text
    pure (display (Value.object (members (("reply", body) ∷ []))), len payload)

  request_on : AmqBackend → AmqConfig → String → Eff W AmqError AmqOutcome
  unfolding build_runtime nats_request bad_payload
  request_on AmqBackend.rabbitmq config payload_json =
      raise (unsupported "amq.request requires the nats backend")
  request_on AmqBackend.nats config payload_json = do
    req ← lift (map_err bad_payload (decode.request payload_json))
    _ ← build_runtime
    reply ← nats_request config req.subject req.payload
    pure (record { json = reply.0; messages = 1; bytes = reply.1 })

  unfoldable pub do_request : AmqConfig → String → Eff W AmqError AmqOutcome
  unfolding request_on
  do_request config payload_json = request_on config.backend config payload_json

  unfoldable pub dispatch_amq : AmqConfig → String → String → Eff W AmqError AmqOutcome
  unfolding do_send_batch do_request
  dispatch_amq config action payload_json =
      if action == "send"
      then do_send_batch config payload_json
      else if action == "request"
      then do_request config payload_json
      else raise (amq_error (format ("unknown amq action: " ∷ action ∷ [])))

  abbrev pub amq_metric : String → ℕ → Option AmqOutcome → AmqMetric
  amq_metric action elapsed none = record {
    action = action;
    duration_us = elapsed;
    messages = 0;
    bytes = 0;
    published = false;
  }
  amq_metric action elapsed (some out) = record {
    action = action;
    duration_us = elapsed;
    messages = out.messages;
    bytes = out.bytes;
    published = true;
  }

  abbrev recorded :
      W
      → String
      → AmqProducer
      → Result AmqError AmqOutcome × W
      → Result AmqError String × AmqProducer × W
  recorded start action b (result, w) =
      let metric = amq_metric action (elapsed_us start w) (to_option result) in
      (
        map_ok (λ out. out.json) result,
        record b { metrics = log.push AmqMetric b.metrics metric },
        w,
      )

  -- `AmqProducer::call`
  unfoldable pub call_producer_amq :
      String → String → AmqProducer → W → Result AmqError String × AmqProducer × W
  unfolding dispatch_amq
  call_producer_amq action payload_json b w =
      recorded w action b (dispatch_amq b.config action payload_json w)

  abbrev outward :
      Result AmqError String × AmqProducer × W → Result EgressError String × AmqProducer × W
  outward (r, b, w) = (map_err into_amq_resource_error r, b, w)

  -- The driver that `BackendSet` is wired with.
  abbrev pub amq_producer : Producer W AmqConfig String AmqMetric
  amq_producer = record {
    Backend = AmqProducer;
    with_recorded = λ b left. record b { metrics = left.metrics };
    new = new_producer;
    call = λ action payload b w. outward (call_producer_amq action payload b w);
    drain_metrics = λ b. log.drain AmqMetric b.metrics;
  }
