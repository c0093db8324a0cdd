-- ===== src/Amq/Laws.antt =====
-- amq.rs: what a send counts and refuses, and what a call records.
use fabricd.Base.{
  ReturnsIn, then-ReturnsIn, bind-ReturnsIn, ℕ, ◌≤◌, ◌<◌, min, String, ◌≡◌, refl, sym, ap, ◌∙◌, ◌⊎◌,
  inl, inr, Bool, true, false, Bool-cases, nat_eq, ltb, length, [], ◌∷◌, ◌++◌, arith, Result, ok,
  err, Eff, ok-inj, map_ok, to_option,
}
use fabricd.Json.{Value, Codec}
use fabricd.Wire.{AmqMetric, Collectors, IsLog}
use fabricd.Resources.Configs.{AmqConfig, AmqBackend}
use fabricd.BackendSet.Metrics.{IsMeteredProducer}
use fabricd.BackendSet.Configs.{IsConfigured}
use fabricd.Amq.Clients.{AmqError, BatchPayload, AmqOutcome, Rabbit, Nats}
use fabricd.Amq.Batch.{usize_limit}
use fabricd.Amq.{
  Decoders, AmqProducer, publish_by, amq_metric, build_runtime, send_batch, send_counted,
  do_send_batch, call_producer_amq, amq_producer,
}
use fabricd.Amq.Bytes.{total_len, publish_batch-IsTotal, nats_publish-IsTotal}

module _ {W : Type 0} (rabbit : Rabbit W) (nats : Nats W) (lower : String → String) (codec : Codec)
    (display : Value → String) (runtime : Eff W String (Unit {0})) (elapsed_us : W → W → ℕ)
    (decode : Decoders) (log : Collectors) where
  -- What a successful send reports of its batch.
  abbrev pub IsSent : AmqConfig → BatchPayload → AmqOutcome → Type 0
  IsSent config batch out =
      (1 ≤ length batch.messages)
      × (length batch.messages ≤ config.max_batch)
      × (out.messages ≡ length batch.messages)
      × (out.bytes ≡ min (total_len batch.messages) usize_limit)

  published_bytes :
      (backend : AmqBackend) (config : AmqConfig) (batch : BatchPayload)
      → ReturnsIn
          (λ n. n ≡ min (total_len batch.messages) usize_limit)
          (publish_by rabbit nats lower codec display runtime elapsed_us decode log backend config
            batch)
  published_bytes AmqBackend.rabbitmq config batch =
      publish_batch-IsTotal rabbit nats config batch.messages
  published_bytes AmqBackend.nats config batch =
      nats_publish-IsTotal rabbit nats config batch.messages

  abbrev Counts : BatchPayload → ℕ → AmqOutcome → Type 0
  Counts batch count out =
      (out.messages ≡ count) × (out.bytes ≡ min (total_len batch.messages) usize_limit)

  send_batch-Counts :
      (config : AmqConfig) (batch : BatchPayload) (count : ℕ)
      → ReturnsIn (Counts batch count) (
          send_batch rabbit nats lower codec display runtime elapsed_us decode log config batch
            count)
  unfolding send_batch
  send_batch-Counts config batch count =
      then-ReturnsIn (Counts batch count)
        (build_runtime rabbit nats lower codec display runtime elapsed_us decode log) _
        λ started.
          bind-ReturnsIn _ (Counts batch count) _ _ (published_bytes config.backend config batch)
            λ bytes counted w out h. (
              sym (ap AmqOutcome.messages (ok-inj h)),
              sym (ap AmqOutcome.bytes (ok-inj h)) ∙ counted,
            )

  send_counted-cases :
      (config : AmqConfig) (batch : BatchPayload) (w : W)
      → let count = length batch.messages in
        ((1 ≤ count)
          × (count ≤ config.max_batch)
          × (send_counted rabbit nats lower codec display runtime elapsed_us decode log config batch
                count w
              ≡ send_batch rabbit nats lower codec display runtime elapsed_us decode log config
                  batch count w))
        ⊎ (((count ≡ 0) ⊎ (config.max_batch < count))
            × ((e : AmqError) × (send_counted rabbit nats lower codec display runtime elapsed_us
                    decode log config batch count w
                  ≡ (err e, w))))
  unfolding send_counted
  send_counted-cases config batch w = elim (Bool-cases (nat_eq (length batch.messages) 0)) [
    | inl nothing ↦ rw nothing (inr (inl (ground arith), (_, refl)))
    | inr something ↦ elim (Bool-cases (ltb config.max_batch (length batch.messages))) [
      | inl large ↦ rw something (rw large (inr (inr (ground arith), (_, refl))))
      | inr fits ↦ rw something (rw fits (inl (ground arith, ground arith, refl)))
    ]
  ]

  send_counted-IsSent :
      (config : AmqConfig) (batch : BatchPayload)
      → ReturnsIn (IsSent config batch) (
          send_counted rabbit nats lower codec display runtime elapsed_us decode log config batch
            (length batch.messages))
  send_counted-IsSent config batch w out h = elim (send_counted-cases config batch w) [
    | inl (some_one, few, sends) ↦
        let (messages, bytes) =
          send_batch-Counts config batch (length batch.messages) w out
            (sym (ap (λ r. r.0) sends) ∙ h) in
        (some_one, few, messages, bytes)
    | inr (bad, (e, fails)) ↦ absurd (cc (ap (λ r. r.0) fails, h))
  ]

  -- A send that succeeds had a batch of at least one message and at most the cap, and reports its
  -- number of messages and the bytes of its payloads, at most 2^64 - 1, on either broker.
  pub do_send_batch-IsSent :
      (config : AmqConfig) (payload : String) (batch : BatchPayload) (w : W) (out : AmqOutcome)
      → decode.batch payload ≡ ok batch
      → (do_send_batch rabbit nats lower codec display runtime elapsed_us decode log config payload
          w).0
        ≡ ok out
      → IsSent config batch out
  unfolding do_send_batch
  do_send_batch-IsSent config payload batch w out decoded h =
      send_counted-IsSent config batch w out (rw decoded at h)

  -- An empty batch, and one above the cap, fail before the broker is contacted: the world is as it
  -- was.
  pub do_send_batch-unsent :
      (config : AmqConfig) (payload : String) (batch : BatchPayload) (w : W)
      → decode.batch payload ≡ ok batch
      → (length batch.messages ≡ 0) ⊎ (config.max_batch < length batch.messages)
      → (e : AmqError) × (do_send_batch rabbit nats lower codec display runtime elapsed_us decode
            log config payload w
          ≡ (err e, w))
  unfolding do_send_batch
  do_send_batch-unsent config payload batch w decoded bad =
      rw decoded (elim (send_counted-cases config batch w) [
        | inl (some_one, few, sends) ↦ absurd (ground arith)
        | inr (_, failed) ↦ failed
      ])

  abbrev pub is_ok : Result AmqError String → Bool
  is_ok (ok json) = true
  is_ok (err e) = false

  metric-published :
      (action : String) (elapsed : ℕ) (r : Result AmqError AmqOutcome)
      → (amq_metric rabbit nats lower codec display runtime elapsed_us decode log action elapsed
          (to_option r)).published
        ≡ is_ok (map_ok (λ out. out.json) r)
  metric-published action elapsed (ok out) = refl
  metric-published action elapsed (err e) = refl

  -- A call records one metric, which says `published` exactly where the call succeeded, and keeps
  -- the config.
  pub call_producer_amq-records :
      IsLog log
      → (action payload : String)
        (b : AmqProducer rabbit nats lower codec display runtime elapsed_us decode log) (w : W)
      → let (r, after, end) =
          call_producer_amq rabbit nats lower codec display runtime elapsed_us decode log action
            payload b w in
        ((m : AmqMetric) × (log.drain AmqMetric after.metrics
            ≡ log.drain AmqMetric b.metrics ++ m ∷ [])
          × (m.published ≡ is_ok r))
        × (after.config ≡ b.config)
  unfolding call_producer_amq
  call_producer_amq-records is_log action payload b w =
      ((_, is_log.drain_push AmqMetric b.metrics _, metric-published action _ _), refl)

  -- The producer that the daemon wires for `amq` fills the interface that the laws of sets need.
  pub amq_producer-IsMeteredProducer :
      IsLog log
      → IsMeteredProducer
          (amq_producer rabbit nats lower codec display runtime elapsed_us decode log)
  amq_producer-IsMeteredProducer is_log = record {
    new_empty = λ config. is_log.drain_new AmqMetric;
    call_keeps = λ action payload b w.
        let ((m, drained, _), _) = call_producer_amq-records is_log action payload b w in
        (m ∷ [], drained);
  }

  pub amq_producer-IsConfigured :
      IsLog log
      → IsConfigured (amq_producer rabbit nats lower codec display runtime elapsed_us decode log)
  amq_producer-IsConfigured is_log = record {
    config_of = λ b. b.config;
    of_new = λ cfg. refl;
    of_recorded = λ b left. refl;
    of_call = λ action payload b w. (call_producer_amq-records is_log action payload b w).1;
  }
