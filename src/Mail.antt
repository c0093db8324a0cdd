-- ===== src/Mail.antt =====
-- crates/fabric-backends/src/mail.rs: the `mail` capability: the send policy, the message, the
-- cap on sends. `lower` is `str::to_lowercase`.
pub mod Smtp
pub mod Message
pub mod Policy
pub mod Cap
use fabricd.Base.{
  ℕ, ◌+◌, ◌-◌, ◌^◌, min, String, Bool, true, false, Option, none, some, ◌==◌, ◌&&◌, not, nat_eq,
  leb, ltb, any, length, if◌then◌else◌, List, [], ◌∷◌, ◌++◌, format, show, is_empty, Result, ok,
  err, to_option, Eff, map_err, map_ok, mapping, raise, pure, lift, ◌>>=◌, ◌>>◌,
}
use fabricd.Json.{Value, string, Codec}
use fabricd.Wire.{EgressError, MailMetric, Collectors}
use fabricd.Resources.Configs.{MailConfig, TlsMode}
use fabricd.Capability.{Capability}
use fabricd.Mail.Smtp.{
  MailError, mail_error, mail_fallback, mail_op_limit, into_mail_resource_error, SendPayload,
  SendOutcome, Lettre, from_smtp,
}
use fabricd.Mail.Message.{parse_mailbox, build_message}

abbrev pub usize_max : ℕ
usize_max = 2 ^ 64 - 1

unfoldable pub count_recipients : SendPayload → ℕ
count_recipients p = min (min (length p.to + length p.cc) usize_max + length p.bcc) usize_max

module _ {W : Type 0} (smtp : Lettre W) (lower : String → String)
    (decode : String → Result String SendPayload) (codec : Codec) (log : Collectors) where
  pub record SendCtx : Type 0 where
    pub transport : smtp.Transport
    pub default_from : String
    pub max_recipients : ℕ
    pub allowed_domains : List String

  pub record MailBackend : Type 0 where
    pub transport : smtp.Transport
    pub default_from : String
    pub max_recipients : ℕ
    pub allowed_domains : List String
    pub max_sends : ℕ
    pub metrics : log.Collector MailMetric

  abbrev relay_of : TlsMode → String → Result smtp.Error smtp.TransportBuilder
  relay_of TlsMode.starttls host = smtp.starttls_relay host
  relay_of TlsMode.wrapper host = smtp.relay host
  relay_of TlsMode.plain host = ok (smtp.builder_dangerous host)

  unfoldable pub build_transport : MailConfig → Result smtp.Error smtp.Transport
  build_transport config =
      map_ok
        (λ base.
          let builder = smtp.timeout config.timeout_ms (smtp.port config.port base) in
          smtp.build (
            if is_empty config.user
            then builder
            else smtp.credentials config.user config.password builder))
        (relay_of config.tls config.host)

  abbrev backend_of : MailConfig → smtp.Transport → MailBackend
  backend_of config transport = record {
    transport = transport;
    default_from = config.from;
    max_recipients = config.max_recipients;
    allowed_domains = config.allowed_recipient_domains;
    max_sends = config.max_sends;
    metrics = log.new MailMetric;
  }

  abbrev setup_error : smtp.Error → EgressError
  setup_error e = record {
    code = mail_fallback.code;
    message = smtp.error_text e;
    source = "mail";
    details = none;
    retryable = mail_fallback.retryable;
    owner = mail_fallback.owner;
  }

  unfoldable pub connect_mail : MailConfig → Eff W EgressError MailBackend
  unfolding build_transport
  connect_mail config =
      lift (map_ok (backend_of config) (map_err setup_error (build_transport config)))

  -- The body of the loop of `enforce_recipient_domains`; `rest` is what the later rounds give.
  unfoldable pub enforce_one :
      List String
      → Result String smtp.Mailbox
      → Result MailError (Unit {0})
      → Result MailError (Unit {0})
  enforce_one allowed (err e) rest = err (mail_error e)
  enforce_one allowed (ok mailbox) rest =
      let domain = lower (smtp.domain mailbox) in
      if any (λ allow. lower allow == domain) allowed
      then rest
      else err (
          mail_error
            (format ("recipient domain '" ∷ domain ∷ "' is not in allowed_recipient_domains" ∷ [])))

  unfoldable pub enforce_each : List String → List String → Result MailError (Unit {0})
  unfolding enforce_one parse_mailbox
  enforce_each allowed [] = ok tt
  enforce_each allowed (addr ∷ addrs) =
      enforce_one allowed (parse_mailbox smtp addr "recipient") (enforce_each allowed addrs)

  unfoldable pub enforce_recipient_domains : SendPayload → List String → Result MailError (Unit {0})
  unfolding enforce_each
  enforce_recipient_domains p [] = ok tt
  enforce_recipient_domains p (a ∷ allowed) = enforce_each (a ∷ allowed) (p.to ++ p.cc ++ p.bcc)

  abbrev bool_text : Bool → String
  bool_text true = "true"
  bool_text false = "false"

  abbrev escaped : Result codec.Error String → String
  escaped (ok s) = s
  escaped (err e) = "\"\""

  abbrev line_of : Option String → String
  line_of none = ""
  line_of (some line) = line

  abbrev pub outcome_of : ℕ → ℕ → smtp.Response → SendOutcome
  outcome_of recipients bytes response =
      let accepted = smtp.is_positive response in
      let line = escaped (codec.to_string (string (line_of (smtp.first_line response)))) in
      record {
        json = format ("{\"accepted\":" ∷ bool_text accepted ∷ ",\"response\":" ∷ line ∷ "}" ∷ []);
        recipients = recipients;
        bytes = bytes;
        accepted = accepted;
      }

  -- `do_send` after the payload is decoded and counted, and after the policy accepted it.
  unfoldable pub send_message : SendCtx → SendPayload → ℕ → Eff W MailError SendOutcome
  unfolding build_message from_smtp
  send_message ctx p recipients = do
    message ← lift (map_err mail_error (build_message smtp p ctx.default_from))
    response ← mapping (from_smtp smtp) (smtp.send ctx.transport message)
    pure (outcome_of recipients (smtp.formatted_len message) response)

  unfoldable pub send_checked : SendCtx → SendPayload → ℕ → Eff W MailError SendOutcome
  unfolding enforce_recipient_domains send_message
  send_checked ctx p recipients =
      if nat_eq recipients 0
      then raise (mail_error "at least one recipient (to/cc/bcc) is required")
      else if ltb ctx.max_recipients recipients
      then raise (
          mail_error (
            format (
              "too many recipients: "
              ∷ show recipients
              ∷ " (max "
              ∷ show ctx.max_recipients
              ∷ ")"
              ∷ [])))
      else (lift (enforce_recipient_domains p ctx.allowed_domains) >>= λ _.
          send_message ctx p recipients)

  unfoldable pub do_send : SendCtx → String → Eff W MailError SendOutcome
  unfolding send_checked count_recipients
  do_send ctx payload_json = do
    p ← lift (
        map_err (λ e. mail_error (format ("invalid mail payload: " ∷ e ∷ [])))
          (decode payload_json))
    send_checked ctx p (count_recipients p)

  unfoldable pub dispatch_mail : SendCtx → String → String → Eff W MailError SendOutcome
  unfolding do_send
  dispatch_mail ctx action payload_json =
      if action == "send"
      then do_send ctx payload_json
      else raise (mail_error (format ("unknown mail action: " ∷ action ∷ [])))

  abbrev metric_of : String → ℕ → Option SendOutcome → MailMetric
  metric_of action elapsed none = record {
    action = action;
    duration_us = elapsed;
    recipients = 0;
    bytes = 0;
    accepted = false;
  }
  metric_of action elapsed (some out) = record {
    action = action;
    duration_us = elapsed;
    recipients = out.recipients;
    bytes = out.bytes;
    accepted = out.accepted;
  }

  abbrev pub ctx_of : MailBackend → SendCtx
  ctx_of b = record {
    transport = b.transport;
    default_from = b.default_from;
    max_recipients = b.max_recipients;
    allowed_domains = b.allowed_domains;
  }

  abbrev recorded :
      W
      → String
      → MailBackend
      → Result MailError SendOutcome × W
      → Result MailError String × MailBackend × W
  recorded start action b (result, w) =
      let metric = metric_of action (smtp.elapsed_us start w) (to_option result) in
      (
        map_ok (λ out. out.json) result,
        record b { metrics = log.push MailMetric b.metrics metric },
        w,
      )

  unfoldable pub is_exhausted : MailBackend → Bool
  is_exhausted b = not (nat_eq b.max_sends 0) && leb b.max_sends (log.op_count MailMetric b.metrics)

  -- `MailBackend::call`
  unfoldable pub call_mail_backend :
      String → String → MailBackend → W → Result MailError String × MailBackend × W
  unfolding is_exhausted dispatch_mail
  call_mail_backend action payload_json b w =
      if is_exhausted b
      then (
        err (record {
          fault = mail_op_limit;
          message = format ("too many mail.send calls: limit is " ∷ show b.max_sends ∷ []);
        }),
        b,
        w,
      )
      else recorded w action b (dispatch_mail (ctx_of b) action payload_json w)

  abbrev outward :
      Result MailError String × MailBackend × W → Result EgressError String × MailBackend × W
  outward (r, b, w) = (map_err into_mail_resource_error r, b, w)

  -- `MailSlot` over this backend (backendset.rs): the driver that `BackendSet` is wired with.
  abbrev pub mail_capability : Capability W MailConfig String MailMetric
  mail_capability = record {
    Backend = MailBackend;
    connect = connect_mail;
    call = λ action payload b w. outward (call_mail_backend action payload b w);
    drain_metrics = λ b. log.drain MailMetric b.metrics;
  }
