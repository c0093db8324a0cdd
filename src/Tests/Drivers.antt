-- ===== src/Tests/Drivers.antt =====
-- kv.rs over a server of one key, and mail.rs over a server that takes every message.
use mathlib.Core.Path.{subst}
use fabricd.Base.{
  ◌+◌, ◌||◌, ℕ, suc, ◌≤◌, String, ◌≡◌, refl, arith, Bool, true, false, Option, none, some, List, [],
  ◌∷◌, ◌==◌, if◌then◌else◌, Result, ok, err, length,
}
use fabricd.Json.{Value, pos, get, members, Codec}
use fabricd.Wire.{operator, EgressError}
use fabricd.Resources.Configs.{RedisConfig}
use fabricd.Kv.Driver.{Redis, RedisError, KeyPayload, redis_fallback, fallback}
use fabricd.Kv.Driver
use fabricd.Kv.{RedisBackend, call_redis_backend, connect_resource}
use fabricd.Kv.Laws.{
  HasRedisFault, call_redis_backend-HasRedisFault, connect_resource-is_connection,
}
use fabricd.Mail.Smtp.{Lettre, SendPayload, MailError}
use fabricd.Mail.{SendCtx, MailBackend, do_send}
use fabricd.Mail.Policy.{IsPermitted, do_send-unsent}
use fabricd.Mail.Cap.{call_all, call_all-max_sends}
use fabricd.Tests.Fixtures.{list_log, list_log-IsLog, cache_redis, unchanged}

-- The server holds the value "abc" under every key; the world counts the commands.
abbrev pub one_value : Redis ℕ
one_value = record {
  Client = Unit;
  Connection = Unit;
  Error = String;
  error_text = λ e. e;
  is_timeout = λ e. false;
  is_io_error = λ e. false;
  client_open = λ url. if url == "nonsense" then err "Redis URL did not parse" else ok tt;
  get_connection = λ client w. (ok tt, suc w);
  set_read_timeout = λ conn ms w. (ok tt, w);
  set_write_timeout = λ conn ms w. (ok tt, w);
  get = λ conn key w. (ok (some "abc"), suc w);
  set = λ conn key value w. (ok tt, suc w);
  set_ex = λ conn key value ttl w. (ok tt, suc w);
  del = λ conn key w. (ok (pos 1), suc w);
  incr = λ conn key by w. (err "not an integer", suc w);
  expire = λ conn key seconds w. (ok true, suc w);
  elapsed_us = λ start stop. 7;
}

abbrev text_of : Option Value → Result String String
text_of (some (Value.string s)) = ok s
text_of _ = ok "null"

-- Prints and parses objects whose only member is `value`, a text.
abbrev pub value_codec : Codec
value_codec = record {
  Error = String;
  error_text = λ e. e;
  from_str = λ s. ok (Value.object (members (("value", Value.string s) ∷ [])));
  to_string = λ v. text_of (get v "value");
}

abbrev pub keys : Driver.Decoders
keys = record {
  key = λ text. ok (record { key = text });
  set = λ text. err "missing field";
  expire = λ text. err "missing field";
}

abbrev Kept : Type 0
Kept = RedisBackend one_value value_codec keys list_log

abbrev connected : Kept
connected = record { conn = record { value = tt; poisoned = false }; metrics = [] }

unknown_action :
    (call_redis_backend one_value value_codec keys list_log "scan" "k" connected 0).0
    ≡ err (fallback "unknown redis action: scan")
unfolding call_redis_backend
unknown_action = refl

call_redis_backend-HasRedisFault_example : HasRedisFault (fallback "unknown redis action: scan")
call_redis_backend-HasRedisFault_example =
    (call_redis_backend-HasRedisFault one_value value_codec keys list_log "scan" "k" connected 0
      (fallback "unknown redis action: scan") unknown_action).0

abbrev bad_url : RedisConfig
bad_url = record cache_redis { url = "nonsense" }

abbrev unreachable : EgressError
unreachable = record {
  code = "REDIS_CONNECTION";
  message = "Redis URL did not parse";
  source = "redis";
  details = none;
  retryable = true;
  owner = operator;
}

bad_url_fails : (connect_resource one_value value_codec keys list_log bad_url 0).0 ≡ err unreachable
unfolding connect_resource
bad_url_fails = refl

connect_resource-is_connection_example :
    (unreachable.code ≡ "REDIS_CONNECTION")
    × (unreachable.retryable ≡ true)
    × (unreachable.owner ≡ operator)
    × (unreachable.source ≡ "redis")
connect_resource-is_connection_example =
    connect_resource-is_connection one_value value_codec keys list_log bad_url 0 unreachable
      bad_url_fails

-- A mailbox is its domain, and the world counts the messages.
abbrev pub open_relay : Lettre ℕ
open_relay = record {
  TransportBuilder = Unit;
  Transport = Unit;
  Mailbox = String;
  MessageBuilder = List String;
  Message = List String;
  Response = Bool;
  Error = String;
  error_text = λ e. e;
  is_transient = λ e. true;
  is_permanent = λ e. false;
  starttls_relay = λ host. ok tt;
  relay = λ host. ok tt;
  builder_dangerous = λ host. tt;
  port = λ n b. b;
  timeout = λ ms b. b;
  credentials = λ user password b. b;
  build = λ b. b;
  parse = λ addr. ok addr;
  domain = λ m. m;
  builder = [];
  from = λ m b. m ∷ b;
  to = λ m b. m ∷ b;
  cc = λ m b. m ∷ b;
  bcc = λ m b. m ∷ b;
  reply_to = λ m b. m ∷ b;
  subject = λ s b. s ∷ b;
  multipart_alternative = λ text html b. ok b;
  singlepart_html = λ html b. ok b;
  body = λ text b. ok b;
  formatted_len = λ m. length m;
  send = λ transport m w. (ok true, suc w);
  is_positive = λ r. r;
  first_line = λ r. some "250 OK";
  elapsed_us = λ start stop. 7;
}

abbrev to_evil : SendPayload
to_evil = record {
  from = "";
  to = "corp.example" ∷ "evil.example" ∷ [];
  cc = [];
  bcc = [];
  reply_to = "";
  subject = "hi";
  text = "hi";
  html = "";
}

abbrev pub read_payload : String → Result String SendPayload
read_payload json = ok to_evil

abbrev Mailer : Type 0
Mailer = MailBackend open_relay unchanged read_payload value_codec list_log

abbrev corp_only : SendCtx open_relay unchanged read_payload value_codec list_log
corp_only = record {
  transport = tt;
  default_from = "noreply";
  max_recipients = 10;
  allowed_domains = "corp.example" ∷ [];
}

evil_refused :
    ¬ IsPermitted open_relay unchanged read_payload value_codec list_log corp_only to_evil
evil_refused (some_one, few, (first, ((m, parsed, allowed), rest))) =
    let same : ◌≡◌ {A = String} m "evil.example" = cc in
    let matched : false ≡ true =
      subst (λ x. (("corp.example" == x) || false) ≡ true) same allowed in
    cc

do_send-unsent_example :
    (e : MailError) × (do_send open_relay unchanged read_payload value_codec list_log corp_only "{}"
        0
      ≡ (err e, 0))
do_send-unsent_example =
    do_send-unsent open_relay unchanged read_payload value_codec list_log corp_only "{}" to_evil 0
      refl evil_refused

abbrev two_sends : Mailer
two_sends = record {
  transport = tt;
  default_from = "noreply";
  max_recipients = 10;
  allowed_domains = [];
  max_sends = 2;
  metrics = [];
}

call_all-max_sends_example :
    (call_all open_relay unchanged read_payload value_codec list_log
        (("send", "{}") ∷ ("send", "{}") ∷ ("send", "{}") ∷ [])
        two_sends
        0).1
      + 0
    ≤ 0 + 2
call_all-max_sends_example =
    call_all-max_sends open_relay unchanged read_payload value_codec list_log list_log-IsLog
      (λ w. w) (λ transport message w. omega arith)
      (("send", "{}") ∷ ("send", "{}") ∷ ("send", "{}") ∷ []) two_sends 0 (λ e. cc) (omega arith)
