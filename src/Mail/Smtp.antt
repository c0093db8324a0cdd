-- ===== src/Mail/Smtp.antt =====
-- crates/fabric-backends/src/mail.rs: the errors of the `mail` capability, its payload, and the
-- `lettre` crate as a parameter.
use fabricd.Base.{ℕ, String, Bool, true, false, Option, none, List, if◌then◌else◌, Result, Eff}
use fabricd.Wire.{operator, developer, Fault, EgressError}

abbrev pub mail_fallback : Fault
mail_fallback = record { code = "MAIL_ERROR"; retryable = true; owner = operator }

abbrev pub mail_op_limit : Fault
mail_op_limit = record { code = "MAIL_OP_LIMIT"; retryable = false; owner = developer }

pub record MailError : Type 0 where
  pub fault : Fault
  pub message : String

abbrev pub mail_error : String → MailError
mail_error message = record { fault = mail_fallback; message = message }

unfoldable pub into_mail_resource_error : MailError → EgressError
into_mail_resource_error e = record {
  code = e.fault.code;
  message = e.message;
  source = "mail";
  details = none;
  retryable = e.fault.retryable;
  owner = e.fault.owner;
}

pub record SendPayload : Type 0 where
  pub from : String
  pub to : List String
  pub cc : List String
  pub bcc : List String
  pub reply_to : String
  pub subject : String
  pub text : String
  pub html : String

pub record SendOutcome : Type 0 where
  pub json : String
  pub recipients : ℕ
  pub bytes : ℕ
  pub accepted : Bool

-- `lettre` over the world `W`, which holds the mail server and the monotonic clock.
pub record Lettre (W : Type 0) : Type 1 where
  pub TransportBuilder : Type 0
  pub Transport : Type 0
  pub Mailbox : Type 0
  pub MessageBuilder : Type 0
  pub Message : Type 0
  pub Response : Type 0
  pub Error : Type 0
  pub error_text : Error → String
  pub is_transient : Error → Bool
  pub is_permanent : Error → Bool
  pub starttls_relay : String → Result Error TransportBuilder
  pub relay : String → Result Error TransportBuilder
  pub builder_dangerous : String → TransportBuilder
  pub port : ℕ → TransportBuilder → TransportBuilder
  pub timeout : ℕ → TransportBuilder → TransportBuilder
  pub credentials : String → String → TransportBuilder → TransportBuilder
  pub build : TransportBuilder → Transport
  pub parse : String → Result String Mailbox
  pub domain : Mailbox → String
  pub builder : MessageBuilder
  pub from : Mailbox → MessageBuilder → MessageBuilder
  pub to : Mailbox → MessageBuilder → MessageBuilder
  pub cc : Mailbox → MessageBuilder → MessageBuilder
  pub bcc : Mailbox → MessageBuilder → MessageBuilder
  pub reply_to : Mailbox → MessageBuilder → MessageBuilder
  pub subject : String → MessageBuilder → MessageBuilder
  pub multipart_alternative : String → String → MessageBuilder → Result String Message
  pub singlepart_html : String → MessageBuilder → Result String Message
  pub body : String → MessageBuilder → Result String Message
  pub formatted_len : Message → ℕ
  pub send : Transport → Message → Eff W Error Response
  pub is_positive : Response → Bool
  pub first_line : Response → Option String
  pub elapsed_us : W → W → ℕ

module _ {W : Type 0} (smtp : Lettre W) where
  unfoldable pub classify_smtp : smtp.Error → Fault
  classify_smtp e =
      if smtp.is_transient e
      then record { code = "MAIL_TRANSIENT"; retryable = true; owner = operator }
      else if smtp.is_permanent e
      then record { code = "MAIL_PERMANENT"; retryable = false; owner = developer }
      else mail_fallback

  unfoldable pub from_smtp : smtp.Error → MailError
  unfolding classify_smtp
  from_smtp e = record { fault = classify_smtp e; message = smtp.error_text e }
