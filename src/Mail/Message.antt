-- ===== src/Mail/Message.antt =====
-- crates/fabric-backends/src/mail.rs, `build_message`: every address parsed, and the body.
use fabricd.Base.{
  String, List, [], ◌∷◌, ◌&&◌, not, if◌then◌else◌, format, is_empty, Result, ok, map_err, and_then,
}
use fabricd.Mail.Smtp.{SendPayload, Lettre}

module _ {W : Type 0} (smtp : Lettre W) where
  unfoldable pub parse_mailbox : String → String → Result String smtp.Mailbox
  parse_mailbox addr field =
      map_err (λ e. format ("invalid " ∷ field ∷ " address '" ∷ addr ∷ "': " ∷ e ∷ []))
        (smtp.parse addr)

  -- One of the three loops of `build_message`.
  unfoldable pub add_each :
      String
      → (smtp.Mailbox → smtp.MessageBuilder → smtp.MessageBuilder)
      → List String
      → smtp.MessageBuilder
      → Result String smtp.MessageBuilder
  unfolding parse_mailbox
  add_each field add [] builder = ok builder
  add_each field add (addr ∷ addrs) builder =
      and_then (parse_mailbox addr field) λ mailbox. add_each field add addrs (add mailbox builder)

  unfoldable pub add_reply_to : String → smtp.MessageBuilder → Result String smtp.MessageBuilder
  unfolding parse_mailbox
  add_reply_to addr builder =
      if is_empty addr
      then ok builder
      else and_then (parse_mailbox addr "reply_to") λ mailbox. ok (smtp.reply_to mailbox builder)

  unfoldable pub build_body : smtp.MessageBuilder → SendPayload → Result String smtp.Message
  build_body builder p =
      let has_text = not (is_empty p.text) in
      let has_html = not (is_empty p.html) in
      map_err (λ e. format ("failed to build message: " ∷ e ∷ []))
        (if has_text && has_html
          then smtp.multipart_alternative p.text p.html builder
          else if has_html
          then smtp.singlepart_html p.html builder
          else smtp.body p.text builder)

  unfoldable pub build_message : SendPayload → String → Result String smtp.Message
  unfolding parse_mailbox add_each add_reply_to build_body
  build_message p default_from =
      and_then (parse_mailbox (if is_empty p.from then default_from else p.from) "from") λ sender.
        and_then (add_each "to" smtp.to p.to (smtp.from sender smtp.builder)) λ with_to.
          and_then (add_each "cc" smtp.cc p.cc with_to) λ with_cc.
            and_then (add_each "bcc" smtp.bcc p.bcc with_cc) λ with_bcc.
              and_then (add_reply_to p.reply_to with_bcc)
                λ with_reply. build_body (smtp.subject p.subject with_reply) p
