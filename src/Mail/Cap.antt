-- ===== src/Mail/Cap.antt =====
-- mail.rs: the cap on the sends of one session.
use fabricd.Base.{
  ℕ, ◌+◌, ◌≤◌, max, String, ◌≡◌, ◌≢◌, refl, sym, ap, ◌∙◌, inl, inr, false, Bool-cases, length,
  length-append, not, nat_eq, leb, ◌&&◌, List, [], ◌∷◌, ◌++◌, arith, Result, ok, err, Eff, Bool,
  true, ltb, format, ◌==◌, if◌then◌else◌, lift, pure, mapping, map_err, resume, ◌>>=◌,
}
use mathlib.Core.List.{append-nil}
use fabricd.Json.{Codec}
use fabricd.Wire.{MailMetric, Collectors, IsLog}
use fabricd.Capability.Laws.{IsMetered}
use fabricd.Mail.Smtp.{SendPayload, Lettre, mail_error, from_smtp}
use fabricd.Mail.Message.{build_message}
use fabricd.Mail.{
  MailBackend, SendCtx, call_mail_backend, is_exhausted, mail_capability, send_message,
  send_checked, do_send, dispatch_mail, enforce_recipient_domains, outcome_of, ctx_of,
  count_recipients,
}

module _ {W : Type 0} (smtp : Lettre W) (lower : String → String)
    (decode : String → Result String SendPayload) (codec : Codec) (log : Collectors) where
  abbrev pub sends : MailBackend smtp lower decode codec log → ℕ
  sends b = length (log.drain MailMetric b.metrics)

  -- The calls of a session, in order, each an action and a payload.
  abbrev pub call_all :
      List (String × String)
      → MailBackend smtp lower decode codec log
      → W
      → MailBackend smtp lower decode codec log × W
  call_all [] b w = (b, w)
  call_all ((action, payload) ∷ calls) b w =
      let (r, b', w') = call_mail_backend smtp lower decode codec log action payload b w in
      call_all calls b' w'

  -- What counts the messages that were handed to the transport, whatever came of them.
  abbrev pub CountsSends : (W → ℕ) → Type 0
  CountsSends sent =
      (transport : smtp.Transport) (message : smtp.Message) (w : W)
      → sent (smtp.send transport message w).1 ≡ sent w + 1

  module _ (is_log : IsLog log) where
    call_mail_backend-keeps :
        (action payload : String) (b : MailBackend smtp lower decode codec log) (w : W)
        → (more : List MailMetric) × (log.drain MailMetric
              (call_mail_backend smtp lower decode codec log action payload b w).1.metrics
            ≡ log.drain MailMetric b.metrics ++ more)
    unfolding call_mail_backend
    call_mail_backend-keeps action payload b w =
        elim (Bool-cases (is_exhausted smtp lower decode codec log b)) [
          | inl exhausted ↦ rw exhausted ([], sym (append-nil _))
          | inr free ↦ rw free (_ ∷ [], is_log.drain_push MailMetric b.metrics _)
        ]

    below : (cap n : ℕ) → cap ≢ 0 → (not (nat_eq cap 0) && leb cap n) ≡ false → n + 1 ≤ cap
    below cap n capped free = ground arith

    module _ (sent : W → ℕ) (counts : CountsSends sent) where
      -- At most one message is handed to the transport.
      abbrev SendsOnce : {E A : Type 0} → Eff W E A → Type 0
      SendsOnce m = (w : W) → sent (m w).1 ≤ sent w + 1

      lift-SendsOnce :
          {E A B : Type 0} (r : Result E A) (f : A → Eff W E B)
          → ((a : A) → SendsOnce (f a))
          → SendsOnce (lift r >>= f)
      lift-SendsOnce (ok a) f each w = each a w
      lift-SendsOnce (err e) f each w = omega arith

      if-SendsOnce :
          {E A : Type 0} (b : Bool) (m n : Eff W E A)
          → SendsOnce m
          → SendsOnce n
          → SendsOnce (if b then m else n)
      if-SendsOnce true m n hm hn = hm
      if-SendsOnce false m n hm hn = hn

      resume-world :
          {E A B : Type 0} (r : Result E A × W) (g : A → B) → (resume r (λ x. pure (g x))).1 ≡ r.1
      resume-world (ok a, w) g = refl
      resume-world (err e, w) g = refl

      send_message-SendsOnce :
          (ctx : SendCtx smtp lower decode codec log) (p : SendPayload) (recipients : ℕ)
          → SendsOnce (send_message smtp lower decode codec log ctx p recipients)
      unfolding send_message
      send_message-SendsOnce ctx p recipients =
          lift-SendsOnce (map_err mail_error (build_message smtp p ctx.default_from)) _ λ message w.
            omega (
              arith,
              counts ctx.transport message w,
              ap sent (
                  resume-world (mapping (from_smtp smtp) (smtp.send ctx.transport message) w) (
                    outcome_of smtp lower decode codec log recipients
                      (smtp.formatted_len message))),
            )

      send_checked-SendsOnce :
          (ctx : SendCtx smtp lower decode codec log) (p : SendPayload) (recipients : ℕ)
          → SendsOnce (send_checked smtp lower decode codec log ctx p recipients)
      unfolding send_checked
      send_checked-SendsOnce ctx p recipients =
          if-SendsOnce (nat_eq recipients 0) _ _ (λ w. omega arith)
            (if-SendsOnce (ltb ctx.max_recipients recipients) _ _ (λ w. omega arith)
              (lift-SendsOnce
                (enforce_recipient_domains smtp lower decode codec log p ctx.allowed_domains)
                (λ _. send_message smtp lower decode codec log ctx p recipients)
                λ _. send_message-SendsOnce ctx p recipients))

      dispatch_mail-SendsOnce :
          (ctx : SendCtx smtp lower decode codec log) (action payload : String)
          → SendsOnce (dispatch_mail smtp lower decode codec log ctx action payload)
      unfolding dispatch_mail do_send
      dispatch_mail-SendsOnce ctx action payload =
          if-SendsOnce (action == "send") _ _
            (lift-SendsOnce
              (map_err (λ e. mail_error (format ("invalid mail payload: " ∷ e ∷ [])))
                (decode payload))
              (λ p. send_checked smtp lower decode codec log ctx p (count_recipients p))
              λ p. send_checked-SendsOnce ctx p (count_recipients p))
            λ w. omega arith

      push-sends :
          (b : MailBackend smtp lower decode codec log) (m : MailMetric)
          → length (log.drain MailMetric (log.push MailMetric b.metrics m)) ≡ sends b + 1
      push-sends b m = omega (
        arith,
        ap length (is_log.drain_push MailMetric b.metrics m),
        length-append (log.drain MailMetric b.metrics) (m ∷ []),
      )

      one_call :
          (action payload : String) (b : MailBackend smtp lower decode codec log) (w : W)
          → b.max_sends ≢ 0
          → let (r, after, end) =
              call_mail_backend smtp lower decode codec log action payload b w in
            (sends after ≤ max (sends b) b.max_sends)
            × (sent end + sends b ≤ sent w + sends after)
            × (after.max_sends ≡ b.max_sends)
      unfolding call_mail_backend is_exhausted
      one_call action payload b w capped =
          elim (Bool-cases (is_exhausted smtp lower decode codec log b)) [
            | inl exhausted ↦ rw exhausted (omega arith, omega arith, refl)
            | inr free ↦ rw free (
              omega (
                arith,
                push-sends b _,
                is_log.counts MailMetric b.metrics,
                below b.max_sends (log.op_count MailMetric b.metrics) capped free,
              ),
              omega (
                arith,
                push-sends b _,
                dispatch_mail-SendsOnce (ctx_of smtp lower decode codec log b) action payload w,
              ),
              refl,
            )
          ]

      call_all-capped :
          (cap : ℕ) (calls : List (String × String)) (b : MailBackend smtp lower decode codec log)
          (w : W)
          → cap ≢ 0
          → b.max_sends ≡ cap
          → sends b ≤ cap
          → sent (call_all calls b w).1 + sends b ≤ sent w + cap
      call_all-capped cap [] b w capped same within = omega arith
      call_all-capped cap ((action, payload) ∷ calls) b w capped same within =
          let (r, b', w') = call_mail_backend smtp lower decode codec log action payload b w in
          let (grown, paid, kept) =
            one_call action payload b w (λ zeroed. capped (sym same ∙ zeroed)) in
          let rest =
            call_all-capped cap calls b' w' capped (kept ∙ same)
              (omega (arith, grown, same, within)) in
          omega (arith, paid, rest)

      -- Over any sequence of calls of one backend whose cap is not 0, the messages handed to the
      -- transport, refused ones included, together with the calls recorded before, number at most
      -- the cap if those did.
      pub call_all-max_sends :
          (calls : List (String × String)) (b : MailBackend smtp lower decode codec log) (w : W)
          → b.max_sends ≢ 0
          → sends b ≤ b.max_sends
          → sent (call_all calls b w).1 + sends b ≤ sent w + b.max_sends
      call_all-max_sends calls b w capped within =
          call_all-capped b.max_sends calls b w capped refl within

    -- The driver that the daemon wires for `mail` fills the interface that the laws of slots need.
    pub mail_capability-IsMetered : IsMetered (mail_capability smtp lower decode codec log)
    mail_capability-IsMetered = record {
      call_keeps = λ action payload b w. call_mail_backend-keeps action payload b w;
    }
