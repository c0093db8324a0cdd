-- ===== src/Mail/Policy.antt =====
-- mail.rs: the send policy: the recipient cap and the allowed domains.
use mathlib.Core.Path.{subst}
use fabricd.Base.{
  ℕ, ◌+◌, ◌-◌, ◌^◌, min, length, false, ◌≤◌, String, ◌≡◌, refl, ◌⊎◌, inl, inr, true, Bool-cases,
  nat_eq, ltb, any, ◌==◌, All, List, [], ◌∷◌, ◌++◌, arith, Result, ok, err, Result-cases,
}
use fabricd.Json.{Codec}
use fabricd.Wire.{Collectors}
use fabricd.Mail.Smtp.{MailError, SendPayload, Lettre}
use fabricd.Mail.Message.{parse_mailbox}
use fabricd.Mail.{
  SendCtx, count_recipients, enforce_one, enforce_each, enforce_recipient_domains, send_message,
  send_checked, do_send,
}

module _ {W : Type 0} (smtp : Lettre W) (lower : String → String)
    (decode : String → Result String SendPayload) (codec : Codec) (log : Collectors) where
  -- The address parses, and some entry of the list is its domain, letter case aside.
  abbrev pub IsAllowed : List String → String → Type 0
  IsAllowed allowed addr =
      (m : smtp.Mailbox) × (smtp.parse addr ≡ ok m)
      × (any (λ allow. lower allow == lower (smtp.domain m)) allowed ≡ true)

  abbrev pub AreAllowed : List String → SendPayload → Type 0
  AreAllowed [] p = Unit
  AreAllowed (a ∷ allowed) p = All (IsAllowed (a ∷ allowed)) (p.to ++ p.cc ++ p.bcc)

  -- All recipients, as a usize.
  abbrev pub recipients_of : SendPayload → ℕ
  recipients_of p = min (length p.to + length p.cc + length p.bcc) (2 ^ 64 - 1)

  count_recipients-eq-recipients_of : (p : SendPayload) → count_recipients p ≡ recipients_of p
  unfolding count_recipients
  count_recipients-eq-recipients_of p = omega arith

  -- The policy: at least one recipient, at most the cap, and every one in an allowed domain where
  -- the list of domains is not empty.
  abbrev pub IsPermitted : SendCtx smtp lower decode codec log → SendPayload → Type 0
  IsPermitted ctx p =
      (1 ≤ recipients_of p)
      × (recipients_of p ≤ ctx.max_recipients)
      × AreAllowed ctx.allowed_domains p

  enforce_each-All :
      (allowed addrs : List String)
      → (All (IsAllowed allowed) addrs
          × (enforce_each smtp lower decode codec log allowed addrs ≡ ok tt))
        ⊎ ((e : MailError) × (enforce_each smtp lower decode codec log allowed addrs ≡ err e))
  unfolding enforce_each enforce_one parse_mailbox
  enforce_each-All allowed [] = inl (tt, refl)
  enforce_each-All allowed (addr ∷ addrs) = elim (Result-cases (smtp.parse addr)) [
    | inr (e, bad) ↦ rw bad (inr (_, refl))
    | inl (m, parsed) ↦
        elim (Bool-cases (any (λ allow. lower allow == lower (smtp.domain m)) allowed)) [
          | inr refused ↦ rw parsed (rw refused (inr (_, refl)))
          | inl matched ↦ elim (enforce_each-All allowed addrs) [
            | inl (all, passed) ↦ inl (((m, parsed, matched), all), rw parsed (rw matched passed))
            | inr (e, failed) ↦ inr (e, rw parsed (rw matched failed))
          ]
        ]
  ]

  enforce-AreAllowed :
      (allowed : List String) (p : SendPayload)
      → (AreAllowed allowed p
          × (enforce_recipient_domains smtp lower decode codec log p allowed ≡ ok tt))
        ⊎ ((e : MailError) × (enforce_recipient_domains smtp lower decode codec log p allowed
              ≡ err e))
  unfolding enforce_recipient_domains
  enforce-AreAllowed [] p = inl (tt, refl)
  enforce-AreAllowed (a ∷ allowed) p = enforce_each-All (a ∷ allowed) (p.to ++ p.cc ++ p.bcc)

  within_cap :
      (ctx : SendCtx smtp lower decode codec log) (p : SendPayload)
      → nat_eq (count_recipients p) 0 ≡ false
      → ltb ctx.max_recipients (count_recipients p) ≡ false
      → AreAllowed ctx.allowed_domains p
      → IsPermitted ctx p
  within_cap ctx p somebody few allowed =
      let same = count_recipients-eq-recipients_of p in
      let some_one : 1 ≤ count_recipients p = ground arith in
      let not_many : count_recipients p ≤ ctx.max_recipients = ground arith in
      (subst (λ n. 1 ≤ n) same some_one, subst (λ n. n ≤ ctx.max_recipients) same not_many, allowed)

  send_checked-cases :
      (ctx : SendCtx smtp lower decode codec log) (p : SendPayload) (w : W)
      → (IsPermitted ctx p
          × (send_checked smtp lower decode codec log ctx p (count_recipients p) w
              ≡ send_message smtp lower decode codec log ctx p (count_recipients p) w))
        ⊎ ((e : MailError) × (send_checked smtp lower decode codec log ctx p (count_recipients p) w
              ≡ (err e, w)))
  unfolding send_checked
  send_checked-cases ctx p w = elim (Bool-cases (nat_eq (count_recipients p) 0)) [
    | inl nobody ↦ rw nobody (inr (_, refl))
    | inr somebody ↦ elim (Bool-cases (ltb ctx.max_recipients (count_recipients p))) [
      | inl many ↦ rw somebody (rw many (inr (_, refl)))
      | inr few ↦ elim (enforce-AreAllowed ctx.allowed_domains p) [
        | inr (e, refused) ↦ rw somebody (rw few (rw refused (inr (_, refl))))
        | inl (allowed, passed) ↦
            inl (within_cap ctx p somebody few allowed, rw somebody (rw few (rw passed refl)))
      ]
    ]
  ]

  -- A `send` whose decoded payload the policy does not permit fails and leaves the world as it was:
  -- no message leaves for anyone, not for the recipients that are allowed either.
  pub do_send-unsent :
      (ctx : SendCtx smtp lower decode codec log) (payload : String) (p : SendPayload) (w : W)
      → decode payload ≡ ok p
      → ¬ IsPermitted ctx p
      → (e : MailError) × (do_send smtp lower decode codec log ctx payload w ≡ (err e, w))
  unfolding do_send
  do_send-unsent ctx payload p w decoded refused = rw decoded (elim (send_checked-cases ctx p w) [
    | inl (permitted, sends) ↦ absurd (refused permitted)
    | inr failed ↦ failed
  ])
