-- ===== src/Oidc/Laws.antt =====
-- auth.rs: what a session sees of each answer of the identity provider, and what a call records.
use fabricd.Base.{
  ℕ, ◌≤◌, ◌<◌, String, ◌≡◌, ◌≢◌, refl, ap, ◌⊎◌, inl, inr, Bool, true, false, Bool-cases, nat_eq,
  ◌||◌, some, [], ◌∷◌, ◌++◌, is_empty, arith, Result, ok, err, Result-cases, ok-inj, beside, lift,
  resume-eq-ok, ◌>>=◌, eq_iff, Eff,
}
use fabricd.Json.{Value, members, number, int, pos, Codec}
use fabricd.Wire.{operator, EgressError, AuthMetric, Collectors, IsLog}
use fabricd.Capability.Laws.{IsMetered}
use fabricd.Oidc.Replies.{
  AuthError, AuthOutcome, within_range, ok_claims_json, encode_reply, http_status,
  invalid_token_json, parse_claims, with_status, into_auth_resource_error,
}
use fabricd.Oidc.Client.{Reqwest, Memo}
use fabricd.Oidc.{
  AuthState, AuthBackend, send, user_info_outcome, introspect_outcome, resolve_userinfo,
  resolve_introspect, do_user_info, do_introspect, introspect_request, dispatch_auth, recorded,
  build_auth_metric, call_auth_backend, auth_capability, json_of, status_of,
}

-- The session's answer is this error of the operator, tagged with the provider's status.
abbrev pub FailsWith :
    (code : String) (retryable : Bool) (status : ℕ) → Result EgressError String → Type 0
FailsWith code retryable status r =
    (e : EgressError) × (r ≡ err e)
    × (e.code ≡ code)
    × (e.retryable ≡ retryable)
    × (e.owner ≡ operator)
    × (e.details ≡ some (http_status status))

-- The JSON of an accepted token, and of one that the provider refuses with this status.
abbrev pub claims_reply : Codec → Value → String
claims_reply codec claims =
    encode_reply codec (Value.object (members (("ok", Value.bool true) ∷ ("claims", claims) ∷ [])))

abbrev pub refusal_reply : Codec → ℕ → String
refusal_reply codec status = encode_reply codec (
    Value.object (
      members (
        ("ok", Value.bool false)
        ∷ ("status", number (int (pos status)))
        ∷ ("code", Value.string "AUTH_INVALID_TOKEN")
        ∷ [])))

-- The session's answer to `user_info` where the provider answered with this status and body.
abbrev pub UserInfoAnswer : Codec → ℕ → String → Result EgressError String → Type 0
UserInfoAnswer codec status body r =
    ((200 ≤ status)
      × (status ≤ 299)
      × (((claims : Value) × (codec.from_str body ≡ ok claims)
            × (r ≡ ok (claims_reply codec claims)))
          ⊎ ((e : codec.Error) × (codec.from_str body ≡ err e)
              × FailsWith "AUTH_REQUEST" false status r)))
    ⊎ ((((status ≡ 401) ⊎ (status ≡ 403)) × (r ≡ ok (refusal_reply codec status)))
        ⊎ (((500 ≤ status) × (status ≤ 599) × FailsWith "AUTH_UNAVAILABLE" true status r)
            ⊎ (((status < 200) ⊎ (299 < status))
                × (status ≢ 401)
                × (status ≢ 403)
                × ((status < 500) ⊎ (599 < status))
                × FailsWith "AUTH_REQUEST" false status r)))

within : (low high n : ℕ) → within_range low high n ≡ true → (low ≤ n) × (n ≤ high)
within low high n h = (ground arith, ground arith)

outside : (low high n : ℕ) → within_range low high n ≡ false → (n < low) ⊎ (high < n)
outside low high n h = ground arith

either : (n : ℕ) → (nat_eq n 401 || nat_eq n 403) ≡ true → (n ≡ 401) ⊎ (n ≡ 403)
either n h = ground arith

neither : (n : ℕ) → (nat_eq n 401 || nat_eq n 403) ≡ false → (n ≢ 401) × (n ≢ 403)
neither n h = (ground arith, ground arith)

module _ {W : Type 0} (http : Reqwest W) (codec : Codec) (log : Collectors) where
  user_info_outcome-answers :
      (status : ℕ) (body : String)
      → UserInfoAnswer codec status body
          (json_of http codec log (user_info_outcome http codec log (status, body)))
  unfolding user_info_outcome parse_claims into_auth_resource_error with_status ok_claims_json
      invalid_token_json
  user_info_outcome-answers status body = elim (Bool-cases (within_range 200 299 status)) [
    | inl good ↦ rw good (elim (Result-cases (codec.from_str body)) [
      | inl (claims, parsed) ↦ rw parsed (
          inl (
            (within 200 299 status good).0,
            (within 200 299 status good).1,
            inl (claims, refl, refl),
          ))
      | inr (e, bad) ↦ rw bad (
          inl (
            (within 200 299 status good).0,
            (within 200 299 status good).1,
            inr (e, refl, (_, refl, refl, refl, refl, refl)),
          ))
    ])
    | inr other ↦ rw other (elim (Bool-cases (nat_eq status 401 || nat_eq status 403)) [
      | inl rejected ↦ rw rejected (inr (inl (either status rejected, refl)))
      | inr unusual ↦ rw unusual (elim (Bool-cases (within_range 500 599 status)) [
        | inl down ↦ rw down (
            inr (
              inr (
                inl (
                  (within 500 599 status down).0,
                  (within 500 599 status down).1,
                  (_, refl, refl, refl, refl, refl),
                ))))
        | inr strange ↦ rw strange (
            inr (
              inr (
                inr (
                  outside 200 299 status other,
                  (neither status unusual).0,
                  (neither status unusual).1,
                  outside 500 599 status strange,
                  (_, refl, refl, refl, refl, refl),
                ))))
      ])
    ])
  ]

  -- A `user_info` whose endpoint is resolved and that the provider answers gives the session, by
  -- the status: the claims of a 2xx, and AUTH_REQUEST where they are no JSON; on 401 and 403 no
  -- error, but `ok: false` in the reply; the retryable AUTH_UNAVAILABLE on any 5xx; and AUTH_REQUEST
  -- on all else.
  pub call_auth_backend-user_info :
      (b : AuthBackend http codec log) (token url body : String) (status : ℕ) (memo : Memo)
      (w w₁ w₂ : W)
      → resolve_userinfo http codec log b.state (b.discovery, w) ≡ (ok url, (memo, w₁))
      → send http codec log (http.bearer_auth token (http.get b.state.client url)) w₁
        ≡ (ok (status, body), w₂)
      → let (r, after, end) = call_auth_backend http codec log "user_info" token b w in
        UserInfoAnswer codec status body r × (end ≡ w₂)
  unfolding call_auth_backend dispatch_auth do_user_info
  call_auth_backend-user_info b token url body status memo w w₁ w₂ resolved answered =
      rw resolved (rw answered (user_info_outcome-answers status body, refl))

  introspect_outcome-ok :
      (status : ℕ) (body : String) (outcome : AuthOutcome)
      → introspect_outcome http codec log (status, body) ≡ ok outcome
      → (200 ≤ outcome.status) × (outcome.status ≤ 299)
  unfolding introspect_outcome parse_claims
  introspect_outcome-ok status body outcome = elim (Bool-cases (within_range 200 299 status)) [
    | inl good ↦ rw good (elim (Result-cases (codec.from_str body)) [
      | inl (claims, parsed) ↦ rw parsed (λ h.
          let same : status ≡ outcome.status = ap AuthOutcome.status (ok-inj h) in
          let (low, high) = within 200 299 status good in
          (omega (arith, same, low), omega (arith, same, high)))
      | inr (e, bad) ↦ rw bad (λ h. cc)
    ])
    | inr other ↦ rw other (elim (Bool-cases (within_range 500 599 status)) [
      | inl down ↦ rw down (λ h. cc)
      | inr strange ↦ rw strange (λ h. cc)
    ])
  ]

  operation-ok :
      (m : Eff (Memo × W) AuthError String) (request : String → http.RequestBuilder)
      (start : Memo × W) (outcome : AuthOutcome)
      → ((m >>= λ url. beside (send http codec log (request url)) >>= λ answer.
            lift (introspect_outcome http codec log answer))
          start).0
        ≡ ok outcome
      → (200 ≤ outcome.status) × (outcome.status ≤ 299)
  operation-ok m request start outcome h =
      let (url, resolved, h₁) =
        resume-eq-ok (m start)
          (λ url. beside (send http codec log (request url)) >>= λ answer.
            lift (introspect_outcome http codec log answer))
          h in
      let ((status, body), answered, h₂) =
        resume-eq-ok (beside (send http codec log (request url)) (m start).1)
          (λ answer. lift (introspect_outcome http codec log answer)) h₁ in
      introspect_outcome-ok status body outcome h₂

  not_empty : (s : String) → is_empty s ≡ false → s ≢ ""
  not_empty s h e = let full = (eq_iff s "").1 e in cc

  -- An introspection succeeds only where a client id is configured and the provider answered with a
  -- 2xx: it never reports an invalid token in-band.
  pub do_introspect-ok :
      (state : AuthState http codec log) (token : String) (memo : Memo) (w : W)
      (outcome : AuthOutcome)
      → (do_introspect http codec log state token (memo, w)).0 ≡ ok outcome
      → (state.config.client_id ≢ "") × (200 ≤ outcome.status) × (outcome.status ≤ 299)
  unfolding do_introspect
  do_introspect-ok state token memo w outcome =
      elim (Bool-cases (is_empty state.config.client_id)) [
        | inl empty ↦ rw empty (λ h. cc)
        | inr given ↦ rw given (λ h.
            let (low, high) =
              operation-ok (resolve_introspect http codec log state)
                (introspect_request http codec log state token) (memo, w) outcome h in
            (not_empty state.config.client_id given, low, high))
      ]

  recorded-records :
      IsLog log
      → (action : String) (b : AuthBackend http codec log) (start : W)
        (r : Result AuthError AuthOutcome × (Memo × W))
      → let (result, after, end) = recorded http codec log start action b r in
        ((m : AuthMetric) × (log.drain AuthMetric after.metrics
            ≡ log.drain AuthMetric b.metrics ++ m ∷ [])
          × (m.action ≡ action)
          × (m.host ≡ b.host)
          × (((json : String) × (result ≡ ok json) × (m.status ≡ status_of http codec log r.0))
              ⊎ ((e : EgressError) × (result ≡ err e) × (m.status ≡ 0))))
        × (after.state ≡ b.state)
        × (after.host ≡ b.host)
  unfolding build_auth_metric
  recorded-records is_log action b start (ok outcome, (memo, w)) = (
    (_, is_log.drain_push AuthMetric b.metrics _, refl, refl, inl (outcome.json, refl, refl)),
    refl,
    refl,
  )
  recorded-records is_log action b start (err e, (memo, w)) =
      ((_, is_log.drain_push AuthMetric b.metrics _, refl, refl, inr (_, refl, refl)), refl, refl)

  -- A call of the identity capability records one metric, of its own action and the issuer's host,
  -- with the provider's status where it succeeds and 0 where it fails, and keeps the client and the
  -- config.
  pub call_auth_backend-records :
      IsLog log
      → (action token : String) (b : AuthBackend http codec log) (w : W)
      → let (result, after, end) = call_auth_backend http codec log action token b w in
        ((m : AuthMetric) × (log.drain AuthMetric after.metrics
            ≡ log.drain AuthMetric b.metrics ++ m ∷ [])
          × (m.action ≡ action)
          × (m.host ≡ b.host)
          × (((json : String) × (result ≡ ok json)
                × (m.status
                    ≡ status_of http codec log
                        (dispatch_auth http codec log b.state action token (b.discovery, w)).0))
              ⊎ ((e : EgressError) × (result ≡ err e) × (m.status ≡ 0))))
        × (after.state ≡ b.state)
        × (after.host ≡ b.host)
  unfolding call_auth_backend
  call_auth_backend-records is_log action token b w =
      recorded-records is_log action b w
        (dispatch_auth http codec log b.state action token (b.discovery, w))

  pub auth_capability-IsMetered : IsLog log → IsMetered (auth_capability http codec log)
  auth_capability-IsMetered is_log = record {
    call_keeps = λ action token b w.
        let (one, kept, same) = call_auth_backend-records is_log action token b w in
        (one.0 ∷ [], one.1);
  }
