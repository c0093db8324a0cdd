-- ===== src/Oidc.antt =====
-- crates/fabric-backends/src/auth.rs: the `auth` capability. The memo of the discovery is part of
-- the state that an operation takes and gives.
pub mod Replies
pub mod Client
pub mod Laws
pub mod Discovery
use fabricd.Base.{
  ℕ, String, Option, none, some, [], ◌∷◌, ◌==◌, if◌then◌else◌, is_empty, trim_end_slashes, format,
  Mutex, Result, ok, err, ok_or, map_err, map_ok, Eff, mapping, beside, raise, lift, pure, ◌>>=◌,
  false, ◌||◌, nat_eq,
}
use fabricd.Json.{Codec}
use fabricd.Wire.{EgressError, AuthMetric, Collectors}
use fabricd.Resources.Configs.{AuthConfig}
use fabricd.Capability.{Capability}
use fabricd.Oidc.Client.{Reqwest, Memo, empty_memo, recall, remember}
use fabricd.Oidc.Replies.{
  auth_unavailable, auth_request, Endpoints, AuthError, auth_error, with_status,
  into_auth_resource_error, AuthOutcome, within_range, string_field, ok_claims_json,
  invalid_token_json, parse_claims,
}

module _ {W : Type 0} (http : Reqwest W) (codec : Codec) (log : Collectors) where
  -- `AuthState` without its memo.
  pub record AuthState : Type 0 where
    pub client : http.Client
    pub config : AuthConfig

  pub record AuthBackend : Type 0 where
    pub state : AuthState
    pub discovery : Memo
    pub host : String
    pub metrics : log.Collector AuthMetric

  abbrev or_unknown : Option String → String
  or_unknown none = "unknown"
  or_unknown (some host) = host

  unfoldable pub issuer_host : String → String
  issuer_host issuer = or_unknown (http.host_of issuer)

  build_error : http.Error → EgressError
  build_error e = record {
    code = auth_unavailable.code;
    message = format ("auth client build failed: " ∷ http.error_text e ∷ []);
    source = "auth";
    details = none;
    retryable = auth_unavailable.retryable;
    owner = auth_unavailable.owner;
  }

  unfoldable pub connect_auth : AuthConfig → Eff W EgressError AuthBackend
  unfolding build_error issuer_host
  connect_auth config = do
    client ← mapping build_error (http.build config.timeout_ms)
    pure (record {
      state = record { client = client; config = config };
      discovery = empty_memo;
      host = issuer_host config.issuer;
      metrics = log.new AuthMetric;
    })

  from_transport : http.Error → AuthError
  from_transport e =
      auth_error auth_unavailable (format ("auth request failed: " ∷ http.error_text e ∷ []))

  unread : http.Error → AuthError
  unread e =
      auth_error auth_unavailable (format ("failed to read response: " ∷ http.error_text e ∷ []))

  unfoldable pub send : http.RequestBuilder → Eff W AuthError (ℕ × String)
  unfolding from_transport unread
  send builder = do
    response ← mapping from_transport (http.send builder)
    let status = http.status response
    body ← mapping unread (http.text response)
    pure (status, body)

  -- What `fetch_discovery` makes of an answer.
  unfoldable pub endpoints_of : ℕ × String → Result AuthError Endpoints
  unfolding with_status string_field
  endpoints_of (status, body) =
      if within_range 200 299 status
      then map_ok
          (λ doc. record {
            userinfo = string_field doc "userinfo_endpoint";
            introspect = string_field doc "introspection_endpoint";
          })
          (map_err
            (λ e.
              auth_error auth_request
                (format ("invalid discovery document: " ∷ codec.error_text e ∷ [])))
            (codec.from_str body))
      else err (with_status auth_request "OIDC discovery failed" status)

  unfoldable pub fetch_discovery : AuthState → Eff W AuthError Endpoints
  unfolding send endpoints_of trim_end_slashes
  fetch_discovery state = do
    let base = trim_end_slashes state.config.issuer
    let url = format (base ∷ "/.well-known/openid-configuration" ∷ [])
    answer ← send (http.get state.client url)
    lift (endpoints_of answer)

  -- The end of `discover`: a fetched result is stored.
  fetched : Memo → Result AuthError Endpoints × W → Result AuthError Endpoints × (Memo × W)
  fetched memo (ok endpoints, w) = (ok endpoints, (remember endpoints memo, w))
  fetched memo (err e, w) = (err e, (memo, w))

  discover_from : AuthState → Option Endpoints → Memo → W → Result AuthError Endpoints × (Memo × W)
  unfolding fetched
  discover_from state (some endpoints) memo w = (ok endpoints, (memo, w))
  discover_from state none memo w = fetched memo (fetch_discovery state w)

  unfoldable pub discover : AuthState → Eff (Memo × W) AuthError Endpoints
  unfolding discover_from
  discover state (memo, w) = discover_from state (recall memo) memo w

  -- `resolve_userinfo` and `resolve_introspect`, at their explicit url, endpoint and error.
  unfoldable pub resolve_endpoint :
      Option String
      → (Endpoints → Option String)
      → String
      → AuthState
      → Eff (Memo × W) AuthError String
  unfolding discover
  resolve_endpoint (some url) endpoint missing state = pure url
  resolve_endpoint none endpoint missing state = do
    endpoints ← discover state
    lift (ok_or (endpoint endpoints) (auth_error auth_request missing))

  unfoldable pub resolve_userinfo : AuthState → Eff (Memo × W) AuthError String
  unfolding resolve_endpoint
  resolve_userinfo state =
      resolve_endpoint state.config.userinfo_url Endpoints.userinfo
        "issuer exposes no userinfo_endpoint" state

  unfoldable pub resolve_introspect : AuthState → Eff (Memo × W) AuthError String
  unfolding resolve_endpoint
  resolve_introspect state =
      resolve_endpoint state.config.introspect_url Endpoints.introspect
        "issuer exposes no introspection_endpoint" state

  -- The reply to a 2xx.
  abbrev claims_outcome : ℕ → String → Result AuthError AuthOutcome
  claims_outcome status body =
      map_ok (λ claims. record { json = ok_claims_json codec claims; status = status })
        (parse_claims codec body status)

  -- What `do_user_info` and `do_introspect` make of an answer.
  unfoldable pub user_info_outcome : ℕ × String → Result AuthError AuthOutcome
  unfolding with_status
  user_info_outcome (status, body) =
      if within_range 200 299 status
      then claims_outcome status body
      else if nat_eq status 401 || nat_eq status 403
      then ok (record { json = invalid_token_json codec status; status = status })
      else if within_range 500 599 status
      then err (with_status auth_unavailable "userinfo unavailable" status)
      else err (with_status auth_request "userinfo request failed" status)

  unfoldable pub introspect_outcome : ℕ × String → Result AuthError AuthOutcome
  unfolding with_status
  introspect_outcome (status, body) =
      if within_range 200 299 status
      then claims_outcome status body
      else if within_range 500 599 status
      then err (with_status auth_unavailable "introspection unavailable" status)
      else err (with_status auth_request "introspection request failed" status)

  unfoldable pub do_user_info : AuthState → String → Eff (Memo × W) AuthError AuthOutcome
  unfolding resolve_userinfo user_info_outcome
  do_user_info state token = do
    url ← resolve_userinfo state
    answer ← beside (send (http.bearer_auth token (http.get state.client url)))
    lift (user_info_outcome answer)

  abbrev introspect_request : AuthState → String → String → http.RequestBuilder
  introspect_request state token url =
      let form_body = format ("token=" ∷ http.percent_encode token ∷ []) in
      let c = state.config in
      http.body form_body (
        http.header "Content-Type" "application/x-www-form-urlencoded"
          (http.basic_auth c.client_id (some c.client_secret) (http.post state.client url)))

  unfoldable pub do_introspect : AuthState → String → Eff (Memo × W) AuthError AuthOutcome
  unfolding resolve_introspect introspect_outcome
  do_introspect state token =
      if is_empty state.config.client_id
      then raise (auth_error auth_request "introspect requires config.auth.client_id/client_secret")
      else resolve_introspect state >>= λ url.
          beside (send (introspect_request state token url)) >>= λ answer.
          lift (introspect_outcome answer)

  unfoldable pub dispatch_auth : AuthState → String → String → Eff (Memo × W) AuthError AuthOutcome
  unfolding do_user_info do_introspect
  dispatch_auth state action token =
      if action == "user_info"
      then do_user_info state token
      else if action == "introspect"
      then do_introspect state token
      else raise (auth_error auth_request (format ("unknown auth action: " ∷ action ∷ [])))

  abbrev pub status_of : Result AuthError AuthOutcome → ℕ
  status_of (ok outcome) = outcome.status
  status_of (err e) = 0

  -- `build_metric`, with the elapsed time as an argument.
  unfoldable pub build_auth_metric : String → String → ℕ → ℕ → AuthMetric
  build_auth_metric action host status elapsed = record {
    action = action;
    host = host;
    status = status;
    duration_us = elapsed;
  }

  abbrev pub json_of : Result AuthError AuthOutcome → Result EgressError String
  json_of result = map_err into_auth_resource_error (map_ok AuthOutcome.json result)

  abbrev pub recorded :
      W
      → String
      → AuthBackend
      → Result AuthError AuthOutcome × (Memo × W)
      → Result EgressError String × AuthBackend × W
  recorded start action b (result, (memo, w)) =
      let metric = build_auth_metric action b.host (status_of result) (http.elapsed_us start w) in
      (
        json_of result,
        record b { discovery = memo; metrics = log.push AuthMetric b.metrics metric },
        w,
      )

  -- `AuthBackend::call`
  unfoldable pub call_auth_backend :
      String → String → AuthBackend → W → Result EgressError String × AuthBackend × W
  unfolding build_auth_metric dispatch_auth
  call_auth_backend action token b w =
      recorded w action b (dispatch_auth b.state action token (b.discovery, w))

  -- `AuthSlot` over this backend (backendset.rs).
  abbrev pub auth_capability : Capability W AuthConfig String AuthMetric
  auth_capability = record {
    Backend = AuthBackend;
    connect = connect_auth;
    call = call_auth_backend;
    drain_metrics = λ b. log.drain AuthMetric b.metrics;
  }
