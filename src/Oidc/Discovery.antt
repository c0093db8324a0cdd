-- ===== src/Oidc/Discovery.antt =====
-- auth.rs: how often a session's `auth` backend asks for the discovery document.
use fabricd.Base.{
  ℕ, String, ◌≡◌, refl, sym, ap, ◌∙◌, inl, inr, false, Bool-cases, Option, none, some, List, [],
  ◌∷◌, ◌==◌, Result, ok, err, ok-inj, ok_or, Eff, beside, lift, resume, ◌>>=◌, is_empty,
}
use fabricd.Json.{Codec}
use fabricd.Wire.{Collectors}
use fabricd.Oidc.Replies.{Endpoints, AuthOutcome, AuthError, auth_request, auth_error}
use fabricd.Oidc.Client.{Reqwest, Memo, recall, remember}
use fabricd.Oidc.{
  AuthState, AuthBackend, fetch_discovery, fetched, discover_from, discover, resolve_endpoint,
  resolve_userinfo, resolve_introspect, send, user_info_outcome, introspect_request,
  introspect_outcome, do_user_info, do_introspect, dispatch_auth, call_auth_backend,
}

-- An operation that leaves this memo as it is, in any world.
abbrev Keeps : {W E A : Type 0} → Memo → Eff (Memo × W) E A → Type 0
Keeps {W} memo m = (w : W) → (m (memo, w)).1.0 ≡ memo

resume-Keeps :
    {W E A B : Type 0} (memo : Memo) (r : Result E A × (Memo × W)) (f : A → Eff (Memo × W) E B)
    → r.1.0 ≡ memo
    → ((a : A) → Keeps memo (f a))
    → (resume r f).1.0 ≡ memo
resume-Keeps memo (ok a, (kept, w)) f same keeps = ap (λ m. (f a (m, w)).1.0) same ∙ keeps a w
resume-Keeps memo (err e, (kept, w)) f same keeps = same

bind-Keeps :
    {W E A B : Type 0} (memo : Memo) (m : Eff (Memo × W) E A) (f : A → Eff (Memo × W) E B)
    → Keeps memo m
    → ((a : A) → Keeps memo (f a))
    → Keeps memo (m >>= f)
bind-Keeps memo m f first keeps w = resume-Keeps memo (m (memo, w)) f (first w) keeps

recall-remember :
    (endpoints : Endpoints) (memo : Memo)
    → memo.poisoned ≡ false
    → recall (remember endpoints memo) ≡ some endpoints
recall-remember endpoints memo clean = rw clean refl

module _ {W : Type 0} (http : Reqwest W) (codec : Codec) (log : Collectors) where
  discover_of_some :
      (state : AuthState http codec log) (endpoints : Endpoints) (memo : Memo) (w : W)
      → recall memo ≡ some endpoints
      → discover http codec log state (memo, w) ≡ (ok endpoints, (memo, w))
  unfolding discover
  discover_of_some state endpoints memo w known = rw known refl

  fetched-some :
      (memo : Memo) (endpoints : Endpoints) (r : Result AuthError Endpoints × W)
      → memo.poisoned ≡ false
      → (fetched http codec log memo r).0 ≡ ok endpoints
      → recall (fetched http codec log memo r).1.0 ≡ some endpoints
  unfolding fetched
  fetched-some memo endpoints (ok found, w) clean h =
      recall-remember found memo clean ∙ ap some (ok-inj h)
  fetched-some memo endpoints (err e, w) clean h = cc

  discover_from-some :
      (state : AuthState http codec log) (known : Option Endpoints) (memo : Memo) (w : W)
      (endpoints : Endpoints)
      → known ≡ recall memo
      → memo.poisoned ≡ false
      → (discover_from http codec log state known memo w).0 ≡ ok endpoints
      → recall (discover_from http codec log state known memo w).1.0 ≡ some endpoints
  unfolding discover_from
  discover_from-some state (some stored) memo w endpoints same clean h =
      sym same ∙ ap some (ok-inj h)
  discover_from-some state none memo w endpoints same clean h =
      fetched-some memo endpoints (fetch_discovery http codec log state w) clean h

  module _ (state : AuthState http codec log) (endpoints : Endpoints) (memo : Memo)
      (known : recall memo ≡ some endpoints) where
    resolve_endpoint-Keeps :
        (explicit : Option String) (endpoint : Endpoints → Option String) (missing : String)
        → Keeps memo (resolve_endpoint http codec log explicit endpoint missing state)
    unfolding resolve_endpoint
    resolve_endpoint-Keeps (some url) endpoint missing w = refl
    resolve_endpoint-Keeps none endpoint missing w =
        bind-Keeps memo (discover http codec log state)
          (λ found. lift (ok_or (endpoint found) (auth_error auth_request missing)))
          (λ w. ap (λ r. r.1.0) (discover_of_some state endpoints memo w known)) (λ found w. refl) w

    -- An operation: resolve the endpoint, send one request, and turn the answer into an outcome.
    operation-Keeps :
        (explicit : Option String) (endpoint : Endpoints → Option String) (missing : String)
        (request : String → http.RequestBuilder)
        (outcome : ℕ × String → Result AuthError AuthOutcome)
        → Keeps memo (
            resolve_endpoint http codec log explicit endpoint missing state >>= λ url.
            beside (send http codec log (request url)) >>= λ answer. lift (outcome answer))
    operation-Keeps explicit endpoint missing request outcome =
        bind-Keeps memo (resolve_endpoint http codec log explicit endpoint missing state)
          (λ url. beside (send http codec log (request url)) >>= λ answer. lift (outcome answer))
          (resolve_endpoint-Keeps explicit endpoint missing)
          λ url.
            bind-Keeps memo (beside (send http codec log (request url)))
              (λ answer. lift (outcome answer)) (λ w. refl) λ answer w. refl

    do_user_info-Keeps : (token : String) → Keeps memo (do_user_info http codec log state token)
    unfolding do_user_info resolve_userinfo
    do_user_info-Keeps token =
        operation-Keeps state.config.userinfo_url Endpoints.userinfo
          "issuer exposes no userinfo_endpoint"
          (λ url. http.bearer_auth token (http.get state.client url))
          (user_info_outcome http codec log)

    do_introspect-Keeps : (token : String) → Keeps memo (do_introspect http codec log state token)
    unfolding do_introspect resolve_introspect
    do_introspect-Keeps token w = elim (Bool-cases (is_empty state.config.client_id)) [
      | inl empty ↦ rw empty refl
      | inr given ↦ rw given (
          operation-Keeps state.config.introspect_url Endpoints.introspect
            "issuer exposes no introspection_endpoint"
            (introspect_request http codec log state token) (introspect_outcome http codec log) w)
    ]

    dispatch_auth-Keeps :
        (action token : String) → Keeps memo (dispatch_auth http codec log state action token)
    unfolding dispatch_auth
    dispatch_auth-Keeps action token w = elim (Bool-cases (action == "user_info")) [
      | inl is ↦ rw is (do_user_info-Keeps token w)
      | inr not_info ↦ rw not_info (elim (Bool-cases (action == "introspect")) [
        | inl is ↦ rw is (do_introspect-Keeps token w)
        | inr not_introspect ↦ rw not_introspect refl
      ])
    ]

  -- The calls of a session, in order, each an action and a token.
  abbrev pub call_all :
      List (String × String) → AuthBackend http codec log → W → AuthBackend http codec log × W
  call_all [] b w = (b, w)
  call_all ((action, token) ∷ calls) b w =
      let (r, b', w') = call_auth_backend http codec log action token b w in call_all calls b' w'

  call_auth_backend-keeps :
      (action token : String) (b : AuthBackend http codec log) (w : W) (endpoints : Endpoints)
      → recall b.discovery ≡ some endpoints
      → (call_auth_backend http codec log action token b w).1.discovery ≡ b.discovery
  unfolding call_auth_backend
  call_auth_backend-keeps action token b w endpoints known =
      dispatch_auth-Keeps b.state endpoints b.discovery known action token w

  call_all-keeps :
      (calls : List (String × String)) (b : AuthBackend http codec log) (w : W)
      (endpoints : Endpoints)
      → recall b.discovery ≡ some endpoints
      → recall (call_all calls b w).0.discovery ≡ some endpoints
  call_all-keeps [] b w endpoints known = known
  call_all-keeps ((action, token) ∷ calls) b w endpoints known =
      let next = call_auth_backend http codec log action token b w in
      call_all-keeps calls next.1 next.2 endpoints
        (ap recall (call_auth_backend-keeps action token b w endpoints known) ∙ known)

  -- Once a discovery has succeeded, on a lock that is not poisoned, no later one sends a request:
  -- after any calls of the session, whatever they answer, and at any later time, it gives the same
  -- endpoints and leaves the world as it is.
  pub discover_once :
      (b : AuthBackend http codec log) (w w' later : W) (memo : Memo) (endpoints : Endpoints)
      (calls : List (String × String))
      → b.discovery.poisoned ≡ false
      → discover http codec log b.state (b.discovery, w) ≡ (ok endpoints, (memo, w'))
      → let after = (call_all calls (record b { discovery = memo }) w').0 in
        discover http codec log after.state (after.discovery, later)
        ≡ (ok endpoints, (after.discovery, later))
  unfolding discover
  discover_once b w w' later memo endpoints calls clean h =
      let start = record b { discovery = memo } in
      let after = (call_all calls start w').0 in
      discover_of_some after.state endpoints after.discovery later (
        call_all-keeps calls start w' endpoints (
          sym (ap (λ r. recall r.1.0) h)
          ∙ discover_from-some b.state (recall b.discovery) b.discovery w endpoints refl clean
              (ap (λ r. r.0) h)))
