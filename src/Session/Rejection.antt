-- ===== src/Session/Rejection.antt =====
-- main.rs: client-auth rejections: the client's reply, and the counter of the daemon.
use fabricd.Base.{
  ℕ, ◌+◌, ◌%◌, ◌≡◌, refl, ap, Bool-cases, inl, inr, Bool, true, false, List, [], ◌∷◌, arith,
  if◌then◌else◌, Result, ok, err, some, none, Option, String, ◌++◌, length,
}
use fabricd.Wire.{Toolkit, WireInit, init, call, drain, WireResponse, init_error}
use fabricd.Resources.Table.{ResolvedConfigs, ResolveError, resolve}
use fabricd.SaToken.Keys.{Jwt, Cache}
use fabricd.ClientAuth.{
  Authenticator, accept_all, shared_secret, service_account, AuthReject, authenticate,
}
use fabricd.BackendSet.Payloads.{Decoders}
use fabricd.BackendSet.Drivers.{DriverSet}
use fabricd.Session.{
  Shared, u64_mod, Frame, request, broken, Process, Set, respond, serve_calls, open_resolved,
  open_authenticated, serve,
}

abbrev is_err : {E A : Type 0} → Result E A → Bool
is_err (ok a) = false
is_err (err e) = true

reject_code :
    (t : Toolkit) (jwt : Jwt) (cache : Cache jwt.Key) (now : ℕ) (a : Authenticator)
    (token : Option String) (r : AuthReject)
    → authenticate t jwt cache now a token ≡ err r
    → r.code ≡ "UNAUTHENTICATED"
unfolding authenticate
reject_code t jwt cache now accept_all token r e = cc
reject_code t jwt cache now (shared_secret current previous) none r e = ground arith
reject_code t jwt cache now (shared_secret current none) (some presented) r e = ground arith
reject_code t jwt cache now (shared_secret current (some previous)) (some presented) r e =
    ground arith
reject_code t jwt cache now (service_account v) none r e = ground arith
reject_code t jwt cache now (service_account v) (some presented) r e = ground arith

module _ {W Breaker : Type 0} (t : Toolkit) (upper : String → String) (d : DriverSet W Breaker)
    (decode : Decoders) (jwt : Jwt) (p : Process t upper d) where
  serve_calls-auth_failures :
      (frames : List Frame) (sent : List WireResponse) (failures : ℕ)
      (set : Set t upper d decode jwt p) (w : W)
      → (serve_calls t upper d decode jwt p frames sent failures set w).auth_failures ≡ failures
  unfolding serve_calls
  serve_calls-auth_failures [] sent failures set w = refl
  serve_calls-auth_failures (broken e ∷ frames) sent failures set w = refl
  serve_calls-auth_failures (request q ∷ frames) sent failures set w =
      let (response, set', w') = respond t upper d decode jwt p q set w in
      let ih = serve_calls-auth_failures frames (sent ++ response ∷ []) failures set' w' in
      elim (Bool-cases (p.takes (length sent))) [
        | inl taken ↦ rw taken ih
        | inr refused ↦ rw refused refl
      ]

  module _ (shared : Shared Breaker) (a : Authenticator) (cache : Cache jwt.Key) (now : ℕ) where
    -- Whether the session begins with an `Init` whose token the authenticator rejects.
    abbrev pub is_rejected : List Frame → Bool
    is_rejected [] = false
    is_rejected (broken e ∷ frames) = false
    is_rejected (request (call c) ∷ frames) = false
    is_rejected (request drain ∷ frames) = false
    is_rejected (request (init i) ∷ frames) = is_err (authenticate t jwt cache now a i.token)

    open_resolved-auth_failures :
        (i : WireInit) (frames : List Frame) (r : Result ResolveError ResolvedConfigs) (w : W)
        → (open_resolved t upper d decode jwt p shared i frames r w).auth_failures
          ≡ shared.auth_failures
    unfolding open_resolved
    open_resolved-auth_failures i frames (err e) w = ground arith
    open_resolved-auth_failures i frames (ok c) w = elim (Bool-cases (p.takes 0)) [
      | inl taken ↦ rw taken (serve_calls-auth_failures frames _ _ _ w)
      | inr refused ↦ rw refused refl
    ]

    open_authenticated-auth_failures :
        (i : WireInit) (frames : List Frame) (r : Result AuthReject (Unit {0})) (w : W)
        → (open_authenticated t upper d decode jwt p shared i frames r w).auth_failures
          ≡ (if is_err r then (shared.auth_failures + 1) % u64_mod else shared.auth_failures)
    unfolding open_authenticated
    open_authenticated-auth_failures i frames (err e) w = ground arith
    open_authenticated-auth_failures i frames (ok _) w =
        open_resolved-auth_failures i frames (resolve shared.table i) w

    -- The counter of client-auth failures goes up by one, modulo 2^64, exactly in the sessions that
    -- begin with an `Init` whose token is rejected, and stays as it is in all others.
    pub serve-auth_failures :
        (frames : List Frame) (w : W)
        → (serve t upper d decode jwt p shared a cache now frames w).auth_failures ≡ (
            if is_rejected frames
            then (shared.auth_failures + 1) % u64_mod
            else shared.auth_failures)
    unfolding serve
    serve-auth_failures [] w = refl
    serve-auth_failures (broken e ∷ frames) w = refl
    serve-auth_failures (request (call c) ∷ frames) w = ground arith
    serve-auth_failures (request drain ∷ frames) w = ground arith
    serve-auth_failures (request (init i) ∷ frames) w =
        open_authenticated-auth_failures i frames (authenticate t jwt cache now a i.token) w

    -- A rejected client that takes the frame gets one `InitError` with the code UNAUTHENTICATED and
    -- the session ends without error, whatever the table holds and whatever frames follow.
    pub serve_rejected :
        (i : WireInit) (frames : List Frame) (w : W) (r : AuthReject)
        → authenticate t jwt cache now a i.token ≡ err r
        → p.takes 0 ≡ true
        → ((serve t upper d decode jwt p shared a cache now (request (init i) ∷ frames) w).result
            ≡ ok tt)
          × ((serve t upper d decode jwt p shared a cache now (request (init i) ∷ frames) w).sent
              ≡ init_error "UNAUTHENTICATED" r.message ∷ [])
    unfolding serve open_authenticated
    serve_rejected i frames w r rejected taken = rw rejected (
        rw taken (
          refl,
          ap (λ c. init_error c r.message ∷ []) (reject_code t jwt cache now a i.token r rejected),
        ))
