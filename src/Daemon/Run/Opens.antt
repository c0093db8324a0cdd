-- ===== src/Daemon/Run/Opens.antt =====
-- main.rs and sa_token.rs: the sessions that a running daemon opens once the keys are fetched.
use fabricd.Base.{
  ℕ, String, ◌≡◌, refl, ap, ◌∙◌, true, Option, some, List, [], ◌∷◌, HashMap, ok, put_at-same,
}
use fabricd.Wire.{Toolkit, WireInit, init, ack}
use fabricd.Resources.Table.{ResolvedConfigs, resolve}
use fabricd.Resources.Clamp.{clamp_db_statement_timeout}
use fabricd.BackendSet
use fabricd.SaToken.{JwksVerifier, validation}
use fabricd.SaToken.Keys.{Jwt, Cache, cached}
use fabricd.SaToken.Refresh.{Http}
use fabricd.ClientAuth.{Authenticator, service_account, authenticate}
use fabricd.BackendSet.Payloads.{Decoders}
use fabricd.BackendSet.Drivers.{DriverSet}
use fabricd.Session.{Shared, request, Process, Set, deps_of}
use fabricd.Session.Turns.{serving, opening, turn, resolved_turn, authenticated_turn}
use fabricd.Daemon.Run.{
  quic, Running, Stream, Event, silent, Step, took_turn, new_stream, turn_in, after_turn,
  refresh_round, after_round, Steps,
}
use fabricd.Daemon.Run.KeyCache.{HasNoKeys, Steps-accepts}
use fabricd.Daemon.Run.Operator.{uncounted, Steps-operator}

module _ {W Breaker : Type 0} (t : Toolkit) (upper : String → String) (d : DriverSet W Breaker)
    (decode : Decoders) (jwt : Jwt) (p : Process t upper d) (http : Http W jwt.Jwk) where
  -- The set of a session whose `Init` resolves to these configs.
  abbrev pub set_of : Shared Breaker → WireInit → ResolvedConfigs → Set t upper d decode jwt p
  set_of shared asked configs =
      BackendSet.from_configs t upper d
        (clamp_db_statement_timeout shared.max_statement_timeout_ms configs)
        (deps_of t upper d decode jwt p shared asked)

  -- A QUIC stream whose session was opened by this `Init` and has been told so.
  abbrev pub opened_stream :
      Shared Breaker → WireInit → ResolvedConfigs → Stream t upper d decode jwt p http
  opened_stream shared asked configs = record {
    listener = quic;
    task = serving asked (set_of shared asked configs) (ack ∷ []);
  }

  opened-task :
      (shared : Shared Breaker) (a : Authenticator) (cache : Cache jwt.Key) (now : ℕ)
      (asked : WireInit) (configs : ResolvedConfigs) (w : W)
      → authenticate t jwt cache now a asked.token ≡ ok tt
      → resolve shared.table asked ≡ ok configs
      → (turn t upper d decode jwt p shared a cache now true
          (some (request (init asked)))
          opening
          w).task
        ≡ serving asked (set_of shared asked configs) (ack ∷ [])
  unfolding turn authenticated_turn resolved_turn
  opened-task shared a cache now asked configs w accepted resolves = rw accepted (rw resolves refl)

  module _ (a : Authenticator) (issuer : String) (jwks_url : Option String) where
    -- A turn is possible that answers the `Init` of a new stream with `Ack`.
    abbrev pub Opens :
        Running t upper d decode jwt p http → ℕ → Stream t upper d decode jwt p http → Type 0
    Opens e i stream =
        (m : Running t upper d decode jwt p http) × Step t upper d decode jwt p http a issuer
          jwks_url e silent m
        × (m.streams i ≡ some stream)

    pub Steps-Opens :
        (s e : Running t upper d decode jwt p http)
        (events : List (Event t upper d decode jwt p http)) (old : Option (HashMap jwt.Key))
        (keys : HashMap jwt.Key) (v : JwksVerifier) (i now : ℕ) (asked : WireInit)
        (configs : ResolvedConfigs) (token kid : String) (key : jwt.Key)
        → a ≡ service_account v
        → s.cache ≡ cached old
        → (refresh_round t upper d decode jwt p http issuer jwks_url s).0 ≡ ok keys
        → Steps t upper d decode jwt p http a issuer jwks_url
            (after_round t upper d decode jwt p http
              (refresh_round t upper d decode jwt p http issuer jwks_url s)
              s)
            events
            e
        → HasNoKeys t upper d decode jwt p http events
        → e.streams i ≡ some (new_stream t upper d decode jwt p http quic)
        → asked.token ≡ some token
        → jwt.decode_header token ≡ ok (some kid)
        → keys kid ≡ some key
        → jwt.decode now token key (validation jwt v) ≡ ok tt
        → resolve s.shared.table asked ≡ ok configs
        → Opens e i (opened_stream s.shared asked configs)
    Steps-Opens s e events old keys v i now asked configs token kid key checks same fresh steps
          failed there carries header known decoded resolves =
        let kept : uncounted e.shared ≡ uncounted s.shared =
          Steps-operator t upper d decode jwt p http a issuer jwks_url steps in
        let new = new_stream t upper d decode jwt p http quic in
        let r =
          turn_in t upper d decode jwt p http e a now true (some (request (init asked))) new in
        let accepted =
          ap (λ c. authenticate t jwt e.cache now c asked.token) checks
          ∙ ap (authenticate t jwt e.cache now (service_account v)) carries
          ∙ Steps-accepts t upper d decode jwt p http a issuer jwks_url s e events old keys v now
              token kid key same fresh steps failed header known decoded in
        let opens =
          opened-task e.shared a e.cache now asked configs e.world accepted
            (ap (λ (c : Shared Breaker). resolve c.table asked) kept ∙ resolves)
          ∙ ap (λ (c : Shared Breaker). serving asked (set_of c asked configs) (ack ∷ [])) kept in
        (
          after_turn t upper d decode jwt p http i new r e,
          took_turn i new there now true (some (request (init asked))),
          put_at-same e.streams i (record new { task = r.task })
              ∙ ap (λ task. some (record { listener = quic; task = task })) opens,
        )
