-- ===== src/Daemon/Lifetime/Opens.antt =====
-- main.rs and sa_token.rs: the sessions that a daemon opens, from its start on.
use fabricd.Base.{ℕ, String, ◌≡◌, refl, ap, sym, ◌∙◌, some, List, HashMap, Option, ok, ok-inj}
use mathlib.Core.Path.{subst}
use fabricd.Wire.{Toolkit, Breakers, WireInit}
use fabricd.Resources.Table.{ResolvedConfigs, resolve}
use fabricd.SaToken.{ClientBuilder, JwksVerifier, validation}
use fabricd.SaToken.Keys.{Jwt}
use fabricd.SaToken.Refresh.{Http}
use fabricd.ClientAuth.{service_account}
use fabricd.BackendSet.Payloads.{Decoders}
use fabricd.BackendSet.Drivers.{DriverSet}
use fabricd.Session.{Shared, Process}
use fabricd.Daemon.Boot.{System, FabricdConfig, QuicListener, Booted, load_config, start, shared_of}
use fabricd.Daemon.Boot.Laws.{start-IsBooted}
use fabricd.Daemon.Run.{Running, Event, quic, new_stream, refresh_round, after_round, Steps}
use fabricd.Daemon.Run.KeyCache.{HasNoKeys, Steps-cached}
use fabricd.Daemon.Run.Operator.{uncounted, Steps-operator}
use fabricd.Daemon.Run.Opens.{Opens, opened_stream, Steps-Opens}
use fabricd.Daemon.Lifetime.{quic_auth, Lives}

module _ {W : Type 0} (sys : System W) (breakers : Breakers W) (b : ClientBuilder) (t : Toolkit)
    (upper : String → String) (d : DriverSet W breakers.Breaker) (decode : Decoders) (jwt : Jwt)
    (p : Process t upper d) (http : Http W jwt.Jwk) where
  -- In a daemon that starts under a config, whose QUIC listener checks ServiceAccount tokens, let a
  -- round of the refresh fetch the keys at any moment of its life and all later rounds of a run
  -- fail. A new QUIC stream can then at once take a turn that opens its session: where its `Init`
  -- carries a token signed by one of the keys and names what the config has for its tenant, that
  -- turn answers with `Ack`, and the session works with the config's bindings of those names, the
  -- database's statement timeout clamped.
  pub start-Opens :
      (w : W) (booted : Booted sys breakers b) (q : QuicListener sys breakers b) (v : JwksVerifier)
      (config : FabricdConfig) (issuer : String) (jwks_url : Option String)
      (before later : List (Event t upper d decode jwt p http))
      (s e : Running t upper d decode jwt p http) (keys : HashMap jwt.Key) (i now : ℕ)
      (asked : WireInit) (configs : ResolvedConfigs) (token kid : String) (key : jwt.Key)
      → (start sys breakers b w).0 ≡ ok booted
      → booted.quic ≡ some q
      → q.authenticator ≡ service_account v
      → (load_config sys breakers b w).0 ≡ ok config
      → Lives sys breakers b t upper d decode jwt p http booted
          (start sys breakers b w).1
          issuer
          jwks_url
          before
          s
      → (refresh_round t upper d decode jwt p http issuer jwks_url s).0 ≡ ok keys
      → Steps t upper d decode jwt p http
          (quic_auth sys breakers b booted.quic)
          issuer
          jwks_url
          (after_round t upper d decode jwt p http
            (refresh_round t upper d decode jwt p http issuer jwks_url s)
            s)
          later
          e
      → HasNoKeys t upper d decode jwt p http later
      → e.streams i ≡ some (new_stream t upper d decode jwt p http quic)
      → asked.token ≡ some token
      → jwt.decode_header token ≡ ok (some kid)
      → keys kid ≡ some key
      → jwt.decode now token key (validation jwt v) ≡ ok tt
      → resolve config.resources asked ≡ ok configs
      → Opens t upper d decode jwt p http
          (quic_auth sys breakers b booted.quic)
          issuer
          jwks_url
          e
          i
          (opened_stream t upper d decode jwt p http
            (shared_of sys breakers b config)
            asked
            configs)
  start-Opens w booted q v config issuer jwks_url before later s e keys i now asked configs token
        kid key starts listens checks loads lives fresh steps failed there carries header known
        decoded resolves =
      let (config', loaded, is, rest) = start-IsBooted sys breakers b w booted starts in
      let a = quic_auth sys breakers b booted.quic in
      let (old, same) = Steps-cached t upper d decode jwt p http a issuer jwks_url lives refl in
      let kept : uncounted s.shared ≡ shared_of sys breakers b config =
        Steps-operator t upper d decode jwt p http a issuer jwks_url lives
        ∙ ap uncounted is.shared_is
        ∙ ap (shared_of sys breakers b) (ok-inj (sym loaded ∙ loads)) in
      subst
        (λ (c : Shared breakers.Breaker).
          Opens t upper d decode jwt p http a issuer jwks_url e i
            (opened_stream t upper d decode jwt p http c asked configs))
        kept
        (Steps-Opens t upper d decode jwt p http a issuer jwks_url s e later old keys v i now asked
          configs token kid key (ap (quic_auth sys breakers b) listens ∙ checks) same fresh steps
          failed there carries header known decoded
          (ap (λ (c : Shared breakers.Breaker). resolve c.table asked) kept ∙ resolves))
