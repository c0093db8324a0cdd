-- ===== src/Daemon/Run/Operator.antt =====
-- main.rs: what the operator gave a running daemon, which no step changes.
use fabricd.Base.{String, ◌≡◌, refl, ◌∙◌, Option, List}
use fabricd.Wire.{Toolkit}
use fabricd.SaToken.Keys.{Jwt}
use fabricd.SaToken.Refresh.{Http}
use fabricd.ClientAuth.{Authenticator}
use fabricd.BackendSet.Payloads.{Decoders}
use fabricd.BackendSet.Drivers.{DriverSet}
use fabricd.Session.{Shared, Process}
use fabricd.Daemon.Run.{
  Running, Event, Step, uds_accepted, took_turn, uds_failed, quic_accepted, quic_opened, quic_ended,
  quic_closed, round, scrape_failed, signalled, elsewhere, Steps, here, next,
}

-- The operator's part of the shared state: all but the counter.
abbrev pub uncounted : {Breaker : Type 0} → Shared Breaker → Shared Breaker
uncounted shared = record shared { auth_failures = 0 }

module _ {W Breaker : Type 0} (t : Toolkit) (upper : String → String) (d : DriverSet W Breaker)
    (decode : Decoders) (jwt : Jwt) (p : Process t upper d) (http : Http W jwt.Jwk)
    (a : Authenticator) (issuer : String) (jwks_url : Option String) where
  -- No step changes the table, the ceiling or the breaker.
  pub Step-operator :
      {s e : Running t upper d decode jwt p http} {event : Event t upper d decode jwt p http}
      → Step t upper d decode jwt p http a issuer jwks_url s event e
      → uncounted e.shared ≡ uncounted s.shared
  Step-operator (uds_accepted on i new) = refl
  Step-operator (took_turn i stream there now taken frame) = refl
  Step-operator (uds_failed on) = refl
  Step-operator (quic_accepted on free) = refl
  Step-operator (quic_opened one_open i new) = refl
  Step-operator (quic_ended one_open) = refl
  Step-operator (quic_closed on) = refl
  Step-operator round = refl
  Step-operator (scrape_failed on) = refl
  Step-operator (signalled on) = refl
  Step-operator (elsewhere w) = refl

  pub Steps-operator :
      {s e : Running t upper d decode jwt p http}
      {events : List (Event t upper d decode jwt p http)}
      → Steps t upper d decode jwt p http a issuer jwks_url s events e
      → uncounted e.shared ≡ uncounted s.shared
  Steps-operator here = refl
  Steps-operator (next step steps) = Steps-operator steps ∙ Step-operator step
