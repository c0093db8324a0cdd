-- ===== src/Daemon/Run/Limits.antt =====
-- main.rs: the QUIC connections of a running daemon, and the permits that they hold.
use fabricd.Base.{◌+◌, ◌≤◌, String, ◌≡◌, refl, ◌∙◌, Option, List, arith}
use fabricd.Wire.{Toolkit}
use fabricd.SaToken.Keys.{Jwt}
use fabricd.SaToken.Refresh.{Http}
use fabricd.ClientAuth.{Authenticator}
use fabricd.BackendSet.Payloads.{Decoders}
use fabricd.BackendSet.Drivers.{DriverSet}
use fabricd.Session.{Process}
use fabricd.Daemon.Run.{
  Running, Event, Step, uds_accepted, took_turn, uds_failed, quic_accepted, quic_opened, quic_ended,
  quic_closed, round, scrape_failed, signalled, elsewhere, Steps, here, next,
}

module _ {W Breaker : Type 0} (t : Toolkit) (upper : String → String) (d : DriverSet W Breaker)
    (decode : Decoders) (jwt : Jwt) (p : Process t upper d) (http : Http W jwt.Jwk)
    (a : Authenticator) (issuer : String) (jwks_url : Option String) where
  Step-permits :
      {s e : Running t upper d decode jwt p http} {event : Event t upper d decode jwt p http}
      → Step t upper d decode jwt p http a issuer jwks_url s event e
      → e.permits + e.connections ≡ s.permits + s.connections
  Step-permits (uds_accepted on i new) = refl
  Step-permits (took_turn i stream there now taken frame) = refl
  Step-permits (uds_failed on) = refl
  Step-permits (quic_accepted on free) = omega (arith, free)
  Step-permits (quic_opened one_open i new) = refl
  Step-permits (quic_ended serving) = omega (arith, serving)
  Step-permits (quic_closed on) = refl
  Step-permits round = refl
  Step-permits (scrape_failed on) = refl
  Step-permits (signalled on) = refl
  Step-permits (elsewhere w) = refl

  Steps-permits :
      {s e : Running t upper d decode jwt p http}
      {events : List (Event t upper d decode jwt p http)}
      → Steps t upper d decode jwt p http a issuer jwks_url s events e
      → e.permits + e.connections ≡ s.permits + s.connections
  Steps-permits here = refl
  Steps-permits (next step steps) = Steps-permits steps ∙ Step-permits step

  -- Whatever a daemon does that starts with all permits free, its open QUIC connections never number
  -- more than the permits, and the free permits are the others.
  pub Steps-connections :
      {s e : Running t upper d decode jwt p http}
      (events : List (Event t upper d decode jwt p http))
      → Steps t upper d decode jwt p http a issuer jwks_url s events e
      → s.connections ≡ 0
      → (e.permits + e.connections ≡ s.permits) × (e.connections ≤ s.permits)
  Steps-connections events steps none_open =
      let kept = Steps-permits steps in
      (omega (arith, kept, none_open), omega (arith, kept, none_open))
