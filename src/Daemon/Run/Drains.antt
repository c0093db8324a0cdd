-- ===== src/Daemon/Run/Drains.antt =====
-- main.rs and backendset.rs: the metrics that the sessions of a running daemon are sent.
use fabricd.Base.{String, Option, List, [], ◌∷◌, Each}
use fabricd.Wire.{Toolkit}
use fabricd.SaToken.Keys.{Jwt}
use fabricd.SaToken.Refresh.{Http}
use fabricd.ClientAuth.{Authenticator}
use fabricd.BackendSet.Payloads.{Decoders}
use fabricd.BackendSet.Drivers.{DriverSet}
use fabricd.BackendSet.Metrics.{AllMetered}
use fabricd.Session.{Process}
use fabricd.Session.Drains.{IsKept}
use fabricd.Session.Turns.Drained.{IsAccounted, turn-IsAccounted}
use fabricd.Daemon.Run.{Running, Stream, Event, authenticator_of, Steps, here, next}
use fabricd.Daemon.Run.Streams.{Step-Each}

module _ {W Breaker : Type 0} (t : Toolkit) (upper : String → String) (d : DriverSet W Breaker)
    (metered : AllMetered d) (decode : Decoders) (jwt : Jwt) (p : Process t upper d)
    (kept : IsKept t upper d p) (http : Http W jwt.Jwk) (a : Authenticator) (issuer : String)
    (jwks_url : Option String) where
  abbrev pub IsAccountedStream : Stream t upper d decode jwt p http → Type 0
  IsAccountedStream stream = IsAccounted t upper d metered decode jwt p kept stream.task

  -- With drivers that keep what they recorded, on every stream each answer to a `Drain` extends the
  -- answer to the one before it, in every capability, and the set of an open session has all that
  -- was sent last, however the sessions interleave, also where calls fail and where a backend's task
  -- panics.
  pub Steps-IsAccounted :
      {s e : Running t upper d decode jwt p http}
      (events : List (Event t upper d decode jwt p http))
      → Steps t upper d decode jwt p http a issuer jwks_url s events e
      → Each IsAccountedStream s.streams
      → Each IsAccountedStream e.streams
  Steps-IsAccounted {s = s} {e = e} [] here each = each
  Steps-IsAccounted {s = s} {e = e} (event ∷ events) (next {m = m} step steps) each =
      Steps-IsAccounted {s = m} {e = e} events steps (
        Step-Each t upper d decode jwt p http a issuer jwks_url IsAccountedStream (λ listener. tt)
          (λ now taken frame stream.
            turn-IsAccounted t upper d metered decode jwt p kept s.shared
              (authenticator_of a stream.listener) s.cache now taken frame stream.task s.world)
          step each)
