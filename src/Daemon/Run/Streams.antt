-- ===== src/Daemon/Run/Streams.antt =====
-- main.rs: what holds of every session of a running daemon because each turn keeps it.
use mathlib.Core.Path.{subst}
use fabricd.Base.{ℕ, String, Bool, Option, Each, OnSome, put_at-Each}
use fabricd.Wire.{Toolkit}
use fabricd.SaToken.Keys.{Jwt}
use fabricd.SaToken.Refresh.{Http}
use fabricd.ClientAuth.{Authenticator}
use fabricd.BackendSet.Payloads.{Decoders}
use fabricd.BackendSet.Drivers.{DriverSet}
use fabricd.Session.{Frame, Process}
use fabricd.Daemon.Run.{
  Running, Stream, new_stream, turn_in, Listener, uds, quic, Event, Step, uds_accepted, took_turn,
  uds_failed, quic_accepted, quic_opened, quic_ended, quic_closed, round, scrape_failed, signalled,
  elsewhere,
}

module _ {W Breaker : Type 0} (t : Toolkit) (upper : String → String) (d : DriverSet W Breaker)
    (decode : Decoders) (jwt : Jwt) (p : Process t upper d) (http : Http W jwt.Jwk)
    (a : Authenticator) (issuer : String) (jwks_url : Option String)
    (P : Stream t upper d decode jwt p http → Type 0)
    (opens : (listener : Listener) → P (new_stream t upper d decode jwt p http listener)) where
  -- The turns that can be taken in a state keep `P`.
  abbrev pub KeepsIn : Running t upper d decode jwt p http → Type 0
  KeepsIn s =
      (now : ℕ) (taken : Bool) (frame : Option Frame) (stream : Stream t upper d decode jwt p http)
      → P stream
      → P (record stream {
        task = (turn_in t upper d decode jwt p http s a now taken frame stream).task;
      })

  pub Step-Each :
      {s e : Running t upper d decode jwt p http} {event : Event t upper d decode jwt p http}
      → KeepsIn s
      → Step t upper d decode jwt p http a issuer jwks_url s event e
      → Each P s.streams
      → Each P e.streams
  Step-Each {s} keeps (uds_accepted on i new) each = put_at-Each P s.streams i _ (opens uds) each
  Step-Each {s} keeps (took_turn i stream there now taken frame) each =
      put_at-Each P s.streams i _ (keeps now taken frame stream (subst (OnSome P) there (each i)))
        each
  Step-Each keeps (uds_failed on) each = each
  Step-Each keeps (quic_accepted on free) each = each
  Step-Each {s} keeps (quic_opened one_open i new) each =
      put_at-Each P s.streams i _ (opens quic) each
  Step-Each keeps (quic_ended one_open) each = each
  Step-Each keeps (quic_closed on) each = each
  Step-Each keeps round each = each
  Step-Each keeps (scrape_failed on) each = each
  Step-Each keeps (signalled on) each = each
  Step-Each keeps (elsewhere w) each = each
